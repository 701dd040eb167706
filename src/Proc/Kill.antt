-- ===== src/Proc/Kill.antt =====
-- What kill does, and what the scheduler chooses.
use systems_programming_a.Prelude.{
  ℕ, ◌+◌, ◌≡◌, ◌≢◌, arith, true, false, [], ◌∷◌, All, none, some, ◌++◌, length,
}
use systems_programming_a.Proc.Defs.{
  Process, Table, runnable, running, is_runnable, kill_one, kill, schedule,
}

-- kill at a table marks the first process that has the number, makes it runnable if it was asleep,
-- changes no other and succeeds; where no process has the number it fails and changes nothing.
pub kill_lem :
    (pid : ℕ) (before after : Table) (p : Process)
    → All (λ q. q.process_id ≢ pid) before
    → p.process_id ≡ pid
    → (kill pid (before ++ (p ∷ after)) ≡ (before ++ (kill_one p ∷ after), true))
      × (kill pid before ≡ (before, false))
unfolding kill
kill_lem pid [] after p h e = ground arith
kill_lem pid (q ∷ before) after p h e = ground (arith, kill_lem pid before after p h.1 e)

-- The scheduler's loop, from slot i on, takes the first runnable process, marks it running and
-- changes no other; where no process is runnable it takes none.
pub schedule_lem :
    (i : ℕ) (before after : Table) (p : Process)
    → All (λ q. is_runnable q.state ≡ false) before
    → p.state ≡ runnable
    → (schedule i (before ++ (p ∷ after))
        ≡ some (i + length before, before ++ (record p { state = running } ∷ after)))
      × (schedule i before ≡ none)
unfolding schedule
schedule_lem i [] after p h e = ground arith
schedule_lem i (q ∷ before) after p h e = ground (arith, schedule_lem (i + 1) before after p h.1 e)
