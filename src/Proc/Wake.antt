-- ===== src/Proc/Wake.antt =====
-- Who is asleep after a wakeup or a sleep.
use systems_programming_a.Prelude.{
  ℕ, zero, suc, ◌≡◌, ◌≢◌, arith, false, [], ◌∷◌, ◌==◌, if◌then◌else◌, All, All-map, All-modify,
  get_elem?, some,
}
use systems_programming_a.Proc.Defs.{
  Process, Table, sleeping, runnable, asleep_on, wake_one, wakeup, sleep, tidy_up,
}

-- No process of the table sleeps on the channel.
abbrev pub NoneAsleep : ℕ → Table → Type 0
NoneAsleep c ps = All (λ p. asleep_on c p ≡ false) ps

-- A wakeup leaves nobody asleep on its channel.
pub wakeup-NoneAsleep : (c : ℕ) (ps : Table) → NoneAsleep c (wakeup c ps)
unfolding wakeup
wakeup-NoneAsleep c [] = tt
wakeup-NoneAsleep c (p ∷ ps) = (ground arith, wakeup-NoneAsleep c ps)

-- A wakeup puts nobody to sleep.
pub wakeup_keeps : (c d : ℕ) (ps : Table) → NoneAsleep d ps → NoneAsleep d (wakeup c ps)
unfolding wakeup
wakeup_keeps c d ps h = All-map _ _ ps (wake_one c) (λ p e. ground arith) h

-- A process that goes to sleep on one channel sleeps on no other.
pub sleep_keeps : (i c d : ℕ) (ps : Table) → c ≢ d → NoneAsleep d ps → NoneAsleep d (sleep i c ps)
unfolding sleep
sleep_keeps i c d ps ne h = All-modify _ ps i _ (λ p e. ground arith) h

pub tidy_up_keeps : (i d : ℕ) (ps : Table) → d ≢ 0 → NoneAsleep d ps → NoneAsleep d (tidy_up i ps)
unfolding tidy_up
tidy_up_keeps i d ps ne h = All-modify _ ps i _ (λ p e. ground arith) h

-- After the process in slot i of the table has gone to sleep on a channel, a wakeup on that channel
-- makes it runnable, and one on another channel leaves it asleep; nothing else of the process
-- changes.
pub wakeup-sleep :
    (i c d : ℕ) (ps : Table) (p : Process)
    → get_elem? ps i ≡ some p
    → get_elem? (wakeup d (sleep i c ps)) i
      ≡ some (record p { chan = c; state = if c == d then runnable else sleeping })
unfolding wakeup sleep
wakeup-sleep i c d [] p e = cc
wakeup-sleep zero c d (q ∷ ps) p e = ground arith
wakeup-sleep (suc i) c d (q ∷ ps) p e = wakeup-sleep i c d ps p e
