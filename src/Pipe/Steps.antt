-- ===== src/Pipe/Steps.antt =====
-- The cases of pipewrite as equations: nothing left, no room, room for a byte.
use systems_programming_a.Prelude.{
  ℕ, ◌≡◌, refl, arith, Bool, true, false, not, ◌||◌, List, [], ◌∷◌, if◌then◌else◌,
}
use systems_programming_a.Proc.{wakeup, sleep}
use systems_programming_a.Pipe.Defs.{
  World, returned, failed, asleep, read_channel, write_channel, is_full, is_killed, put, pipewrite,
  wake_readers,
}

pub pipewrite-nil : (i : ℕ) (w : World) → pipewrite i w [] ≡ (wake_readers w, returned tt)
unfolding pipewrite
pipewrite-nil i w = refl

module _ (i : ℕ) (w : World) (b : ℕ) (bs : List ℕ) where
  pub pipewrite-room :
      is_full w.pipe ≡ false
      → pipewrite i w (b ∷ bs) ≡ pipewrite i (record w { pipe = put w.pipe b }) bs
  unfolding pipewrite
  pipewrite-room e = rw e

  -- What becomes of a call that finds the pipe full.
  abbrev pub gives_up : Bool
  gives_up = not w.pipe.read_open || is_killed i w.procs

  pub pipewrite-failed :
      is_full w.pipe ≡ true → gives_up ≡ true → pipewrite i w (b ∷ bs) ≡ (w, failed)
  unfolding pipewrite
  pipewrite-failed e g = rw (e, g)

  pub pipewrite-asleep :
      is_full w.pipe ≡ true
      → gives_up ≡ false
      → pipewrite i w (b ∷ bs) ≡ (
        record w { procs = sleep i (write_channel w.pipe) (wakeup (read_channel w.pipe) w.procs) },
        asleep (b ∷ bs),
      )
  unfolding pipewrite
  pipewrite-asleep e g = rw (e, g)

  pub pipewrite-full :
      is_full w.pipe ≡ true
      → let (w', o) = pipewrite i w (b ∷ bs) in
        (w'.pipe ≡ w.pipe)
        × (o ≡ (if not w.pipe.read_open || is_killed i w.procs then failed else asleep (b ∷ bs)))
  unfolding pipewrite
  pipewrite-full e = ground arith
