-- ===== src/Pipe/Wakeups.antt =====
-- Who may be asleep on the channels of a pipe.
use systems_programming_a.Prelude.{
  ℕ, zero, suc, ◌-◌, ◌<◌, ◌≡◌, ◌≢◌, refl, ◌∙◌, sym, arith, Bool, true, false, not, ◌&&◌, List, [],
  ◌∷◌, Bool-cases, false_of_imp, length, inl, inr, ◌⊎◌,
}
use systems_programming_a.Proc.{NoneAsleep, wakeup-NoneAsleep, wakeup_keeps, sleep_keeps}
use systems_programming_a.Pipe.Defs.{
  Pipe, World, Outcome, failed, asleep, pipe_size, read_channel, write_channel, is_full, is_empty,
  is_killed, put, advance, drain, pipewrite, piperead, pipeclose, free_if_closed, close_write,
  close_read,
}
use systems_programming_a.Pipe.Steps.{
  pipewrite-nil, pipewrite-failed, pipewrite-asleep, pipewrite-room, gives_up,
}
use systems_programming_a.Pipe.Queue.{IsValid, count, put-IsValid, room-put}

-- A writer sleeps only while the pipe is full and its read end open, a reader only while the pipe is
-- empty and its write end open.
pub record IsLive (w : World) : Type 0 where
  pub writers :
      (is_full w.pipe ≡ false) ⊎ (w.pipe.read_open ≡ false)
      → NoneAsleep (write_channel w.pipe) w.procs
  pub readers :
      (is_empty w.pipe ≡ false) ⊎ (w.pipe.write_open ≡ false)
      → NoneAsleep (read_channel w.pipe) w.procs

channels-ne : (p : Pipe) → (write_channel p ≢ read_channel p) × (read_channel p ≢ write_channel p)
channels-ne p = omega arith

-- Where a call of pipewrite ends, by what was asleep before it: in `w'` with the outcome `o`.
record Ended (i : ℕ) (w : World) (bs : List ℕ) (w' : World) (o : Outcome (Unit {0}) (List ℕ))
    : Type 0 where
  address : w'.pipe.address ≡ w.pipe.address
  ends : (w'.pipe.read_open ≡ w.pipe.read_open) × (w'.pipe.write_open ≡ w.pipe.write_open)
  full : is_full w.pipe ≡ true → is_full w'.pipe ≡ true
  readers : o ≢ failed → NoneAsleep (read_channel w.pipe) w'.procs
  blocked :
      (rest : List ℕ) → o ≡ asleep rest → (is_full w'.pipe ≡ true) × (w'.pipe.read_open ≡ true)
  writers :
      (is_full w'.pipe ≡ false) ⊎ (w'.pipe.read_open ≡ false)
      → NoneAsleep (write_channel w.pipe) w.procs
      → NoneAsleep (write_channel w.pipe) w'.procs

pipewrite-Ended :
    (i : ℕ) (w : World) (bs : List ℕ) → let (w', o) = pipewrite i w bs in Ended i w bs w' o
unfolding put
pipewrite-Ended i w [] = rw (pipewrite-nil i w) (record {
  address = refl;
  ends = (refl, refl);
  full = λ e. e;
  readers = λ ne. wakeup-NoneAsleep (read_channel w.pipe) w.procs;
  blocked = λ rest e. cc;
  writers = λ c h. wakeup_keeps (read_channel w.pipe) (write_channel w.pipe) w.procs h;
})
pipewrite-Ended i w (b ∷ bs) = elim (Bool-cases (is_full w.pipe)) [
  | inl e ↦ elim (Bool-cases (gives_up i w b bs)) [
    | inl g ↦ rw (pipewrite-failed i w b bs e g) (record {
      address = refl;
      ends = (refl, refl);
      full = λ f. f;
      readers = λ ne. absurd (ne refl);
      blocked = λ rest f. cc;
      writers = λ c h. h;
    })
    | inr g ↦ rw (pipewrite-asleep i w b bs e g) (record {
      address = refl;
      ends = (refl, refl);
      full = λ f. f;
      readers = λ ne.
          sleep_keeps i (write_channel w.pipe) (read_channel w.pipe) _ (channels-ne w.pipe).0
            (wakeup-NoneAsleep (read_channel w.pipe) w.procs);
      blocked = λ rest f. (e, ground arith);
      writers = λ c h. ground arith;
    })
  ]
  | inr e ↦
      let ih = pipewrite-Ended i (record w { pipe = put w.pipe b }) bs in
      rw (pipewrite-room i w b bs e) (record {
        address = ih.address;
        ends = ih.ends;
        full = λ f. cc;
        readers = ih.readers;
        blocked = ih.blocked;
        writers = ih.writers;
      })
]

-- If writers are asleep only while the pipe is full and its read end open, and readers only while
-- it is empty and its write end open, then the same holds after a call of pipewrite that does not
-- fail.
pub pipewrite-IsLive :
    (i : ℕ) (w : World) (bs : List ℕ)
    → IsLive w
    → (pipewrite i w bs).1 ≢ failed
    → IsLive (pipewrite i w bs).0
pipewrite-IsLive i w bs live ne =
    let e = pipewrite-Ended i w bs in
    record {
      writers = λ c. rw e.address (e.writers c (live.writers (before c)));
      readers = λ c. rw e.address (e.readers ne);
    }
  where
    before :
        (is_full (pipewrite i w bs).0.pipe ≡ false) ⊎ ((pipewrite i w bs).0.pipe.read_open ≡ false)
        → (is_full w.pipe ≡ false) ⊎ (w.pipe.read_open ≡ false)
    before (inl f) = inl (
        false_of_imp (is_full w.pipe) (is_full (pipewrite i w bs).0.pipe)
          (pipewrite-Ended i w bs).full f)
    before (inr o) = inr (sym (pipewrite-Ended i w bs).ends.0 ∙ o)

drain-pipe :
    (n : ℕ) (p : Pipe)
    → ((drain p n).0.address ≡ p.address)
      × ((drain p n).0.read_open ≡ p.read_open)
      × ((drain p n).0.write_open ≡ p.write_open)
      × (is_empty p ≡ true → is_empty (drain p n).0 ≡ true)
unfolding drain
drain-pipe zero p = (refl, refl, refl, λ e. e)
drain-pipe (suc n) p = ground (arith, drain-pipe n (advance p))

-- If writers are asleep only while the pipe is full and its read end open, and readers only while
-- it is empty and its write end open, then the same holds after any call of piperead.
pub piperead-IsLive : (i : ℕ) (w : World) (n : ℕ) → IsLive w → IsLive (piperead i w n).0
unfolding piperead
piperead-IsLive i w n live = elim (Bool-cases (is_empty w.pipe && w.pipe.write_open)) [
  | inl e ↦ elim (Bool-cases (is_killed i w.procs)) [
    | inl k ↦ rw (e, k) live
    | inr k ↦
        rw (e, k)
          (record {
            writers = λ c.
                sleep_keeps i (read_channel w.pipe) (write_channel w.pipe) w.procs
                  (channels-ne w.pipe).1 (live.writers c);
            readers = λ c. ground arith;
          })
  ]
  | inr e ↦
      let d = drain-pipe n w.pipe in
      rw e (record {
        writers = λ c. rw d.0 (wakeup-NoneAsleep (write_channel w.pipe) w.procs);
        readers = λ c. rw d.0 (
            wakeup_keeps (write_channel w.pipe) (read_channel w.pipe) w.procs
              (live.readers (before c)));
      })
]
  where
    before :
        (is_empty (drain w.pipe n).0 ≡ false) ⊎ ((drain w.pipe n).0.write_open ≡ false)
        → (is_empty w.pipe ≡ false) ⊎ (w.pipe.write_open ≡ false)
    before (inl f) =
        inl (false_of_imp (is_empty w.pipe) (is_empty (drain w.pipe n).0) (drain-pipe n w.pipe).3 f)
    before (inr o) = inr (sym (drain-pipe n w.pipe).2 ∙ o)

free_if_closed-IsLive : (w : World) → IsLive w → IsLive (free_if_closed w)
free_if_closed-IsLive w live = elim (Bool-cases (not w.pipe.read_open && not w.pipe.write_open)) [
  | inl e ↦ rw e (record { writers = live.writers; readers = live.readers })
  | inr e ↦ rw e live
]

-- If writers are asleep only while the pipe is full and its read end open, and readers only while
-- it is empty and its write end open, then the same holds after pipeclose of either end.
pub pipeclose-IsLive : (w : World) (writable : Bool) → IsLive w → IsLive (pipeclose w writable)
unfolding pipeclose
pipeclose-IsLive w true live = free_if_closed-IsLive (close_write w) (record {
  writers = λ c. wakeup_keeps (read_channel w.pipe) (write_channel w.pipe) w.procs (live.writers c);
  readers = λ c. wakeup-NoneAsleep (read_channel w.pipe) w.procs;
})
pipeclose-IsLive w false live = free_if_closed-IsLive (close_read w) (record {
  writers = λ c. wakeup-NoneAsleep (write_channel w.pipe) w.procs;
  readers = λ c. wakeup_keeps (write_channel w.pipe) (read_channel w.pipe) w.procs (live.readers c);
})

-- A killed writer with more bytes than a valid pipe has room for fills the pipe and fails, and the
-- process table is then as before the call: no reader that slept on the empty pipe was woken.
pub lost_wakeup :
    (i : ℕ) (w : World) (bs : List ℕ)
    → IsValid w.pipe
    → is_killed i w.procs ≡ true
    → pipe_size - count w.pipe < length bs
    → let (w', o) = pipewrite i w bs in
      (o ≡ failed) × (is_full w'.pipe ≡ true) × (w'.procs ≡ w.procs)
lost_wakeup i w [] v k h = absurd (omega arith)
lost_wakeup i w (b ∷ bs) v k h = elim (Bool-cases (is_full w.pipe)) [
  | inl e ↦ rw (pipewrite-failed i w b bs e (ground arith)) (refl, e, refl)
  | inr e ↦ rw (pipewrite-room i w b bs e) (
      lost_wakeup i (record w { pipe = put w.pipe b }) bs (put-IsValid b v e) k
        (omega (arith, room-put w.pipe b v e)))
]
