-- ===== src/Pipe/Stream.antt =====
-- What pipewrite and piperead do to the queue of bytes, and what any sequence of calls does to the
-- stream from the writers to the readers.
use mathlib.Core.List.{append-nil, append_assoc}
use systems_programming_a.Prelude.{
  ℕ, zero, suc, ◌≡◌, inl, inr, refl, ap, ◌∙◌, arith, not, ◌&&◌, ◌||◌, List, [], ◌∷◌, ◌++◌,
  if◌then◌else◌, leb, Bool-cases, length, take, drop,
}
use systems_programming_a.Pipe.Defs.{
  Pipe, World, Outcome, returned, failed, asleep, is_full, is_empty, is_killed, put, front, advance,
  pipewrite, drain, piperead,
}
use systems_programming_a.Pipe.Steps.{pipewrite-nil, pipewrite-full, pipewrite-room}
use systems_programming_a.Pipe.Queue.{
  IsValid, contents, put-IsValid, contents-put, advance-IsValid, contents-advance, room, room-put,
  contents-empty,
}

-- Where pipewrite is to stop, by the room in the pipe alone.
abbrev pub write_outcome : ℕ → World → List ℕ → Outcome (Unit {0}) (List ℕ)
write_outcome i w bs =
    if leb (length bs) (room w.pipe)
    then returned tt
    else if not w.pipe.read_open || is_killed i w.procs
    then failed
    else asleep (drop (room w.pipe) bs)

pub record Wrote (i : ℕ) (w : World) (bs : List ℕ) (r : World × Outcome (Unit {0}) (List ℕ))
    : Type 0 where
  pub valid : IsValid r.0.pipe
  pub queue : contents r.0.pipe ≡ contents w.pipe ++ take (room w.pipe) bs
  pub outcome : r.1 ≡ write_outcome i w bs
  pub still_open :
      (r.0.pipe.read_open ≡ w.pipe.read_open) × (r.0.pipe.write_open ≡ w.pipe.write_open)

take-zero : (xs : List ℕ) (n : ℕ) → n ≡ 0 → (take n xs ≡ []) × (drop n xs ≡ xs)
take-zero xs zero e = (refl, refl)
take-zero xs (suc n) e = absurd (omega arith)

take-cons :
    (x : ℕ) (xs : List ℕ) (n m : ℕ)
    → n ≡ suc m
    → (take n (x ∷ xs) ≡ x ∷ take m xs) × (drop n (x ∷ xs) ≡ drop m xs)
take-cons x xs n m e = (rw e, rw e)

take-nil : (n : ℕ) → take {A = ℕ} n [] ≡ []
take-nil zero = refl
take-nil (suc n) = refl

open-put :
    (p : Pipe) (b : ℕ) → ((put p b).read_open ≡ p.read_open) × ((put p b).write_open ≡ p.write_open)
unfolding put
open-put p b = (refl, refl)

-- pipewrite on a valid pipe: it leaves a valid pipe with its ends as they were; the queue has the
-- bytes at its end for which there was room, and no more; and the call has returned when there was
-- room for all, has failed when there was not and the read end was closed or the process killed,
-- and sleeps with the other bytes left to write elsewhere.
pub pipewrite_lem :
    (i : ℕ) (w : World) (bs : List ℕ) → IsValid w.pipe → Wrote i w bs (pipewrite i w bs)
pipewrite_lem i w [] v = rw (pipewrite-nil i w) (record {
  valid = v;
  queue = rw (take-nil (room w.pipe), append-nil);
  outcome = ground arith;
  still_open = (refl, refl);
})
pipewrite_lem i w (b ∷ bs) v = elim (Bool-cases (is_full w.pipe)) [
  | inl full ↦
      let e = pipewrite-full i w b bs full in
      let z : room w.pipe ≡ 0 = ground arith in
      let t = take-zero (b ∷ bs) (room w.pipe) z in
      record {
        valid = rw e.0 v;
        queue = rw (e.0, t.0, append-nil);
        outcome = rw (e.1, t.1) (ground arith);
        still_open = rw e.0 (refl, refl);
      }
  | inr more ↦
      let ih = pipewrite_lem i (record w { pipe = put w.pipe b }) bs (put-IsValid b v more) in
      let n = room-put w.pipe b v more in
      let t = take-cons b bs (room w.pipe) (room (put w.pipe b)) n in
      let o = open-put w.pipe b in
      rw (pipewrite-room i w b bs more) (record {
        valid = ih.valid;
        queue = ih.queue ∙ (rw (contents-put b v more, t.0, append_assoc));
        outcome = ih.outcome ∙ ground arith;
        still_open = ground arith;
      })
]

drain-IsValid : (n : ℕ) {p : Pipe} → IsValid p → IsValid (drain p n).0
unfolding drain
drain-IsValid zero v = v
drain-IsValid (suc n) {p} v = ground (arith, drain-IsValid n {p = advance p}, advance-IsValid v)

drain_lem :
    (n : ℕ) {p : Pipe}
    → IsValid p
    → ((drain p n).1 ≡ take n (contents p)) × (contents (drain p n).0 ≡ drop n (contents p))
unfolding drain
drain_lem zero v = (refl, refl)
drain_lem (suc n) {p} v = elim (Bool-cases (is_empty p)) [
  | inl e ↦ rw (e, contents-empty p v e) (refl, refl)
  | inr ne ↦
      rw (ne, contents-advance v ne)
        (
          ap (λ t. front p ∷ t) (drain_lem n (advance-IsValid v ne)).0,
          (drain_lem n (advance-IsValid v ne)).1,
        )
]

-- piperead on every branch.
pub record Got (i : ℕ) (w : World) (n : ℕ) (r : World × Outcome (List ℕ) ℕ) : Type 0 where
  pub valid : IsValid r.0.pipe
  pub stays_open :
      (r.0.pipe.read_open ≡ w.pipe.read_open) × (r.0.pipe.write_open ≡ w.pipe.write_open)
  pub outcome : r.1 ≡ (
      if is_empty w.pipe && w.pipe.write_open
      then if is_killed i w.procs then failed else asleep n
      else returned (take n (contents w.pipe)))
  pub queue :
      contents r.0.pipe
      ≡ (if is_empty w.pipe && w.pipe.write_open then contents w.pipe else drop n (contents w.pipe))

drain-open :
    (n : ℕ) (p : Pipe)
    → ((drain p n).0.read_open ≡ p.read_open) × ((drain p n).0.write_open ≡ p.write_open)
unfolding drain
drain-open zero p = (refl, refl)
drain-open (suc n) p = ground (arith, drain-open n (advance p))

-- piperead on a valid pipe: it leaves a valid pipe with its ends as they were; on an empty pipe
-- whose write end is open it leaves the queue and fails when the process has been killed and sleeps
-- otherwise; and elsewhere it returns the first n bytes of the queue, or all of them if there are
-- fewer, and takes them off.
pub piperead_lem : (i : ℕ) (w : World) (n : ℕ) → IsValid w.pipe → Got i w n (piperead i w n)
unfolding piperead
piperead_lem i w n v = elim (Bool-cases (is_empty w.pipe && w.pipe.write_open)) [
  | inl e ↦ rw e (record {
    valid = ground arith;
    stays_open = ground arith;
    outcome = rw e (ground arith);
    queue = rw e (ground arith);
  })
  | inr e ↦ rw e (record {
    valid = drain-IsValid n v;
    stays_open = drain-open n w.pipe;
    outcome = rw e (ap returned (drain_lem n v).0);
    queue = rw e (drain_lem n v).1;
  })
]
