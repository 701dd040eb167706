-- ===== src/Ide/Finish.antt =====
-- ideInterruptHandler and the queue.
use mathlib.Core.List.{append-nil}
use native.Mathlib.Decide.{ℕ_discrete}
use systems_programming_a.Prelude.{
  ℕ, ◌≡◌, ◌≢◌, ◌∙◌, sym, refl, ap, ap₂, Bool, true, false, ◌||◌, Option, none, some, List, [], ◌∷◌,
  ◌++◌, if◌then◌else◌, update, update_ne, All, Bool-cases, inl, inr,
}
use systems_programming_a.Proc.{NoneAsleep, wakeup, wakeup-NoneAsleep, wakeup_keeps}
use systems_programming_a.Bio.{DiskBuffer}
use systems_programming_a.Ide.Defs.{
  Ide, Output, request_of, is_done, ide_wait, start_after, ide_start_request, start_head,
  receive_after, receive_data, finish_request, handle_head, ide_interrupt_handler,
}
use systems_programming_a.Ide.Request.{IsLive}

-- The buffers' data after the interrupt for `b`: what the port gave, if it was read without an error.
abbrev pub received : Bool → List ℕ → ℕ → Ide → ℕ → List ℕ
received failed incoming b s =
    if (s.buffers b).is_dirty || failed then s.contents else update s.contents b incoming

abbrev pub done : DiskBuffer → DiskBuffer
done b = record b { is_valid = true; is_dirty = false }

receive_after_lem :
    (failed : Bool) (incoming : List ℕ) (b : ℕ) (s : Ide)
    → receive_after (some failed) incoming b s
      ≡ some (record s { contents = if failed then s.contents else update s.contents b incoming })
unfolding receive_after
receive_after_lem true incoming b s = refl
receive_after_lem false incoming b s = refl

receive_data_lem :
    (readings incoming : List ℕ) (failed : Bool) (b : ℕ) (s : Ide)
    → ide_wait true readings ≡ some failed
    → receive_data readings incoming b s
      ≡ some (record s { contents = received failed incoming b s })
unfolding receive_data
receive_data_lem readings incoming failed b s w = elim (Bool-cases (s.buffers b).is_dirty) [
  | inl d ↦ rw d refl
  | inr d ↦ rw d (ap (λ o. receive_after o incoming b s) w ∙ receive_after_lem failed incoming b s)
]

-- The driver's state when the head `b` is done, and the next request is not yet started.
abbrev pub finished : Bool → List ℕ → ℕ → Ide → Ide
finished failed incoming b s = record s {
  idequeue = s.queue_next b;
  contents = received failed incoming b s;
  buffers = update s.buffers b (done (s.buffers b));
  procs = wakeup (s.address b) s.procs;
}

handler-finished :
    (readings incoming readings' : List ℕ) (failed : Bool) (b : ℕ) (s : Ide)
    → s.idequeue ≡ some b
    → ide_wait true readings ≡ some failed
    → ide_interrupt_handler readings incoming readings' s
      ≡ start_head readings' (s.queue_next b) (finished failed incoming b s)
unfolding ide_interrupt_handler
handler-finished readings incoming readings' failed b s h w =
    ap (λ o. handle_head readings incoming readings' o s) h
    ∙ ap (finish_request readings' b)
        (receive_data_lem readings incoming failed b (record s { idequeue = s.queue_next b }) w)

module _ (readings : List ℕ) (e : Bool) (s : Ide) (w : ide_wait false readings ≡ some e) where
  start_head-none : (o : Option ℕ) → o ≡ none → start_head readings o s ≡ some s
  unfolding start_head
  start_head-none o h = ap (λ o. start_head readings o s) h

  start_head-some :
      (x : ℕ) (o : Option ℕ)
      → o ≡ some x
      → start_head readings o s
        ≡ some (record s { output = s.output ++ request_of (s.buffers x) (s.contents x) })
  unfolding start_head ide_start_request
  start_head-some x o h = ap (λ o. start_head readings o s) h ∙ ap (λ r. start_after r x s) w

received-ne :
    (failed : Bool) (incoming : List ℕ) (b x : ℕ) (s : Ide)
    → x ≢ b
    → received failed incoming b s x ≡ s.contents x
received-ne failed incoming b x s n = elim (Bool-cases ((s.buffers b).is_dirty || failed)) [
  | inl h ↦ rw h refl
  | inr h ↦ rw h (update_ne s.contents b x incoming n)
]

-- The other buffers are as they were.
other_buffers :
    (failed : Bool) (incoming : List ℕ) (b x : ℕ) (s : Ide)
    → x ≢ b
    → ((finished failed incoming b s).buffers x ≡ s.buffers x)
      × ((finished failed incoming b s).contents x ≡ s.contents x)
other_buffers failed incoming b x s n =
    (update_ne s.buffers b x _ n, received-ne failed incoming b x s n)

waiting_kept :
    (b : ℕ) (xs : List ℕ) (s : Ide)
    → All (λ x. x ≢ b) xs
    → All (λ x. is_done (s.buffers x) ≡ false) xs
    → All (λ x. is_done (update s.buffers b (done (s.buffers b)) x) ≡ false) xs
waiting_kept b [] s n h = tt
waiting_kept b (x ∷ xs) s n h =
    (rw (update_ne s.buffers b x (done (s.buffers b)) n.0) h.0, waiting_kept b xs s n.1 h.1)

served-wakeup :
    (b : ℕ) (xs : List ℕ) (s : Ide)
    → ((x : ℕ) → All (λ y. y ≢ x) (b ∷ xs) → NoneAsleep (s.address x) s.procs)
    → (x : ℕ) → All (λ y. y ≢ x) xs
    → NoneAsleep (s.address x) (wakeup (s.address b) s.procs)
served-wakeup b xs s f x n = elim (ℕ_discrete b x) [
  | yes e ↦ rw e (wakeup-NoneAsleep (s.address x) s.procs)
  | no ne ↦ wakeup_keeps (s.address b) (s.address x) s.procs (f x (ne, n))
]

-- What the interrupt writes to the ports: the request of the next buffer, if there is one.
abbrev pub next_output : List ℕ → Ide → List Output
next_output [] s = []
next_output (x ∷ xs) s = request_of (s.buffers x) (s.contents x)

-- ideInterruptHandler with a request in the queue, where the disk is ready at both waits: it takes
-- the first buffer off the queue, marks it as read and clean, and wakes all who sleep on it; its
-- data are what the port gave, unless the buffer was dirty or the disk reports an error; and it
-- starts the request of the next buffer, if there is one. The queue's links are still those of its
-- list, no buffer is in it twice or done, the disk works on the first, and processes sleep on no
-- buffer outside it.
pub ide_interrupt_handler_lem :
    (readings incoming readings' : List ℕ) (failed e : Bool) (b : ℕ) (xs : List ℕ) (s : Ide)
    → IsLive s (b ∷ xs)
    → ide_wait true readings ≡ some failed
    → ide_wait false readings' ≡ some e
    → (s' : Ide) × (ide_interrupt_handler readings incoming readings' s ≡ some s')
      × IsLive s' xs
      × NoneAsleep (s.address b) s'.procs
      × (s'.buffers ≡ update s.buffers b (done (s.buffers b)))
      × (s'.contents ≡ received failed incoming b s)
      × (s'.output ≡ s.output ++ next_output xs s)
ide_interrupt_handler_lem readings incoming readings' failed e b [] s v w w' =
    let t = finished failed incoming b s in
    (
      t,
      handler-finished readings incoming readings' failed b s v.linked.0 w
          ∙ start_head-none readings' e t w' (s.queue_next b) v.linked.1,
      record {
        linked = v.linked.1;
        distinct = tt;
        waiting = tt;
        started = tt;
        served = served-wakeup b [] s v.served;
      },
      wakeup-NoneAsleep (s.address b) s.procs,
      refl,
      refl,
      sym (append-nil s.output),
    )
ide_interrupt_handler_lem readings incoming readings' failed e b (x ∷ xs) s v w w' =
    let t = finished failed incoming b s in
    let o = other_buffers failed incoming b x s v.distinct.0.0 in
    (
      record t { output = s.output ++ request_of (t.buffers x) (t.contents x) },
      handler-finished readings incoming readings' failed b s v.linked.0 w
          ∙ start_head-some readings' e t w' x (s.queue_next b) v.linked.1.0,
      record {
        linked = v.linked.1;
        distinct = v.distinct.1;
        waiting = waiting_kept b (x ∷ xs) s v.distinct.0 v.waiting.1;
        started = (s.output, refl);
        served = served-wakeup b (x ∷ xs) s v.served;
      },
      wakeup-NoneAsleep (s.address b) s.procs,
      refl,
      refl,
      ap₂ (λ y z. s.output ++ request_of y z) o.0 o.1,
    )
