-- ===== src/Ide/Request.antt =====
-- ideReadWrite and the queue.
use mathlib.Core.Path.{subst}
use mathlib.Core.List.{append-nil}
use systems_programming_a.Prelude.{
  ℕ, ◌≤◌, ◌≡◌, ◌≢◌, ◌∙◌, sym, refl, ap, arith, Bool, true, false, not, ◌&&◌, Option, none, some,
  List, [], ◌∷◌, ◌++◌, length, ◌==◌, update_self, All, ◌↔◌,
}
use systems_programming_a.Proc.{NoneAsleep, sleep, sleep_keeps}
use systems_programming_a.Bio.{nbuf}
use systems_programming_a.Ide.Defs.{
  Ide, Output, asleep, request_of, is_done, is_head, enqueue, start_after, start_if_head, ide_wait,
  wait_after, wait_for, ide_read_write,
}
use systems_programming_a.Ide.Queue.{
  Chain, IsDistinct, link_behind, link_alone, last_of, enqueue-nil, enqueue-cons, enqueue-Chain,
}

-- The last request to the disk was that of the first buffer of the queue, as it is.
abbrev pub IsStarted : Ide → List ℕ → Type 0
IsStarted s [] = Unit {0}
IsStarted s (x ∷ xs) =
    (before : List Output) × (s.output ≡ before ++ request_of (s.buffers x) (s.contents x))

-- What holds of the driver between its operations: the links are those of the list, no buffer is in
-- it twice or done, the disk works on the first, and processes sleep only on buffers in the list.
pub record IsLive (s : Ide) (xs : List ℕ) : Type 0 where
  pub linked : Chain s.queue_next s.idequeue xs
  pub distinct : IsDistinct xs
  pub waiting : All (λ b. is_done (s.buffers b) ≡ false) xs
  pub started : IsStarted s xs
  pub served : (b : ℕ) → All (λ x. x ≢ b) xs → NoneAsleep (s.address b) s.procs

-- The buffers have addresses of their own.
abbrev pub AreApart : (ℕ → ℕ) → Type 0
AreApart address = (x y : ℕ) → address x ≡ address y → x ≡ y

All-append_one : (P : ℕ → Type 0) (b : ℕ) (xs : List ℕ) → All P (xs ++ b ∷ []) ↔ (All P xs × P b)
All-append_one P b [] = (λ h. (tt, h.0), λ h. (h.1, tt))
All-append_one P b (x ∷ xs) = (
  λ h. let r = (All-append_one P b xs).0 h.1 in ((h.0, r.0), r.1),
  λ h. (h.0.0, (All-append_one P b xs).1 (h.0.1, h.1)),
)

IsDistinct-append :
    (b : ℕ) (xs : List ℕ) → IsDistinct xs → All (λ x. x ≢ b) xs → IsDistinct (xs ++ b ∷ [])
IsDistinct-append b [] d n = (tt, tt)
IsDistinct-append b (x ∷ xs) d n =
    ((All-append_one (λ y. y ≢ x) b xs).1 (d.0, λ e. n.0 (sym e)), IsDistinct-append b xs d.1 n.1)

-- The state after ideReadWrite has slept, by what its start wrote.
abbrev pub requested : ℕ → ℕ → List Output → Ide → Ide
requested i b out s = record s { output = s.output ++ out; procs = sleep i (s.address b) s.procs }

module _ (i b : ℕ) (readings : List ℕ) (s : Ide) (locked : (s.buffers b).is_locked ≡ true)
    (work : is_done (s.buffers b) ≡ false)
    (disk : (not ((s.buffers b).device == 0) && not s.havedisk1) ≡ false) where
  read_write-goes_on :
      ide_read_write i b readings s ≡ wait_after i b (start_if_head readings b (enqueue b s))
  unfolding ide_read_write
  read_write-goes_on = rw (locked, work, disk) refl

wait_for-asleep :
    (i b : ℕ) (s : Ide)
    → is_done (s.buffers b) ≡ false
    → wait_for i b s ≡ asleep (record s { procs = sleep i (s.address b) s.procs })
unfolding wait_for
wait_for-asleep i b s h = rw h refl

start_if_head-head :
    (readings : List ℕ) (b : ℕ) (s : Ide)
    → is_head b s.idequeue ≡ true
    → start_if_head readings b s ≡ start_after (ide_wait false readings) b s
unfolding start_if_head
start_if_head-head readings b s h = rw h refl

start_if_head-other :
    (readings : List ℕ) (b : ℕ) (s : Ide)
    → is_head b s.idequeue ≡ false
    → start_if_head readings b s ≡ some s
unfolding start_if_head
start_if_head-other readings b s h = rw h refl

is_head-ne : (b x : ℕ) (o : Option ℕ) → o ≡ some x → x ≢ b → is_head b o ≡ false
is_head-ne b x none e n = cc
is_head-ne b x (some y) e n = let k : y ≡ x = cc in ground arith

-- The first request is started.
start_alone :
    (i b : ℕ) (e : Bool) (readings : List ℕ) (s : Ide)
    → ide_wait false readings ≡ some e
    → is_done (s.buffers b) ≡ false
    → wait_after i b (start_if_head readings b (link_alone b s))
      ≡ asleep (requested i b (request_of (s.buffers b) (s.contents b)) (link_alone b s))
unfolding wait_after start_after
start_alone i b e readings s w h =
    ap (wait_after i b) (
      start_if_head-head readings b (link_alone b s) (ground arith)
      ∙ ap (λ o. start_after o b (link_alone b s)) w)
    ∙ wait_for-asleep i b
        (record (link_alone b s) { output = s.output ++ request_of (s.buffers b) (s.contents b) }) h

-- A later one waits.
start_behind :
    (i b l : ℕ) (readings : List ℕ) (x : ℕ) (s : Ide)
    → s.idequeue ≡ some x
    → x ≢ b
    → is_done (s.buffers b) ≡ false
    → wait_after i b (start_if_head readings b (link_behind l b s))
      ≡ asleep (record (link_behind l b s) { procs = sleep i (s.address b) s.procs })
unfolding wait_after
start_behind i b l readings x s q n h =
    ap (wait_after i b)
      (start_if_head-other readings b (link_behind l b s) (is_head-ne b x s.idequeue q n))
    ∙ wait_for-asleep i b (link_behind l b s) h

-- Who is asleep when a process has gone to sleep on a buffer that is now in the queue.
served-sleep :
    (i b : ℕ) (xs : List ℕ) (s : Ide)
    → AreApart s.address
    → ((x : ℕ) → All (λ y. y ≢ x) xs → NoneAsleep (s.address x) s.procs)
    → (x : ℕ) → All (λ y. y ≢ x) (xs ++ b ∷ [])
    → NoneAsleep (s.address x) (sleep i (s.address b) s.procs)
served-sleep i b xs s apart f x n =
    let m = (All-append_one (λ y. y ≢ x) b xs).0 n in
    sleep_keeps i (s.address b) (s.address x) s.procs (λ e. m.1 (apart b x e)) (f x m.0)

-- What a request adds to the output: its own start, if it is the first.
abbrev pub new_output : List ℕ → ℕ → Ide → List Output
new_output [] b s = request_of (s.buffers b) (s.contents b)
new_output (x ∷ xs) b s = []

-- ideReadWrite of a locked buffer that is not in the queue and not up to date, with room in the
-- queue, its disk present and ready and the buffers' addresses apart: it goes to sleep on the
-- buffer. It has put it at the end of the queue, and has started its request exactly if the queue
-- was empty. Afterwards the queue's links are still those of its list, no buffer is in it twice or
-- done, the disk works on the first, and processes sleep on no buffer outside it.
pub ide_read_write_lem :
    (i b : ℕ) (e : Bool) (readings : List ℕ) (xs : List ℕ) (s : Ide)
    → IsLive s xs
    → All (λ x. x ≢ b) xs
    → length xs ≤ nbuf
    → AreApart s.address
    → (s.buffers b).is_locked ≡ true
    → is_done (s.buffers b) ≡ false
    → (not ((s.buffers b).device == 0) && not s.havedisk1) ≡ false
    → ide_wait false readings ≡ some e
    → (s' : Ide) × (ide_read_write i b readings s ≡ asleep s')
      × IsLive s' (xs ++ b ∷ [])
      × (s'.output ≡ s.output ++ new_output xs b s)
      × (s'.procs ≡ sleep i (s.address b) s.procs)
ide_read_write_lem i b e readings [] s v n l apart locked work disk w =
    let goes = read_write-goes_on i b readings s locked work disk in
    let s' = requested i b (request_of (s.buffers b) (s.contents b)) (link_alone b s) in
    (
      s',
      goes
          ∙ ap (λ t. wait_after i b (start_if_head readings b t)) (enqueue-nil b s v.linked)
          ∙ start_alone i b e readings s w work,
      record {
        linked = (refl, update_self s.queue_next b none);
        distinct = (tt, tt);
        waiting = (work, tt);
        started = (s.output, refl);
        served = served-sleep i b [] s apart v.served;
      },
      refl,
      refl,
    )
ide_read_write_lem i b e readings (x ∷ xs) s v n l apart locked work disk w =
    let goes = read_write-goes_on i b readings s locked work disk in
    let s' = record (link_behind (last_of x xs) b s) { procs = sleep i (s.address b) s.procs } in
    (
      s',
      goes
          ∙ ap (λ t. wait_after i b (start_if_head readings b t))
              (enqueue-cons b x xs s v.linked n l)
          ∙ start_behind i b (last_of x xs) readings x s v.linked.0 n.0 work,
      record {
        linked =
            subst (λ t. Chain t.queue_next t.idequeue (x ∷ xs ++ b ∷ []))
              (enqueue-cons b x xs s v.linked n l)
              (enqueue-Chain b (x ∷ xs) s v.linked v.distinct n l);
        distinct = IsDistinct-append b (x ∷ xs) v.distinct n;
        waiting =
            (All-append_one (λ y. is_done (s.buffers y) ≡ false) b (x ∷ xs)).1 (v.waiting, work);
        started = v.started;
        served = served-sleep i b (x ∷ xs) s apart v.served;
      },
      sym (append-nil s.output),
      refl,
    )
