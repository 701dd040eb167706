-- ===== src/Ide/Queue.antt =====
-- The queue of requests as a list.
use mathlib.Core.Path.{subst}
use systems_programming_a.Prelude.{
  ℕ, zero, suc, ◌≤◌, ◌≡◌, ◌≢◌, ◌∙◌, sym, refl, ap, arith, Option, none, some, List, [], ◌∷◌, ◌++◌,
  length, update, update_self, update_ne, All,
}
use systems_programming_a.Bio.{nbuf}
use systems_programming_a.Ide.Defs.{Ide, last_from, append_to, enqueue}

-- From a pointer on, the links go through these buffers and end.
abbrev pub Chain : (ℕ → Option ℕ) → Option ℕ → List ℕ → Type 0
Chain next p [] = p ≡ none
Chain next p (x ∷ xs) = (p ≡ some x) × Chain next (next x) xs

abbrev pub IsDistinct : List ℕ → Type 0
IsDistinct [] = Unit {0}
IsDistinct (x ∷ xs) = All (λ y. y ≢ x) xs × IsDistinct xs

-- Links that are left where the list reads them.
pub Chain-update :
    (next : ℕ → Option ℕ) (b : ℕ) (o p : Option ℕ) (xs : List ℕ)
    → All (λ x. x ≢ b) xs
    → Chain next p xs
    → Chain (update next b o) p xs
Chain-update next b o p [] h c = c
Chain-update next b o p (x ∷ xs) h c = (
  c.0,
  subst (λ q. Chain (update next b o) q xs) (sym (update_ne next b x o h.0))
      (Chain-update next b o (next x) xs h.1 c.1),
)

-- The last of a non-empty list.
abbrev pub last_of : ℕ → List ℕ → ℕ
last_of x [] = x
last_of x (y ∷ ys) = last_of y ys

last_from_lem :
    (next : ℕ → Option ℕ) (fuel x : ℕ) (xs : List ℕ)
    → length xs ≤ fuel
    → Chain next (next x) xs
    → last_from fuel next x ≡ last_of x xs
unfolding last_from
last_from_lem next zero x [] l c = refl
last_from_lem next (suc fuel) x [] l c = rw (last_from, c) refl
last_from_lem next zero x (y ∷ xs) l c = absurd (omega (arith, l))
last_from_lem next (suc fuel) x (y ∷ xs) l c =
    rw (last_from, c.0) (last_from_lem next fuel y xs (omega arith) c.1)

last_of-ne : (b x : ℕ) (xs : List ℕ) → x ≢ b → All (λ y. y ≢ b) xs → last_of x xs ≢ b
last_of-ne b x [] n h = n
last_of-ne b x (y ∷ xs) n h = last_of-ne b y xs h.0 h.1

-- A buffer linked behind the last one.
Chain-append :
    (next : ℕ → Option ℕ) (b x : ℕ) (xs : List ℕ)
    → x ≢ b
    → All (λ y. y ≢ b) xs
    → IsDistinct (x ∷ xs)
    → next b ≡ none
    → Chain next (next x) xs
    → Chain
        (update next (last_of x xs) (some b))
        (update next (last_of x xs) (some b) x)
        (xs ++ b ∷ [])
Chain-append next b x [] n h d e c =
    (update_self next x (some b), update_ne next x b (some b) (λ k. n (sym k)) ∙ e)
Chain-append next b x (y ∷ xs) n h d e c = (
  update_ne next (last_of y xs) x (some b) (λ k. last_of-ne x y xs d.0.0 d.0.1 (sym k)) ∙ c.0,
  Chain-append next b y xs h.0 h.1 d.1 e c.1,
)

-- The driver's state with a buffer linked behind another one, and with one as its only request.
abbrev pub link_behind : ℕ → ℕ → Ide → Ide
link_behind l b s = record s { queue_next = update (update s.queue_next b none) l (some b) }

abbrev pub link_alone : ℕ → Ide → Ide
link_alone b s = record s { queue_next = update s.queue_next b none; idequeue = some b }

pub enqueue-nil : (b : ℕ) (s : Ide) → s.idequeue ≡ none → enqueue b s ≡ link_alone b s
unfolding enqueue
enqueue-nil b s c = ap (λ o. append_to o b s) c

pub enqueue-cons :
    (b x : ℕ) (xs : List ℕ) (s : Ide)
    → Chain s.queue_next s.idequeue (x ∷ xs)
    → All (λ y. y ≢ b) (x ∷ xs)
    → length (x ∷ xs) ≤ nbuf
    → enqueue b s ≡ link_behind (last_of x xs) b s
unfolding enqueue
enqueue-cons b x xs s c n l =
    let tail = Chain-update s.queue_next b none (s.queue_next x) xs n.1 c.1 in
    ap (λ o. append_to o b s) c.0
    ∙ ap (λ y. link_behind y b s)
        (last_from_lem (update s.queue_next b none) nbuf x xs (omega arith)
          (rw (update_ne s.queue_next b x none n.0) tail))

-- enqueue puts the buffer at the end of the queue.
pub enqueue-Chain :
    (b : ℕ) (xs : List ℕ) (s : Ide)
    → Chain s.queue_next s.idequeue xs
    → IsDistinct xs
    → All (λ x. x ≢ b) xs
    → length xs ≤ nbuf
    → Chain (enqueue b s).queue_next (enqueue b s).idequeue (xs ++ b ∷ [])
enqueue-Chain b [] s c d n l =
    subst (λ t. Chain t.queue_next t.idequeue (b ∷ [])) (sym (enqueue-nil b s c))
      (refl, update_self s.queue_next b none)
enqueue-Chain b (x ∷ xs) s c d n l =
    let tail = Chain-update s.queue_next b none (s.queue_next x) xs n.1 c.1 in
    subst (λ t. Chain t.queue_next t.idequeue (x ∷ xs ++ b ∷ []))
      (sym (enqueue-cons b x xs s c n l))
      (
        c.0,
        Chain-append (update s.queue_next b none) b x xs n.0 n.1 d (update_self s.queue_next b none)
            (rw (update_ne s.queue_next b x none n.0) tail),
      )
