-- ===== src/Bio/Ring.antt =====
-- The list of buffers in the order of use.
use mathlib.Core.Path.{subst}
use systems_programming_a.Prelude.{
  ℕ, ◌≡◌, ◌≢◌, ◌∙◌, sym, refl, arith, List, [], ◌∷◌, ◌++◌, All, update_ne,
}
use systems_programming_a.Bio.Defs.{Cache, DiskBuffer, head, push_front, unlink}

-- From the node `a` on, the links in both directions go through these buffers and end at the head.
abbrev pub Links : Cache → ℕ → List ℕ → Type 0
Links c a [] = (c.next a ≡ head) × (c.previous head ≡ a)
Links c a (x ∷ xs) = (c.next a ≡ x) × (c.previous x ≡ a) × Links c x xs

-- A buffer that is not the head and occurs once.
abbrev pub AreNodes : List ℕ → Type 0
AreNodes [] = Unit {0}
AreNodes (x ∷ xs) = (x ≢ head) × All (λ y. y ≢ x) xs × AreNodes xs

-- The cache's list, the most recently used buffer first.
abbrev pub IsRing : Cache → List ℕ → Type 0
IsRing c xs = AreNodes xs × Links c head xs

-- Links that are left where the list reads them.
Links-kept :
    (c c' : Cache) (a : ℕ) (xs : List ℕ)
    → c'.next a ≡ c.next a
    → All (λ x. (c'.next x ≡ c.next x) × (c'.previous x ≡ c.previous x)) xs
    → c'.previous head ≡ c.previous head
    → Links c a xs
    → Links c' a xs
Links-kept c c' a [] n k p l = (n ∙ l.0, p ∙ l.1)
Links-kept c c' a (x ∷ xs) n k p l = (n ∙ l.0, k.0.1 ∙ l.1, Links-kept c c' x xs k.0.0 k.1 p l.2)

-- No node of a list is the head.
pub AreNodes-head : (xs : List ℕ) → AreNodes xs → All (λ x. x ≢ head) xs
AreNodes-head [] h = tt
AreNodes-head (x ∷ xs) h = (h.0, AreNodes-head xs h.2)

-- What follows at each node from two facts of it.
pub All-two :
    (P Q R : ℕ → Type 0) (xs : List ℕ)
    → ((x : ℕ) → P x → Q x → R x)
    → All P xs
    → All Q xs
    → All R xs
All-two P Q R [] f g h = tt
All-two P Q R (x ∷ xs) f g h = (f x g.0 h.0, All-two P Q R xs f g.1 h.1)

-- What holds of the start and of each node holds of the node before `b`.
before :
    (P : ℕ → Type 0) (c : Cache) (a b : ℕ) (xs ys : List ℕ)
    → Links c a (xs ++ b ∷ ys)
    → P a
    → All P (xs ++ b ∷ ys)
    → P (c.previous b)
before P c a b [] ys l p ps = subst P (sym l.1) p
before P c a b (x ∷ xs) ys l p ps = before P c x b xs ys l.2 ps.0 ps.1

-- What holds of the head and of each later node holds of the node after `b`.
after :
    (P : ℕ → Type 0) (c : Cache) (a b : ℕ) (xs ys : List ℕ)
    → Links c a (xs ++ b ∷ ys)
    → P head
    → All P (xs ++ b ∷ ys)
    → P (c.next b)
after P c a b [] [] l p ps = subst P (sym l.2.0) p
after P c a b [] (y ∷ ys) l p ps = subst P (sym l.2.0) ps.1.0
after P c a b (x ∷ xs) ys l p ps = after P c x b xs ys l.2 p ps.1

pub push_front-IsRing :
    (b : ℕ) (xs : List ℕ) (c : Cache)
    → AreNodes (b ∷ xs)
    → Links c head xs
    → IsRing (push_front b c) (b ∷ xs)
unfolding push_front
push_front-IsRing b [] c n l = (n, ground arith)
push_front-IsRing b (x ∷ xs) c n l = (
  n,
  (
    refl,
    (ground arith),
    (
      (ground arith),
      (ground arith),
      Links-kept c (push_front b c) x xs (ground arith)
          (All-two (λ y. (y ≢ b) × (y ≢ head)) (λ y. y ≢ x)
            (λ y.
              ((push_front b c).next y ≡ c.next y) × ((push_front b c).previous y ≡ c.previous y))
            xs (λ y f g. let h = l.0 in (ground arith, ground arith))
            (All-two (λ y. y ≢ b) (λ y. y ≢ head) (λ y. (y ≢ b) × (y ≢ head)) xs (λ y f g. (f, g))
              n.1.1 (AreNodes-head xs n.2.2))
            n.2.1)
          (ground arith) l.2,
    ),
  ),
)

-- Unlinking a buffer leaves the others in order.
pub unlink-Links :
    (a b : ℕ) (xs ys : List ℕ) (c : Cache)
    → AreNodes (xs ++ b ∷ ys)
    → All (λ y. y ≢ a) (xs ++ b ∷ ys)
    → Links c a (xs ++ b ∷ ys)
    → Links (unlink b c) a (xs ++ ys)
unfolding unlink
unlink-Links a b [] [] c n m l = let eb = l.2.0 in (ground arith, ground arith)
unlink-Links a b [] (y ∷ ys) c n m l =
    let eb = l.2.0 in
    (
      (ground arith),
      (ground arith),
      Links-kept c (unlink b c) y ys (ground arith)
          (All-two (λ x. x ≢ a) (λ x. x ≢ y)
            (λ x. ((unlink b c).next x ≡ c.next x) × ((unlink b c).previous x ≡ c.previous x)) ys
            (λ x f g. let e = l.1 in (ground arith, ground arith)) m.1.1 n.2.1)
          (ground arith) l.2.2,
    )
unlink-Links a b (x ∷ xs) ys c n m l =
    let p = before (λ v. v ≢ a) c x b xs ys l.2 m.0 m.1 in
    let q = after (λ v. v ≢ x) c x b xs ys l.2 (λ e. n.0 (sym e)) n.1 in
    (
      (ground arith),
      update_ne c.previous (c.next b) x (c.previous b) (λ e. q (sym e)) ∙ l.1,
      unlink-Links x b xs ys c n.2 n.1 l.2,
    )

-- What holds of a list holds of one of its members and of the rest.
All-middle :
    (P : ℕ → Type 0) (b : ℕ) (xs ys : List ℕ) → All P (xs ++ b ∷ ys) → P b × All P (xs ++ ys)
All-middle P b [] ys h = h
All-middle P b (x ∷ xs) ys h = let r = All-middle P b xs ys h.1 in (r.0, (h.0, r.1))

-- A buffer to the front of a list of nodes.
AreNodes-front : (b : ℕ) (xs ys : List ℕ) → AreNodes (xs ++ b ∷ ys) → AreNodes (b ∷ xs ++ ys)
AreNodes-front b [] ys n = n
AreNodes-front b (x ∷ xs) ys n =
    let r = AreNodes-front b xs ys n.2 in
    let a = All-middle (λ y. y ≢ x) b xs ys n.1 in (r.0, ((λ e. a.0 (sym e)), r.1), (n.0, a.1, r.2))

-- The order of use without the data of the buffers.
pub Links-buffers :
    (f : ℕ → DiskBuffer) (c : Cache) (a : ℕ) (xs : List ℕ)
    → Links c a xs
    → Links (record c { buffers = f }) a xs
Links-buffers f c a [] l = l
Links-buffers f c a (x ∷ xs) l = (l.0, l.1, Links-buffers f c x xs l.2)

-- A buffer taken from its place to the front.
pub refresh-IsRing :
    (b : ℕ) (xs ys : List ℕ) (c : Cache)
    → IsRing c (xs ++ b ∷ ys)
    → IsRing (push_front b (unlink b c)) (b ∷ xs ++ ys)
refresh-IsRing b xs ys c r =
    push_front-IsRing b (xs ++ ys) (unlink b c) (AreNodes-front b xs ys r.0)
      (unlink-Links head b xs ys c r.0 (AreNodes-head (xs ++ b ∷ ys) r.0) r.1)
