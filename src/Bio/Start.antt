-- ===== src/Bio/Start.antt =====
-- diskBufferCacheInitialise and the order of use.
use systems_programming_a.Prelude.{
  ℕ, ◌<◌, ◌≤◌, zero, suc, ◌+◌, ◌≢◌, arith, List, [], ◌∷◌, All, update, update_self,
}
use systems_programming_a.Bio.Defs.{
  Cache, head, push_front, push_all, unlock, cache_initialise, nbuf,
}
use systems_programming_a.Bio.Ring.{IsRing, Links-buffers, All-two, push_front-IsRing}

-- The list of `n` buffers from `b` on, each put in front of the ones before it.
abbrev pub pushed : ℕ → ℕ → List ℕ → List ℕ
pushed zero b xs = xs
pushed (suc n) b xs = pushed n (b + 1) (b ∷ xs)

below-next : (b : ℕ) (xs : List ℕ) → All (λ y. y < b) xs → All (λ y. y < b + 1) xs
below-next b xs h = All-two (λ y. y < b) (λ y. y < b) (λ y. y < b + 1) xs (λ y f g. omega arith) h h

push_all-IsRing :
    (n b : ℕ) (xs : List ℕ) (c : Cache)
    → n + b ≤ head
    → All (λ y. y < b) xs
    → IsRing c xs
    → IsRing (push_all n b c) (pushed n b xs)
unfolding push_all unlock
push_all-IsRing zero b xs c h u r = r
push_all-IsRing (suc n) b xs c h u r =
    push_all-IsRing n (b + 1) (b ∷ xs) (push_front b (unlock b c)) (omega arith)
      (omega arith, below-next b xs u)
      (push_front-IsRing b xs (unlock b c)
        (
          (omega arith),
          (All-two (λ y. y < b) (λ y. y < b) (λ y. y ≢ b) xs (λ y f g. omega arith) u u),
          r.0,
        )
        (Links-buffers (unlock b c).buffers c head xs r.1))

-- diskBufferCacheInitialise links every buffer once, the last one first.
pub cache_initialise-IsRing : (c : Cache) → IsRing (cache_initialise c) (pushed nbuf 0 [])
unfolding cache_initialise
cache_initialise-IsRing c =
    push_all-IsRing nbuf 0 []
      (record c { previous = update c.previous head head; next = update c.next head head })
      (omega arith) tt (tt, (update_self c.next head head, update_self c.previous head head))
