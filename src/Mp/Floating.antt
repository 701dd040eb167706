-- ===== src/Mp/Floating.antt =====
-- The search for the floating pointer structure.
use systems_programming_a.Prelude.{
  ℕ, zero, suc, ◌+◌, ◌*◌, ◌/◌, ◌<◌, ◌≡◌, refl, ap, ◌∙◌, arith, Bool, true, false, ◌&&◌, Option,
  none, some, ◌==◌, Memory, Bool-cases, inl, inr,
}
use systems_programming_a.Vm.{p2v}
use systems_programming_a.Mp.Defs.{
  has_signature, mp_signature, sum, sizeof_mp, search_from, mpsearch1,
}

-- A structure with its signature, whose bytes add up to 0.
abbrev pub is_floating : Memory → ℕ → Bool
is_floating m p = has_signature m p mp_signature && sum m p sizeof_mp == 0

-- What a search of the `n` places from `p` on found: the first place of a structure.
abbrev pub IsFirst : Memory → ℕ → ℕ → Option ℕ → Type 0
IsFirst m n p none = (k : ℕ) → k < n → is_floating m (p + sizeof_mp * k) ≡ false
IsFirst m n p (some q) =
    (k : ℕ) × (k < n)
    × (q ≡ p + sizeof_mp * k)
    × (is_floating m q ≡ true)
    × ((j : ℕ) → j < k → is_floating m (p + sizeof_mp * j) ≡ false)

search_from-hit : (m : Memory) (n p : ℕ) → is_floating m p ≡ true → search_from m (suc n) p ≡ some p
unfolding search_from
search_from-hit m n p h = rw h refl

search_from-miss :
    (m : Memory) (n p : ℕ)
    → is_floating m p ≡ false
    → search_from m (suc n) p ≡ search_from m n (p + sizeof_mp)
unfolding search_from
search_from-miss m n p h = rw h refl

search_from-none : (m : Memory) (p : ℕ) → search_from m zero p ≡ none
unfolding search_from
search_from-none m p = refl

-- One place more in front of those without a structure.
none-later :
    (m : Memory) (k p : ℕ)
    → is_floating m p ≡ false
    → ((j : ℕ) → j < k → is_floating m (p + sizeof_mp + sizeof_mp * j) ≡ false)
    → (j : ℕ) → j < suc k
    → is_floating m (p + sizeof_mp * j) ≡ false
none-later m k p h f zero l = ap (is_floating m) (omega arith) ∙ h
none-later m k p h f (suc j) l = ap (is_floating m) (omega arith) ∙ f j (omega arith)

-- A place before those of a search.
IsFirst-later :
    (m : Memory) (n p : ℕ) (o : Option ℕ)
    → is_floating m p ≡ false
    → IsFirst m n (p + sizeof_mp) o
    → IsFirst m (suc n) p o
IsFirst-later m n p none h f = none-later m n p h f
IsFirst-later m n p (some q) h (k, l, e, t, f) =
    (suc k, omega arith, omega arith, t, none-later m k p h f)

search_from_lem : (m : Memory) (n p : ℕ) → IsFirst m n p (search_from m n p)
search_from_lem m zero p = rw (search_from-none m p) (λ k l. absurd (omega (arith, l)))
search_from_lem m (suc n) p = elim (Bool-cases (is_floating m p)) [
  | inl h ↦
      rw (search_from-hit m n p h)
        (0, omega arith, omega arith, h, λ j l. absurd (omega (arith, l)))
  | inr h ↦
      rw (search_from-miss m n p h) (IsFirst-later m n p _ h (search_from_lem m n (p + sizeof_mp)))
]

-- mpsearch1 finds the first place, of those each 16 bytes behind the one before, where a structure
-- has its signature and bytes that add up to 0, and finds none where there is none.
pub mpsearch1_lem :
    (m : Memory) (a len : ℕ) → IsFirst m ((len + 15) / 16) (p2v a) (mpsearch1 m a len)
unfolding mpsearch1
mpsearch1_lem m a len = search_from_lem m ((len + 15) / 16) (p2v a)
