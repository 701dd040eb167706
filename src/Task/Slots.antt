-- ===== src/Task/Slots.antt =====
-- Slots of a table after a change of one slot or of all.
use systems_programming_a.Prelude.{
  ℕ, zero, suc, ◌<◌, ◌≡◌, ◌≢◌, ◌⊎◌, refl, arith, List, [], ◌∷◌, map, modify, get_elem?, length, All,
  some, inl, inr,
}

pub All-get_elem? :
    {A : Type 0} (P : A → Type 0) (xs : List A)
    → ((i : ℕ) (x : A) → get_elem? xs i ≡ some x → P x)
    → All P xs
All-get_elem? P [] h = tt
All-get_elem? P (x ∷ xs) h = (h 0 x refl, All-get_elem? P xs (λ i y e. h (suc i) y e))

-- What stands in a slot of a list whose elements were all changed.
pub get_elem?-map :
    {A : Type 0} (f : A → A) (xs : List A) (i : ℕ) (y : A)
    → get_elem? (map f xs) i ≡ some y
    → (x : A) × (get_elem? xs i ≡ some x) × (f x ≡ y)
get_elem?-map f [] i y e = absurd (cc e)
get_elem?-map f (x ∷ xs) zero y e = (x, refl, cc e)
get_elem?-map f (x ∷ xs) (suc i) y e = get_elem?-map f xs i y e

-- What stands in a slot of a list in which one was changed.
pub get_elem?-modify :
    {A : Type 0} (f : A → A) (xs : List A) (i j : ℕ) (y : A)
    → get_elem? (modify xs i f) j ≡ some y
    → ((j ≢ i) × (get_elem? xs j ≡ some y))
      ⊎ ((j ≡ i) × ((x : A) × (get_elem? xs j ≡ some x) × (f x ≡ y)))
get_elem?-modify f [] i j y e = absurd (cc e)
get_elem?-modify f (x ∷ xs) zero zero y e = inr (refl, (x, refl, cc e))
get_elem?-modify f (x ∷ xs) zero (suc j) y e = inl (omega arith, e)
get_elem?-modify f (x ∷ xs) (suc i) zero y e = inl (omega arith, e)
get_elem?-modify f (x ∷ xs) (suc i) (suc j) y e = elim (get_elem?-modify f xs i j y e) [
  | inl h ↦ inl (omega (arith, h.0), h.1)
  | inr h ↦ inr (omega (arith, h.0), h.1)
]

-- No slot stands past the end.
pub get_elem?-lt :
    {A : Type 0} (xs : List A) (i : ℕ) (x : A) → get_elem? xs i ≡ some x → i < length xs
get_elem?-lt [] i x e = absurd (cc e)
get_elem?-lt (y ∷ xs) zero x e = omega arith
get_elem?-lt (y ∷ xs) (suc i) x e = omega (arith, get_elem?-lt xs i x e)
