-- ===== src/Str/Text/Compare.antt =====
-- What the comparisons decide.
use systems_programming_a.Prelude.{
  ℕ, zero, suc, ◌≤◌, ◌≡◌, ◌↔◌, refl, arith, some, List, [], ◌∷◌, ◌++◌, if◌then◌else◌, ltb, length,
  take,
}
use systems_programming_a.Prelude.Int.{ℤ, pos, negsuc}
use systems_programming_a.Str.Text.{IsText, memcmp, strncmp, strcmp}

-- The order of two texts by their first difference: negative, zero or positive.
pub lexicographic : List ℕ → List ℕ → ℤ
lexicographic [] [] = pos 0
lexicographic [] (d ∷ ds) = negsuc 0
lexicographic (c ∷ cs) [] = pos 1
lexicographic (c ∷ cs) (d ∷ ds) =
    if ltb c d then negsuc 0 else if ltb d c then pos 1 else lexicographic cs ds

-- strcmp of two terminated texts is their lexicographic order: -1, 0 or 1.
pub strcmp_lem :
    (cs ds r t : List ℕ)
    → IsText cs
    → IsText ds
    → strcmp (cs ++ (0 ∷ r)) (ds ++ (0 ∷ t)) ≡ some (lexicographic cs ds)
unfolding strcmp lexicographic
strcmp_lem [] [] r t h k = refl
strcmp_lem [] (d ∷ ds) r t h k = ground arith
strcmp_lem (c ∷ cs) [] r t h k = ground arith
strcmp_lem (c ∷ cs) (d ∷ ds) r t h k = ground (arith, strcmp_lem cs ds r t h.1 k.1)

pub lexicographic_zero : (cs ds : List ℕ) → (lexicographic cs ds ≡ pos 0) ↔ (cs ≡ ds)
unfolding lexicographic
lexicographic_zero [] [] = (λ e. refl, λ e. refl)
lexicographic_zero [] (d ∷ ds) = (λ e. cc, λ e. cc)
lexicographic_zero (c ∷ cs) [] = (λ e. cc, λ e. cc)
lexicographic_zero (c ∷ cs) (d ∷ ds) = ground (arith, lexicographic_zero cs ds)

-- memcmp of n bytes, where both objects have as many, returns 0 exactly when they agree.
pub memcmp_zero :
    (xs ys : List ℕ) (n : ℕ)
    → n ≤ length xs
    → n ≤ length ys
    → (memcmp xs ys n ≡ some (pos 0)) ↔ (take n xs ≡ take n ys)
unfolding memcmp
memcmp_zero xs ys zero h k = (λ e. refl, λ e. refl)
memcmp_zero [] ys (suc n) h k = absurd (omega arith)
memcmp_zero (x ∷ xs) [] (suc n) h k = absurd (omega arith)
memcmp_zero (x ∷ xs) (y ∷ ys) (suc n) h k = ground (arith, memcmp_zero xs ys n)

-- strncmp of two terminated texts returns 0 exactly when they agree in their first n characters.
pub strncmp_zero :
    (cs ds r t : List ℕ) (n : ℕ)
    → IsText cs
    → IsText ds
    → (strncmp (cs ++ (0 ∷ r)) (ds ++ (0 ∷ t)) n ≡ some (pos 0)) ↔ (take n cs ≡ take n ds)
unfolding strncmp
strncmp_zero cs ds r t zero h k = (λ e. refl, λ e. refl)
strncmp_zero [] [] r t (suc n) h k = (λ e. refl, λ e. refl)
strncmp_zero [] (d ∷ ds) r t (suc n) h k = ground arith
strncmp_zero (c ∷ cs) [] r t (suc n) h k = ground arith
strncmp_zero (c ∷ cs) (d ∷ ds) r t (suc n) h k = ground (arith, strncmp_zero cs ds r t n h.1 k.1)
