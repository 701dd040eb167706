-- ===== src/Ulib/Tests.antt =====
-- The library of the user programs on small inputs.
use systems_programming_a.Prelude.{◌≡◌, refl, arith, false, some, ℕ, List, [], ◌∷◌, ◌++◌}
use systems_programming_a.Format.{printf}
use systems_programming_a.Ulib.Defs.{atoi, gets, gets_loop, store_chars}
use systems_programming_a.Ulib.Numbers.{atoi-printf}

atoi-printf_example :
    (cs : List ℕ) × (printf (λ a. []) false (b'%' ∷ b'd' ∷ []) (405 ∷ []) ≡ some cs)
    × (atoi (cs ++ (0 ∷ [])) ≡ some 405)
atoi-printf_example = atoi-printf (λ a. []) 405 [] (omega arith)

one_line :
    gets (9 ∷ 9 ∷ 9 ∷ 9 ∷ []) 4 (b'l' ∷ b'\n' ∷ b's' ∷ [])
    ≡ (some (b'l' ∷ b'\n' ∷ 0 ∷ 9 ∷ []), b's' ∷ [])
unfolding gets gets_loop store_chars
one_line = refl
