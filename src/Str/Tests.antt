-- ===== src/Str/Tests.antt =====
-- Runs of the string functions, and the theorems at concrete memories and texts.
use systems_programming_a.Prelude.{ℕ, ◌≡◌, refl, arith, Memory, some, List, [], ◌∷◌, ◌++◌}
use systems_programming_a.Str.Block.{memmove, move_up, move_down}
use systems_programming_a.Str.Block.Move.{moved, memmove_lem}
use systems_programming_a.Str.Text.{IsText, safestrcpy}

-- Each byte is its own address.
abbrev identity : Memory
identity a = a

abbrev cat : List ℕ
cat = b'c' ∷ b'a' ∷ b't' ∷ []

cat-IsText : IsText cat
cat-IsText = omega arith

abbrev car : List ℕ
car = b'c' ∷ b'a' ∷ b'r' ∷ []

car-IsText : IsText car
car-IsText = omega arith

abbrev room : List ℕ
room = 1 ∷ 2 ∷ 3 ∷ 4 ∷ 5 ∷ []

overlapping : memmove 12 10 5 identity 16 ≡ 14
unfolding memmove move_down move_up
overlapping = refl

cut_short : safestrcpy room (cat ++ (0 ∷ [])) 3 ≡ some (b'c' ∷ b'a' ∷ 0 ∷ 4 ∷ 5 ∷ [])
unfolding safestrcpy
cut_short = refl

memmove_lem_example : memmove 12 10 5 identity 16 ≡ moved 12 10 5 identity 16
memmove_lem_example = memmove_lem 12 10 5 identity 16
