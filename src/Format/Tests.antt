-- ===== src/Format/Tests.antt =====
-- Formats printed, and the theorem on numbers at a negative one.
use mathlib.Core.List.{reverse}
use systems_programming_a.Prelude.{
  ℕ, ◌-◌, ◌^◌, ◌<◌, ◌≤◌, ◌≡◌, refl, arith, inl, true, false, some, none, List, [], ◌∷◌, ◌++◌, map,
  if◌then◌else◌, All, length,
}
use systems_programming_a.Format.Defs.{
  digit_char, is_minus, magnitude, int_buffer, print_int, cprintf, printf, directive,
  user_directive, digits_of,
}
use systems_programming_a.Format.Digits.{value, print_int_lem}

print_int_lem_example :
    (ds : List ℕ) × (print_int b'a' (2 ^ 32 - 12) 10 true
      ≡ (if is_minus true (2 ^ 32 - 12) then b'-' ∷ [] else [])
        ++ reverse (map (digit_char b'a') ds))
    × (value 10 ds ≡ magnitude true (2 ^ 32 - 12))
    × All (λ d. d < 10) ds
    × (length (int_buffer b'a' true 10 (2 ^ 32 - 12)) ≤ 16)
    × (0 < length ds)
print_int_lem_example = print_int_lem b'a' 10 (2 ^ 32 - 12) true (inl refl) (omega arith)

-- "%d!" with -12
kernel_format :
    cprintf (λ s. []) (b'%' ∷ b'd' ∷ b'!' ∷ []) ((2 ^ 32 - 12) ∷ [])
    ≡ some (b'-' ∷ b'1' ∷ b'2' ∷ b'!' ∷ [])
unfolding cprintf directive print_int int_buffer digits_of
kernel_format = refl

-- "%x%q" with 255
user_format :
    printf (λ s. []) false (b'%' ∷ b'x' ∷ b'%' ∷ b'q' ∷ []) (255 ∷ [])
    ≡ some (b'F' ∷ b'F' ∷ b'%' ∷ b'q' ∷ [])
unfolding printf user_directive print_int int_buffer digits_of
user_format = refl

missing_argument : printf (λ s. []) false (b'%' ∷ b'x' ∷ []) [] ≡ none
unfolding printf user_directive
missing_argument = refl
