-- ===== src/Format/Defs.antt =====
-- printInt and cprintf of UoDOS/console.c, printInt and printf of UoDOS/printf.c. The value of each is
-- the characters printed. An int is a 32-bit word, negative from 2^31 on.
use mathlib.Core.List.{reverse}
use systems_programming_a.Prelude.{
  ℕ, zero, suc, ◌+◌, ◌-◌, ◌/◌, ◌%◌, ◌^◌, Bool, true, false, not, ◌&&◌, ◌||◌, Option, none, some,
  List, [], ◌∷◌, ◌++◌, map, leb, ltb, ◌==◌, if◌then◌else◌,
}

-- The digits that the loop `do ... while ((x /= base) != 0)` stores, the lowest first. The 33 rounds of
-- fuel are enough for a word and a base of 2 and up.
unfoldable pub digits_of : ℕ → ℕ → ℕ → List ℕ
digits_of zero base x = []
digits_of (suc fuel) base x =
    let rest = digits_of fuel base (x / base) in x % base ∷ (if x / base == 0 then [] else rest)

-- `digits[d]`, with the letters from `letter` on
abbrev pub digit_char : ℕ → ℕ → ℕ
digit_char letter d = if ltb d 10 then b'0' + d else letter + (d - 10)

-- `sign && xx < 0`
abbrev pub is_minus : Bool → ℕ → Bool
is_minus sign xx = sign && leb (2 ^ 31) xx

-- `x = -xx` or `x = xx`, as a word
abbrev pub magnitude : Bool → ℕ → ℕ
magnitude sign xx = if is_minus sign xx then 2 ^ 32 - xx else xx

-- The array `buf` at the end of the loops.
unfoldable pub int_buffer : ℕ → Bool → ℕ → ℕ → List ℕ
int_buffer letter sign base xx =
    map (digit_char letter) (digits_of 33 base (magnitude sign xx))
    ++ (if is_minus sign xx then b'-' ∷ [] else [])

-- The characters that printInt prints: `buf` backwards.
unfoldable pub print_int : ℕ → ℕ → ℕ → Bool → List ℕ
print_int letter xx base sign = reverse (int_buffer letter sign base xx)

-- printInt of console.c
abbrev pub kernel_print_int : ℕ → ℕ → Bool → List ℕ
kernel_print_int xx base sign = print_int b'a' xx base sign

-- printInt of printf.c
abbrev pub user_print_int : ℕ → ℕ → Bool → List ℕ
user_print_int xx base sign = print_int b'A' xx base sign

abbrev pub null_text : List ℕ
null_text = b'(' ∷ b'n' ∷ b'u' ∷ b'l' ∷ b'l' ∷ b')' ∷ []

-- The text at a word of the arguments: `texts` is what the memory has at a pointer.
abbrev pub text_of : (ℕ → List ℕ) → ℕ → List ℕ
text_of texts s = if s == 0 then null_text else texts s

-- What one `%c` takes from the arguments and prints, in cprintf; `none` is an argument that the
-- caller did not pass.
unfoldable pub directive : (ℕ → List ℕ) → ℕ → List ℕ → Option (List ℕ × List ℕ)
directive texts c args =
    if c == b'%'
    then some (b'%' ∷ [], args)
    else if not (c == b'd' || c == b'x' || c == b'p' || c == b's')
    then some (b'%' ∷ c ∷ [], args)
    else elim args [
      | [] ↦ none
      | a ∷ args' ↦ some (
        if c == b'd'
            then kernel_print_int a 10 true
            else if c == b's'
            then text_of texts a
            else kernel_print_int a 16 false,
        args',
      )
    ]

-- cprintf, for a format without its terminator.
unfoldable pub cprintf : (ℕ → List ℕ) → List ℕ → List ℕ → Option (List ℕ)
cprintf texts [] args = some []
cprintf texts (c ∷ []) args = if c == b'%' then some [] else some (c ∷ [])
cprintf texts (c ∷ d ∷ fmt) args =
    let plain = cprintf texts (d ∷ fmt) args in
    let after : List ℕ → Option (List ℕ) = (λ args'. cprintf texts fmt args') in
    if c == b'%'
    then elim (directive texts d args) [
      | none ↦ none
      | some r ↦ elim (after r.1) [ none ↦ none | some out ↦ some (r.0 ++ out) ]
    ]
    else elim plain [ none ↦ none | some out ↦ some (c ∷ out) ]

-- What one `%c` takes and prints in printf, which knows %c as well.
unfoldable pub user_directive : (ℕ → List ℕ) → ℕ → List ℕ → Option (List ℕ × List ℕ)
user_directive texts c args =
    if c == b'%'
    then some (b'%' ∷ [], args)
    else if not (c == b'd' || c == b'x' || c == b'p' || c == b's' || c == b'c')
    then some (b'%' ∷ c ∷ [], args)
    else elim args [
      | [] ↦ none
      | a ∷ args' ↦ some (
        if c == b'd'
            then user_print_int a 10 true
            else if c == b's'
            then text_of texts a
            else if c == b'c'
            then a % 256 ∷ []
            else user_print_int a 16 false,
        args',
      )
    ]

-- printf: the flag says whether `state` is '%'.
unfoldable pub printf : (ℕ → List ℕ) → Bool → List ℕ → List ℕ → Option (List ℕ)
printf texts state [] args = some []
printf texts state (c ∷ fmt) args =
    let next : Bool → List ℕ → Option (List ℕ) = (λ state' args'. printf texts state' fmt args') in
    if state
    then elim (user_directive texts c args) [
      | none ↦ none
      | some r ↦ elim (next false r.1) [ none ↦ none | some out ↦ some (r.0 ++ out) ]
    ]
    else if c == b'%'
    then next true args
    else elim (next false args) [ none ↦ none | some out ↦ some (c ∷ out) ]
