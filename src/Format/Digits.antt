-- ===== src/Format/Digits.antt =====
-- What the digits stand for, and how many there are.
use mathlib.Core.List.{reverse, reverse-append}
use systems_programming_a.Prelude.{
  ℕ, zero, suc, ◌+◌, ◌*◌, ◌/◌, ◌%◌, ◌^◌, ◌≤◌, ◌<◌, ◌≡◌, arith, ap, ◌∙◌, sym, Bool, true, false,
  List, [], ◌∷◌, ◌++◌, map, ◌==◌, if◌then◌else◌, All, length, Bool-cases, inl, inr, length-append,
  length-map, ◌⊎◌,
}
use systems_programming_a.Format.Defs.{
  print_int, digits_of, digit_char, is_minus, magnitude, int_buffer,
}

-- The number that digits stand for, the lowest first.
unfoldable pub value : ℕ → List ℕ → ℕ
value base [] = 0
value base (d ∷ ds) = d + base * value base ds

module _ (base : ℕ) (split : (x : ℕ) → x % base + base * (x / base) ≡ x)
    (small : (x : ℕ) → x % base < base)
    (shrink : (x m : ℕ) → x < base ^ suc m → x / base < base ^ m)
    (half : (x m : ℕ) → x < 2 ^ suc m → x / base < 2 ^ m)
    (stop : (x : ℕ) → x < base ^ 1 → x / base ≡ 0) where
  -- The fuel is enough for a number below a power of two.
  value-digits : (fuel x : ℕ) → x < 2 ^ fuel → value base (digits_of (suc fuel) base x) ≡ x
  unfolding digits_of value
  value-digits zero x h =
      let z : x / base ≡ 0 = omega (arith, half x 0 (omega arith)) in
      rw z (ap (λ q. x % base + base * q) (sym z) ∙ split x)
  value-digits (suc fuel) x h = elim (Bool-cases (x / base == 0)) [
    | inl e ↦
        let z : x / base ≡ 0 = ground arith in
        rw z (ap (λ q. x % base + base * q) (sym z) ∙ split x)
    | inr e ↦
        let q = half x fuel h in
        rw e (ap (λ q. x % base + base * q) (value-digits fuel (x / base) q) ∙ split x)
  ]

  digits_small : (fuel x : ℕ) → All (λ d. d < base) (digits_of fuel base x)
  unfolding digits_of
  digits_small zero x = tt
  digits_small (suc fuel) x = elim (Bool-cases (x / base == 0)) [
    | inl z ↦ rw z (small x, tt)
    | inr nz ↦ rw nz (small x, digits_small fuel (x / base))
  ]

  length-digits : (fuel x m : ℕ) → x < base ^ suc m → length (digits_of fuel base x) ≤ suc m
  unfolding digits_of
  length-digits zero x m h = omega arith
  length-digits (suc fuel) x zero h = rw (stop x h) (omega arith)
  length-digits (suc fuel) x (suc m) h = elim (Bool-cases (x / base == 0)) [
    | inl z ↦ rw z (omega arith)
    | inr nz ↦ rw nz (omega (arith, length-digits fuel (x / base) m (shrink x (suc m) h)))
  ]

fits : (sign : Bool) (xx : ℕ) → xx < 2 ^ 32 → magnitude sign xx < 2 ^ 32
fits sign xx h = ground arith

-- The digits of a number: what they stand for, that they are digits, and how many there are.
abbrev AreDigits : ℕ → ℕ → List ℕ → Type 0
AreDigits base x ds = (value base ds ≡ x) × All (λ d. d < base) ds × (length ds ≤ 10)

ten : (x : ℕ) → x < 2 ^ 32 → AreDigits 10 x (digits_of 33 10 x)
ten x h = (
  value-digits 10 (λ x. omega arith) (λ x. omega arith) (λ x m h. omega arith)
      (λ x m h. omega arith) (λ x h. omega arith) 32 x h,
  digits_small 10 (λ x. omega arith) (λ x. omega arith) (λ x m h. omega arith)
      (λ x m h. omega arith) (λ x h. omega arith) 33 x,
  length-digits 10 (λ x. omega arith) (λ x. omega arith) (λ x m h. omega arith)
      (λ x m h. omega arith) (λ x h. omega arith) 33 x 9 (omega arith),
)

sixteen : (x : ℕ) → x < 2 ^ 32 → AreDigits 16 x (digits_of 33 16 x)
sixteen x h = (
  value-digits 16 (λ x. omega arith) (λ x. omega arith) (λ x m h. omega arith)
      (λ x m h. omega arith) (λ x h. omega arith) 32 x h,
  digits_small 16 (λ x. omega arith) (λ x. omega arith) (λ x m h. omega arith)
      (λ x m h. omega arith) (λ x h. omega arith) 33 x,
  length-digits 16 (λ x. omega arith) (λ x. omega arith) (λ x m h. omega arith)
      (λ x m h. omega arith) (λ x h. omega arith) 33 x 9 (omega arith),
)

buffer_room :
    (letter : ℕ) (ds : List ℕ) (b : Bool)
    → length ds ≤ 10
    → length (map (digit_char letter) ds ++ (if b then b'-' ∷ [] else [])) ≤ 16
buffer_room letter ds b h =
    let m : length (map (digit_char letter) ds) ≡ length ds = length-map ds (digit_char letter) in
    ground (arith, length-append {0} (map (digit_char letter) ds) (if b then b'-' ∷ [] else []))

buffer_reversed :
    (cs : List ℕ) (b : Bool)
    → reverse (cs ++ (if b then b'-' ∷ [] else [])) ≡ (if b then b'-' ∷ [] else []) ++ reverse cs
buffer_reversed cs true = reverse-append cs (b'-' ∷ [])
buffer_reversed cs false = reverse-append cs []

some_digit : (fuel base x : ℕ) → 0 < length (digits_of (suc fuel) base x)
unfolding digits_of
some_digit fuel base x = omega arith

-- The text that printInt prints for a word, in base 10 or 16: a minus for a negative number, and
-- then at least one digit, the digits, the highest first, standing for the number's magnitude. The
-- array of 16 characters has room for all of them.
pub print_int_lem :
    (letter base xx : ℕ) (sign : Bool)
    → (base ≡ 10) ⊎ (base ≡ 16)
    → xx < 2 ^ 32
    → (ds : List ℕ) × (print_int letter xx base sign
        ≡ (if is_minus sign xx then b'-' ∷ [] else []) ++ reverse (map (digit_char letter) ds))
      × (value base ds ≡ magnitude sign xx)
      × All (λ d. d < base) ds
      × (length (int_buffer letter sign base xx) ≤ 16)
      × (0 < length ds)
unfolding print_int int_buffer
print_int_lem letter base xx sign b h =
    let ds = digits_of 33 base (magnitude sign xx) in
    let (v, s, l) = found b in
    (
      ds,
      buffer_reversed (map (digit_char letter) ds) (is_minus sign xx),
      v,
      s,
      buffer_room letter ds (is_minus sign xx) l,
      some_digit 32 base (magnitude sign xx),
    )
  where
    found :
        (base ≡ 10) ⊎ (base ≡ 16)
        → AreDigits base (magnitude sign xx) (digits_of 33 base (magnitude sign xx))
    found (inl e) = rw e (ten (magnitude sign xx) (fits sign xx h))
    found (inr e) = rw e (sixteen (magnitude sign xx) (fits sign xx h))
