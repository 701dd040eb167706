-- ===== src/Ulib/Numbers.antt =====
-- atoi and the numbers that printf prints.
use mathlib.Core.List.{reverse, reverse-cons, append-nil}
use systems_programming_a.Prelude.{
  append_assoc, ℕ, ◌+◌, ◌%◌, ◌^◌, ◌<◌, ◌≡◌, ◌∙◌, refl, ap, arith, false, All, some, inl, List, [],
  ◌∷◌, ◌++◌, map, true, ltb, if◌then◌else◌, Bool-cases, inr,
}
use systems_programming_a.Format.{
  digit_char, is_minus, user_print_int, user_directive, printf, value, print_int_lem,
}
use systems_programming_a.Ulib.Defs.{atoi_from, atoi}

-- Digits, the lowest first, read backwards.
atoi_from-digits :
    (ds t : List ℕ)
    → All (λ d. d < 10) ds
    → atoi_from 0 (reverse (map (digit_char b'A') ds) ++ t) ≡ atoi_from (value 10 ds % 2 ^ 32) t
unfolding value atoi_from
atoi_from-digits [] t h = refl
atoi_from-digits (d ∷ ds) t h =
    let c = digit_char b'A' d in
    let r = atoi_from-digits ds (c ∷ t) h.1 in
    let e : c ≡ b'0' + d = ground (arith, h.0) in
    ap (λ l. atoi_from 0 (l ++ t)) (reverse-cons c (map (digit_char b'A') ds))
    ∙ ap (atoi_from 0) (append_assoc (reverse (map (digit_char b'A') ds)) (c ∷ []) t)
    ∙ r
    ∙ ground (arith, h.0)

-- What printf prints for `%d` and a word is what printInt prints with its sign.
printf-d :
    (texts : ℕ → List ℕ) (x : ℕ)
    → printf texts false (b'%' ∷ b'd' ∷ []) (x ∷ []) ≡ some (user_print_int x 10 true)
unfolding printf user_directive
printf-d texts x = ap some (append-nil (user_print_int x 10 true))

-- printf with `%d` and a word prints a text that atoi, with a terminator behind it, reads back as the
-- word, if the word stands for a number that is not negative, and reads as 0 otherwise.
pub atoi-printf :
    (texts : ℕ → List ℕ) (x : ℕ) (r : List ℕ)
    → x < 2 ^ 32
    → (cs : List ℕ) × (printf texts false (b'%' ∷ b'd' ∷ []) (x ∷ []) ≡ some cs)
      × (atoi (cs ++ (0 ∷ r)) ≡ some (if ltb x (2 ^ 31) then x else 0))
unfolding atoi atoi_from
atoi-printf texts x r h =
    let (ds, e, v, a, l, z) = print_int_lem b'A' 10 x true (inl refl) h in
    (
      user_print_int x 10 true,
      printf-d texts x,
      ap (λ cs. atoi_from 0 (cs ++ (0 ∷ r))) e ∙ elim (Bool-cases (ltb x (2 ^ 31))) [
        | inl b ↦
            let m : is_minus true x ≡ false = ground arith in
            rw (m, b)
              (atoi_from-digits ds (0 ∷ r) a
                ∙ ap some (ap (λ y. y % 2 ^ 32) (rw m at v) ∙ omega (arith, h)))
        | inr b ↦ let m : is_minus true x ≡ true = ground arith in rw (m, b) refl
      ],
    )
