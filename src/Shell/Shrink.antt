-- ===== src/Shell/Shrink.antt =====
-- How much of the line gettoken and peek take.
use systems_programming_a.Prelude.{
  ℕ, ◌+◌, ◌<◌, ◌≤◌, ◌≡◌, ◌≢◌, refl, ap, ◌∙◌, sym, arith, true, false, List, [], ◌∷◌, ◌==◌, length,
  Bool-cases, inl, inr,
}
use systems_programming_a.Shell.Defs.{
  Cursor, at, contains, whitespace, symbols, skip_from, skip, word_from, word, next_char,
  scan_token, gettoken, peek,
}
use systems_programming_a.Shell.Tokens.{one_char, Stops}

-- What is left of the line at a cursor.
abbrev pub left : Cursor → ℕ
left s = length s.rest

skip_from-left : (n : ℕ) (cs : List ℕ) → left (skip_from n cs) ≤ length cs
unfolding skip_from
skip_from-left n [] = omega arith
skip_from-left n (c ∷ cs) = ground (arith, skip_from-left (n + 1) cs)

word_from-left : (n : ℕ) (cs : List ℕ) → left (word_from n cs) ≤ length cs
unfolding word_from
word_from-left n [] = omega arith
word_from-left n (c ∷ cs) = ground (arith, word_from-left (n + 1) cs)

pub skip-left : (s : Cursor) → left (skip s) ≤ left s
unfolding skip
skip-left s = skip_from-left s.offset s.rest

skip_from-again : (n : ℕ) (cs : List ℕ) → let r = skip_from n cs in skip_from r.offset r.rest ≡ r
unfolding skip_from
skip_from-again n [] = refl
skip_from-again n (c ∷ cs) = elim (Bool-cases (contains whitespace c)) [
  | inl e ↦ rw e (skip_from-again (n + 1) cs)
  | inr e ↦ rw (e, e) refl
]

skip-skip : (s : Cursor) → skip (skip s) ≡ skip s
unfolding skip
skip-skip s = skip_from-again s.offset s.rest

skip_from-Stops : (n : ℕ) (cs : List ℕ) → Stops (skip_from n cs).rest
unfolding skip_from
skip_from-Stops n [] = tt
skip_from-Stops n (c ∷ cs) = elim (Bool-cases (contains whitespace c)) [
  | inl b ↦ rw b (skip_from-Stops (n + 1) cs)
  | inr b ↦ rw b b
]

skip-Stops : (s : Cursor) → Stops (skip s).rest
unfolding skip
skip-Stops s = skip_from-Stops s.offset s.rest

-- A character that is neither a blank nor one of the tokens' characters is no symbol.
symbol_cases :
    (c : ℕ) → contains one_char c ≡ false → (c == b'>') ≡ false → contains symbols c ≡ false
unfolding contains
symbol_cases c h k = ground arith

word_from-takes :
    (n c : ℕ) (cs : List ℕ)
    → contains whitespace c ≡ false
    → contains symbols c ≡ false
    → left (word_from n (c ∷ cs)) ≤ length cs
unfolding word_from
word_from-takes n c cs h k = rw (h, k) (word_from-left (n + 1) cs)

next_char-left :
    (n : ℕ) (cs : List ℕ) → left (next_char (record { offset = n; rest = cs })) ≤ length cs
next_char-left n [] = omega arith
next_char-left n (c ∷ cs) = omega arith

scan_token-arrow :
    (n c : ℕ) (cs : List ℕ)
    → (c == b'>') ≡ true
    → left (scan_token (record { offset = n; rest = c ∷ cs })).1 ≤ length cs
unfolding scan_token contains
scan_token-arrow n c cs g =
    let q : c ≡ b'>' = ground arith in
    elim (Bool-cases (at (record { offset = n + 1; rest = cs }) == b'>')) [
      | inl e ↦ rw (q, e) (next_char-left (n + 1) cs)
      | inr e ↦ rw (q, e) (omega arith)
    ]

-- At a character that is not a blank, a token takes something.
scan_token-takes :
    (n : ℕ) (cs : List ℕ)
    → Stops cs
    → at (record { offset = n; rest = cs }) ≢ 0
    → left (scan_token (record { offset = n; rest = cs })).1 < length cs
unfolding scan_token word
scan_token-takes n [] b z = absurd (z refl)
scan_token-takes n (c ∷ cs) b z =
    let nz : (c == 0) ≡ false = ground arith in
    elim (Bool-cases (contains one_char c)) [
      | inl o ↦ rw (nz, o) (omega arith)
      | inr o ↦ elim (Bool-cases (c == b'>')) [
        | inl g ↦ omega (arith, scan_token-arrow n c cs g)
        | inr g ↦ rw (nz, o, g) (omega (arith, word_from-takes n c cs b (symbol_cases c o g)))
      ]
    ]

scan_token-left :
    (n : ℕ) (cs : List ℕ) → left (scan_token (record { offset = n; rest = cs })).1 ≤ length cs
unfolding scan_token word
scan_token-left n [] = omega arith
scan_token-left n (c ∷ cs) = elim (Bool-cases (c == 0)) [
  | inl z ↦ rw z (omega arith)
  | inr nz ↦ elim (Bool-cases (contains one_char c)) [
    | inl o ↦ rw (nz, o) (omega arith)
    | inr o ↦ elim (Bool-cases (c == b'>')) [
      | inl g ↦ omega (arith, scan_token-arrow n c cs g)
      | inr g ↦ rw (nz, o, g) (word_from-left n (c ∷ cs))
    ]
  ]
]

scan_token-end : (s : Cursor) → at s ≡ 0 → (scan_token s).0 ≡ 0
unfolding scan_token
scan_token-end s z = let e : (at s == 0) ≡ true = ground arith in rw e refl

pub gettoken-left : (s : Cursor) → left (gettoken s).after ≤ left s
unfolding gettoken
gettoken-left s = omega (
  arith,
  skip-left (scan_token (skip s)).1,
  scan_token-left (skip s).offset (skip s).rest,
  skip-left s,
)

-- A token at a character takes something.
gettoken-takes : (s : Cursor) → at (skip s) ≢ 0 → left (gettoken s).after < left s
unfolding gettoken
gettoken-takes s z = omega (
  arith,
  skip-left (scan_token (skip s)).1,
  scan_token-takes (skip s).offset (skip s).rest (skip-Stops s) z,
  skip-left s,
)

-- A token that is not the end of the line takes something.
pub gettoken-kind :
    (s : Cursor) → ((gettoken s).kind == 0) ≡ false → left (gettoken s).after < left s
unfolding gettoken
gettoken-kind s k = gettoken-takes s (λ z. ground (arith, scan_token-end (skip s) z))

pub peek-left : (s : Cursor) (toks : List ℕ) → left (peek s toks).0 ≤ left s
unfolding peek
peek-left s toks = skip-left s

-- A token that peek has found takes something.
pub peek-takes :
    (s : Cursor) (toks : List ℕ)
    → (peek s toks).1 ≡ true
    → left (gettoken (peek s toks).0).after < left s
unfolding peek
peek-takes s toks e = omega (
  arith,
  skip-left s,
  gettoken-takes (skip s)
      (λ z. let q : at (skip s) ≡ 0 = sym (ap at (skip-skip s)) ∙ z in ground arith),
)
