-- ===== src/Shell/Tokens.antt =====
-- What gettoken and peek find in a line.
use systems_programming_a.Prelude.{
  ℕ, ◌+◌, ◌≡◌, ◌≢◌, refl, ap, ◌∙◌, arith, true, false, not, ◌&&◌, List, [], ◌∷◌, ◌++◌, ◌==◌, length,
  All,
}
use systems_programming_a.Shell.Defs.{
  contains, whitespace, symbols, skip_from, skip, word_from, word, scan_token, gettoken,
}

abbrev pub IsBlank : List ℕ → Type 0
IsBlank cs = All (λ c. contains whitespace c ≡ true) cs

-- A character of a word: no blank, no symbol and no terminator.
abbrev pub IsPlain : ℕ → Type 0
IsPlain c = (contains whitespace c ≡ false) × (contains symbols c ≡ false) × (c ≢ 0)

-- What stops a run of blanks.
abbrev pub Stops : List ℕ → Type 0
Stops [] = Unit
Stops (c ∷ cs) = contains whitespace c ≡ false

-- What ends a word.
abbrev pub EndsWord : List ℕ → Type 0
EndsWord [] = Unit
EndsWord (c ∷ cs) = (not (contains whitespace c) && not (contains symbols c)) ≡ false

skip_from_lem :
    (n : ℕ) (bs r : List ℕ)
    → IsBlank bs
    → Stops r
    → skip_from n (bs ++ r) ≡ record { offset = n + length bs; rest = r }
unfolding skip_from
skip_from_lem n [] [] h s = ground arith
skip_from_lem n [] (c ∷ r) h s = rw s (ground arith)
skip_from_lem n (b ∷ bs) r h s = rw h.0 (skip_from_lem (n + 1) bs r h.1 s ∙ ground arith)

word_from_lem :
    (n : ℕ) (w r : List ℕ)
    → All IsPlain w
    → EndsWord r
    → word_from n (w ++ r) ≡ record { offset = n + length w; rest = r }
unfolding word_from
word_from_lem n [] [] h s = ground arith
word_from_lem n [] (c ∷ r) h s = rw s (ground arith)
word_from_lem n (b ∷ w) r h s = rw (h.0.0, h.0.1) (word_from_lem (n + 1) w r h.1 s ∙ ground arith)

skip_lem :
    (n : ℕ) (bs r : List ℕ)
    → IsBlank bs
    → Stops r
    → skip (record { offset = n; rest = bs ++ r }) ≡ record { offset = n + length bs; rest = r }
unfolding skip
skip_lem n bs r h s = skip_from_lem n bs r h s

-- "|();&<"
abbrev pub one_char : List ℕ
one_char = b'|' ∷ b'(' ∷ b')' ∷ b';' ∷ b'&' ∷ b'<' ∷ []

plain_tests :
    (c : ℕ) → IsPlain c → ((c == 0) ≡ false) × (contains one_char c ≡ false) × ((c == b'>') ≡ false)
unfolding contains
plain_tests c h = let s = h.1 in let z = h.2 in (ground arith, ground arith, ground arith)

symbol_tests :
    (c : ℕ) → contains one_char c ≡ true → ((c == 0) ≡ false) × (contains whitespace c ≡ false)
unfolding contains
symbol_tests c h = (ground arith, ground arith)

scan_token-word :
    (n c : ℕ) (w r : List ℕ)
    → All IsPlain (c ∷ w)
    → EndsWord r
    → scan_token (record { offset = n; rest = c ∷ (w ++ r) })
      ≡ (b'a', record { offset = n + length (c ∷ w); rest = r })
unfolding scan_token word
scan_token-word n c w r h e =
    let (z, o, g) = plain_tests c h.0 in
    rw (z, o, g) (ap (λ t. (b'a', t)) (word_from_lem n (c ∷ w) r h e))

scan_token-symbol :
    (n c : ℕ) (r : List ℕ)
    → contains one_char c ≡ true
    → scan_token (record { offset = n; rest = c ∷ r }) ≡ (c, record { offset = n + 1; rest = r })
unfolding scan_token
scan_token-symbol n c r h = rw ((symbol_tests c h).0, h) refl

-- gettoken at blanks, a word and blanks again, where what follows the word ends it and what follows
-- the blanks is none: the value is 'a', the two pointers are the start and the end of the word, and
-- the cursor stands behind the blanks.
pub gettoken-word :
    (n c : ℕ) (bs w cs r : List ℕ)
    → IsBlank bs
    → All IsPlain (c ∷ w)
    → IsBlank cs
    → EndsWord (cs ++ r)
    → Stops r
    → gettoken (record { offset = n; rest = bs ++ (c ∷ (w ++ (cs ++ r))) }) ≡ record {
      kind = b'a';
      q = n + length bs;
      eq = n + length bs + length (c ∷ w);
      after = record { offset = n + length bs + length (c ∷ w) + length cs; rest = r };
    }
unfolding gettoken
gettoken-word n c bs w cs r h p k e t =
    rw
      (
        skip_lem n bs (c ∷ (w ++ (cs ++ r))) h p.0.0,
        scan_token-word (n + length bs) c w (cs ++ r) p e,
        skip_lem (n + length bs + length (c ∷ w)) cs r k t,
      )
      refl

-- gettoken at blanks, one of the symbols | ( ) ; & < and blanks again, with no blank behind them:
-- the value is the symbol, the two pointers enclose it, and the cursor stands behind the blanks.
pub gettoken-symbol :
    (n c : ℕ) (bs cs r : List ℕ)
    → IsBlank bs
    → contains one_char c ≡ true
    → IsBlank cs
    → Stops r
    → gettoken (record { offset = n; rest = bs ++ (c ∷ (cs ++ r)) }) ≡ record {
      kind = c;
      q = n + length bs;
      eq = n + length bs + 1;
      after = record { offset = n + length bs + 1 + length cs; rest = r };
    }
unfolding gettoken
gettoken-symbol n c bs cs r h p k t =
    rw
      (
        skip_lem n bs (c ∷ (cs ++ r)) h (symbol_tests c p).1,
        scan_token-symbol (n + length bs) c (cs ++ r) p,
        skip_lem (n + length bs + 1) cs r k t,
      )
      refl
