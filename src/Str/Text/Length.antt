-- ===== src/Str/Text/Length.antt =====
-- What strlen and strchr find.
use systems_programming_a.Prelude.{
  ℕ, ◌≡◌, ◌≢◌, inl, inr, refl, arith, none, some, List, [], ◌∷◌, ◌++◌, ◌==◌, Bool-cases,
  Option-cases, length, All,
}
use systems_programming_a.Str.Text.{IsText, strlen, strchr}

-- strlen counts the bytes before the first terminator.
pub strlen_text : (cs r : List ℕ) → IsText cs → strlen (cs ++ (0 ∷ r)) ≡ some (length cs)
unfolding strlen
strlen_text [] r h = refl
strlen_text (c ∷ cs) r h = ground (arith, strlen_text cs r h.1)

-- If strlen returns n, then the object begins with a text of n characters and its terminator.
pub strlen_sound :
    (s : List ℕ) (n : ℕ)
    → strlen s ≡ some n
    → (cs : List ℕ) × (r : List ℕ) × (s ≡ cs ++ (0 ∷ r)) × IsText cs × (length cs ≡ n)
unfolding strlen
strlen_sound [] n e = cc
strlen_sound (c ∷ s) n e = elim (Bool-cases (c == 0)) [
  | inl z ↦ ([], s, ground arith, tt, ground arith)
  | inr nz ↦ elim (Option-cases (strlen s)) [
    | inl f ↦ ground arith
    | inr (k, f) ↦
        let (cs, r, p, q, l) = strlen_sound s k f in
        (c ∷ cs, r, ground arith, ground arith, ground arith)
  ]
]

-- strchr at a text.
pub strchr_text :
    (cs r : List ℕ) (c : ℕ) (ds : List ℕ)
    → IsText cs
    → All (λ d. d ≢ c) cs
    → c ≢ 0
    → (strchr (cs ++ (0 ∷ r)) c ≡ some none) × (strchr (cs ++ (c ∷ ds)) c ≡ some (some (length cs)))
unfolding strchr
strchr_text [] r c ds h k z = ground arith
strchr_text (d ∷ cs) r c ds h k z = ground (arith, strchr_text cs r c ds h.1 k.1 z)
