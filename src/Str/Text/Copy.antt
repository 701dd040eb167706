-- ===== src/Str/Text/Copy.antt =====
-- What the copies write.
use systems_programming_a.Prelude.{
  ℕ, zero, suc, ◌+◌, ◌-◌, ◌≤◌, ◌<◌, ◌≡◌, refl, arith, none, some, List, [], ◌∷◌, ◌++◌,
  if◌then◌else◌, ltb, length, take, drop,
}
use systems_programming_a.Str.Text.{IsText, strcpy, safe_copy, safestrcpy}

-- strcpy of a terminated text writes it and its terminator and leaves what lies behind them if the
-- destination has room for both, and runs past the end of the destination otherwise.
pub strcpy_lem :
    (dst cs r : List ℕ)
    → IsText cs
    → strcpy dst (cs ++ (0 ∷ r))
      ≡ (if ltb (length cs) (length dst) then some (cs ++ (0 ∷ drop (length cs + 1) dst)) else none)
unfolding strcpy
strcpy_lem [] [] r h = refl
strcpy_lem [] (c ∷ cs) r h = ground arith
strcpy_lem (d ∷ dst) [] r h = ground arith
strcpy_lem (d ∷ dst) (c ∷ cs) r h = ground (arith, strcpy_lem dst cs r h.1)

safe_copy_lem :
    (dst cs r : List ℕ) (n : ℕ)
    → IsText cs
    → n < length dst
    → (rest : List ℕ) × (safe_copy dst (cs ++ (0 ∷ r)) n ≡ some (take n cs ++ (0 ∷ rest)))
      × (length (take n cs ++ (0 ∷ rest)) ≡ length dst)
      × (drop (n + 1) (take n cs ++ (0 ∷ rest)) ≡ drop (n + 1) dst)
unfolding safe_copy
safe_copy_lem [] cs r n h k = absurd (omega arith)
safe_copy_lem (d ∷ dst) cs r zero h k = (dst, refl, refl, ground arith)
safe_copy_lem (d ∷ []) cs r (suc n) h k = absurd (omega arith)
safe_copy_lem (d ∷ e ∷ dst) [] r (suc n) h k = (0 ∷ dst, refl, refl, ground arith)
safe_copy_lem (d ∷ e ∷ dst) (c ∷ cs) r (suc n) h k =
    let (rest, p, q, s) = safe_copy_lem (e ∷ dst) cs r n h.1 (omega arith) in
    (rest, ground arith, ground arith, ground arith)

-- safestrcpy of a terminated text with a count n of at least 1 and of at most the size of the
-- destination stays inside the destination, stores the first n - 1 characters of the text, or all
-- if there are fewer, and a terminator, and leaves what lies from the n-th byte on.
pub safestrcpy_lem :
    (dst cs r : List ℕ) (n : ℕ)
    → IsText cs
    → 0 < n
    → n ≤ length dst
    → (rest : List ℕ) × (safestrcpy dst (cs ++ (0 ∷ r)) n ≡ some (take (n - 1) cs ++ (0 ∷ rest)))
      × (length (take (n - 1) cs ++ (0 ∷ rest)) ≡ length dst)
      × (drop n (take (n - 1) cs ++ (0 ∷ rest)) ≡ drop n dst)
unfolding safestrcpy
safestrcpy_lem dst cs r zero h z k = absurd (omega arith)
safestrcpy_lem dst cs r (suc n) h z k =
    let (rest, p, q, s) = safe_copy_lem dst cs r n h (omega arith) in
    (rest, ground arith, ground arith, ground arith)
