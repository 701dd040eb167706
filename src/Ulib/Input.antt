-- ===== src/Ulib/Input.antt =====
-- What gets stores.
use systems_programming_a.Prelude.{
  ℕ, zero, suc, ◌+◌, ◌-◌, ◌<◌, ◌≤◌, ◌≡◌, ◌∙◌, refl, ap, arith, ◌||◌, ◌==◌, List, [], ◌∷◌, ◌++◌,
  some, length, append_assoc, Bool-cases, inl, inr,
}
use systems_programming_a.Ulib.Defs.{gets_loop, store_chars, gets}

gets_loop_lem :
    (n : ℕ) (input : List ℕ)
    → ((gets_loop n input).0 ++ (gets_loop n input).1 ≡ input) × (length (gets_loop n input).0 ≤ n)
unfolding gets_loop
gets_loop_lem zero input = (refl, omega arith)
gets_loop_lem (suc n) [] = (refl, omega arith)
gets_loop_lem (suc n) (c ∷ input) =
    let (r, l) = gets_loop_lem n input in
    elim (Bool-cases (c == b'\n' || c == b'\r')) [
      | inl e ↦ rw e (refl, omega arith)
      | inr e ↦ rw e (ap (λ cs. c ∷ cs) r, omega (arith, l))
    ]

store_chars_lem :
    (buf cs : List ℕ)
    → length cs ≤ length buf
    → (r : List ℕ) × (store_chars buf cs ≡ some (cs ++ r))
unfolding store_chars
store_chars_lem buf [] h = (buf, refl)
store_chars_lem [] (c ∷ cs) h = absurd (omega arith)
store_chars_lem (b ∷ buf) (c ∷ cs) h =
    let (r, e) = store_chars_lem buf cs (omega arith) in (r, rw e refl)

length-closed : (cs : List ℕ) → length (cs ++ (0 ∷ [])) ≡ length cs + 1
length-closed [] = refl
length-closed (c ∷ cs) = omega (arith, length-closed cs)

-- gets with a buffer of at least `max` bytes, and at least one: it stays inside the buffer, stores the
-- first characters of the input, fewer than `max`, and a terminator behind them, and leaves the others
-- to be read.
pub gets_lem :
    (buf : List ℕ) (max : ℕ) (input : List ℕ)
    → 0 < max
    → max ≤ length buf
    → (cs : List ℕ) × (rest : List ℕ) × (r : List ℕ) × (gets buf max input
        ≡ (some (cs ++ (0 ∷ r)), rest))
      × (cs ++ rest ≡ input)
      × (length cs < max)
unfolding gets
gets_lem buf max input p l =
    let cs = (gets_loop (max - 1) input).0 in
    let rest = (gets_loop (max - 1) input).1 in
    let (e, k) = gets_loop_lem (max - 1) input in
    let (r, s) = store_chars_lem buf (cs ++ (0 ∷ [])) (omega (arith, length-closed cs, k, p, l)) in
    (
      cs,
      rest,
      r,
      ap (λ o. (o, rest)) (s ∙ ap some (append_assoc cs (0 ∷ []) r)),
      e,
      omega (arith, k, p),
    )
