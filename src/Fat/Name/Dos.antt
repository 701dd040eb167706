-- ===== src/Fat/Name/Dos.antt =====
-- What toDosFileName makes of a name.
use mathlib.Core.List.{append_assoc}
use systems_programming_a.Prelude.{
  ℕ, zero, suc, ◌+◌, ◌-◌, ◌≤◌, ◌<◌, ◌≡◌, ◌≢◌, refl, ap, ◌∙◌, sym, arith, ◌⊎◌, inl, inr, some, false,
  List, [], ◌∷◌, ◌++◌, map, ◌==◌, if◌then◌else◌, set, length, replicate, drop, All, Bool-cases,
  Option-cases, length-append, length-map, length-replicate,
}
use systems_programming_a.Str.Text.{strlen}
use systems_programming_a.Fat.Name.Defs.{
  dot, space, to_upper, copy_base, copy_extension, add_extension, blank, to_dos_file_name, head_is,
  ◌>>=◌,
}

-- The characters of the first part of a name: no terminator and no dot.
abbrev pub IsBase : List ℕ → Type 0
IsBase b = All (λ c. (c ≢ 0) × (c ≢ dot)) b

-- The bytes xs stored one after the other from the index i on.
pub write : List ℕ → ℕ → List ℕ → List ℕ
write name i [] = name
write name i (x ∷ xs) = write (set name i x) (i + 1) xs

set-append :
    (xs ys : List ℕ) (i k v : ℕ) → i ≡ length xs + k → set (xs ++ ys) i v ≡ xs ++ set ys k v
set-append [] ys i k v e = ap (λ i. set ys i v) (omega arith)
set-append (x ∷ xs) ys zero k v e = absurd (omega arith)
set-append (x ∷ xs) ys (suc i) k v e = ap (λ t. x ∷ t) (set-append xs ys i k v (omega arith))

write-replicate :
    (xs ys t : List ℕ) (i n m s : ℕ)
    → i ≡ length xs
    → n ≡ length ys + m
    → write (xs ++ (replicate n s ++ t)) i ys ≡ xs ++ (ys ++ (replicate m s ++ t))
unfolding write
write-replicate xs [] t i n m s e f = ap (λ n. xs ++ (replicate n s ++ t)) (omega arith)
write-replicate xs (y ∷ ys) t i zero m s e f = absurd (omega arith)
write-replicate xs (y ∷ ys) t i (suc n) m s e f =
    rw (set-append xs (s ∷ (replicate n s ++ t)) i 0 y (omega arith)) (
      rw (← append_assoc xs (y ∷ []) (replicate n s ++ t)) (
        write-replicate (xs ++ (y ∷ [])) ys t (i + 1) n m s
          (omega (arith, length-append {0} xs (y ∷ []))) (omega arith)
        ∙ append_assoc xs (y ∷ []) (ys ++ (replicate m s ++ t))))

-- The first loop stops at a dot, or at the end of the text.
copy_base_lem :
    (b cs : List ℕ) (c len i : ℕ) (name : List ℕ)
    → IsBase b
    → i + length b ≤ 8
    → (c ≡ dot) × (i + length b < len) ⊎ (len ≡ i + length b)
    → i + length b ≤ len
    → copy_base len 11 i (b ++ (c ∷ cs)) name ≡ some (c ∷ cs, write name i (map to_upper b))
unfolding copy_base write
copy_base_lem [] cs c len i name h l e k = ground arith
copy_base_lem (d ∷ b) cs c len i name h l e k =
    ground (arith, copy_base_lem b cs c len (i + 1) (set name i (to_upper d)) h.1)

-- The byte of the name for a byte of the extension.
abbrev pub field : ℕ → ℕ
field d = if d == 0 then space else to_upper d

field-step :
    (d : ℕ) (xs u v : List ℕ) (i : ℕ)
    → i ≡ length xs + length u
    → (if d == 0 then xs ++ (u ++ (space ∷ v)) else set (xs ++ (u ++ (space ∷ v))) i (to_upper d))
      ≡ xs ++ (u ++ (field d ∷ v))
field-step d xs u v i e = elim (Bool-cases (d == 0)) [
  | inl z ↦ rw z
  | inr n ↦ rw n (
      set-append xs (u ++ (space ∷ v)) i (length u) (to_upper d) e
      ∙ ap (λ t. xs ++ t) (set-append u (space ∷ v) (length u) 0 (to_upper d) (omega arith)))
]

copy_extension_lem :
    (x y z : ℕ) (r xs t : List ℕ)
    → length xs ≡ 8
    → copy_extension 3 0 (dot ∷ x ∷ y ∷ z ∷ r) (xs ++ (space ∷ space ∷ space ∷ t))
      ≡ some (xs ++ (field x ∷ field y ∷ field z ∷ t))
unfolding copy_extension
copy_extension_lem x y z r xs t h =
    let first = field-step x xs [] (space ∷ space ∷ t) 8 (omega arith) in
    let second = field-step y xs (field x ∷ []) (space ∷ t) 9 (omega arith) in
    let third = field-step z xs (field x ∷ field y ∷ []) t 10 (omega arith) in
    ap (λ n. some (extend z 10 (extend y 9 n))) first
    ∙ ap (λ n. some (extend z 10 n)) second
    ∙ ap some third
  where
    extend : ℕ → ℕ → List ℕ → List ℕ
    extend d i n = if d == 0 then n else set n i (to_upper d)

strlen-append :
    (b s : List ℕ) (n : ℕ)
    → IsBase b
    → strlen (b ++ s) ≡ some n
    → (m : ℕ) × (strlen s ≡ some m) × (n ≡ length b + m)
unfolding strlen
strlen-append [] s n h e = (n, e, omega arith)
strlen-append (c ∷ b) s n h e = elim (Option-cases (strlen (b ++ s))) [
  | inl f ↦ ground arith
  | inr (k, f) ↦ let (m, p, q) = strlen-append b s k h.1 f in (m, p, ground arith)
]

replicate-add :
    (n m s : ℕ) (t : List ℕ) → replicate (n + m) s ++ t ≡ replicate n s ++ (replicate m s ++ t)
replicate-add zero m s t = ap (λ k. replicate k s ++ t) (omega arith)
replicate-add (suc n) m s t =
    ap (λ k. replicate k s ++ t) (add-suc_left n m) ∙ ap (λ l. s ∷ l) (replicate-add n m s t)
  where
    add-suc_left : (n m : ℕ) → suc n + m ≡ suc (n + m)
    add-suc_left n m = omega arith

-- The name before the extension: capitals, then blanks up to the eighth byte.
pub base_field : List ℕ → List ℕ
base_field b = map to_upper b ++ replicate (8 - length b) space

length-base_field : (b : List ℕ) → length b ≤ 8 → length (base_field b) ≡ 8
unfolding base_field
length-base_field b h = omega (
  arith,
  length-append {0} (map to_upper b) (replicate (8 - length b) space),
  length-map {0, 0} b to_upper,
  length-replicate {0} (8 - length b) space,
)

-- What the first loop leaves in the name.
base_written :
    (b t : List ℕ)
    → length b ≤ 8
    → write (replicate 11 space ++ t) 0 (map to_upper b)
      ≡ base_field b ++ (space ∷ space ∷ space ∷ t)
unfolding base_field
base_written b t h =
    write-replicate [] (map to_upper b) t 0 11 (8 - length b + 3) space refl
      (omega (arith, length-map {0, 0} b to_upper))
    ∙ ap (λ l. map to_upper b ++ l) (replicate-add (8 - length b) 3 space t)
    ∙ sym
        (append_assoc (map to_upper b) (replicate (8 - length b) space) (space ∷ space ∷ space ∷ t))

-- A name that does not begin with a dot goes through both loops.
to_dos_file_name_general :
    (f converted : List ℕ) (len : ℕ)
    → strlen f ≡ some len
    → head_is dot f ≡ false
    → to_dos_file_name f converted 11
      ≡ (copy_base len 11 0 f (blank 11 converted) >>= λ r. add_extension r.0 r.1)
unfolding to_dos_file_name
to_dos_file_name_general f converted len e h = rw e (ground arith)

base-head : (b cs : List ℕ) → IsBase b → 1 ≤ length b → head_is dot (b ++ cs) ≡ false
base-head [] cs h l = absurd (omega arith)
base-head (c ∷ b) cs h l = ground arith

add_extension-dot :
    (cs name : List ℕ) → add_extension (dot ∷ cs) name ≡ copy_extension 3 0 (dot ∷ cs) name
unfolding add_extension
add_extension-dot cs name = refl

strlen-positive : (s : List ℕ) (m : ℕ) → strlen (dot ∷ s) ≡ some m → 1 ≤ m
unfolding strlen
strlen-positive s m e = elim (Option-cases (strlen s)) [
  | inl f ↦ ground arith
  | inr (k, f) ↦ ground arith
]

-- A terminated name with a first part of 1 to 8 characters, none of them a dot, and then a dot with
-- at least three bytes of memory behind it, in a conversion of length 11: the first part in
-- capitals, blanks up to the eighth byte, and the three bytes that follow the dot in memory, also
-- those behind a terminator, in capitals and with blanks for zeros; what lies behind the eleventh
-- byte stays.
pub to_dos_file_name_extension :
    (b r converted : List ℕ) (x y z n : ℕ)
    → IsBase b
    → 1 ≤ length b
    → length b ≤ 8
    → strlen (b ++ (dot ∷ x ∷ y ∷ z ∷ r)) ≡ some n
    → to_dos_file_name (b ++ (dot ∷ x ∷ y ∷ z ∷ r)) converted 11
      ≡ some (base_field b ++ (field x ∷ field y ∷ field z ∷ drop 11 converted))
to_dos_file_name_extension b r converted x y z n h l k e =
    let (m, p, q) = strlen-append b (dot ∷ x ∷ y ∷ z ∷ r) n h e in
    let pos = strlen-positive (x ∷ y ∷ z ∷ r) m p in
    to_dos_file_name_general (b ++ (dot ∷ x ∷ y ∷ z ∷ r)) converted n e (base-head b _ h l)
    ∙ ap (λ o. o >>= λ r. add_extension r.0 r.1)
        (copy_base_lem b (x ∷ y ∷ z ∷ r) dot n 0 (blank 11 converted) h (omega arith)
          (inl (refl, omega arith)) (omega arith))
    ∙ add_extension-dot (x ∷ y ∷ z ∷ r) (write (blank 11 converted) 0 (map to_upper b))
    ∙ ap (copy_extension 3 0 (dot ∷ x ∷ y ∷ z ∷ r)) (base_written b (drop 11 converted) k)
    ∙ copy_extension_lem x y z r (base_field b) (drop 11 converted) (length-base_field b k)

add_extension-end : (cs name : List ℕ) → add_extension (0 ∷ cs) name ≡ some name
unfolding add_extension
add_extension-end cs name = refl

strlen-base : (b r : List ℕ) → IsBase b → strlen (b ++ (0 ∷ r)) ≡ some (length b)
unfolding strlen
strlen-base [] r h = refl
strlen-base (c ∷ b) r h = ground (arith, strlen-base b r h.1)

-- A terminated name of 1 to 8 characters, none of them a dot, in a conversion of length 11: the
-- name in capitals and blanks up to the eleventh byte; what lies behind it stays.
pub to_dos_file_name_plain :
    (b r converted : List ℕ)
    → IsBase b
    → 1 ≤ length b
    → length b ≤ 8
    → to_dos_file_name (b ++ (0 ∷ r)) converted 11
      ≡ some (base_field b ++ (space ∷ space ∷ space ∷ drop 11 converted))
to_dos_file_name_plain b r converted h l k =
    to_dos_file_name_general (b ++ (0 ∷ r)) converted (length b) (strlen-base b r h)
      (base-head b _ h l)
    ∙ ap (λ o. o >>= λ r. add_extension r.0 r.1)
        (copy_base_lem b r 0 (length b) 0 (blank 11 converted) h (omega arith) (inr (omega arith))
          (omega arith))
    ∙ add_extension-end r (write (blank 11 converted) 0 (map to_upper b))
    ∙ ap some (base_written b (drop 11 converted) k)
