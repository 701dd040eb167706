-- ===== src/Files/Counts.antt =====
-- The reference counts are the numbers of handles.
use mathlib.Core.Path.{subst}
use systems_programming_a.Prelude.{
  ℕ, zero, suc, ◌+◌, ◌-◌, ◌<◌, ◌≤◌, ◌≡◌, refl, arith, some, true, false, List, [], ◌∷◌, ltb, ◌==◌,
  if◌then◌else◌, update, Bool-cases, Option-cases, inl, inr,
}
use systems_programming_a.Files.Defs.{
  File, Files, nfile, set_count, first_free, allocate_file, file_dup, closing, nothing_more,
  file_close, fd_none,
}

-- How often a slot is in a list of handles.
unfoldable pub handles_of : ℕ → List ℕ → ℕ
handles_of i [] = 0
handles_of i (h ∷ hs) = (if h == i then 1 else 0) + handles_of i hs

-- The handles without the first that is this slot.
pub drop_handle : ℕ → List ℕ → List ℕ
drop_handle i [] = []
drop_handle i (h ∷ hs) = if h == i then hs else h ∷ drop_handle i hs

-- Every slot counts its handles.
abbrev pub IsCounted : Files → List ℕ → Type 0
IsCounted t hs = (i : ℕ) → (t i).reference_count ≡ handles_of i hs

pub first_free_lem :
    (n i j : ℕ) (t : Files)
    → first_free n i t ≡ some j
    → ((t j).reference_count ≡ 0) × (i ≤ j) × (j < i + n)
unfolding first_free
first_free_lem zero i j t e = cc
first_free_lem (suc n) i j t e = elim (Bool-cases ((t i).reference_count == 0)) [
  | inl z ↦ ground arith
  | inr z ↦ ground (arith, first_free_lem n (i + 1) j t)
]

handles_of-drop :
    (i j : ℕ) (hs : List ℕ)
    → 0 < handles_of i hs
    → handles_of j hs ≡ (if i == j then 1 else 0) + handles_of j (drop_handle i hs)
unfolding handles_of drop_handle
handles_of-drop i j [] h = absurd (omega arith)
handles_of-drop i j (k ∷ hs) h = ground (arith, handles_of-drop i j hs)

pub IsCounted-allocate :
    (t : Files) (hs : List ℕ) (i : ℕ)
    → IsCounted t hs
    → (t i).reference_count ≡ 0
    → IsCounted (set_count t i 1) (i ∷ hs)
unfolding handles_of
IsCounted-allocate t hs i h z j = ground (arith, h i, h j)

IsCounted-dup :
    (t : Files) (hs : List ℕ) (i : ℕ)
    → IsCounted t hs
    → IsCounted (set_count t i ((t i).reference_count + 1)) (i ∷ hs)
unfolding handles_of
IsCounted-dup t hs i h j = ground (arith, h i, h j)

IsCounted-close :
    (t : Files) (hs : List ℕ) (i : ℕ) (f : File)
    → IsCounted t hs
    → 0 < handles_of i hs
    → f.reference_count ≡ (t i).reference_count - 1
    → IsCounted (update t i f) (drop_handle i hs)
IsCounted-close t hs i f h p e j = ground (arith, h i, h j, handles_of-drop i j hs p)

allocated :
    (t : Files) (hs : List ℕ) (i : ℕ)
    → IsCounted t hs
    → (t' : Files) → allocate_file t ≡ (t', some i)
    → (handles_of i hs ≡ 0) × (i < nfile) × IsCounted t' (i ∷ hs)
unfolding allocate_file
allocated t hs i h t' e = elim (Option-cases (first_free nfile 0 t)) [
  | inl f ↦ absurd (ground arith)
  | inr (j, f) ↦
      let (z, l, u) = first_free_lem nfile 0 j t f in
      let q : (j ≡ i) × (set_count t j 1 ≡ t') = ground arith in
      let c = IsCounted-allocate t hs j h z in
      subst (λ k. (handles_of k hs ≡ 0) × (k < nfile) × IsCounted t' (k ∷ hs)) q.0
        (omega (arith, h j, z), u, subst (λ table. IsCounted table (j ∷ hs)) q.1 c)
]

duplicated :
    (t : Files) (hs : List ℕ) (i : ℕ)
    → IsCounted t hs
    → 0 < handles_of i hs
    → (t' : Files) × (file_dup i t ≡ some t') × IsCounted t' (i ∷ hs)
unfolding file_dup
duplicated t hs i h p =
    let n : ltb (t i).reference_count 1 ≡ false = ground (arith, h i) in
    (set_count t i ((t i).reference_count + 1), rw n refl, IsCounted-dup t hs i h)

closed :
    (t : Files) (hs : List ℕ) (i : ℕ)
    → IsCounted t hs
    → 0 < handles_of i hs
    → (t' : Files) × (file_close i t
        ≡ some (t', if handles_of i hs == 1 then closing (t i) else nothing_more))
      × IsCounted t' (drop_handle i hs)
unfolding file_close
closed t hs i h p =
    let n : ltb (t i).reference_count 1 ≡ false = ground (arith, h i) in
    let c = h i in
    elim (Bool-cases (handles_of i hs == 1)) [
      | inl e ↦
          let l : ltb 0 ((t i).reference_count - 1) ≡ false = ground (arith, c) in
          (
            update t i (record (t i) { reference_count = 0; file_type = fd_none }),
            rw (n, l, e) refl,
            IsCounted-close t hs i _ h p (ground (arith, c)),
          )
      | inr e ↦
          let l : ltb 0 ((t i).reference_count - 1) ≡ true = ground (arith, c) in
          (
            set_count t i ((t i).reference_count - 1),
            rw (n, l, e) refl,
            IsCounted-close t hs i _ h p refl,
          )
    ]

-- From a table in which every slot counts its handles: an allocation that finds a slot finds one
-- without a handle and makes the first; a duplicate of a file with a handle does not panic and makes
-- one more; and a close of a file with a handle does not panic, takes one away, and closes what is
-- behind the file exactly when it was the last. Every slot then counts its handles again.
pub allocate_file-IsCounted :
    (t : Files) (hs : List ℕ) (i : ℕ)
    → IsCounted t hs
    → ((t' : Files)
        → allocate_file t ≡ (t', some i)
        → (handles_of i hs ≡ 0) × (i < nfile) × IsCounted t' (i ∷ hs))
      × (0 < handles_of i hs → (t' : Files) × (file_dup i t ≡ some t') × IsCounted t' (i ∷ hs))
      × (0 < handles_of i hs
          → (t' : Files) × (file_close i t
              ≡ some (t', if handles_of i hs == 1 then closing (t i) else nothing_more))
            × IsCounted t' (drop_handle i hs))
allocate_file-IsCounted t hs i h = (allocated t hs i h, duplicated t hs i h, closed t hs i h)
