-- ===== src/Sysfile/Slots.antt =====
-- The descriptors that fdalloc finds, and the closing of files with one handle.
use systems_programming_a.Prelude.{
  ℕ, zero, suc, ◌+◌, ◌-◌, ◌<◌, ◌≡◌, ◌≢◌, ◌⊎◌, ◌∙◌, refl, ap, arith, Option, some, none, false, List,
  [], ◌∷◌, ltb, ◌==◌, update, set, get_elem?, Bool-cases, Option-cases, inl, inr,
}
use systems_programming_a.Files.{
  File, Files, closing, fd_none, nfile, set_count, first_free, first_free_lem, allocate_file,
  file_close, fdalloc, handles_of, IsCounted,
}
use systems_programming_a.Sysfile.Defs.{Opening, Opened, refused, close_file, close_ends}

fdalloc_lem :
    (f fd d : ℕ) (l l' : List (Option ℕ))
    → fdalloc f fd l ≡ some (d, l')
    → (k : ℕ) × (d ≡ fd + k) × (get_elem? l k ≡ some none) × (l' ≡ set l k (some f))
unfolding fdalloc
fdalloc_lem f fd d [] l' e = cc
fdalloc_lem f fd d (none ∷ l) l' e =
    let a : (d ≡ fd) × (l' ≡ some f ∷ l) = ground arith in (0, omega (arith, a.0), refl, a.1)
fdalloc_lem f fd d (some g ∷ l) l' e = elim (Option-cases (fdalloc f (fd + 1) l)) [
  | inl n ↦ absurd (cc (rw n at e))
  | inr (r, h) ↦
      let a : (d ≡ r.0) × (l' ≡ some g ∷ r.1) = ground arith in
      let (k, x, y, z) = fdalloc_lem f (fd + 1) r.0 l r.1 h in
      (suc k, omega (arith, a.0, x), y, a.1 ∙ ap (λ m. some g ∷ m) z)
]

-- The descriptor is free, and the file is put there.
pub fdalloc-free :
    (f d : ℕ) (l l' : List (Option ℕ))
    → fdalloc f 0 l ≡ some (d, l')
    → (get_elem? l d ≡ some none) × (l' ≡ set l d (some f))
fdalloc-free f d l l' e =
    let (k, x, y, z) = fdalloc_lem f 0 d l l' e in let q : d ≡ k = omega (arith, x) in rw q (y, z)

-- Clearing a descriptor that was free gives the old list.
pub set-set :
    (l : List (Option ℕ)) (d : ℕ) (o : Option ℕ)
    → get_elem? l d ≡ some none
    → set (set l d o) d none ≡ l
set-set [] d o e = cc
set-set (x ∷ l) zero o e = ap (λ y. y ∷ l) (ground arith)
set-set (x ∷ l) (suc d) o e = ap (λ m. x ∷ m) (set-set l d o e)

-- allocateFileStructure takes a slot without references, or changes nothing.
pub allocate_file-cases :
    (t : Files)
    → (allocate_file t ≡ (t, none))
      ⊎ ((i : ℕ) × (allocate_file t ≡ (set_count t i 1, some i))
          × ((t i).reference_count ≡ 0)
          × (i < nfile))
unfolding allocate_file
allocate_file-cases t = elim (Option-cases (first_free nfile 0 t)) [
  | inl e ↦ inl (rw (allocate_file, e) refl)
  | inr (i, e) ↦
      let (z, l, u) = first_free_lem nfile 0 i t e in inr (i, rw (allocate_file, e) refl, z, u)
]

-- A slot without references.
abbrev pub emptied : File → File
emptied f = record f { reference_count = 0; file_type = fd_none }

pub close_file-last :
    {A : Type 0} (i : ℕ) (s : Opening) (k : Opening → Opened A)
    → (s.files i).reference_count ≡ 1
    → close_file i s k
      ≡ k (record s {
        files = update s.files i (emptied (s.files i));
        closed = closing (s.files i) ∷ s.closed;
      })
unfolding close_file file_close
close_file-last i s k e =
    let a : ltb (s.files i).reference_count 1 ≡ false = ground arith in
    let b : ltb 0 ((s.files i).reference_count - 1) ≡ false = ground arith in rw (a, b) refl

pub IsCounted-emptied :
    (t : Files) (hs' hs : List ℕ) (i : ℕ)
    → IsCounted t hs'
    → handles_of i hs ≡ 0
    → ((j : ℕ) → j ≢ i → handles_of j hs' ≡ handles_of j hs)
    → IsCounted (update t i (emptied (t i))) hs
IsCounted-emptied t hs' hs i h z e j = elim (Bool-cases (j == i)) [
  | inl q ↦ ground (arith, z)
  | inr q ↦ let n : j ≢ i = ground arith in ground (arith, h j, e j n)
]

-- The table after both files are closed.
abbrev pub emptied_both : Files → ℕ → ℕ → Files
emptied_both t f g = update (update t f (emptied (t f))) g (emptied (update t f (emptied (t f)) g))

pub close_ends-last :
    {A : Type 0} (f g : ℕ) (s : Opening) (hs : List ℕ)
    → f ≢ g
    → handles_of f hs ≡ 0
    → handles_of g hs ≡ 0
    → IsCounted s.files (g ∷ f ∷ hs)
    → (close_ends {A = A} f g s
        ≡ refused (record s {
          files = emptied_both s.files f g;
          closed = closing (s.files g) ∷ closing (s.files f) ∷ s.closed;
        }))
      × IsCounted (emptied_both s.files f g) hs
unfolding handles_of
close_ends-last {A} f g s hs n a b h =
    let cf : (s.files f).reference_count ≡ 1 = ground (arith, h f) in
    let cg : (s.files g).reference_count ≡ 1 = ground (arith, h g) in
    let u = update s.files f (emptied (s.files f)) in
    let same : u g ≡ s.files g = ground arith in
    let s1 : Opening = record s { files = u; closed = closing (s.files f) ∷ s.closed } in
    let cu : (u g).reference_count ≡ 1 = ap (λ x. x.reference_count) same ∙ cg in
    (
      close_file-last f s (λ s. close_file {A = A} g s refused) cf
          ∙ close_file-last g s1 refused cu
          ∙ ap
              (λ x. refused (record s {
                files = emptied_both s.files f g;
                closed = closing x ∷ closing (s.files f) ∷ s.closed;
              }))
              same,
      IsCounted-emptied u (g ∷ hs) hs g
          (IsCounted-emptied s.files (g ∷ f ∷ hs) (g ∷ hs) f h (ground arith) (λ j m. ground arith))
          b (λ j m. ground arith),
    )
