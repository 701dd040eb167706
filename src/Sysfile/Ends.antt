-- ===== src/Sysfile/Ends.antt =====
-- pipealloc: both ends, or what it had taken is given back.
use systems_programming_a.Prelude.{
  ℕ, zero, suc, ◌<◌, ◌≡◌, ◌≢◌, ◌⊎◌, ◌∙◌, refl, sym, ap, ap₂, arith, none, Bool, true, false, not,
  List, ◌∷◌, ◌++◌, ◌==◌, replicate, inl, inr,
}
use systems_programming_a.Kalloc.{KernelMemory, allocate_page}
use systems_programming_a.Pipe.{Pipe}
use systems_programming_a.Files.{
  File, Files, closing, nothing_more, fd_none, fd_pipe, nfile, set_count, allocate_file, handles_of,
  IsCounted, IsCounted-allocate,
}
use systems_programming_a.Sysfile.Defs.{
  Opening, Opened, refused, opened, set_end, pipe_in, make_pipe, with_second, with_first,
  free_pipe_resources, pipealloc,
}
use systems_programming_a.Sysfile.Slots.{
  allocate_file-cases, close_file-last, IsCounted-emptied, close_ends-last,
}

-- The slots without references have no type.
abbrev pub IsFresh : Files → Type 0
IsFresh t = (i : ℕ) → (t i).reference_count ≡ 0 → (t i).file_type ≡ fd_none

-- The files with a handle are as they were.
abbrev pub Kept : List ℕ → Files → Files → Type 0
Kept hs t t' = (i : ℕ) → 0 < handles_of i hs → t' i ≡ t i

-- An end of the pipe at an address.
abbrev pub IsEnd : Bool → ℕ → File → Type 0
IsEnd is_writer p f =
    (f.file_type ≡ fd_pipe) × (f.readable ≡ not is_writer) × (f.writable ≡ is_writer) × (f.pipe ≡ p)

-- The call has no pipe, and what it closed had nothing behind it.
abbrev pub WithoutPipe : Opening → Opening → Type 0
WithoutPipe s s' =
    (s'.kernel ≡ s.kernel) × (n : ℕ) × (s'.closed ≡ replicate n nothing_more ++ s.closed)

-- What pipealloc leaves when it succeeds, with the slots of both ends and the pipe's address.
pub record HasEnds (s : Opening) (hs : List ℕ) (s' : Opening) (f g p : ℕ) : Type 0 where
  pub reader : (handles_of f hs ≡ 0) × (f < nfile) × IsEnd false p (s'.files f)
  pub writer : (handles_of g hs ≡ 0) × (g < nfile) × IsEnd true p (s'.files g)
  pub apart : f ≢ g
  pub counted : IsCounted s'.files (g ∷ f ∷ hs)
  pub kept : Kept hs s.files s'.files
  pub page : (allocate_page s.kernel ≡ (s'.kernel, p)) × (p ≢ 0)
  pub others : (s'.open_file ≡ s.open_file) × (s'.closed ≡ s.closed)

-- What it leaves when it fails.
abbrev pub IsUndone : Opening → List ℕ → Opening → Type 0
IsUndone s hs s' =
    IsCounted s'.files hs
    × Kept hs s.files s'.files
    × (s'.open_file ≡ s.open_file)
    × WithoutPipe s s'

-- One of both.
abbrev pub Allocates : Opening → List ℕ → Opened (ℕ × ℕ × Pipe) → Type 0
Allocates s hs o =
    ((s' : Opening) × (o ≡ refused s') × IsUndone s hs s')
    ⊎ ((s' : Opening) × (f : ℕ) × (g : ℕ) × (p : ℕ) × (o
          ≡ opened s' (f, g, pipe_in s'.kernel.memory p))
        × HasEnds s hs s' f g p)

-- The table with a slot taken, and with two.
taken-IsCounted :
    (t : Files) (hs : List ℕ) (f : ℕ)
    → IsCounted t hs
    → (t f).reference_count ≡ 0
    → (handles_of f hs ≡ 0) × IsCounted (set_count t f 1) (f ∷ hs)
taken-IsCounted t hs f h z = (sym (h f) ∙ z, IsCounted-allocate t hs f h z)

second-undone :
    (s : Opening) (hs : List ℕ) (f : ℕ)
    → IsCounted s.files hs
    → IsFresh s.files
    → (s.files f).reference_count ≡ 0
    → Allocates s hs
        (with_second f (record s { files = set_count s.files f 1 }) (set_count s.files f 1, none))
unfolding with_second free_pipe_resources handles_of
second-undone s hs f h r z =
    let t = set_count s.files f 1 in
    let (a, c) = taken-IsCounted s.files hs f h z in
    let one : (t f).reference_count ≡ 1 = ground arith in
    let kind : closing (t f) ≡ nothing_more = ground (arith, r f z) in
    inl (
      _,
      close_file-last f (record s { files = t }) refused one,
      (
        IsCounted-emptied t (f ∷ hs) hs f c a (λ j n. ground arith),
        λ i l. ground arith,
        refl,
        (refl, 1, ap (λ c. c ∷ s.closed) kind),
      ),
    )

abbrev both_taken : Files → ℕ → ℕ → Files
both_taken t f g = set_count (set_count t f 1) g 1

page-undone :
    (s : Opening) (hs : List ℕ) (f g : ℕ) (k : KernelMemory)
    → f ≢ g
    → handles_of f hs ≡ 0
    → handles_of g hs ≡ 0
    → IsFresh s.files
    → (s.files f).reference_count ≡ 0
    → (s.files g).reference_count ≡ 0
    → k ≡ s.kernel
    → IsCounted (both_taken s.files f g) (g ∷ f ∷ hs)
    → Allocates s hs (make_pipe f g (record s { files = both_taken s.files f g }) (k, 0))
unfolding make_pipe free_pipe_resources
page-undone s hs f g k n a b r zf zg e c =
    let t = both_taken s.files f g in
    let kf : closing (t f) ≡ nothing_more = ground (arith, r f zf) in
    let kg : closing (t g) ≡ nothing_more = ground (arith, r g zg) in
    let (x, y) = close_ends-last f g (record s { files = t; kernel = k }) hs n a b c in
    inl (_, x, (y, λ i l. ground arith, refl, (e, 2, ap₂ (λ c d. c ∷ d ∷ s.closed) kg kf)))

page-HasEnds :
    (s : Opening) (hs : List ℕ) (f g p : ℕ) (k : KernelMemory)
    → f ≢ g
    → (handles_of f hs ≡ 0) × (f < nfile)
    → (handles_of g hs ≡ 0) × (g < nfile)
    → p ≢ 0
    → allocate_page s.kernel ≡ (k, p)
    → IsCounted (both_taken s.files f g) (g ∷ f ∷ hs)
    → Allocates s hs (make_pipe f g (record s { files = both_taken s.files f g }) (k, p))
unfolding make_pipe set_end
page-HasEnds s hs f g p k n a b z e c =
    let q : (p == 0) ≡ false = ground arith in
    inr (
      record s {
        kernel = k;
        files = set_end true p g (set_end false p f (both_taken s.files f g));
      },
      f,
      g,
      p,
      rw q refl,
      record {
        reader = (a.0, a.1, ground arith);
        writer = (b.0, b.1, ground arith);
        apart = n;
        counted = λ j. ground (arith, c j);
        kept = λ i l. ground arith;
        page = (e, z);
        others = (refl, refl);
      },
    )

-- With both files, by the page.
page-cases :
    (s : Opening) (hs : List ℕ) (f g : ℕ)
    → IsFresh s.files
    → f ≢ g
    → (handles_of f hs ≡ 0) × (f < nfile)
    → (handles_of g hs ≡ 0) × (g < nfile)
    → (s.files f).reference_count ≡ 0
    → (s.files g).reference_count ≡ 0
    → IsCounted (both_taken s.files f g) (g ∷ f ∷ hs)
    → (r : KernelMemory × ℕ) → allocate_page s.kernel ≡ r
    → Allocates s hs (make_pipe f g (record s { files = both_taken s.files f g }) r)
unfolding allocate_page
page-cases s hs f g r n a b zf zg c (k, zero) e =
    page-undone s hs f g k n a.0 b.0 r zf zg (ground arith) c
page-cases s hs f g r n a b zf zg c (k, suc p) e =
    page-HasEnds s hs f g (suc p) k n a b (λ z. omega (arith, z)) e c

second-cases :
    (s : Opening) (hs : List ℕ) (f : ℕ)
    → IsCounted s.files hs
    → IsFresh s.files
    → (s.files f).reference_count ≡ 0
    → f < nfile
    → Allocates s hs (
        with_second f
          (record s { files = set_count s.files f 1 })
          (allocate_file (set_count s.files f 1)))
unfolding with_second handles_of
second-cases s hs f h r z l =
    let t = set_count s.files f 1 in
    let (a, c) = taken-IsCounted s.files hs f h z in
    elim (allocate_file-cases t) [
      | inl e ↦ rw e (second-undone s hs f h r z)
      | inr (g, e, zg, lg) ↦
          let n : f ≢ g = ground arith in
          let z' : (s.files g).reference_count ≡ 0 = ground arith in
          let (b, d) = taken-IsCounted t (f ∷ hs) g c zg in
          let b' : handles_of g hs ≡ 0 = ground arith in
          rw e (page-cases s hs f g r n (a, l) (b', lg) z z' d (allocate_page s.kernel) refl)
    ]

-- pipealloc
pub pipealloc_lem :
    (s : Opening) (hs : List ℕ)
    → IsCounted s.files hs
    → IsFresh s.files
    → Allocates s hs (pipealloc s)
unfolding pipealloc with_first free_pipe_resources
pipealloc_lem s hs h r = elim (allocate_file-cases s.files) [
  | inl e ↦ rw e (inl (s, refl, (h, λ i l. refl, refl, (refl, 0, refl))))
  | inr (f, e, z, l) ↦ rw e (second-cases s hs f h r z l)
]
