-- ===== src/Vm/Spare.antt =====
-- A page of memory that is apart from a directory, its tables and the free pages.
use systems_programming_a.Prelude.{
  ℕ, ◌+◌, ◌*◌, ◌%◌, ◌^◌, ◌<◌, ◌≡◌, ◌≢◌, ◌∙◌, sym, ◌==◌, arith, Memory, true, false, List, ◌∷◌, All,
  Option, some, get_elem?, Bool-cases, inl, inr,
}
use systems_programming_a.Syscall.{dword_at}
use systems_programming_a.Kalloc.{KernelMemory}
use systems_programming_a.Vm.Defs.{is_present}
use systems_programming_a.Vm.Words.{word_cleared}
use systems_programming_a.Vm.Directory.{
  directory_entry, table, IsDirectory, with_table, new-entry_ne, new-table, new-elsewhere,
}
use systems_programming_a.Vm.Entry.{with_entry, entry-elsewhere, entry-directory}
use systems_programming_a.Vm.Step.{Holds}
use systems_programming_a.Vm.Take.{taken, taken-elsewhere, taken-entry}

-- The page is not the directory, no table and not free, and all its words are 0.
pub record IsSpare (pgdir p : ℕ) (qs : List ℕ) (m : Memory) : Type 0 where
  pub aligned : p % 4096 ≡ 0
  pub is_not_directory : p ≢ pgdir
  pub is_not_free : All (λ q. q ≢ p) qs
  pub is_no_table :
      (i : ℕ) → i < 1024 → is_present (directory_entry m pgdir i) ≡ true → table m pgdir i ≢ p
  pub is_cleared : (k : ℕ) → k < 1024 → dword_at m (p + 4 * k) ≡ 0

-- A member of the list.
abbrev pub IsOneOf : ℕ → List ℕ → Type 0
IsOneOf p qs = (j : ℕ) × (get_elem? qs j ≡ some p)

-- A new table leaves it so.
pub new-IsSpare :
    (pgdir i q p : ℕ) (qs : List ℕ) (m : Memory)
    → IsDirectory pgdir (q ∷ qs) m
    → i < 1024
    → is_present (directory_entry m pgdir i) ≡ false
    → IsSpare pgdir p (q ∷ qs) m
    → IsSpare pgdir p qs (with_table pgdir i q m)
new-IsSpare pgdir i q p qs m d l a h = record {
  aligned = h.aligned;
  is_not_directory = h.is_not_directory;
  is_not_free = h.is_not_free.1;
  is_no_table = λ j k e. elim (Bool-cases (j == i)) [
    | inl b ↦
        let same : j ≡ i = ground arith in rw (same, new-table pgdir i q qs m d l a) h.is_not_free.0
    | inr b ↦
        let n : j ≢ i = ground arith in
        let f = new-entry_ne pgdir i q qs m d l a j k n in rw f (h.is_no_table j k (rw f at e))
  ];
  is_cleared = λ k o.
      new-elsewhere pgdir i q qs m d l a p h.aligned (λ e. h.is_not_free.0 (sym e))
        h.is_not_directory k o
      ∙ h.is_cleared k o;
}

-- So does a new entry of a table.
pub entry-IsSpare :
    (pgdir i k w p : ℕ) (qs : List ℕ) (m : Memory)
    → IsDirectory pgdir qs m
    → i < 1024
    → k < 1024
    → is_present (directory_entry m pgdir i) ≡ true
    → w < 2 ^ 32
    → IsSpare pgdir p qs m
    → IsSpare pgdir p qs (with_entry pgdir i k w m)
entry-IsSpare pgdir i k w p qs m d l h a b s = record {
  aligned = s.aligned;
  is_not_directory = s.is_not_directory;
  is_not_free = s.is_not_free;
  is_no_table = λ j o e.
      let f = entry-directory pgdir i k w qs m d l h a b j o in
      rw f (s.is_no_table j o (rw f at e));
  is_cleared = λ j o.
      entry-elsewhere pgdir i k w qs m d l h a b p s.aligned (λ e. s.is_no_table i l a (sym e)) j o
      ∙ s.is_cleared j o;
}

-- So does a page that is taken.
pub taken-IsSpare :
    (pgdir q p : ℕ) (qs : List ℕ) (f : ℕ → Option ℕ) (s : KernelMemory)
    (h : Holds pgdir (q ∷ qs) f s)
    → IsSpare pgdir p (q ∷ qs) s.memory
    → IsSpare pgdir p qs (taken pgdir q qs f s h).memory
taken-IsSpare pgdir q p qs f s h a = record {
  aligned = a.aligned;
  is_not_directory = a.is_not_directory;
  is_not_free = a.is_not_free.1;
  is_no_table =
      λ i l e. let r = taken-entry pgdir q qs f s h i l in rw r (a.is_no_table i l (rw r at e));
  is_cleared = λ k l.
      taken-elsewhere pgdir q qs f s h p a.aligned (λ e. a.is_not_free.0 (sym e)) k l
      ∙ a.is_cleared k l;
}

-- The page itself is one then.
pub page-IsSpare :
    (pgdir q : ℕ) (qs : List ℕ) (f : ℕ → Option ℕ) (s : KernelMemory) (h : Holds pgdir (q ∷ qs) f s)
    → IsSpare pgdir q qs (taken pgdir q qs f s h).memory
page-IsSpare pgdir q qs f s h = record {
  aligned = h.directory.pages.0.0;
  is_not_directory = h.directory.pages.0.3;
  is_not_free = h.directory.distinct.0;
  is_no_table = λ i l e.
      let r = taken-entry pgdir q qs f s h i l in
      rw r λ c. (h.directory.tables i l (rw r at e)).1.0 (sym c);
  is_cleared = λ k l.
      word_cleared q (q + 4 * k) s.memory (ground (arith, h.directory.pages.0))
        (ground (arith, h.directory.pages.0)) (omega arith, omega arith);
}
