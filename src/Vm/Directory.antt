-- ===== src/Vm/Directory.antt =====
-- A page directory with its page tables, apart from the free pages; and what it maps.
use systems_programming_a.Prelude.{
  ℕ, ◌+◌, ◌*◌, ◌%◌, ◌^◌, ◌<◌, ◌≤◌, ◌≡◌, ◌≢◌, ◌∙◌, arith, Memory, true, false, Option, none, some,
  List, [], ◌∷◌, All, if◌then◌else◌,
}
use systems_programming_a.Str.Block.{memset, store_dword}
use systems_programming_a.Syscall.{dword_at}
use systems_programming_a.Vm.Access.{p2v, v2p}
use systems_programming_a.Vm.Defs.{pdx, ptx, is_present, pte_addr}
use systems_programming_a.Vm.Words.{word_stored, word_kept, word_cleared, word_spared}

-- The directory's entry `i`, the table that it refers to, and entry `k` of that table.
abbrev pub directory_entry : Memory → ℕ → ℕ → ℕ
directory_entry m pgdir i = dword_at m (pgdir + 4 * i)

abbrev pub table : Memory → ℕ → ℕ → ℕ
table m pgdir i = p2v (pte_addr (directory_entry m pgdir i))

abbrev pub table_entry : Memory → ℕ → ℕ → ℕ → ℕ
table_entry m pgdir i k = dword_at m (table m pgdir i + 4 * k)

abbrev pub present : ℕ → Option ℕ
present w = if is_present w then some w else none

-- The present page table entry for an address.
unfoldable pub lookup : Memory → ℕ → ℕ → Option ℕ
lookup m pgdir va =
    if is_present (directory_entry m pgdir (pdx va))
    then present (table_entry m pgdir (pdx va) (ptx va))
    else none

abbrev pub IsPage : ℕ → ℕ → Type 0
IsPage pgdir q = (q % 4096 ≡ 0) × (0x80000000 ≤ q) × (q + 4096 ≤ 2 ^ 32) × (q ≢ pgdir)

abbrev pub AreDistinct : List ℕ → Type 0
AreDistinct [] = Unit {0}
AreDistinct (q ∷ qs) = All (λ r. r ≢ q) qs × AreDistinct qs

-- The directory, its tables and the free pages do not overlap.
pub record IsDirectory (pgdir : ℕ) (qs : List ℕ) (m : Memory) : Type 0 where
  pub aligned : pgdir % 4096 ≡ 0
  pub pages : All (IsPage pgdir) qs
  pub distinct : AreDistinct qs
  pub tables :
      (i : ℕ)
      → i < 1024
      → is_present (directory_entry m pgdir i) ≡ true
      → (table m pgdir i ≢ pgdir)
        × All (λ q. q ≢ table m pgdir i) qs
        × (0x80000000 ≤ table m pgdir i)
  pub apart :
      (i j : ℕ)
      → i < 1024
      → j < 1024
      → j ≢ i
      → is_present (directory_entry m pgdir i) ≡ true
      → is_present (directory_entry m pgdir j) ≡ true
      → table m pgdir j ≢ table m pgdir i

pub table-aligned : (w : ℕ) → p2v (pte_addr w) % 4096 ≡ 0
table-aligned w = omega arith

-- The memory with a new, empty table at `q` in the directory's entry `i`.
abbrev pub with_table : ℕ → ℕ → ℕ → Memory → Memory
with_table pgdir i q m = store_dword (pgdir + 4 * i) (v2p q + 7) (memset q 0 4096 m)

module _ (pgdir i q : ℕ) (qs : List ℕ) (m : Memory) (d : IsDirectory pgdir (q ∷ qs) m)
    (l : i < 1024) (a : is_present (directory_entry m pgdir i) ≡ false) where
  pub new-entry : directory_entry (with_table pgdir i q m) pgdir i ≡ v2p q + 7
  new-entry =
      word_stored (pgdir + 4 * i) (v2p q + 7) (memset q 0 4096 m) (ground (arith, d.pages.0))

  pub new-entry_ne :
      (j : ℕ)
      → j < 1024
      → j ≢ i
      → directory_entry (with_table pgdir i q m) pgdir j ≡ directory_entry m pgdir j
  new-entry_ne j k n =
      word_kept (pgdir + 4 * i) (v2p q + 7) (pgdir + 4 * j) (memset q 0 4096 m)
        (ground (arith, d.aligned)) (ground (arith, d.aligned)) (omega arith)
      ∙ word_spared q (pgdir + 4 * j) m (ground (arith, d.aligned)) (ground (arith, d.pages.0))
          (ground (arith, d.aligned, d.pages.0))

  pub new-table : table (with_table pgdir i q m) pgdir i ≡ q
  new-table = rw new-entry (ground (arith, d.pages.0))

  -- A word outside the new table and the directory is what it was.
  pub new-elsewhere :
      (b : ℕ)
      → b % 4096 ≡ 0
      → b ≢ q
      → b ≢ pgdir
      → (k : ℕ) → k < 1024
      → dword_at (with_table pgdir i q m) (b + 4 * k) ≡ dword_at m (b + 4 * k)
  new-elsewhere b e n o k h =
      word_kept (pgdir + 4 * i) (v2p q + 7) (b + 4 * k) (memset q 0 4096 m)
        (ground (arith, d.aligned)) (omega arith) (ground (arith, d.aligned))
      ∙ word_spared q (b + 4 * k) m (omega arith) (ground (arith, d.pages.0))
          (ground (arith, d.pages.0))

  pub new-empty : (k : ℕ) → k < 1024 → table_entry (with_table pgdir i q m) pgdir i k ≡ 0
  new-empty k h = rw new-table (
      word_kept (pgdir + 4 * i) (v2p q + 7) (q + 4 * k) (memset q 0 4096 m)
        (ground (arith, d.aligned)) (ground (arith, d.pages.0))
        (ground (arith, d.aligned, d.pages.0))
      ∙ word_cleared q (q + 4 * k) m (ground (arith, d.pages.0)) (ground (arith, d.pages.0))
          (omega arith, omega arith))

  pub new-present : is_present (directory_entry (with_table pgdir i q m) pgdir i) ≡ true
  new-present = rw new-entry (ground (arith, d.pages.0))
