-- ===== src/Vm/Defs.antt =====
-- getPageTableEntry, createPageTableEntries, setupKernelVirtualMemory, releaseUserPages and
-- freeMemoryAndPageTable of UoDOS/vm.c. A page directory and a page table are pages of words in the
-- memory; a pointer to an entry is its address, and 0 is the null pointer.
use systems_programming_a.Prelude.{
  ℕ, zero, suc, ◌+◌, ◌-◌, ◌*◌, ◌/◌, ◌%◌, ◌^◌, Bool, true, false, ltb, leb, ◌==◌, if◌then◌else◌,
}
use systems_programming_a.Prelude.Bits.{bits_or}
use systems_programming_a.Kalloc.{page_size, page_round_up, kernel_base}
use systems_programming_a.Vm.Access.{
  Kernel, ◌>>=◌, ◌>>◌, result, stop, load, store, clear, allocate, free, v2p, p2v, panicked,
  out_of_fuel,
}

-- PDX and PTX
abbrev pub pdx : ℕ → ℕ
pdx va = va / 2 ^ 22 % 1024

abbrev pub ptx : ℕ → ℕ
ptx va = va / 2 ^ 12 % 1024

-- PTE_P, PTE_W and PTE_U
abbrev pub pte_p : ℕ
pte_p = 1

abbrev pub pte_w : ℕ
pte_w = 2

abbrev pub pte_u : ℕ
pte_u = 4

-- `pte & PTE_P`
abbrev pub is_present : ℕ → Bool
is_present pte = pte % 2 == 1

-- PTE_ADDR
abbrev pub pte_addr : ℕ → ℕ
pte_addr pte = pte / 4096 * 4096

-- PGROUNDDOWN
abbrev pub page_round_down : ℕ → ℕ
page_round_down a = a / page_size * page_size

-- A new table for the directory's entry at `pde`.
unfoldable pub new_table : ℕ → ℕ → Kernel ℕ
new_table pde va = do
  pgtab ← allocate
  if pgtab == 0 then result 0 else do
    clear pgtab page_size
    store pde (bits_or 32 (bits_or 32 (bits_or 32 (v2p pgtab) pte_p) pte_w) pte_u)
    result (pgtab + 4 * ptx va)

unfoldable pub get_page_table_entry : ℕ → ℕ → Bool → Kernel ℕ
unfolding new_table
get_page_table_entry pgdir va alloc = do
  let pde = pgdir + 4 * pdx va
  w ← load pde
  if is_present w
      then result (p2v (pte_addr w) + 4 * ptx va)
      else if alloc
      then new_table pde va
      else result 0

-- One round of createPageTableEntries, once it has the address of the entry.
unfoldable pub place_entry : ℕ → ℕ → ℕ → Kernel Bool
place_entry pa perm pte = if pte == 0 then result false else do
  w ← load pte
  if is_present w
      then stop panicked
      else do store pte (bits_or 32 (bits_or 32 pa perm) pte_p); result true

unfoldable pub create_entry : ℕ → ℕ → ℕ → ℕ → Kernel Bool
create_entry pgdir a pa perm = get_page_table_entry pgdir a true >>= place_entry pa perm

-- The rounds up to `last`, which is `n` pages on from `a`.
unfoldable pub create_entries : ℕ → ℕ → ℕ → ℕ → ℕ → Kernel Bool
unfolding create_entry
create_entries zero pgdir a pa perm = create_entry pgdir a pa perm
create_entries (suc n) pgdir a pa perm = do
  done ← create_entry pgdir a pa perm
  elim done [
    | false ↦ result false
    | true ↦ create_entries n pgdir ((a + page_size) % 2 ^ 32) ((pa + page_size) % 2 ^ 32) perm
  ]

-- createPageTableEntries: whether it returns 0.
unfoldable pub create_page_table_entries : ℕ → ℕ → ℕ → ℕ → ℕ → Kernel Bool
unfolding create_entries
create_page_table_entries pgdir va size pa perm =
    let a = page_round_down va in
    let last = page_round_down ((va + size + 2 ^ 32 - 1) % 2 ^ 32) in
    create_entries ((last + 2 ^ 32 - a) % 2 ^ 32 / page_size) pgdir a pa perm

-- The page of the present entry `w` at `pte` is freed.
unfoldable pub free_entry : ℕ → ℕ → ℕ → Kernel (Unit {0})
free_entry kernel_end pte w =
    if pte_addr w == 0 then stop panicked else do free kernel_end (p2v (pte_addr w)); store pte 0

-- One round of releaseUserPages, once it has the address of the entry: the address that the loop's
-- step then goes on from.
unfoldable pub release_found : ℕ → ℕ → ℕ → Kernel ℕ
unfolding free_entry
release_found kernel_end a pte =
    if pte == 0
    then result (((pdx a + 1) * 2 ^ 22 % 2 ^ 32 + 2 ^ 32 - page_size) % 2 ^ 32)
    else do w ← load pte; if is_present w then free_entry kernel_end pte w else result tt; result a

unfoldable pub release_page : ℕ → ℕ → ℕ → Kernel ℕ
release_page kernel_end pgdir a = get_page_table_entry pgdir a false >>= release_found kernel_end a

-- `for (; a < oldsz; a += PGSIZE)`
unfoldable pub release_pages : ℕ → ℕ → ℕ → ℕ → ℕ → Kernel (Unit {0})
unfolding release_page
release_pages zero kernel_end pgdir a oldsz = if ltb a oldsz then stop out_of_fuel else result tt
release_pages (suc fuel) kernel_end pgdir a oldsz =
    if ltb a oldsz
    then (do
      a' ← release_page kernel_end pgdir a
      release_pages fuel kernel_end pgdir ((a' + page_size) % 2 ^ 32) oldsz)
    else result tt

-- With a round of fuel for each page below `oldsz`.
unfoldable pub release_user_pages : ℕ → ℕ → ℕ → ℕ → Kernel ℕ
unfolding release_pages
release_user_pages kernel_end pgdir oldsz newsz = if leb oldsz newsz then result oldsz else do
  release_pages (oldsz / page_size + 1) kernel_end pgdir (page_round_up newsz) oldsz
  result newsz

-- The loop over the entries of the directory, with `n` left at the entry `i`.
unfoldable pub free_tables : ℕ → ℕ → ℕ → ℕ → Kernel (Unit {0})
free_tables zero kernel_end pgdir i = result tt
free_tables (suc n) kernel_end pgdir i = do
  w ← load (pgdir + 4 * i)
  if is_present w then free kernel_end (p2v (pte_addr w)) else result tt
  free_tables n kernel_end pgdir (i + 1)

unfoldable pub free_memory_and_page_table : ℕ → ℕ → Kernel (Unit {0})
unfolding release_user_pages free_tables
free_memory_and_page_table kernel_end pgdir = if pgdir == 0 then stop panicked else do
  old ← release_user_pages kernel_end pgdir kernel_base 0
  free_tables 1024 kernel_end pgdir 0
  free kernel_end pgdir
