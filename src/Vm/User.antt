-- ===== src/Vm/User.antt =====
-- setupKernelVirtualMemory, initialiseUserVirtualMemory, allocateMemoryAndPageTables, clearPTEU,
-- copyProcessPageTable, mapVirtualAddressToKernelAddress and copyToUserVirtualMemory of UoDOS/vm.c,
-- and loadProgramSegmentIntoPageTable with the read of the file as a function.
-- `kernel_end` and `data` are the addresses that the linker decides. The messages that are printed
-- are left out.
use systems_programming_a.Prelude.{
  ℕ, zero, suc, ◌+◌, ◌-◌, ◌*◌, ◌/◌, ◌%◌, ◌^◌, Bool, true, false, not, List, [], ◌∷◌, ltb, leb, ◌==◌,
  if◌then◌else◌,
}
use systems_programming_a.Prelude.Bits.{bits_or}
use systems_programming_a.Kalloc.{page_size, page_round_up, kernel_base, physical_top}
use systems_programming_a.Vm.Access.{
  Kernel, ◌>>=◌, ◌>>◌, result, stop, load, store, clear, move, allocate, free, v2p, p2v, panicked,
  null_pointer, out_of_fuel,
}
use systems_programming_a.Vm.Defs.{
  pte_w, pte_u, is_present, pte_addr, page_round_down, get_page_table_entry,
  create_page_table_entries, release_user_pages, free_memory_and_page_table,
}

-- struct kernelMemoryMap
pub record KernelMemoryMap : Type 0 where
  pub virt : ℕ
  pub phys_start : ℕ
  pub phys_end : ℕ
  pub perm : ℕ

-- EXTMEM and DEVSPACE
abbrev pub extmem : ℕ
extmem = 0x100000

abbrev pub devspace : ℕ
devspace = 0xFE000000

abbrev pub kernel_memory_map : ℕ → List KernelMemoryMap
kernel_memory_map data_start =
    record { virt = kernel_base; phys_start = 0; phys_end = extmem; perm = pte_w }
    ∷ record {
      virt = kernel_base + extmem;
      phys_start = extmem;
      phys_end = v2p data_start;
      perm = 0;
    }
    ∷ record {
      virt = data_start;
      phys_start = v2p data_start;
      phys_end = physical_top;
      perm = pte_w;
    }
    ∷ record { virt = devspace; phys_start = devspace; phys_end = 0; perm = pte_w }
    ∷ []

-- The loop over the rows of the table: whether every range was mapped.
unfoldable pub map_ranges : List KernelMemoryMap → ℕ → Kernel Bool
map_ranges [] pgdir = result true
map_ranges (k ∷ ks) pgdir = do
  done ←
      create_page_table_entries pgdir k.virt ((k.phys_end + 2 ^ 32 - k.phys_start) % 2 ^ 32)
        k.phys_start k.perm
  elim done [ false ↦ result false | true ↦ map_ranges ks pgdir ]

-- The page directory, or 0.
unfoldable pub setup_kernel_virtual_memory : ℕ → ℕ → Kernel ℕ
unfolding map_ranges
setup_kernel_virtual_memory kernel_end data_start = do
  pgdir ← allocate
  if pgdir == 0 then result 0 else do
    clear pgdir page_size
    if ltb devspace (p2v physical_top) then stop panicked else do
      done ← map_ranges (kernel_memory_map data_start) pgdir
      elim done [
        | false ↦ free_memory_and_page_table kernel_end pgdir >> result 0
        | true ↦ result pgdir
      ]

unfoldable pub initialise_user_virtual_memory : ℕ → ℕ → ℕ → Kernel (Unit {0})
initialise_user_virtual_memory pgdir init memory_size =
    if leb page_size memory_size then stop panicked else do
      mem ← allocate
      if mem == 0 then stop null_pointer else do
        clear mem page_size
        done ← create_page_table_entries pgdir 0 page_size (v2p mem) (bits_or 32 pte_w pte_u)
        move mem init memory_size

-- One round of loadProgramSegmentIntoPageTable, with `n` bytes to load for the page of the entry
-- `pte`: whether the loop goes on. `read position dst n` is the number of bytes that fileRead reads.
unfoldable pub load_page : (ℕ → ℕ → ℕ → Kernel ℕ) → ℕ → ℕ → ℕ → ℕ → Kernel Bool
load_page read pte offset i n = do
  w ← load pte
  if offset == 0
      then (clear (p2v (pte_addr w)) n >> result true)
      else do count ← read ((offset + i) % 2 ^ 32) (p2v (pte_addr w)) n; result (count == n)

-- The loop, with `n` rounds left at the byte `i`: whether it returns 0.
unfoldable pub load_pages : (ℕ → ℕ → ℕ → Kernel ℕ) → ℕ → ℕ → ℕ → ℕ → ℕ → ℕ → Kernel Bool
load_pages read zero pgdir addr offset memory_size i = result true
load_pages read (suc n) pgdir addr offset memory_size i = do
  pte ← get_page_table_entry pgdir ((addr + i) % 2 ^ 32) false
  if pte == 0 then stop panicked else do
    let count = if ltb (memory_size - i) page_size then memory_size - i else page_size
    going ← load_page read pte offset i count
    elim going [
      | false ↦ result false
      | true ↦ load_pages read n pgdir addr offset memory_size (i + page_size)
    ]

unfoldable pub load_program_segment_into_page_table :
    (ℕ → ℕ → ℕ → Kernel ℕ) → ℕ → ℕ → ℕ → ℕ → Kernel Bool
load_program_segment_into_page_table read pgdir addr offset memory_size =
    if not (addr % page_size == 0)
    then stop panicked
    else load_pages read ((memory_size + (page_size - 1)) / page_size) pgdir addr offset memory_size
        0

-- One round of allocateMemoryAndPageTables, once it has a page or 0: whether the loop goes on.
unfoldable pub place_user_page : ℕ → ℕ → ℕ → ℕ → ℕ → ℕ → Kernel Bool
place_user_page kernel_end pgdir oldsz newsz a mem =
    if mem == 0
    then (release_user_pages kernel_end pgdir newsz oldsz >>= λ size. result false)
    else do
      clear mem page_size
      done ← create_page_table_entries pgdir a page_size (v2p mem) (bits_or 32 pte_w pte_u)
      if done then result true else do
        size ← release_user_pages kernel_end pgdir newsz oldsz
        free kernel_end mem
        result false

unfoldable pub allocate_user_page : ℕ → ℕ → ℕ → ℕ → ℕ → Kernel Bool
allocate_user_page kernel_end pgdir oldsz newsz a =
    allocate >>= place_user_page kernel_end pgdir oldsz newsz a

-- `for (; a < newsz; a += PGSIZE)`, with `n` rounds left.
unfoldable pub allocate_user_pages : ℕ → ℕ → ℕ → ℕ → ℕ → ℕ → Kernel ℕ
allocate_user_pages zero kernel_end pgdir oldsz newsz a = result newsz
allocate_user_pages (suc n) kernel_end pgdir oldsz newsz a = do
  going ← allocate_user_page kernel_end pgdir oldsz newsz a
  elim going [
    | false ↦ result 0
    | true ↦ allocate_user_pages n kernel_end pgdir oldsz newsz (a + page_size)
  ]

unfoldable pub allocate_memory_and_page_tables : ℕ → ℕ → ℕ → ℕ → Kernel ℕ
allocate_memory_and_page_tables kernel_end pgdir oldsz newsz =
    if leb kernel_base newsz
    then result 0
    else if ltb newsz oldsz
    then result oldsz
    else let a = page_round_up oldsz in
      allocate_user_pages ((newsz + (page_size - 1) - a) / page_size) kernel_end pgdir oldsz newsz a

unfoldable pub clear_pteu : ℕ → ℕ → Kernel (Unit {0})
clear_pteu pgdir uva = do
  pte ← get_page_table_entry pgdir uva false
  if pte == 0 then stop panicked else do w ← load pte; store pte (w - w / 4 % 2 * 4)

-- One round of copyProcessPageTable, for the entry `w` of the page at `i`: whether the loop goes on.
unfoldable pub copy_page : ℕ → ℕ → ℕ → ℕ → Kernel Bool
copy_page kernel_end d i w = if not (is_present w) then stop panicked else do
  mem ← allocate
  if mem == 0 then (free_memory_and_page_table kernel_end d >> result false) else do
    move mem (p2v (pte_addr w)) page_size
    done ← create_page_table_entries d i page_size (v2p mem) (w % 4096)
    if done then result true else free_memory_and_page_table kernel_end d >> result false

-- The loop, with `n` rounds left at the page `i`: the directory, or 0.
unfoldable pub copy_pages : ℕ → ℕ → ℕ → ℕ → ℕ → Kernel ℕ
copy_pages zero kernel_end pgdir d i = result d
copy_pages (suc n) kernel_end pgdir d i = do
  pte ← get_page_table_entry pgdir i false
  if pte == 0 then stop panicked else do
    w ← load pte
    going ← copy_page kernel_end d i w
    elim going [ false ↦ result 0 | true ↦ copy_pages n kernel_end pgdir d (i + page_size) ]

unfoldable pub copy_process_page_table : ℕ → ℕ → ℕ → ℕ → Kernel ℕ
copy_process_page_table kernel_end data_start pgdir memory_size = do
  d ← setup_kernel_virtual_memory kernel_end data_start
  if d == 0
      then result 0
      else copy_pages ((memory_size + (page_size - 1)) / page_size) kernel_end pgdir d 0

-- The entry is read without a test of the pointer to it.
unfoldable pub map_virtual_address_to_kernel_address : ℕ → ℕ → Kernel ℕ
map_virtual_address_to_kernel_address pgdir uva = do
  pte ← get_page_table_entry pgdir uva false
  if pte == 0 then stop null_pointer else do
    w ← load pte
    if not (is_present w)
        then result 0
        else if w / 4 % 2 == 0
        then result 0
        else result (p2v (pte_addr w))

-- `while (len > 0)`, with `fuel` rounds at most: whether it returns 0.
unfoldable pub copy_rounds : ℕ → ℕ → ℕ → ℕ → ℕ → Kernel Bool
copy_rounds zero pgdir va buf len = if len == 0 then result true else stop out_of_fuel
copy_rounds (suc fuel) pgdir va buf len = if len == 0 then result true else do
  let va0 = page_round_down va
  pa0 ← map_virtual_address_to_kernel_address pgdir va0
  if pa0 == 0 then result false else do
    let n = if ltb len (page_size - (va - va0)) then len else page_size - (va - va0)
    move (pa0 + (va - va0)) buf n
    copy_rounds fuel pgdir ((va0 + page_size) % 2 ^ 32) (buf + n) (len - n)

-- Every round copies a byte at least.
unfoldable pub copy_to_user_virtual_memory : ℕ → ℕ → ℕ → ℕ → Kernel Bool
copy_to_user_virtual_memory pgdir va p len = copy_rounds len pgdir va p len
