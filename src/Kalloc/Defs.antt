-- ===== src/Kalloc/Defs.antt =====
-- freePhysicalMemoryPage, allocatePhysicalMemoryPage, freeMemoryRange and the two initialisations of
-- UoDOS/kalloc.c. The free list runs through the first word of each free page, in the memory of the
-- kernel's addresses. `none` is a panic. Each operation is one step under the lock, which UseLock
-- only leaves out while no other code runs.
use systems_programming_a.Prelude.{
  ℕ, zero, suc, ◌+◌, ◌-◌, ◌*◌, ◌/◌, ◌^◌, ◌%◌, Option, none, some, not, ◌||◌, leb, ltb, ◌==◌,
  if◌then◌else◌, Memory, Bool, true, false,
}
use systems_programming_a.Str.Block.{memset, store_dword}
use systems_programming_a.Syscall.{dword_at}

abbrev pub page_size : ℕ
page_size = 4096

-- KERNBASE
abbrev pub kernel_base : ℕ
kernel_base = 0x80000000

-- PHYSTOP
abbrev pub physical_top : ℕ
physical_top = 0xE000000

-- kernelMemory, and the memory it allocates.
pub record KernelMemory : Type 0 where
  pub use_lock : Bool
  pub free_list : ℕ
  pub memory : Memory

-- `(uint32_t)v % PGSIZE || v < (char *)&kernelEnd || V2P(v) >= PHYSTOP`. The linker decides
-- `kernel_end`.
abbrev pub is_bad_page : ℕ → ℕ → Bool
is_bad_page kernel_end v =
    not (v % page_size == 0)
    || ltb v kernel_end
    || leb physical_top ((v + 2 ^ 32 - kernel_base) % 2 ^ 32)

-- The page with junk in it, and the word for the next page at its start.
abbrev pub link : ℕ → ℕ → Memory → Memory
link v next m = store_dword v next (memset v 1 page_size m)

unfoldable pub free_page : ℕ → ℕ → KernelMemory → Option KernelMemory
free_page kernel_end v s =
    if is_bad_page kernel_end v
    then none
    else some (record s { memory = link v s.free_list s.memory; free_list = v })

-- The page, or 0 when there is none.
unfoldable pub allocate_page : KernelMemory → KernelMemory × ℕ
unfolding dword_at
allocate_page s =
    if s.free_list == 0
    then (s, 0)
    else (record s { free_list = dword_at s.memory s.free_list }, s.free_list)

-- PGROUNDUP
abbrev pub page_round_up : ℕ → ℕ
page_round_up a = (a + (page_size - 1)) % 2 ^ 32 / page_size * page_size

-- `for (; p + PGSIZE <= (char*)vend; p += PGSIZE)`: a round for each page that fits below `vend`.
unfoldable pub free_pages : ℕ → ℕ → ℕ → KernelMemory → Option KernelMemory
free_pages kernel_end zero p s = some s
free_pages kernel_end (suc n) p s = elim (free_page kernel_end p s) [
  | none ↦ none
  | some s' ↦ free_pages kernel_end n (p + page_size) s'
]

unfoldable pub free_memory_range : ℕ → ℕ → ℕ → KernelMemory → Option KernelMemory
unfolding free_pages
free_memory_range kernel_end vstart vend s =
    let p = page_round_up vstart in free_pages kernel_end ((vend - p) / page_size) p s

unfoldable pub initialise_lower : ℕ → ℕ → ℕ → KernelMemory → Option KernelMemory
unfolding free_memory_range
initialise_lower kernel_end vstart vend s =
    free_memory_range kernel_end vstart vend (record s { use_lock = false })

unfoldable pub initialise_rest : ℕ → ℕ → ℕ → KernelMemory → Option KernelMemory
unfolding free_memory_range
initialise_rest kernel_end vstart vend s = elim (free_memory_range kernel_end vstart vend s) [
  | none ↦ none
  | some s' ↦ some (record s' { use_lock = true })
]
