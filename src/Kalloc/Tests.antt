-- ===== src/Kalloc/Tests.antt =====
-- The allocator at two free pages.
use systems_programming_a.Prelude.{◌-◌, ◌/◌, ◌≡◌, refl, arith, some, false, [], ◌++◌}
use systems_programming_a.Kalloc.Defs.{KernelMemory, page_size, page_round_up, free_memory_range}
use systems_programming_a.Kalloc.Chain.{IsFree}
use systems_programming_a.Kalloc.Range.{pages_from, free_memory_range_lem}

abbrev at_boot : KernelMemory
at_boot = record { use_lock = false; free_list = 0; memory = λ a. 0 }

free_memory_range_lem_example :
    let start = page_round_up 0x80100123 in
    (s' : KernelMemory) × (free_memory_range 0x80100000 0x80100123 0x80104000 at_boot ≡ some s')
    × IsFree s' (pages_from start ((0x80104000 - start) / page_size) ++ [])
free_memory_range_lem_example =
    free_memory_range_lem 0x80100000 0x80100123 0x80104000 at_boot [] refl (omega arith) tt
      (omega arith) (omega arith) (omega arith) (omega arith)
