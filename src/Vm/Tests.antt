-- ===== src/Vm/Tests.antt =====
-- Runs of the operations on page tables, and the theorems at concrete inputs.
use systems_programming_a.Prelude.{
  ℕ, ◌≡◌, refl, arith, true, false, none, some, [], ◌∷◌, if◌then◌else◌,
}
use systems_programming_a.Kalloc.{page_round_up}
use systems_programming_a.Vm.Access.{returned, stopped, null_pointer, p2v}
use systems_programming_a.Vm.Defs.{
  create_page_table_entries, page_round_down, free_memory_and_page_table, pdx, is_present, pte_addr,
}
use systems_programming_a.Vm.User.{
  allocate_memory_and_page_tables, map_virtual_address_to_kernel_address,
}
use systems_programming_a.Vm.Directory.{directory_entry, lookup}
use systems_programming_a.Vm.Step.{mapped}
use systems_programming_a.Vm.Range.{Creates, page_count, create_page_table_entries_lem}
use systems_programming_a.Vm.Fuel.{Halts, free_memory_and_page_table-Halts}
use systems_programming_a.Vm.Translate.{is_user, map_virtual_address_to_kernel_address_lem}
use systems_programming_a.Vm.Grow.{GrowsTo, pages_to_grow, allocate_memory_and_page_tables_lem}
use systems_programming_a.Vm.Sample.{
  directory_page, free_page_one, free_page_two, empty_directory, nothing, empty_directory-Holds,
}

-- The two pages from 0x1000 on are mapped to the physical pages from 0x3000 on.
create_page_table_entries_lem_example :
    Creates
      (create_page_table_entries directory_page 0x1234 0x1000 0x3000 6 empty_directory)
      (page_count 0x1234 0x1000)
      directory_page
      (λ k. mapped (page_round_down 0x1234) k 0x3000 6 nothing)
create_page_table_entries_lem_example =
    create_page_table_entries_lem directory_page 0x1234 0x1000 0x3000 6
      (free_page_one ∷ free_page_two ∷ []) nothing empty_directory empty_directory-Holds
      (omega arith) (omega arith) (omega arith, omega arith) (omega arith) (λ vb l l'. refl)

-- An empty process grows to a page.
allocate_memory_and_page_tables_lem_example :
    GrowsTo
      (allocate_memory_and_page_tables 0x80300000 directory_page 0 4096 empty_directory)
      4096
      directory_page
      (page_round_up 0)
      (pages_to_grow 0 4096)
      (free_page_one ∷ free_page_two ∷ [])
      nothing
allocate_memory_and_page_tables_lem_example =
    allocate_memory_and_page_tables_lem 0x80300000 directory_page 0 4096
      (free_page_one ∷ free_page_two ∷ []) nothing empty_directory empty_directory-Holds
      (omega arith) (omega arith) (omega arith) (λ vb l l'. refl)

free_memory_and_page_table-Halts_example :
    Halts (free_memory_and_page_table 0x80300000 directory_page empty_directory)
free_memory_and_page_table-Halts_example =
    free_memory_and_page_table-Halts 0x80300000 directory_page empty_directory

map_virtual_address_to_kernel_address_lem_example :
    ((w : ℕ)
      → lookup empty_directory.memory directory_page 0x1234 ≡ some w
      → map_virtual_address_to_kernel_address directory_page 0x1234 empty_directory
        ≡ returned empty_directory (if is_user w then p2v (pte_addr w) else 0))
    × (lookup empty_directory.memory directory_page 0x1234 ≡ none
        → is_present (directory_entry empty_directory.memory directory_page (pdx 0x1234)) ≡ true
        → map_virtual_address_to_kernel_address directory_page 0x1234 empty_directory
          ≡ returned empty_directory 0)
    × (is_present (directory_entry empty_directory.memory directory_page (pdx 0x1234)) ≡ false
        → map_virtual_address_to_kernel_address directory_page 0x1234 empty_directory
          ≡ stopped null_pointer)
map_virtual_address_to_kernel_address_lem_example =
    map_virtual_address_to_kernel_address_lem directory_page 0x1234
      (free_page_one ∷ free_page_two ∷ []) empty_directory empty_directory-Holds.directory
