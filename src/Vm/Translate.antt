-- ===== src/Vm/Translate.antt =====
-- Reading a page table: from a user's address to the kernel's, and copying to the user.
use systems_programming_a.Prelude.{
  ℕ, zero, suc, ◌+◌, ◌-◌, ◌*◌, ◌/◌, ◌%◌, ◌^◌, ◌≤◌, ◌≡◌, refl, arith, Memory, Bool, true, false, not,
  none, some, List, ◌==◌, ltb, if◌then◌else◌, Bool-cases, inl, inr,
}
use systems_programming_a.Str.Block.{memmove}
use systems_programming_a.Syscall.{dword_at}
use systems_programming_a.Kalloc.{KernelMemory, page_size}
use systems_programming_a.Vm.Access.{
  Kernel, returned, stopped, null_pointer, p2v, ◌>>=◌, ◌>>◌, stop, result, load, move,
}
use systems_programming_a.Vm.Defs.{
  pdx, ptx, is_present, pte_addr, page_round_down, get_page_table_entry,
}
use systems_programming_a.Vm.User.{
  map_virtual_address_to_kernel_address, copy_rounds, copy_to_user_virtual_memory,
}
use systems_programming_a.Vm.Directory.{directory_entry, table, table_entry, lookup, IsDirectory}
use systems_programming_a.Vm.Step.{lookup-absent}
use systems_programming_a.Vm.Fuel.{Ends-if, Ends-then_run, Halts, found_entry-Halts}

-- `*pte & PTE_U`
abbrev pub is_user : ℕ → Bool
is_user w = not (w / 4 % 2 == 0)

-- Where the entry for an address is.
abbrev pub entry_address : Memory → ℕ → ℕ → ℕ
entry_address m pgdir va = table m pgdir (pdx va) + 4 * ptx va

pub lookup-some :
    (m : Memory) (pgdir va w : ℕ)
    → lookup m pgdir va ≡ some w
    → (is_present (directory_entry m pgdir (pdx va)) ≡ true)
      × (table_entry m pgdir (pdx va) (ptx va) ≡ w)
      × (is_present w ≡ true)
unfolding lookup
lookup-some m pgdir va w h = elim (Bool-cases (is_present (directory_entry m pgdir (pdx va)))) [
  | inl p ↦ elim (Bool-cases (is_present (table_entry m pgdir (pdx va) (ptx va)))) [
    | inl t ↦
        let h' : some (table_entry m pgdir (pdx va) (ptx va)) ≡ some w = rw (p, t) at h in
        let e : table_entry m pgdir (pdx va) (ptx va) ≡ w = cc h' in (p, e, rw e at t)
    | inr t ↦ absurd (ground arith)
  ]
  | inr p ↦ absurd (ground arith)
]

-- In a directory that lies apart from its tables, mapVirtualAddressToKernelAddress changes nothing.
-- For an address with a page that is present and the user's, it gives the kernel's address of the
-- page; for a present page that is not the user's, and for a page that is not present in a table that
-- is there, it gives 0. For an address whose table is missing, it reads through the null pointer.
pub map_virtual_address_to_kernel_address_lem :
    (pgdir va : ℕ) (qs : List ℕ) (s : KernelMemory)
    → IsDirectory pgdir qs s.memory
    → ((w : ℕ)
        → lookup s.memory pgdir va ≡ some w
        → map_virtual_address_to_kernel_address pgdir va s
          ≡ returned s (if is_user w then p2v (pte_addr w) else 0))
      × (lookup s.memory pgdir va ≡ none
          → is_present (directory_entry s.memory pgdir (pdx va)) ≡ true
          → map_virtual_address_to_kernel_address pgdir va s ≡ returned s 0)
      × (is_present (directory_entry s.memory pgdir (pdx va)) ≡ false
          → map_virtual_address_to_kernel_address pgdir va s ≡ stopped null_pointer)
unfolding map_virtual_address_to_kernel_address get_page_table_entry
map_virtual_address_to_kernel_address_lem pgdir va qs s d = (
  λ w h.
      let l = lookup-some s.memory pgdir va w h in
      let z : (entry_address s.memory pgdir va == 0) ≡ false =
        ground (arith, (d.tables (pdx va) (omega arith) l.0).2) in
      rw (l.0, z, l.1, l.2)
        (elim (Bool-cases (w / 4 % 2 == 0)) [ inl e ↦ rw e refl | inr e ↦ rw e refl ]),
  λ h p.
      let z : (entry_address s.memory pgdir va == 0) ≡ false =
        ground (arith, (d.tables (pdx va) (omega arith) p).2) in
      rw (p, z, lookup-absent s.memory pgdir va p h) refl,
  λ a. rw a refl,
)

-- What mapVirtualAddressToKernelAddress gives for an entry.
abbrev pub tested : ℕ → Kernel ℕ
tested w =
    if not (is_present w)
    then result 0
    else if w / 4 % 2 == 0
    then result 0
    else result (p2v (pte_addr w))

tested-Halts : (w : ℕ) (s : KernelMemory) → Halts (tested w s)
tested-Halts w s =
    Ends-if (λ u. Unit {0}) (not (is_present w)) (result 0)
      (if w / 4 % 2 == 0 then result 0 else result (p2v (pte_addr w))) s tt
      (Ends-if (λ u. Unit {0}) (w / 4 % 2 == 0) (result 0) (result (p2v (pte_addr w))) s tt tt)

map_virtual-Halts :
    (pgdir va : ℕ) (s : KernelMemory) → Halts (map_virtual_address_to_kernel_address pgdir va s)
unfolding map_virtual_address_to_kernel_address
map_virtual-Halts pgdir va s =
    Ends-then_run (λ u. Unit {0}) (λ u. Unit {0}) (get_page_table_entry pgdir va false s)
      (λ pte. if pte == 0 then stop null_pointer else (load pte >>= tested))
      (found_entry-Halts pgdir va s)
      (λ pte s' t.
        Ends-if (λ u. Unit {0}) (pte == 0) (stop null_pointer) (load pte >>= tested) s' (λ e. cc e)
          (tested-Halts (dword_at s'.memory pte) s'))

copy_rounds-Halts :
    (fuel pgdir va buf len : ℕ) (s : KernelMemory)
    → len ≤ fuel
    → Halts (copy_rounds fuel pgdir va buf len s)
unfolding copy_rounds
copy_rounds-Halts zero pgdir va buf len s l = let z : (len == 0) ≡ true = ground arith in rw z tt
copy_rounds-Halts (suc fuel) pgdir va buf len s l = elim (Bool-cases (len == 0)) [
  | inl z ↦ rw z tt
  | inr z ↦
      let va0 = page_round_down va in
      let n = if ltb len (page_size - (va - va0)) then len else page_size - (va - va0) in
      rw z (
        Ends-then_run (λ u. Unit {0}) (λ u. Unit {0})
          (map_virtual_address_to_kernel_address pgdir va0 s)
          (λ pa0.
            if pa0 == 0
            then result false
            else (move (pa0 + (va - va0)) buf n
                >> copy_rounds fuel pgdir ((va0 + page_size) % 2 ^ 32) (buf + n) (len - n)))
          (map_virtual-Halts pgdir va0 s)
          (λ pa0 s' t.
            Ends-if (λ u. Unit {0}) (pa0 == 0) (result false)
              (move (pa0 + (va - va0)) buf n
                >> copy_rounds fuel pgdir ((va0 + page_size) % 2 ^ 32) (buf + n) (len - n))
              s' tt
              (copy_rounds-Halts fuel pgdir ((va0 + page_size) % 2 ^ 32) (buf + n) (len - n)
                (record s' { memory = memmove (pa0 + (va - va0)) buf n s'.memory })
                (ground arith))))
]

-- copyToUserVirtualMemory ends for every address, buffer and length.
pub copy_to_user_virtual_memory-Halts :
    (pgdir va p len : ℕ) (s : KernelMemory) → Halts (copy_to_user_virtual_memory pgdir va p len s)
unfolding copy_to_user_virtual_memory
copy_to_user_virtual_memory-Halts pgdir va p len s =
    copy_rounds-Halts len pgdir va p len s (omega arith)
