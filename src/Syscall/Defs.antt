-- ===== src/Syscall/Defs.antt =====
-- fetchint, fetchstr, argint, argptr, argstr and syscall of UoDOS/syscall.c.
-- An int and a pointer are 32-bit words; an int of 2^31 and up is negative. `none` is the result -1.
use systems_programming_a.Prelude.{
  ℕ, zero, suc, ◌+◌, ◌-◌, ◌*◌, ◌^◌, ◌%◌, Option, none, some, List, ◌&&◌, ◌||◌, leb, ltb, ◌==◌,
  if◌then◌else◌, Memory, get_elem?, Bool, length,
}
use systems_programming_a.Proc.{Process}

-- The 32-bit word at an address, low byte first.
unfoldable pub dword_at : Memory → ℕ → ℕ
dword_at m a = m a + 2 ^ 8 * m (a + 1) + 2 ^ 16 * m (a + 2) + 2 ^ 24 * m (a + 3)

unfoldable pub fetchint : Process → Memory → ℕ → Option ℕ
fetchint p m addr =
    if leb p.memory_size addr || ltb p.memory_size ((addr + 4) % 2 ^ 32)
    then none
    else some (dword_at m addr)

-- `for (s = *pp; s < ep; s++)`, with `n` bytes left up to `ep`: the distance of the terminator.
unfoldable pub scan : Memory → ℕ → ℕ → Option ℕ
scan m s zero = none
scan m s (suc n) =
    let rest = scan m (s + 1) n in
    if m s == 0 then some 0 else elim rest [ none ↦ none | some k ↦ some (k + 1) ]

-- The length of the string; the pointer that is stored is the address.
unfoldable pub fetchstr : Process → Memory → ℕ → Option ℕ
unfolding scan
fetchstr p m addr = if leb p.memory_size addr then none else scan m addr (p.memory_size - addr)

unfoldable pub argint : Process → Memory → ℕ → Option ℕ
unfolding fetchint
argint p m n = fetchint p m ((p.trapframe.esp + 4 + 4 * n) % 2 ^ 32)

-- `size < 0 || (uint32_t)i >= MemorySize || (uint32_t)i + size > MemorySize`
abbrev pub is_outside : Process → ℕ → ℕ → Bool
is_outside p size i =
    leb (2 ^ 31) size || leb p.memory_size i || ltb p.memory_size ((i + size) % 2 ^ 32)

unfoldable pub argptr : Process → Memory → ℕ → ℕ → Option ℕ
unfolding argint
argptr p m n size = elim (argint p m n) [
  | none ↦ none
  | some i ↦ if is_outside p size i then none else some i
]

-- The pointer and the length.
unfoldable pub argstr : Process → Memory → ℕ → Option (ℕ × ℕ)
unfolding argint fetchstr
argstr p m n = elim (argint p m n) [
  | none ↦ none
  | some addr ↦ elim (fetchstr p m addr) [ none ↦ none | some len ↦ some (addr, len) ]
]

-- The handler in the table `syscalls`: the slot 0 and numbers without a handler are null pointers.
-- A handler is a function on the state `S` of the kernel, and its value is a word.
unfoldable pub handler : {S : Type 0} → List (Option (S → S × ℕ)) → ℕ → Option (S → S × ℕ)
handler syscalls num =
    if ltb 0 num && ltb num (2 ^ 31) && ltb num (length syscalls)
    then elim (get_elem? syscalls num) [ none ↦ none | some h ↦ h ]
    else none

-- syscall: the state after the call and the word stored in eax, 2^32 - 1 for the -1 of an unknown
-- number. The message that is printed for it is not modelled.
unfoldable pub syscall : {S : Type 0} → List (Option (S → S × ℕ)) → S → ℕ → S × ℕ
unfolding handler
syscall syscalls s num = elim (handler syscalls num) [ none ↦ (s, 2 ^ 32 - 1) | some h ↦ h s ]
