-- ===== src/Vm/Access.antt =====
-- The kernel code of UoDOS/vm.c as functions on the memory and the free pages: what a call comes
-- to, and the accesses that it makes.
use systems_programming_a.Prelude.{ℕ, ◌+◌, ◌-◌, ◌%◌, ◌^◌, none, some}
use systems_programming_a.Str.Block.{memset, memmove, store_dword}
use systems_programming_a.Syscall.{dword_at}
use systems_programming_a.Kalloc.{KernelMemory, free_page, allocate_page, kernel_base}

-- A panic, an access through the null pointer or past the end of an object, or a loop that has not
-- ended with its fuel.
pub data Stop : Type 0 where
  panicked null_pointer out_of_bounds out_of_fuel : Stop

pub data Run (A : Type 0) : Type 0 where
  stopped : Stop → Run A
  returned : KernelMemory → A → Run A

abbrev pub Kernel : Type 0 → Type 0
Kernel A = KernelMemory → Run A

abbrev pub then_run : {A B : Type 0} → Run A → (A → Kernel B) → Run B
then_run (stopped e) f = stopped e
then_run (returned s a) f = f a s

infixl 5 ◌>>=◌ ◌>>◌
abbrev pub ◌>>=◌ : {A B : Type 0} → Kernel A → (A → Kernel B) → Kernel B
◌>>=◌ m f s = then_run (m s) f

abbrev pub ◌>>◌ : {B : Type 0} → Kernel (Unit {0}) → Kernel B → Kernel B
m >> k = m >>= λ _. k

abbrev pub result : {A : Type 0} → A → Kernel A
result a s = returned s a

abbrev pub stop : {A : Type 0} → Stop → Kernel A
stop e s = stopped e

abbrev pub load : ℕ → Kernel ℕ
load a s = returned s (dword_at s.memory a)

abbrev pub store : ℕ → ℕ → Kernel (Unit {0})
store a w s = returned (record s { memory = store_dword a w s.memory }) tt

abbrev pub clear : ℕ → ℕ → Kernel (Unit {0})
clear a n s = returned (record s { memory = memset a 0 n s.memory }) tt

abbrev pub move : ℕ → ℕ → ℕ → Kernel (Unit {0})
move d a n s = returned (record s { memory = memmove d a n s.memory }) tt

abbrev pub allocate : Kernel ℕ
allocate s = let (s', q) = allocate_page s in returned s' q

abbrev pub free : ℕ → ℕ → Kernel (Unit {0})
free kernel_end v s = elim (free_page kernel_end v s) [
  | none ↦ stopped panicked
  | some s' ↦ returned s' tt
]

-- V2P and P2V
abbrev pub v2p : ℕ → ℕ
v2p a = (a + 2 ^ 32 - kernel_base) % 2 ^ 32

abbrev pub p2v : ℕ → ℕ
p2v a = (a + kernel_base) % 2 ^ 32
