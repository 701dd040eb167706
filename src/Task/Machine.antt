-- ===== src/Task/Machine.antt =====
-- What the functions of UoDOS/proc.c share: the table of processes, the memory and the open files.
use systems_programming_a.Prelude.{ℕ, Option, none, some, modify, get_elem?}
use systems_programming_a.Proc.{Process, Table}
use systems_programming_a.Kalloc.{KernelMemory}
use systems_programming_a.Files.{Files}
use systems_programming_a.Vm.{Stop, Kernel, stopped, returned, null_pointer}

-- processTable, initproc and nextpid, with the memory and the table of open files. A pointer to a
-- process is its slot.
pub record Machine : Type 0 where
  pub processes : Table
  pub initproc : ℕ
  pub next_pid : ℕ
  pub kernel : KernelMemory
  pub files : Files

-- What a call comes to.
pub data Call (A : Type 0) : Type 0 where
  aborted : Stop → Call A
  completed : Machine → A → Call A

abbrev pub Task : Type 0 → Type 0
Task A = Machine → Call A

abbrev pub then_call : {A B : Type 0} → Call A → (A → Task B) → Call B
then_call (aborted e) f = aborted e
then_call (completed m a) f = f a m

infixl 5 ◌>>=◌ ◌>>◌
abbrev pub ◌>>=◌ : {A B : Type 0} → Task A → (A → Task B) → Task B
◌>>=◌ t f m = then_call (t m) f

abbrev pub ◌>>◌ : {B : Type 0} → Task (Unit {0}) → Task B → Task B
t >> k = t >>= λ u. k

abbrev pub give : {A : Type 0} → A → Task A
give a m = completed m a

abbrev pub abort : {A : Type 0} → Stop → Task A
abort e m = aborted e

-- The value, or the end where there is none.
abbrev pub expect : {A : Type 0} → Stop → Option A → Task A
expect e o m = elim o [ none ↦ aborted e | some a ↦ completed m a ]

-- The kernel's memory in a call.
abbrev pub in_kernel : {A : Type 0} → Kernel A → Task A
in_kernel k m = elim (k m.kernel) [
  | stopped e ↦ aborted e
  | returned s a ↦ completed (record m { kernel = s }) a
]

abbrev pub process_at : ℕ → Task Process
process_at i m = expect null_pointer (get_elem? m.processes i) m

abbrev pub change_process : ℕ → (Process → Process) → Task (Unit {0})
change_process i f m = completed (record m { processes = modify m.processes i f }) tt

abbrev pub put_files : Files → Task (Unit {0})
put_files t m = completed (record m { files = t }) tt
