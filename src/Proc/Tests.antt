-- ===== src/Proc/Tests.antt =====
-- Runs of the process table's operations, and the theorems at a concrete table.
use systems_programming_a.Prelude.{ℕ, false, none, [], ◌∷◌}
use systems_programming_a.Proc.Defs.{Process, Table, ProcState, runnable, sleeping}

abbrev process : ℕ → ProcState → Process
process pid state = record {
  memory_size = 4096;
  page_table = 0x80400000;
  kernel_stack = 0x80401000;
  state = state;
  process_id = pid;
  parent = none;
  trapframe = record { eax = 0; esp = 0; eip = 0; eflags = 0; cs = 0; ds = 0; es = 0; ss = 0 };
  chan = 0;
  is_killed = false;
  open_file = [];
  cwd = [];
  name = [];
}

abbrev first : Table
first = process 1 sleeping ∷ []

abbrev both : Table
both = process 1 sleeping ∷ process 2 runnable ∷ []
