-- ===== src/Syscall/Tests.antt =====
-- The bounds at a process with a small memory, and the call of a table with one handler.
use systems_programming_a.Prelude.{
  ℕ, ◌+◌, ◌-◌, ◌<◌, ◌≤◌, ◌^◌, ◌≡◌, refl, arith, none, some, [], ◌∷◌, Memory, List, Option, ◌==◌,
  if◌then◌else◌, false,
}
use systems_programming_a.Proc.{Process, running}
use systems_programming_a.Syscall.Defs.{argint, argptr, syscall, dword_at, fetchint, handler}
use systems_programming_a.Syscall.Bounds.{argptr_lem}

-- A process with 4096 bytes, its stack pointer at 96.
abbrev caller : Process
caller = record {
  memory_size = 4096;
  page_table = 0x80400000;
  kernel_stack = 0x80401000;
  state = running;
  process_id = 1;
  parent = none;
  trapframe = record { eax = 5; esp = 96; eip = 0; eflags = 0; cs = 0; ds = 0; es = 0; ss = 0 };
  chan = 0;
  is_killed = false;
  open_file = [];
  cwd = [];
  name = [];
}

-- The first argument is 200, where the text "a" lies.
abbrev user_memory : Memory
user_memory a = if a == 100 then 200 else if a == 200 then b'a' else 0

argptr_lem_example :
    (argint caller user_memory 0 ≡ some 200) × (3896 < 2 ^ 31) × (200 + 3896 ≤ caller.memory_size)
unfolding argptr argint fetchint dword_at
argptr_lem_example = argptr_lem caller user_memory 0 3896 200 (omega arith) refl

abbrev handlers : List (Option (ℕ → ℕ × ℕ))
handlers = none ∷ some (λ s. (s + 1, 7)) ∷ []

known_call : syscall handlers 3 1 ≡ (4, 7)
unfolding syscall handler
known_call = refl

unknown_call : syscall handlers 3 2 ≡ (3, 2 ^ 32 - 1)
unfolding syscall handler
unknown_call = refl
