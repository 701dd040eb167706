-- ===== src/Sysproc/Tests.antt =====
-- System calls of a process at concrete states.
use systems_programming_a.Prelude.{
  ◌≡◌, refl, false, some, none, [], ◌∷◌, Memory, ◌==◌, if◌then◌else◌,
}
use systems_programming_a.Proc.{sleep, tidy_up, Process, Trapframe, running}
use systems_programming_a.Pipe
use systems_programming_a.Pipe.{is_killed}
use systems_programming_a.Files.{File, fd_none}
use systems_programming_a.Task.Machine.{Machine}
use systems_programming_a.Trap.{Processor}
use systems_programming_a.Vm.Sample.{directory_page, empty_directory}
use systems_programming_a.Sysproc.Defs.{sys_sleep, sys_sleep_again, sleep_round}

abbrev frame : Trapframe
frame = record { eax = 0; esp = 0; eip = 0; eflags = 0; cs = 0x1b; ds = 0; es = 0; ss = 0 }

-- A process of one page, whose stack is at its start.
abbrev small : Process
small = record {
  memory_size = 4096;
  page_table = directory_page;
  kernel_stack = 0;
  state = running;
  process_id = 1;
  parent = none;
  trapframe = frame;
  chan = 0;
  is_killed = false;
  open_file = [];
  cwd = [];
  name = [];
}

-- The argument of sbrk: 0x100 bytes.
abbrev user : Memory
user a = if a == 5 then 1 else 0

abbrev no_file : File
no_file = record {
  file_type = fd_none;
  reference_count = 0;
  readable = false;
  writable = false;
  pipe = 0;
  directory_entry = [];
  name = [];
  eof = 0;
  position = 0;
  size = 0;
  device_id = 0;
}

abbrev machine : Machine
machine = record {
  processes = small ∷ [];
  initproc = 0;
  next_pid = 2;
  kernel = empty_directory;
  files = λ f. no_file;
}

abbrev world : Processor
world = record {
  procs = small ∷ [];
  current = some 0;
  ticks = 10;
  ticks_channel = 0x5000;
  my_cpu = 0x80112760;
  interrupts_ended = 0;
}

-- A process that asks for 100 ticks goes to sleep, and again when it is woken at once.
still_asleep : (sys_sleep_again 0 100 10 (sys_sleep 0 100 world).0).1 ≡ Pipe.asleep tt
unfolding sys_sleep sys_sleep_again sleep_round is_killed sleep tidy_up
still_asleep = refl
