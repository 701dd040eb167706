-- ===== src/Trap/Tests.antt =====
-- Traps of one process.
use systems_programming_a.Prelude.{◌≡◌, refl, true, false, some, none, [], ◌∷◌, inr}
use systems_programming_a.Proc.{Process, Trapframe, running, runnable}
use systems_programming_a.Trap.Defs.{
  Processor, Services, returned, exited, trap, current_is_killed, current_is_running, has_process,
}
use systems_programming_a.Trap.Killed.{trap-not_killed}

abbrev frame : Trapframe
frame = record { eax = 0; esp = 0; eip = 0; eflags = 0; cs = 0x1b; ds = 0; es = 0; ss = 0 }

abbrev process : Process
process = record {
  memory_size = 4096;
  page_table = 0;
  kernel_stack = 0;
  state = running;
  process_id = 1;
  parent = none;
  trapframe = frame;
  chan = 0;
  is_killed = false;
  open_file = [];
  cwd = [];
  name = [];
}

abbrev world : Processor
world = record {
  procs = process ∷ [];
  current = some 0;
  ticks = 10;
  ticks_channel = 0x5000;
  my_cpu = 0x80112760;
  interrupts_ended = 0;
}

abbrev kernel : Services
kernel = record {
  syscall = returned;
  ide_interrupt = λ w. w;
  keyboard_interrupt = λ w. w;
  serial_interrupt = λ w. w;
  resume = λ w. w;
}

-- An interrupt of the disk is acknowledged.
disk_returns : trap kernel 46 frame world ≡ returned (record world { interrupts_ended = 1 })
unfolding trap current_is_killed current_is_running
disk_returns = refl

-- An interrupt of the timer leaves the ticks as they are, and the process gives up the processor.
tick_lost :
    trap kernel 32 frame world
    ≡ returned
        (record world { interrupts_ended = 1; procs = (record process { state = runnable }) ∷ [] })
unfolding trap current_is_killed current_is_running
tick_lost = refl

-- A fault of the program ends its process.
page_fault :
    trap kernel 14 frame world
    ≡ exited (record world { procs = (record process { is_killed = true }) ∷ [] })
unfolding trap current_is_killed current_is_running has_process
page_fault = refl

trap-not_killed_example : current_is_killed (record world { interrupts_ended = 1 }) ≡ false
trap-not_killed_example =
    trap-not_killed kernel 46 frame world (record world { interrupts_ended = 1 }) disk_returns
      (inr refl)
