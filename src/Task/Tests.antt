-- ===== src/Task/Tests.antt =====
-- The theorems on the life of processes at concrete tables.
use systems_programming_a.Prelude.{
  ℕ, zero, suc, ◌+◌, ◌*◌, ◌≡◌, refl, true, false, Option, none, some, [], ◌∷◌, get_elem?,
}
use systems_programming_a.Proc.{
  Process, Table, Trapframe, ProcState, runnable, running, sleep, wakeup,
}
use systems_programming_a.Files.{File, fd_none}
use systems_programming_a.Vm.{
  returned, release_user_pages, release_pages, release_page, release_found, get_page_table_entry,
}
use systems_programming_a.Syscall.{dword_at}
use systems_programming_a.Task.Machine.{Machine, completed}
use systems_programming_a.Task.Family.{
  asleep, leave, find_zombie, has_child, wait_again, wait_or_fail, pass_children,
}
use systems_programming_a.Task.Missed.{NoMissed}
use systems_programming_a.Task.Handover.{leave-NoMissed}
use systems_programming_a.Task.Waiting.{Waited, wait_again_lem, wait_again-NoMissed}

abbrev no_frame : Trapframe
no_frame = record { eax = 0; esp = 0; eip = 0; eflags = 0; cs = 0; ds = 0; es = 0; ss = 0 }

abbrev process : ℕ → ProcState → Option ℕ → Process
process pid state parent = record {
  memory_size = 4096;
  page_table = 0x80400000;
  kernel_stack = 0x80500000;
  state = state;
  process_id = pid;
  parent = parent;
  trapframe = no_frame;
  chan = 0;
  is_killed = false;
  open_file = [];
  cwd = [];
  name = [];
}

-- init in slot 0, the process of slot 1 with a child in slot 2.
abbrev family : Table
family = process 1 runnable none ∷ process 2 running (some 0) ∷ process 3 runnable (some 1) ∷ []

abbrev address : ℕ → ℕ
address i = 0x80100000 + 300 * i

abbrev no_file : File
no_file = record {
  file_type = fd_none;
  reference_count = 0;
  readable = false;
  writable = false;
  pipe = 0;
  directory_entry = [];
  name = [];
  eof = 0;
  position = 0;
  size = 0;
  device_id = 0;
}

abbrev machine : Machine
machine = record {
  processes = family;
  initproc = 0;
  next_pid = 4;
  kernel = record { use_lock = true; free_list = 0; memory = λ a. 0 };
  files = λ f. no_file;
}

-- Nobody sleeps yet.
family-NoMissed : NoMissed address family
family-NoMissed zero j p q ep eq a e =
    let same : process 1 runnable none ≡ p = cc ep in absurd (cc (rw (← same) at a))
family-NoMissed (suc zero) j p q ep eq a e =
    let same : process 2 running (some 0) ≡ p = cc ep in absurd (cc (rw (← same) at a))
family-NoMissed (suc (suc zero)) j p q ep eq a e =
    let same : process 3 runnable (some 1) ≡ p = cc ep in absurd (cc (rw (← same) at a))
family-NoMissed (suc (suc (suc i))) j p q ep eq a e = absurd (cc ep)

leave-NoMissed_example : NoMissed address (leave address 0 1 (some 0) family)
leave-NoMissed_example =
    leave-NoMissed address 0 1 (process 2 running (some 0)) family refl (λ e. cc e) family-NoMissed

-- init's new child, once the process of slot 1 has left.
handed_over : get_elem? (leave address 0 1 (some 0) family) 2 ≡ some (process 3 runnable (some 0))
unfolding leave pass_children wakeup
handed_over = refl

-- The process of slot 1 waits for its child.
waits :
    wait_again 0x80300000 address 1 machine
    ≡ completed (record machine { processes = sleep 1 (address 1) family }) asleep
unfolding wait_again find_zombie wait_or_fail has_child
waits = refl

wait_again_lem_example : Waited (address 1) 1 family asleep (sleep 1 (address 1) family)
wait_again_lem_example =
    wait_again_lem 0x80300000 address 1 machine
      (record machine { processes = sleep 1 (address 1) family }) asleep waits

wait_again-NoMissed_example : NoMissed address (sleep 1 (address 1) family)
wait_again-NoMissed_example =
    wait_again-NoMissed 0x80300000 address 1 machine
      (record machine { processes = sleep 1 (address 1) family }) asleep waits family-NoMissed

-- The release of the page of the process of slot 1, whose table has no entry.
releases :
    release_user_pages 0x80300000 0x80400000 4096 0 machine.kernel ≡ returned machine.kernel 0
unfolding release_user_pages release_pages release_page release_found get_page_table_entry dword_at
releases = refl
