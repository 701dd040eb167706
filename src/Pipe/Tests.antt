-- ===== src/Pipe/Tests.antt =====
-- Runs of the pipe's operations, and the theorems at concrete pipes.
use systems_programming_a.Prelude.{ℕ, ◌≤◌, ◌≡◌, refl, Bool, true, false, none, List, [], ◌∷◌, ◌++◌}
use systems_programming_a.Proc.{Process, Table, ProcState, running, sleeping, wakeup, sleep}
use systems_programming_a.Pipe.Defs.{
  Pipe, World, asleep, pipe_size, initialise, pipewrite, piperead, pipeclose,
}
use systems_programming_a.Pipe.Queue.{IsValid, count, contents, initialise-IsValid, window}
use systems_programming_a.Pipe.Stream.{Wrote, pipewrite_lem, Got, piperead_lem}
use systems_programming_a.Pipe.Runs.{
  Event, write, read, close, others, run, fresh, stream_preserved,
}
use systems_programming_a.Pipe.Wakeups.{IsLive, pipewrite-IsLive, piperead-IsLive, pipeclose-IsLive}

abbrev process : ProcState → ℕ → Bool → Process
process state chan killed = record {
  memory_size = 4096;
  page_table = 0x80400000;
  kernel_stack = 0x80401000;
  state = state;
  process_id = 1;
  parent = none;
  trapframe = record { eax = 0; esp = 0; eip = 0; eflags = 0; cs = 0; ds = 0; es = 0; ss = 0 };
  chan = chan;
  is_killed = killed;
  open_file = [];
  cwd = [];
  name = [];
}

abbrev new_pipe : Pipe
new_pipe = initialise 0x1000 (λ _. 0)

abbrev two : Table
two = process running 0 false ∷ process running 0 false ∷ []

abbrev new_world : World
new_world = record { pipe = new_pipe; procs = two }

new_world-IsValid : IsValid new_world.pipe
new_world-IsValid = initialise-IsValid 0x1000 (λ _. 0)

-- A pipe with no room left, a killed writer and a reader that still sleeps.
abbrev stuck : World
stuck = record {
  pipe = record {
    address = 0x1000;
    buffer = λ _. 9;
    read_count = 100;
    write_count = 612;
    read_open = true;
    write_open = true;
    freed = false;
  };
  procs = process running 0 true ∷ process sleeping 0x1234 false ∷ [];
}

abbrev events : List Event
events =
    write 0 (1 ∷ 2 ∷ 3 ∷ []) ∷ read 1 2 ∷ others two ∷ write 0 (4 ∷ []) ∷ close true ∷ read 1 9 ∷ []

received_in_order : (run (fresh 0x1000 (λ _. 0) two) events).received ≡ 1 ∷ 2 ∷ 3 ∷ 4 ∷ []
unfolding run initialise pipewrite piperead pipeclose wakeup sleep contents window
received_in_order = refl

reader_sleeps : (piperead 1 new_world 4).1 ≡ asleep 4
unfolding initialise piperead sleep
reader_sleeps = refl

stream_preserved_example :
    let s = run (fresh 0x1000 (λ _. 0) two) events in
    (s.sent ≡ s.received ++ contents s.world.pipe) × (count s.world.pipe ≤ pipe_size)
stream_preserved_example = stream_preserved 0x1000 (λ _. 0) two events

pipewrite_lem_example : Wrote 0 new_world (1 ∷ 2 ∷ []) (pipewrite 0 new_world (1 ∷ 2 ∷ []))
pipewrite_lem_example = pipewrite_lem 0 new_world (1 ∷ 2 ∷ []) new_world-IsValid

piperead_lem_example : Got 1 new_world 4 (piperead 1 new_world 4)
piperead_lem_example = piperead_lem 1 new_world 4 new_world-IsValid

new_world-IsLive : IsLive new_world
new_world-IsLive = record { writers = λ c. (refl, (refl, tt)); readers = λ c. (refl, (refl, tt)) }

pipewrite-IsLive_example : IsLive (pipewrite 0 new_world (1 ∷ 2 ∷ [])).0
unfolding pipewrite initialise
pipewrite-IsLive_example = pipewrite-IsLive 0 new_world (1 ∷ 2 ∷ []) new_world-IsLive (λ e. cc)

piperead-IsLive_example : IsLive (piperead 1 new_world 4).0
piperead-IsLive_example = piperead-IsLive 1 new_world 4 new_world-IsLive

pipeclose-IsLive_example : IsLive (pipeclose new_world true)
pipeclose-IsLive_example = pipeclose-IsLive new_world true new_world-IsLive
