-- ===== src/Proc/Defs.antt =====
-- struct _Process of UoDOS/proc.h, and the operations of UoDOS/proc.c on the states of processes:
-- sleep, wakeup, yield, kill and the scheduler's choice.
-- The table's lock is held over each operation, so each is one step. An operation that gives the
-- processor up by swtch is a function for what it does before the switch, and one for what it does
-- after it.
use systems_programming_a.Prelude.{
  ℕ, ◌+◌, Bool, true, false, ◌&&◌, Option, none, some, List, [], ◌∷◌, map, ◌==◌, if◌then◌else◌,
  modify,
}

-- enum procstate
pub data ProcState : Type 0 where
  unused embryo sleeping runnable running zombie : ProcState

-- struct Trapframe: the registers that the kernel's C code reads or writes.
pub record Trapframe : Type 0 where
  pub eax : ℕ
  pub esp : ℕ
  pub eip : ℕ
  pub eflags : ℕ
  pub cs : ℕ
  pub ds : ℕ
  pub es : ℕ
  pub ss : ℕ

-- struct _Process. A pointer to a process is its slot in the table, a pointer to an open file its
-- slot in the file table. The saved kernel registers (`Context`) are the business of swtch.
pub record Process : Type 0 where
  pub memory_size : ℕ
  pub page_table : ℕ
  pub kernel_stack : ℕ
  pub state : ProcState
  pub process_id : ℕ
  pub parent : Option ℕ
  pub trapframe : Trapframe
  pub chan : ℕ
  pub is_killed : Bool
  pub open_file : List (Option ℕ)
  pub cwd : List ℕ
  pub name : List ℕ

abbrev pub Table : Type 0
Table = List Process

abbrev pub is_sleeping : ProcState → Bool
is_sleeping sleeping = true
is_sleeping _ = false

abbrev pub is_runnable : ProcState → Bool
is_runnable runnable = true
is_runnable _ = false

-- `p->State == SLEEPING && p->Chan == chan`
abbrev pub asleep_on : ℕ → Process → Bool
asleep_on c p = is_sleeping p.state && p.chan == c

abbrev pub wake_one : ℕ → Process → Process
wake_one c p = if asleep_on c p then record p { state = runnable } else p

-- wakeup1, and wakeup, which holds the lock round it.
unfoldable pub wakeup : ℕ → Table → Table
wakeup c ps = map (wake_one c) ps

-- What sleep does to its process before it calls sched.
unfoldable pub sleep : ℕ → ℕ → Table → Table
sleep i c ps = modify ps i (λ p. record p { chan = c; state = sleeping })

-- What sleep does after sched has returned: "Tidy up".
unfoldable pub tidy_up : ℕ → Table → Table
tidy_up i ps = modify ps i (λ p. record p { chan = 0 })

-- yield, up to its call of sched.
unfoldable pub yield : ℕ → Table → Table
yield i ps = modify ps i (λ p. record p { state = runnable })

-- What kill does to the process that it finds.
abbrev pub kill_one : Process → Process
kill_one p = record p {
  is_killed = true;
  state = if is_sleeping p.state then runnable else p.state;
}

-- kill: the new table, and whether it returns 0.
unfoldable pub kill : ℕ → Table → Table × Bool
kill pid [] = ([], false)
kill pid (p ∷ ps) =
    if p.process_id == pid
    then (kill_one p ∷ ps, true)
    else let (ps', found) = kill pid ps in (p ∷ ps', found)

-- The next process that scheduler's loop takes, from the slot `i` on, and the table in which it
-- runs.
unfoldable pub schedule : ℕ → Table → Option (ℕ × Table)
schedule i [] = none
schedule i (p ∷ ps) =
    if is_runnable p.state
    then some (i, record p { state = running } ∷ ps)
    else elim (schedule (i + 1) ps) [ none ↦ none | some (j, ps') ↦ some (j, p ∷ ps') ]
