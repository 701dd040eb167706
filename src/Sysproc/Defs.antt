-- ===== src/Sysproc/Defs.antt =====
-- The handlers of UoDOS/sysproc.c for the process in slot `i`, whose memory `user` has the arguments.
-- A value is a word. sys_sleep is cut at its sleep.
use systems_programming_a.Prelude.{
  ℕ, ◌+◌, ◌-◌, ◌%◌, ◌^◌, Option, none, some, List, ltb, if◌then◌else◌, Memory,
}
use systems_programming_a.Proc.{Table, kill, sleep, tidy_up}
use systems_programming_a.Pipe.{Outcome, returned, failed, asleep, is_killed}
use systems_programming_a.Files.{Closing}
use systems_programming_a.Syscall.{argint}
use systems_programming_a.Trap.{Processor}
use systems_programming_a.Task.Machine.{Task, ◌>>=◌, give, completed, process_at}
use systems_programming_a.Task.{fork, exit, Wait, reaped, no_child, wait_again, grow_process}

-- -1
abbrev pub minus_one : ℕ
minus_one = 2 ^ 32 - 1

abbrev pub or_minus_one : Option ℕ → ℕ
or_minus_one none = minus_one
or_minus_one (some n) = n

unfoldable pub sys_fork : ℕ → ℕ → ℕ → ℕ → ℕ → Task ℕ
sys_fork kernel_end data_start trapret forkret i = do
  child ← fork kernel_end data_start trapret forkret i
  give (or_minus_one child)

-- exit does not return.
unfoldable pub sys_exit : (ℕ → ℕ) → (List Closing → Table → Table) → ℕ → Task (Unit {0})
sys_exit = exit

-- The value, or none for a process that sleeps.
abbrev pub wait_value : Wait → Option ℕ
wait_value (reaped pid) = some pid
wait_value no_child = some minus_one
wait_value Wait.asleep = none

unfoldable pub sys_wait : ℕ → (ℕ → ℕ) → ℕ → Task (Option ℕ)
sys_wait kernel_end address i = do w ← wait_again kernel_end address i; give (wait_value w)

abbrev pub kill_process : ℕ → Task ℕ
kill_process pid m =
    let (ps, found) = kill pid m.processes in
    completed (record m { processes = ps }) (if found then 0 else minus_one)

-- A handler that has an int as its argument; -1 where argint fails.
abbrev pub int_or_fail : Option ℕ → (ℕ → Task ℕ) → Task ℕ
int_or_fail none f = give minus_one
int_or_fail (some n) f = f n

abbrev pub with_int : Memory → ℕ → (ℕ → Task ℕ) → Task ℕ
with_int user i f = do p ← process_at i; int_or_fail (argint p user 0) f

unfoldable pub sys_kill : Memory → ℕ → Task ℕ
sys_kill user i = with_int user i kill_process

unfoldable pub sys_getpid : ℕ → Task ℕ
sys_getpid i = do p ← process_at i; give p.process_id

-- sys_sbrk once it has its argument.
unfoldable pub sbrk : ℕ → ℕ → ℕ → Task ℕ
sbrk kernel_end i n = do
  p ← process_at i
  grown ← grow_process kernel_end i n
  give (if grown then p.memory_size else minus_one)

unfoldable pub sys_sbrk : ℕ → Memory → ℕ → Task ℕ
unfolding sbrk
sys_sbrk kernel_end user i = with_int user i (sbrk kernel_end i)

-- A round of sys_sleep's loop; `ticks - ticks0 < n` compares words.
unfoldable pub sleep_round : ℕ → ℕ → ℕ → Processor → Processor × Outcome ℕ (Unit {0})
unfolding is_killed
sleep_round i n ticks0 w =
    if ltb ((w.ticks + 2 ^ 32 - ticks0) % 2 ^ 32) n
    then (if is_killed i w.procs
        then (w, failed)
        else (record w { procs = sleep i w.ticks_channel w.procs }, asleep tt))
    else (w, returned 0)

-- sys_sleep once it has its argument, and after each sleep.
unfoldable pub sys_sleep : ℕ → ℕ → Processor → Processor × Outcome ℕ (Unit {0})
unfolding sleep_round
sys_sleep i n w = sleep_round i n w.ticks w

unfoldable pub sys_sleep_again : ℕ → ℕ → ℕ → Processor → Processor × Outcome ℕ (Unit {0})
unfolding sleep_round
sys_sleep_again i n ticks0 w = sleep_round i n ticks0 (record w { procs = tidy_up i w.procs })

abbrev pub sys_uptime : Processor → ℕ
sys_uptime w = w.ticks
