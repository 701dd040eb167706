-- ===== src/Trap/Defs.antt =====
-- trap of UoDOS/trap.c. What it calls of the drivers and of the system calls is an interface; the
-- messages that it prints are left out.
use systems_programming_a.Prelude.{
  ℕ, ◌+◌, ◌%◌, ◌^◌, Bool, true, false, not, ◌&&◌, ◌||◌, Option, none, some, ◌==◌, if◌then◌else◌,
  modify, get_elem?,
}
use systems_programming_a.Proc.{Process, Table, Trapframe, ProcState, running, runnable, wakeup}

-- T_SYSCALL, T_IRQ0, IRQ_TIMER, IRQ_KBD, IRQ_COM1, IRQ_IDE, IRQ_SPURIOUS
abbrev pub t_syscall : ℕ
t_syscall = 64

abbrev pub t_irq0 : ℕ
t_irq0 = 32

abbrev pub irq_timer : ℕ
irq_timer = 0

abbrev pub irq_kbd : ℕ
irq_kbd = 1

abbrev pub irq_com1 : ℕ
irq_com1 = 4

abbrev pub irq_ide : ℕ
irq_ide = 14

abbrev pub irq_spurious : ℕ
irq_spurious = 31

-- What trap.c works on: the process table, the slot of the process that runs on this processor,
-- `ticks` with its address, the pointer that myCpu returns, and how often the local APIC has been told
-- the end of an interrupt.
pub record Processor : Type 0 where
  pub procs : Table
  pub current : Option ℕ
  pub ticks : ℕ
  pub ticks_channel : ℕ
  pub my_cpu : ℕ
  pub interrupts_ended : ℕ

-- Where a call ends: it returns, the process exits, or the kernel panics or follows the null pointer.
pub data TrapResult : Type 0 where
  returned exited : Processor → TrapResult
  panicked null_pointer : TrapResult

-- The drivers, the dispatch of the system calls, and what has happened when a process that has given
-- the processor up goes on.
pub record Services : Type 0 where
  pub syscall : Processor → TrapResult
  pub ide_interrupt : Processor → Processor
  pub keyboard_interrupt : Processor → Processor
  pub serial_interrupt : Processor → Processor
  pub resume : Processor → Processor

abbrev pub then_trap : TrapResult → (Processor → TrapResult) → TrapResult
then_trap (returned w) f = f w
then_trap (exited w) f = exited w
then_trap panicked f = panicked
then_trap null_pointer f = null_pointer

-- A field of the process that myProcess returns; `absent` where it returns the null pointer.
abbrev pub of_current {ℓ} : {A : Type ℓ} → A → (Process → A) → Processor → A
of_current absent f w = elim w.current [
  | none ↦ absent
  | some i ↦ elim (get_elem? w.procs i) [ none ↦ absent | some p ↦ f p ]
]

-- `myProcess() && myProcess()->IsKilled`
unfoldable pub current_is_killed : Processor → Bool
current_is_killed w = of_current false (λ p. p.is_killed) w

abbrev is_running_state : ProcState → Bool
is_running_state running = true
is_running_state s = false

unfoldable pub current_is_running : Processor → Bool
current_is_running w = of_current false (λ p. is_running_state p.state) w

unfoldable pub has_process : Processor → Bool
has_process w = of_current false (λ p. true) w

abbrev pub change_at : Option ℕ → (Process → Process) → Table → Table
change_at none f ps = ps
change_at (some i) f ps = modify ps i f

abbrev pub change_current : (Process → Process) → Processor → Processor
change_current f w = record w { procs = change_at w.current f w.procs }

-- exit, which does not return, if the test holds.
abbrev pub exit_if : Bool → Processor → TrapResult
exit_if b w = if b then exited w else returned w

abbrev pub end_of_interrupt : Processor → Processor
end_of_interrupt w = record w { interrupts_ended = w.interrupts_ended + 1 }

-- The case of the timer, with its test of the pointer that myCpu returns.
unfoldable pub timer : Processor → Processor
timer w =
    if w.my_cpu == 0
    then record w { ticks = (w.ticks + 1) % 2 ^ 32; procs = wakeup w.ticks_channel w.procs }
    else w

-- The default case: `tf->cs & 3` is 0 in the kernel.
unfoldable pub fault : Trapframe → Processor → TrapResult
fault tf w =
    if not (has_process w) || tf.cs % 4 == 0
    then panicked
    else returned (change_current (λ p. record p { is_killed = true }) w)

-- The switch on the number of the trap.
unfoldable pub dispatch : Services → ℕ → Trapframe → Processor → TrapResult
unfolding timer fault
dispatch k trapno tf w =
    if trapno == t_irq0 + irq_timer
    then returned (end_of_interrupt (timer w))
    else if trapno == t_irq0 + irq_ide
    then returned (end_of_interrupt (k.ide_interrupt w))
    else if trapno == t_irq0 + irq_ide + 1
    then returned w
    else if trapno == t_irq0 + irq_kbd
    then returned (end_of_interrupt (k.keyboard_interrupt w))
    else if trapno == t_irq0 + irq_com1
    then returned (end_of_interrupt (k.serial_interrupt w))
    else if trapno == t_irq0 + 7 || trapno == t_irq0 + irq_spurious
    then returned (end_of_interrupt w)
    else fault tf w

-- "Force process exit if it has been killed and is in user space."
unfoldable pub leave_killed : Trapframe → Processor → TrapResult
leave_killed tf w = exit_if (current_is_killed w && tf.cs % 4 == 3) w

-- "Force process to give up CPU on clock tick."
unfoldable pub give_up : Services → ℕ → Processor → Processor
give_up k trapno w =
    if current_is_running w && trapno == t_irq0 + irq_timer
    then k.resume (change_current (λ p. record p { state = runnable }) w)
    else w

-- A system call of a process, with exit before and behind it if the process has been killed.
unfoldable pub call_handler : Services → Trapframe → Processor → TrapResult
call_handler k tf w = then_trap (exit_if (current_is_killed w) w) (λ w.
    then_trap (k.syscall (change_current (λ p. record p { trapframe = tf }) w))
      (λ w. exit_if (current_is_killed w) w))

-- Without a process, the read of IsKilled follows the null pointer.
unfoldable pub call : Services → Trapframe → Processor → TrapResult
unfolding call_handler
call k tf w = if not (has_process w) then null_pointer else call_handler k tf w

-- trap
unfoldable pub trap : Services → ℕ → Trapframe → Processor → TrapResult
unfolding dispatch leave_killed give_up call
trap k trapno tf w =
    if trapno == t_syscall
    then call k tf w
    else then_trap (dispatch k trapno tf w)
        (λ w. then_trap (leave_killed tf w) (λ w. leave_killed tf (give_up k trapno w)))
