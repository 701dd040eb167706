-- ===== src/Lock/Defs.antt =====
-- pushCli, popCli, the spinlock of UoDOS/spinlock.c and the sleeplock of UoDOS/sleeplock.c.
-- `none` is a panic. A processor is its number.
use systems_programming_a.Prelude.{
  ℕ, zero, suc, ◌+◌, ◌-◌, ◌^◌, ◌%◌, Option, none, some, Bool, true, false, not, ◌&&◌, ◌||◌, List,
  [], ◌∷◌, replicate, ltb, ◌==◌, if◌then◌else◌, set,
}
use systems_programming_a.Proc.{Table, sleep, wakeup, tidy_up}

-- The fields of struct _Cpu that the locks use, and the interrupt flag of the processor.
pub record Cpu : Type 0 where
  pub cli_depth : ℕ
  pub interrupts_enabled : Bool
  pub flag : Bool

unfoldable pub push_cli : Cpu → Cpu
push_cli c = record {
  cli_depth = c.cli_depth + 1;
  interrupts_enabled = if c.cli_depth == 0 then c.flag else c.interrupts_enabled;
  flag = false;
}

unfoldable pub pop_cli : Cpu → Option Cpu
pop_cli c =
    if c.flag
    then none
    else if c.cli_depth == 0
    then none
    else some (record c {
      cli_depth = c.cli_depth - 1;
      flag = c.cli_depth - 1 == 0 && c.interrupts_enabled;
    })

-- struct _Spinlock
pub record Spinlock : Type 0 where
  pub locked : Bool
  pub cpu : Option ℕ
  pub pcs : List ℕ

unfoldable pub spinlock_initialise : Spinlock → Spinlock
spinlock_initialise lk = record lk { locked = false; cpu = none }

-- `lock->Locked && lock->Cpu == myCpu()`
abbrev pub is_holding : ℕ → Spinlock → Bool
is_holding i lk = lk.locked && elim lk.cpu [ none ↦ false | some j ↦ i == j ]

-- The loop of getProcessCallStack with `n` of its 10 rounds left, at a frame: `word` is the 32-bit
-- word of the memory at an address.
unfoldable pub call_stack : (ℕ → ℕ) → ℕ → ℕ → List ℕ
call_stack word ebp zero = []
call_stack word ebp (suc n) =
    let rest = call_stack word (word ebp) n in
    if ebp == 0 || ltb ebp 0x80000000 || ebp == 0xffffffff
    then replicate (suc n) 0
    else word ((ebp + 4) % 2 ^ 32) ∷ rest

-- getProcessCallStack, given the address of the first argument of its caller.
unfoldable pub get_process_call_stack : (ℕ → ℕ) → ℕ → List ℕ
unfolding call_stack
get_process_call_stack word v = call_stack word ((v + 2 ^ 32 - 8) % 2 ^ 32) 10

-- One round of `while (atomicExchange(&lk->Locked, 1) != 0)` by the processor `i`, and what follows
-- the loop when it was the last: whether the lock is taken, and the lock. The stores after the
-- exchange are one step with it: another processor's isHolding does not tell the difference.
unfoldable pub exchange : (ℕ → ℕ) → ℕ → ℕ → Spinlock → Spinlock × Bool
unfolding get_process_call_stack
exchange word v i lk =
    if lk.locked
    then (lk, false)
    else (record { locked = true; cpu = some i; pcs = get_process_call_stack word v }, true)

-- spinlockAcquire by processor `i` up to its first exchange.
unfoldable pub spinlock_acquire : (ℕ → ℕ) → ℕ → ℕ → Cpu → Spinlock → Option (Cpu × Spinlock × Bool)
unfolding push_cli exchange
spinlock_acquire word v i c lk =
    if is_holding i lk
    then none
    else let (lk', taken) = exchange word v i lk in some (push_cli c, lk', taken)

unfoldable pub spinlock_release : ℕ → Cpu → Spinlock → Option (Cpu × Spinlock)
unfolding pop_cli
spinlock_release i c lk = if not (is_holding i lk) then none else elim (pop_cli c) [
  | none ↦ none
  | some c' ↦ some (c', record { locked = false; cpu = none; pcs = set lk.pcs 0 0 })
]

-- struct _Sleeplock at an address, and the process table. Its spinlock is held over each operation.
pub record Sleeplock : Type 0 where
  pub address : ℕ
  pub is_locked : Bool
  pub pid : ℕ
  pub procs : Table

unfoldable pub sleeplock_initialise : Sleeplock → Sleeplock
sleeplock_initialise lk = record lk { is_locked = false; pid = 0 }

-- sleeplockAcquire by the process in slot `i`: whether it has the lock or sleeps.
unfoldable pub sleeplock_acquire : ℕ → ℕ → Sleeplock → Sleeplock × Bool
sleeplock_acquire i pid lk =
    if lk.is_locked
    then (record lk { procs = sleep i lk.address lk.procs }, false)
    else (record lk { is_locked = true; pid = pid }, true)

-- The call once sleep has returned.
unfoldable pub sleeplock_acquire_again : ℕ → ℕ → Sleeplock → Sleeplock × Bool
unfolding sleeplock_acquire
sleeplock_acquire_again i pid lk =
    sleeplock_acquire i pid (record lk { procs = tidy_up i lk.procs })

unfoldable pub sleeplock_release : Sleeplock → Sleeplock
sleeplock_release lk = record lk { is_locked = false; pid = 0; procs = wakeup lk.address lk.procs }

abbrev pub is_holding_sleeplock : Sleeplock → Bool
is_holding_sleeplock lk = lk.is_locked
