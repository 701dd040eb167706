-- ===== src/Ide/Defs.antt =====
-- ideWait, ideStartRequest, ideInterruptHandler and ideReadWrite of UoDOS/ide.c. A pointer to a buffer
-- is its slot. What is read from the ports is an argument, what is written to them a list. The
-- spinlock is held over each operation.
use Prim.Native.Nat.{bit_and}
use systems_programming_a.Prelude.{
  ℕ, zero, suc, ◌+◌, ◌*◌, ◌/◌, ◌%◌, ◌^◌, Bool, true, false, not, ◌&&◌, Option, none, some, List, [],
  ◌∷◌, ◌++◌, ◌==◌, if◌then◌else◌, update,
}
use systems_programming_a.Proc.{Table, wakeup, sleep, tidy_up}
use systems_programming_a.Bio.{DiskBuffer, nbuf}

-- A byte for a port, and a sequence of words for one, by their bytes.
pub data Output : Type 0 where
  out_byte : ℕ → ℕ → Output
  out_sequence : ℕ → List ℕ → Output

-- The globals, with the field QueueNext and the data of each buffer, the address of each, on which
-- processes sleep, and what has been written to the ports.
pub record Ide : Type 0 where
  pub buffers : ℕ → DiskBuffer
  pub contents : ℕ → List ℕ
  pub queue_next : ℕ → Option ℕ
  pub idequeue : Option ℕ
  pub havedisk1 : Bool
  pub address : ℕ → ℕ
  pub procs : Table
  pub output : List Output

-- IDE_BUSY | IDE_READY, IDE_READY, and IDE_DRIVEFAULT | IDE_ERROR
abbrev pub busy_or_ready : ℕ
busy_or_ready = 0xc0

abbrev pub ide_ready : ℕ
ide_ready = 0x40

abbrev pub fault_or_error : ℕ
fault_or_error = 0x21

-- ideWait on the readings of the status port: whether it returns -1; `none` is a disk that is busy
-- in all of them.
unfoldable pub ide_wait : Bool → List ℕ → Option Bool
ide_wait check_for_error [] = none
ide_wait check_for_error (status ∷ readings) =
    if bit_and status busy_or_ready == ide_ready
    then some (check_for_error && not (bit_and status fault_or_error == 0))
    else ide_wait check_for_error readings

abbrev pub ide_cmd_read : ℕ
ide_cmd_read = 0x20

abbrev pub ide_cmd_write : ℕ
ide_cmd_write = 0x30

-- What ideStartRequest writes, with one sector to a block. The bits that the register of the drive is
-- put together from are apart, so they add up.
unfoldable pub request_of : DiskBuffer → List ℕ → List Output
request_of b bytes =
    out_byte 0x3f6 0
    ∷ out_byte 0x1f2 1
    ∷ out_byte 0x1f3 (b.sector_number % 256)
    ∷ out_byte 0x1f4 (b.sector_number / 2 ^ 8 % 256)
    ∷ out_byte 0x1f5 (b.sector_number / 2 ^ 16 % 256)
    ∷ out_byte 0x1f6 (0xe0 + b.device % 2 * 16 + b.sector_number / 2 ^ 24 % 16)
    ∷ (if b.is_dirty
        then out_byte 0x1f7 ide_cmd_write ∷ out_sequence 0x1f0 bytes ∷ []
        else out_byte 0x1f7 ide_cmd_read ∷ [])

-- ideStartRequest after its wait, whose result it ignores.
unfoldable pub start_after : Option Bool → ℕ → Ide → Option Ide
start_after none b s = none
start_after (some failed) b s =
    some (record s { output = s.output ++ request_of (s.buffers b) (s.contents b) })

unfoldable pub ide_start_request : List ℕ → ℕ → Ide → Option Ide
unfolding start_after
ide_start_request readings b s = start_after (ide_wait false readings) b s

-- The start of the request at the head of the queue, if there is one.
unfoldable pub start_head : List ℕ → Option ℕ → Ide → Option Ide
start_head readings none s = some s
start_head readings (some b) s = ide_start_request readings b s

-- The read of ideInterruptHandler after its wait, from the port's `incoming`.
unfoldable pub receive_after : Option Bool → List ℕ → ℕ → Ide → Option Ide
receive_after none incoming b s = none
receive_after (some true) incoming b s = some s
receive_after (some false) incoming b s =
    some (record s { contents = update s.contents b incoming })

-- The data that it reads for a buffer that is not dirty.
unfoldable pub receive_data : List ℕ → List ℕ → ℕ → Ide → Option Ide
unfolding receive_after
receive_data readings incoming b s =
    if (s.buffers b).is_dirty then some s else receive_after (ide_wait true readings) incoming b s

-- `b->Flags |= B_VALID; b->Flags &= ~B_DIRTY; wakeup(b);`
unfoldable pub complete : ℕ → Ide → Ide
complete b s = record s {
  buffers = update s.buffers b (record (s.buffers b) { is_valid = true; is_dirty = false });
  procs = wakeup (s.address b) s.procs;
}

-- The rest of ideInterruptHandler, when the data are there.
unfoldable pub finish_request : List ℕ → ℕ → Option Ide → Option Ide
unfolding complete start_head
finish_request readings b none = none
finish_request readings b (some s) = start_head readings s.idequeue (complete b s)

-- ideInterruptHandler, with the readings of its two waits and the data of the port, by the pointer at
-- the queue's start; `none` is a disk that stays busy.
unfoldable pub handle_head : List ℕ → List ℕ → List ℕ → Option ℕ → Ide → Option Ide
unfolding finish_request receive_data
handle_head readings incoming readings' none s = some s
handle_head readings incoming readings' (some b) s =
    finish_request readings' b
      (receive_data readings incoming b (record s { idequeue = s.queue_next b }))

unfoldable pub ide_interrupt_handler : List ℕ → List ℕ → List ℕ → Ide → Option Ide
unfolding handle_head
ide_interrupt_handler readings incoming readings' s =
    handle_head readings incoming readings' s.idequeue s

-- The last buffer of the queue, from `b` on. The queue has at most NBUF buffers.
unfoldable pub last_from : ℕ → (ℕ → Option ℕ) → ℕ → ℕ
last_from zero next b = b
last_from (suc fuel) next b = elim (next b) [ none ↦ b | some q ↦ last_from fuel next q ]

-- "Append b to idequeue.", by the pointer at the queue's start.
unfoldable pub append_to : Option ℕ → ℕ → Ide → Ide
append_to none b s = record s { queue_next = update s.queue_next b none; idequeue = some b }
append_to (some p) b s =
    let next = update s.queue_next b none in
    record s { queue_next = update next (last_from nbuf next p) (some b) }

unfoldable pub enqueue : ℕ → Ide → Ide
unfolding append_to
enqueue b s = append_to s.idequeue b s

-- What a call of ideReadWrite comes to: a panic, a disk that stays busy, the return, or a sleep.
pub data Called : Type 0 where
  panicked busy : Called
  returned asleep : Ide → Called

-- `(b->Flags & (B_VALID | B_DIRTY)) == B_VALID`
abbrev pub is_done : DiskBuffer → Bool
is_done b = b.is_valid && not b.is_dirty

-- "Wait for request to finish_request.", by the process in slot `i`; and after the sleep.
unfoldable pub wait_for : ℕ → ℕ → Ide → Called
wait_for i b s =
    if is_done (s.buffers b)
    then returned s
    else asleep (record s { procs = sleep i (s.address b) s.procs })

unfoldable pub wait_on : ℕ → ℕ → Ide → Called
unfolding wait_for
wait_on i b s = wait_for i b (record s { procs = tidy_up i s.procs })

abbrev pub is_head : ℕ → Option ℕ → Bool
is_head b none = false
is_head b (some q) = q == b

-- ideReadWrite from its wait on
unfoldable pub wait_after : ℕ → ℕ → Option Ide → Called
unfolding wait_for
wait_after i b none = busy
wait_after i b (some s) = wait_for i b s

-- "Start disk if necessary."
unfoldable pub start_if_head : List ℕ → ℕ → Ide → Option Ide
unfolding ide_start_request
start_if_head readings b s = if is_head b s.idequeue then ide_start_request readings b s else some s

-- ideReadWrite by the process in slot `i`
unfoldable pub ide_read_write : ℕ → ℕ → List ℕ → Ide → Called
unfolding enqueue wait_after start_if_head
ide_read_write i b readings s =
    if not (s.buffers b).is_locked
    then panicked
    else if is_done (s.buffers b)
    then panicked
    else if not ((s.buffers b).device == 0) && not s.havedisk1
    then panicked
    else wait_after i b (start_if_head readings b (enqueue b s))
