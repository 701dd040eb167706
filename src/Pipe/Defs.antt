-- ===== src/Pipe/Defs.antt =====
-- struct _Pipe and the operations pipewrite, piperead and pipeclose of UoDOS/pipe.c.
-- A call runs under the pipe's lock up to its end or up to a call of sleep. A call that sleeps is
-- continued by another function, so what others do while it sleeps can come in between.
use systems_programming_a.Prelude.{
  ℕ, zero, suc, ◌+◌, ◌%◌, ◌^◌, Bool, true, false, not, ◌&&◌, ◌||◌, none, some, List, [], ◌∷◌, ◌==◌,
  if◌then◌else◌, update, get_elem?,
}
use systems_programming_a.Proc.{Table, wakeup, sleep, tidy_up}

abbrev pub pipe_size : ℕ
pipe_size = 512

-- struct _Pipe. The counts are uint32_t; `address` is where the structure lies, which the channels
-- are made of. `freed` is set when the page that holds it has been given back.
pub record Pipe : Type 0 where
  pub address : ℕ
  pub buffer : ℕ → ℕ
  pub read_count : ℕ
  pub write_count : ℕ
  pub read_open : Bool
  pub write_open : Bool
  pub freed : Bool

-- &p->ReadCount and &p->WriteCount: the lock takes 52 bytes, the data 512.
abbrev pub read_channel : Pipe → ℕ
read_channel p = p.address + 564

abbrev pub write_channel : Pipe → ℕ
write_channel p = p.address + 568

-- What the operations change: the pipe and the process table.
pub record World : Type 0 where
  pub pipe : Pipe
  pub procs : Table

-- The fields that pipealloc sets. (The buffer holds what the page held.)
unfoldable pub initialise : ℕ → (ℕ → ℕ) → Pipe
initialise address junk = record {
  address = address;
  buffer = junk;
  read_count = 0;
  write_count = 0;
  read_open = true;
  write_open = true;
  freed = false;
}

-- `p->WriteCount == p->ReadCount + PIPESIZE`
abbrev pub is_full : Pipe → Bool
is_full p = p.write_count == (p.read_count + pipe_size) % 2 ^ 32

-- `p->ReadCount == p->WriteCount`
abbrev pub is_empty : Pipe → Bool
is_empty p = p.read_count == p.write_count

-- `p->Data[p->WriteCount++ % PIPESIZE] = b`
unfoldable pub put : Pipe → ℕ → Pipe
put p b = record p {
  buffer = update p.buffer (p.write_count % pipe_size) b;
  write_count = (p.write_count + 1) % 2 ^ 32;
}

-- `p->Data[p->ReadCount++ % PIPESIZE]`
abbrev pub front : Pipe → ℕ
front p = p.buffer (p.read_count % pipe_size)

unfoldable pub advance : Pipe → Pipe
advance p = record p { read_count = (p.read_count + 1) % 2 ^ 32 }

-- Where a call stands: returned with a value, returned -1, or asleep with this much left to do.
pub data Outcome (A B : Type 0) : Type 0 where
  returned : A → Outcome A B
  failed : Outcome A B
  asleep : B → Outcome A B

-- `myProcess()->IsKilled` for the process in slot `i`
unfoldable pub is_killed : ℕ → Table → Bool
is_killed i ps = elim (get_elem? ps i) [ none ↦ false | some p ↦ p.is_killed ]

abbrev pub wake_readers : World → World
wake_readers w = record w { procs = wakeup (read_channel w.pipe) w.procs }

abbrev pub wake_writers : World → World
wake_writers w = record w { procs = wakeup (write_channel w.pipe) w.procs }

-- pipewrite by the process in slot `i`, with these bytes left to write. A call that returns n has
-- written all its bytes; the argument check of sys_write refuses a negative n.
unfoldable pub pipewrite : ℕ → World → List ℕ → World × Outcome (Unit {0}) (List ℕ)
unfolding put is_killed
pipewrite i w [] = (wake_readers w, returned tt)
pipewrite i w (b ∷ bs) =
    let rest = pipewrite i (record w { pipe = put w.pipe b }) bs in
    if is_full w.pipe
    then (if not w.pipe.read_open || is_killed i w.procs then (w, failed) else (
      record w { procs = sleep i (write_channel w.pipe) (wakeup (read_channel w.pipe) w.procs) },
      asleep (b ∷ bs),
    ))
    else rest

-- `for (i = 0; i < n; i++) { if (p->ReadCount == p->WriteCount) break; addr[i] = ... }`
unfoldable pub drain : Pipe → ℕ → Pipe × List ℕ
unfolding advance
drain p zero = (p, [])
drain p (suc n) =
    let rest = drain (advance p) n in if is_empty p then (p, []) else (rest.0, front p ∷ rest.1)

-- piperead of up to `n` bytes by the process in slot `i`. The value is the bytes read, whose number
-- is what the call returns.
unfoldable pub piperead : ℕ → World → ℕ → World × Outcome (List ℕ) ℕ
unfolding drain is_killed
piperead i w n =
    if is_empty w.pipe && w.pipe.write_open
    then (if is_killed i w.procs
        then (w, failed)
        else (record w { procs = sleep i (read_channel w.pipe) w.procs }, asleep n))
    else let (p, bytes) = drain w.pipe n in (wake_writers (record w { pipe = p }), returned bytes)

-- The two calls once sleep has returned.
unfoldable pub pipewrite_again : ℕ → World → List ℕ → World × Outcome (Unit {0}) (List ℕ)
unfolding pipewrite
pipewrite_again i w bs = pipewrite i (record w { procs = tidy_up i w.procs }) bs

unfoldable pub piperead_again : ℕ → World → ℕ → World × Outcome (List ℕ) ℕ
unfolding piperead
piperead_again i w n = piperead i (record w { procs = tidy_up i w.procs }) n

-- `if (p->ReadOpen == 0 && p->WriteOpen == 0) freePhysicalMemoryPage(p)`
abbrev pub free_if_closed : World → World
free_if_closed w =
    if not w.pipe.read_open && not w.pipe.write_open
    then record w { pipe = record w.pipe { freed = true } }
    else w

abbrev pub close_write : World → World
close_write w = wake_readers (record w { pipe = record w.pipe { write_open = false } })

abbrev pub close_read : World → World
close_read w = wake_writers (record w { pipe = record w.pipe { read_open = false } })

unfoldable pub pipeclose : World → Bool → World
pipeclose w writable = free_if_closed (if writable then close_write w else close_read w)
