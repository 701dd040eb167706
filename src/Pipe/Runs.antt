-- ===== src/Pipe/Runs.antt =====
-- Any sequence of calls on one pipe, by any processes and in any order, with what other code does
-- to the process table in between.
use mathlib.Core.List.{append-nil, append_assoc}
use systems_programming_a.Prelude.{
  ℕ, ◌≤◌, ◌≡◌, sym, arith, Bool, List, [], ◌∷◌, ◌++◌, take, drop, take-append-drop,
}
use systems_programming_a.Proc.{Table}
use systems_programming_a.Pipe.Defs.{
  World, Outcome, returned, pipe_size, initialise, pipewrite, piperead, pipewrite_again,
  piperead_again, pipeclose,
}
use systems_programming_a.Pipe.Queue.{
  IsValid, room, count, contents, initialise-IsValid, contents-initialise,
}
use systems_programming_a.Pipe.Stream.{pipewrite_lem, piperead_lem}

pub data Event : Type 0 where
  write write_again : (i : ℕ) (bytes : List ℕ) → Event
  read read_again : (i : ℕ) (n : ℕ) → Event
  close : (writable : Bool) → Event
  -- What the rest of the kernel does to the process table.
  others : Table → Event

-- The pipe with all that was put into it and all that was taken out, in order.
pub record Stream : Type 0 where
  pub world : World
  pub sent : List ℕ
  pub received : List ℕ

-- The bytes that a call of piperead delivers.
abbrev pub delivered : Outcome (List ℕ) ℕ → List ℕ
delivered (returned bytes) = bytes
delivered _ = []

unfoldable pub step : Stream → Event → Stream
step s (write i bs) = record {
  world = (pipewrite i s.world bs).0;
  sent = s.sent ++ take (room s.world.pipe) bs;
  received = s.received;
}
step s (write_again i bs) = record {
  world = (pipewrite_again i s.world bs).0;
  sent = s.sent ++ take (room s.world.pipe) bs;
  received = s.received;
}
step s (read i n) =
    let (w, o) = piperead i s.world n in
    record { world = w; sent = s.sent; received = s.received ++ delivered o }
step s (read_again i n) =
    let (w, o) = piperead_again i s.world n in
    record { world = w; sent = s.sent; received = s.received ++ delivered o }
step s (close writable) = record s { world = pipeclose s.world writable }
step s (others ps) = record s { world = record s.world { procs = ps } }

unfoldable pub run : Stream → List Event → Stream
unfolding step
run s [] = s
run s (e ∷ es) = run (step s e) es

-- The pipe is valid, and what was sent is what was received and then what the pipe holds.
pub record IsSound (s : Stream) : Type 0 where
  pub valid : IsValid s.world.pipe
  pub order : s.sent ≡ s.received ++ contents s.world.pipe

write-IsSound :
    (i : ℕ) (w : World) (bs sent received : List ℕ)
    → IsValid w.pipe
    → sent ≡ received ++ contents w.pipe
    → IsSound (record {
      world = (pipewrite i w bs).0;
      sent = sent ++ take (room w.pipe) bs;
      received = received;
    })
write-IsSound i w bs sent received v e =
    let r = pipewrite_lem i w bs v in
    record { valid = r.valid; order = rw (r.queue, e, append_assoc) }

read-IsSound :
    (i : ℕ) (w : World) (n : ℕ) (sent received : List ℕ)
    → IsValid w.pipe
    → sent ≡ received ++ contents w.pipe
    → IsSound (record {
      world = (piperead i w n).0;
      sent = sent;
      received = received ++ delivered (piperead i w n).1;
    })
read-IsSound i w n sent received v e =
    let r = piperead_lem i w n v in
    record {
      valid = r.valid;
      order = ground (
        arith,
        append-nil received,
        append_assoc received (take n (contents w.pipe)) (drop n (contents w.pipe)),
        take-append-drop n (contents w.pipe),
      );
    }

close-pipe :
    (w : World) (b : Bool)
    → (contents (pipeclose w b).pipe ≡ contents w.pipe)
      × (IsValid w.pipe → IsValid (pipeclose w b).pipe)
unfolding pipeclose contents
close-pipe w b = (ground arith, λ v. ground arith)

pub step-IsSound : (s : Stream) (e : Event) → IsSound s → IsSound (step s e)
unfolding step pipewrite_again piperead_again
step-IsSound s (write i bs) h = write-IsSound i s.world bs s.sent s.received h.valid h.order
step-IsSound s (write_again i bs) h = write-IsSound i _ bs s.sent s.received h.valid h.order
step-IsSound s (read i n) h = read-IsSound i s.world n s.sent s.received h.valid h.order
step-IsSound s (read_again i n) h = read-IsSound i _ n s.sent s.received h.valid h.order
step-IsSound s (close b) h = record {
  valid = (close-pipe s.world b).1 h.valid;
  order = rw (close-pipe s.world b).0 h.order;
}
step-IsSound s (others ps) h = record { valid = h.valid; order = h.order }

run-IsSound : (s : Stream) (es : List Event) → IsSound s → IsSound (run s es)
unfolding run
run-IsSound s [] h = h
run-IsSound s (e ∷ es) h = run-IsSound (step s e) es (step-IsSound s e h)

abbrev pub fresh : ℕ → (ℕ → ℕ) → Table → Stream
fresh address junk ps = record {
  world = record { pipe = initialise address junk; procs = ps };
  sent = [];
  received = [];
}

-- From a new pipe on, whatever sequence of writes, reads, closes and continued calls follows, and
-- whatever the rest of the kernel does to the process table, the bytes that were accepted from the
-- writers are those that the readers received and then those that the pipe holds, in order; and
-- the pipe never holds more than its size.
pub stream_preserved :
    (address : ℕ) (junk : ℕ → ℕ) (ps : Table) (es : List Event)
    → let s = run (fresh address junk ps) es in
      (s.sent ≡ s.received ++ contents s.world.pipe) × (count s.world.pipe ≤ pipe_size)
stream_preserved address junk ps es =
    let h = run-IsSound (fresh address junk ps) es start in (h.order, h.valid.fits)
  where
    start : IsSound (fresh address junk ps)
    start = record {
      valid = initialise-IsValid address junk;
      order = sym (contents-initialise address junk);
    }
