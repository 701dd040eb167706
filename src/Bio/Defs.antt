-- ===== src/Bio/Defs.antt =====
-- diskBufferCacheInitialise, diskBufferGet, diskBufferRead, diskBufferWrite and diskBufferRelease of
-- UoDOS/bio.c. A pointer to a buffer is its slot; the head of the list stands behind the NBUF
-- buffers. The sleeplock of a buffer is whether it is locked: a call that finds it locked sleeps, and
-- goes on when the lock is free. The spinlock is held over each operation on the list.
use systems_programming_a.Prelude.{
  ℕ, zero, suc, ◌+◌, ◌-◌, ◌^◌, ◌%◌, Bool, true, false, not, ◌&&◌, Option, none, some, ◌==◌,
  if◌then◌else◌, update,
}

-- NBUF
abbrev pub nbuf : ℕ
nbuf = 30

abbrev pub head : ℕ
head = nbuf

-- struct _DiskBuffer, its flags B_VALID and B_DIRTY apart. The data are the disk driver's.
pub record DiskBuffer : Type 0 where
  pub is_valid : Bool
  pub is_dirty : Bool
  pub device : ℕ
  pub sector_number : ℕ
  pub is_locked : Bool
  pub reference_count : ℕ

-- diskBufferCache, with the links of the buffers and of the head.
pub record Cache : Type 0 where
  pub buffers : ℕ → DiskBuffer
  pub previous : ℕ → ℕ
  pub next : ℕ → ℕ

-- The four stores that put a buffer behind the head.
unfoldable pub push_front : ℕ → Cache → Cache
push_front b c = record c {
  next = update (update c.next b (c.next head)) head b;
  previous = update (update c.previous b head) (update c.next b (c.next head) head) b;
}

-- `b->Next->Previous = b->Previous; b->Previous->Next = b->Next;`
unfoldable pub unlink : ℕ → Cache → Cache
unlink b c = record c {
  previous = update c.previous (c.next b) (c.previous b);
  next = update c.next (update c.previous (c.next b) (c.previous b) b) (c.next b);
}

unfoldable pub unlock : ℕ → Cache → Cache
unlock b c = record c { buffers = update c.buffers b (record (c.buffers b) { is_locked = false }) }

-- The loop of diskBufferCacheInitialise, with `n` buffers left at the buffer `b`.
unfoldable pub push_all : ℕ → ℕ → Cache → Cache
push_all zero b c = c
push_all (suc n) b c = push_all n (b + 1) (push_front b (unlock b c))

unfoldable pub cache_initialise : Cache → Cache
unfolding push_all
cache_initialise c =
    push_all nbuf 0
      (record c { previous = update c.previous head head; next = update c.next head head })

abbrev pub is_cached : ℕ → ℕ → DiskBuffer → Bool
is_cached dev sector b = b.device == dev && b.sector_number == sector

abbrev pub is_recyclable : DiskBuffer → Bool
is_recyclable b = b.reference_count == 0 && not b.is_dirty

-- The first buffer with the property along the links from `b` on, up to the head, with `fuel` steps
-- at most.
unfoldable pub find_buffer : (ℕ → ℕ) → (ℕ → Bool) → ℕ → ℕ → Option ℕ
find_buffer link f zero b = none
find_buffer link f (suc fuel) b =
    let rest = find_buffer link f fuel (link b) in
    if b == head then none else if f b then some b else rest

-- What diskBufferGet does to a buffer that has the sector.
unfoldable pub share : ℕ → Cache → Cache
share b c = record c {
  buffers =
      update c.buffers b
        (record (c.buffers b) { reference_count = ((c.buffers b).reference_count + 1) % 2 ^ 32 });
}

-- What diskBufferGet does to a buffer that it recycles.
unfoldable pub recycle : ℕ → ℕ → ℕ → Cache → Cache
recycle dev sector b c = record c {
  buffers = update c.buffers b (record (c.buffers b) {
    device = dev;
    sector_number = sector;
    is_valid = false;
    is_dirty = false;
    reference_count = 1;
  });
}

-- What diskBufferGet does with the buffer that has the sector, or else with the one to recycle.
unfoldable pub obtain : ℕ → ℕ → Cache → Option ℕ → Option ℕ → Option (Cache × ℕ)
obtain dev sector c (some b) q = some (share b c, b)
obtain dev sector c none (some b) = some (recycle dev sector b c, b)
obtain dev sector c none none = none

-- diskBufferGet up to the call of sleeplockAcquire: the buffer, or `none` for the panic.
unfoldable pub buffer_get : ℕ → ℕ → Cache → Option (Cache × ℕ)
buffer_get dev sector c =
    obtain dev sector c
      (find_buffer c.next (λ b. is_cached dev sector (c.buffers b)) (nbuf + 1) (c.next head))
      (find_buffer c.previous (λ b. is_recyclable (c.buffers b)) (nbuf + 1) (c.previous head))

-- diskBufferRead, once it has the locked buffer: whether the disk has to be read.
abbrev pub needs_read : DiskBuffer → Bool
needs_read b = not b.is_valid

-- diskBufferWrite up to the call of ideReadWrite; `none` is the panic.
unfoldable pub buffer_write : ℕ → Cache → Option Cache
buffer_write b c =
    if not (c.buffers b).is_locked
    then none
    else some (record c { buffers = update c.buffers b (record (c.buffers b) { is_dirty = true }) })

-- diskBufferRelease up to its test: the lock given back and one reference less.
unfoldable pub drop_reference : ℕ → Cache → Cache
drop_reference b c = record c {
  buffers = update c.buffers b (record (c.buffers b) {
    is_locked = false;
    reference_count = ((c.buffers b).reference_count + 2 ^ 32 - 1) % 2 ^ 32;
  });
}

-- diskBufferRelease; `none` is the panic.
unfoldable pub buffer_release : ℕ → Cache → Option Cache
buffer_release b c =
    if not (c.buffers b).is_locked
    then none
    else let c' = drop_reference b c in
      if (c'.buffers b).reference_count == 0 then some (push_front b (unlink b c')) else some c'
