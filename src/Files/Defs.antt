-- ===== src/Files/Defs.antt =====
-- struct _File and the operations of UoDOS/file.c. The table of open files is a function from its
-- slots, and a pointer to a file is its slot. Each operation is one step under the table's lock.
-- `none` is a panic, where no other meaning is given.
use systems_programming_a.Prelude.{
  ℕ, zero, suc, ◌+◌, ◌-◌, Option, none, some, Bool, true, false, not, List, ltb, ◌==◌,
  if◌then◌else◌, update,
}

-- enum FileType
pub data FileType : Type 0 where
  fd_none fd_pipe fd_file fd_dir fd_device : FileType

-- struct _File; a pointer to a pipe is its address, a directory entry its bytes.
pub record File : Type 0 where
  pub file_type : FileType
  pub reference_count : ℕ
  pub readable : Bool
  pub writable : Bool
  pub pipe : ℕ
  pub directory_entry : List ℕ
  pub name : List ℕ
  pub eof : ℕ
  pub position : ℕ
  pub size : ℕ
  pub device_id : ℕ

abbrev pub Files : Type 0
Files = ℕ → File

-- NFILE
abbrev pub nfile : ℕ
nfile = 100

-- `f->ReferenceCount = n`
abbrev pub set_count : Files → ℕ → ℕ → Files
set_count t i n = update t i (record (t i) { reference_count = n })

-- The loop of filesInitialise, with `n` slots left at the slot `i`.
unfoldable pub clear_counts : ℕ → ℕ → Files → Files
clear_counts zero i t = t
clear_counts (suc n) i t = clear_counts n (i + 1) (set_count t i 0)

unfoldable pub files_initialise : Files → Files
unfolding clear_counts
files_initialise t = clear_counts nfile 0 t

-- The loop of allocateFileStructure: the first slot without references, from `i` on.
unfoldable pub first_free : ℕ → ℕ → Files → Option ℕ
first_free zero i t = none
first_free (suc n) i t =
    let rest = first_free n (i + 1) t in if (t i).reference_count == 0 then some i else rest

-- allocateFileStructure: `none` is the null pointer.
unfoldable pub allocate_file : Files → Files × Option ℕ
allocate_file t = elim (first_free nfile 0 t) [
  | none ↦ (t, none)
  | some i ↦ (set_count t i 1, some i)
]

unfoldable pub file_dup : ℕ → Files → Option Files
file_dup i t =
    if ltb (t i).reference_count 1 then none else some (set_count t i ((t i).reference_count + 1))

-- What fileClose does once the lock is released.
pub data Closing : Type 0 where
  nothing_more : Closing
  close_pipe : (pipe : ℕ) (writable : Bool) → Closing
  close_disk_file : File → Closing

abbrev pub closing : File → Closing
closing ff = elim ff.file_type [
  | fd_none ↦ nothing_more
  | fd_pipe ↦ close_pipe ff.pipe ff.writable
  | fd_file ↦ close_disk_file ff
  | fd_dir ↦ close_disk_file ff
  | fd_device ↦ nothing_more
]

unfoldable pub file_close : ℕ → Files → Option (Files × Closing)
file_close i t =
    if ltb (t i).reference_count 1
    then none
    else if ltb 0 ((t i).reference_count - 1)
    then some (set_count t i ((t i).reference_count - 1), nothing_more)
    else some
        (update t i (record (t i) { reference_count = 0; file_type = fd_none }), closing (t i))

-- fileStat: whether it returns 0.
unfoldable pub file_stat : File → Bool
file_stat f = elim f.file_type [
  | fd_none ↦ false
  | fd_pipe ↦ false
  | fd_file ↦ true
  | fd_dir ↦ true
  | fd_device ↦ false
]

-- fileRead by what it calls: -1, the read of a device, of a pipe or of the disk, or a panic.
unfoldable pub file_read : {A : Type 0} → A → (ℕ → A) → (ℕ → A) → (File → A) → A → File → A
file_read fail device pipe disk panic f = if not f.readable then fail else elim f.file_type [
  | fd_none ↦ panic
  | fd_pipe ↦ pipe f.pipe
  | fd_file ↦ disk f
  | fd_dir ↦ disk f
  | fd_device ↦ device f.device_id
]

-- fileWrite by what it calls: a disk file cannot be written.
unfoldable pub file_write : {A : Type 0} → A → (ℕ → A) → (ℕ → A) → A → File → A
file_write fail device pipe panic f = if not f.writable then fail else elim f.file_type [
  | fd_none ↦ panic
  | fd_pipe ↦ pipe f.pipe
  | fd_file ↦ panic
  | fd_dir ↦ panic
  | fd_device ↦ device f.device_id
]
