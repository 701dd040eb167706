-- ===== src/Sysfile/Paths.antt =====
-- sys_open, sys_fstat, sys_chdir and sys_getcwd of UoDOS/sysfile.c. The process's memory holds their
-- arguments.
use systems_programming_a.Prelude.{
  ℕ, zero, suc, ◌+◌, ◌/◌, ◌%◌, ◌^◌, Option, none, some, Bool, false, not, ◌||◌, List, [], ◌∷◌, leb,
  ◌==◌, if◌then◌else◌, update, Memory,
}
use systems_programming_a.Proc.{Process}
use systems_programming_a.Str.Text.{strchr, safestrcpy}
use systems_programming_a.Syscall.{argint, argptr, argstr}
use systems_programming_a.Files.{Files, argfd, fdalloc, file_stat}
use systems_programming_a.Fat.Mount.{Disk, Volume}
use systems_programming_a.Fat.Search.{Found, bad_access, no_end, found, missing, fs_open}
use systems_programming_a.Sysfile.Defs.{
  Opening, Opened, panicked, endless, refused, opened, close_file,
}

-- The bytes from an address on: the string of this length with its terminator.
unfoldable pub text_at : Memory → ℕ → ℕ → List ℕ
text_at m a zero = m a ∷ []
text_at m a (suc n) = m a ∷ text_at m (a + 1) n

unfoldable pub store_text : ℕ → List ℕ → Memory → Memory
store_text a [] m = m
store_text a (b ∷ bs) m = store_text (a + 1) bs (update m a b)

-- `omode & O_WRONLY` and `omode & O_RDWR`, which are 1 and 2.
abbrev pub is_wronly : ℕ → Bool
is_wronly omode = omode % 2 == 1

abbrev pub is_rdwr : ℕ → Bool
is_rdwr omode = omode / 2 % 2 == 1

abbrev pub set_mode : ℕ → ℕ → Files → Files
set_mode omode f t =
    update t f (record (t f) {
      readable = not (is_wronly omode);
      writable = is_wronly omode || is_rdwr omode;
    })

-- sys_open with the file, once fdalloc has been called.
unfoldable pub with_descriptor : ℕ → ℕ → Opening → Option (ℕ × List (Option ℕ)) → Opened ℕ
unfolding close_file
with_descriptor omode f s none = close_file f s refused
with_descriptor omode f s (some (fd, slots)) =
    opened (record s { open_file = slots; files = set_mode omode f s.files }) fd

unfoldable pub with_file : ℕ → Opening → Found ℕ → Opened ℕ
unfolding with_descriptor fdalloc
with_file omode s bad_access = panicked
with_file omode s no_end = endless
with_file omode s (missing t) = refused (record s { files = t })
with_file omode s (found f t) =
    with_descriptor omode f (record s { files = t }) (fdalloc f 0 s.open_file)

-- sys_open. `buffer` is what the stack holds for a subdirectory's block.
unfoldable pub sys_open : Disk → Volume → List ℕ → Process → Memory → Opening → Opened ℕ
unfolding argstr argint fs_open with_file text_at
sys_open disk v buffer p user s = elim (argstr p user 0) [
  | none ↦ refused s
  | some (a, n) ↦ elim (argint p user 1) [
    | none ↦ refused s
    | some omode ↦ with_file omode s (fs_open disk v buffer p.cwd (text_at user a n) false s.files)
  ]
]

-- sizeof(Stat)
abbrev pub sizeof_stat : ℕ
sizeof_stat = 20

-- sys_fstat: whether it returns 0. It stores nothing.
unfoldable pub sys_fstat : Process → Memory → Files → Bool
unfolding argfd argint argptr file_stat
sys_fstat p user t = elim (argfd (argint p user 0) p.open_file) [
  | none ↦ false
  | some a ↦ elim (argptr p user 1 sizeof_stat) [ none ↦ false | some st ↦ file_stat (t a.1) ]
]

-- `*(strchr(directory, character)) != character`: through the null pointer, it is the byte at 0 of
-- the process.
abbrev pub lacks : Memory → List ℕ → ℕ → Bool
lacks user directory character = elim (strchr directory character) [
  | none ↦ false
  | some o ↦ elim o [ none ↦ not (user 0 == character) | some i ↦ false ]
]

-- The memory and the length after sys_chdir's if.
unfoldable pub add_slash : Memory → ℕ → ℕ → Memory × ℕ
unfolding strchr text_at
add_slash user a n =
    if lacks user (text_at user a n) 0x2f || lacks user (text_at user a n) 0x5c
    then (update (update user (a + n) 0x2f) (a + n + 1) 0, n + 1)
    else (user, n)

-- sys_chdir: -1, or the memory and the Cwd of the process, `none` for a copy past the end of Cwd.
pub data Changed : Type 0 where
  not_changed : Changed
  overrun : Changed
  changed : Memory → List ℕ → Changed

abbrev pub changed_if : Memory → Option (List ℕ) → Changed
changed_if m none = overrun
changed_if m (some cwd) = changed m cwd

-- The copy of the string into the Cwd, with the memory and the length that add_slash gives.
unfoldable pub copy_cwd : List ℕ → ℕ → Memory × ℕ → Changed
unfolding text_at safestrcpy
copy_cwd cwd a (m, len) = changed_if m (safestrcpy cwd (text_at m a len) (len + 1))

unfoldable pub sys_chdir : Process → Memory → Changed
unfolding argstr add_slash copy_cwd
sys_chdir p user = elim (argstr p user 0) [
  | none ↦ not_changed
  | some (a, n) ↦ copy_cwd p.cwd a (add_slash user a n)
]

-- A negative size copies nothing.
abbrev pub copy_count : ℕ → ℕ
copy_count size = if leb (2 ^ 31) size then 0 else size

-- sys_getcwd: the same, where the Cwd stays.
unfoldable pub sys_getcwd : Process → Memory → Changed
unfolding argstr argint text_at store_text safestrcpy
sys_getcwd p user = elim (argstr p user 0) [
  | none ↦ not_changed
  | some (a, n) ↦ elim (argint p user 1) [
    | none ↦ not_changed
    | some size ↦ elim (safestrcpy (text_at user a (copy_count size)) p.cwd (copy_count size)) [
      | none ↦ overrun
      | some bytes ↦ changed (store_text a bytes user) p.cwd
    ]
  ]
]
