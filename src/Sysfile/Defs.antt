-- ===== src/Sysfile/Defs.antt =====
-- sys_read, sys_write, sys_open and sys_pipe of UoDOS/sysfile.c, and pipealloc of UoDOS/pipe.c.
-- `none` is a panic, where no other meaning is given.
use systems_programming_a.Prelude.{
  ℕ, ◌+◌, Option, none, some, Bool, true, false, not, List, ◌∷◌, ◌==◌, if◌then◌else◌, update, set,
  Memory,
}
use systems_programming_a.Proc.{Process}
use systems_programming_a.Pipe.{Pipe, initialise}
use systems_programming_a.Kalloc.{KernelMemory, allocate_page}
use systems_programming_a.Syscall.{argint, argptr}
use systems_programming_a.Files.{
  File, Files, Closing, fd_pipe, allocate_file, file_close, file_read, file_write, argfd, fdalloc,
}

-- The file, the address and the length that sys_read and sys_write are given.
unfoldable pub transfer_arguments : Process → Memory → Option (ℕ × ℕ × ℕ)
unfolding argfd argint argptr
transfer_arguments p user = elim (argfd (argint p user 0) p.open_file) [
  | none ↦ none
  | some a ↦ elim (argint p user 2) [
    | none ↦ none
    | some n ↦ elim (argptr p user 1 n) [ none ↦ none | some addr ↦ some (a.1, addr, n) ]
  ]
]

-- sys_read and sys_write by what they call with the address and the length.
unfoldable pub sys_read :
    {A : Type 0}
    → A
    → (ℕ → ℕ → ℕ → A)
    → (ℕ → ℕ → ℕ → A)
    → (File → ℕ → ℕ → A)
    → A
    → Process
    → Memory
    → Files
    → A
unfolding transfer_arguments file_read
sys_read fail device pipe disk panic p user t = elim (transfer_arguments p user) [
  | none ↦ fail
  | some (f, addr, n) ↦
      file_read fail (λ d. device d addr n) (λ q. pipe q addr n) (λ g. disk g addr n) panic (t f)
]

unfoldable pub sys_write :
    {A : Type 0} → A → (ℕ → ℕ → ℕ → A) → (ℕ → ℕ → ℕ → A) → A → Process → Memory → Files → A
unfolding transfer_arguments file_write
sys_write fail device pipe panic p user t = elim (transfer_arguments p user) [
  | none ↦ fail
  | some (f, addr, n) ↦ file_write fail (λ d. device d addr n) (λ q. pipe q addr n) panic (t f)
]

-- What a call that opens files works on: the table of files, the memory, the descriptors of the
-- process, and what fileClose has had to close behind the table, the last first.
pub record Opening : Type 0 where
  pub files : Files
  pub kernel : KernelMemory
  pub open_file : List (Option ℕ)
  pub closed : List Closing

-- Where a call ends: a panic or an access outside an object, no end with the fuel of the search for a
-- path, -1, or a value.
pub data Opened (A : Type 0) : Type 0 where
  panicked : Opened A
  endless : Opened A
  refused : Opening → Opened A
  opened : Opening → A → Opened A

abbrev pub then_opened : {A B : Type 0} → Opened A → (Opening → A → Opened B) → Opened B
then_opened panicked f = panicked
then_opened endless f = endless
then_opened (refused s) f = refused s
then_opened (opened s a) f = f s a

-- fileClose of a file, or of the null pointer, which the callers test for.
abbrev pub after_close :
    {A : Type 0} → Opening → (Opening → Opened A) → Option (Files × Closing) → Opened A
after_close s k none = panicked
after_close s k (some (t, c)) = k (record s { files = t; closed = c ∷ s.closed })

unfoldable pub close_file : {A : Type 0} → ℕ → Opening → (Opening → Opened A) → Opened A
unfolding file_close
close_file i s k = after_close s k (file_close i s.files)

abbrev pub close_if : {A : Type 0} → Option ℕ → Opening → (Opening → Opened A) → Opened A
close_if none s k = k s
close_if (some i) s k = close_file i s k

-- freepiperesources with the null pointer for the pipe, as both of its calls have it.
unfoldable pub free_pipe_resources : {A : Type 0} → Option ℕ → Option ℕ → Opening → Opened A
unfolding close_file
free_pipe_resources f0 f1 s = close_if f0 s (λ s. close_if f1 s refused)

-- The fields of one end that pipealloc sets.
unfoldable pub set_end : Bool → ℕ → ℕ → Files → Files
set_end is_writer p i t =
    update t i (record (t i) {
      file_type = fd_pipe;
      readable = not is_writer;
      writable = is_writer;
      pipe = p;
    })

-- struct _Pipe has its buffer 52 bytes from its start.
unfoldable pub pipe_in : Memory → ℕ → Pipe
unfolding initialise
pipe_in m p = initialise p (λ i. m (p + 52 + i))

-- pipealloc once it has both files and the page.
unfoldable pub make_pipe : ℕ → ℕ → Opening → KernelMemory × ℕ → Opened (ℕ × ℕ × Pipe)
unfolding free_pipe_resources set_end pipe_in
make_pipe f0 f1 s (k, p) =
    if p == 0
    then free_pipe_resources (some f0) (some f1) (record s { kernel = k })
    else opened (record s { kernel = k; files = set_end true p f1 (set_end false p f0 s.files) })
        (f0, f1, pipe_in k.memory p)

unfoldable pub with_second : ℕ → Opening → Files × Option ℕ → Opened (ℕ × ℕ × Pipe)
unfolding make_pipe allocate_page free_pipe_resources
with_second f0 s (t, none) = free_pipe_resources (some f0) none (record s { files = t })
with_second f0 s (t, some f1) = make_pipe f0 f1 (record s { files = t }) (allocate_page s.kernel)

unfoldable pub with_first : Opening → Files × Option ℕ → Opened (ℕ × ℕ × Pipe)
unfolding with_second allocate_file free_pipe_resources
with_first s (t, none) = free_pipe_resources none none (record s { files = t })
with_first s (t, some f0) = with_second f0 (record s { files = t }) (allocate_file t)

unfoldable pub pipealloc : Opening → Opened (ℕ × ℕ × Pipe)
unfolding with_first allocate_file
pipealloc s = with_first s (allocate_file s.files)

-- The way out of sys_pipe without a descriptor for both ends.
abbrev pub close_ends : {A : Type 0} → ℕ → ℕ → Opening → Opened A
close_ends f0 f1 s = close_file f0 s (λ s. close_file f1 s refused)

-- The second descriptor, with the first in `fd0` and the descriptors that it leaves.
unfoldable pub second_descriptor :
    ℕ → ℕ → Pipe → Opening → ℕ → Option (ℕ × List (Option ℕ)) → Opened (ℕ × ℕ × Pipe)
unfolding close_file
second_descriptor f0 f1 q s fd0 none =
    close_ends f0 f1 (record s { open_file = set s.open_file fd0 none })
second_descriptor f0 f1 q s fd0 (some (fd1, slots)) =
    opened (record s { open_file = slots }) (fd0, fd1, q)

unfoldable pub first_descriptor :
    ℕ → ℕ → Pipe → Opening → Option (ℕ × List (Option ℕ)) → Opened (ℕ × ℕ × Pipe)
unfolding second_descriptor close_file fdalloc
first_descriptor f0 f1 q s none = close_ends f0 f1 s
first_descriptor f0 f1 q s (some (fd0, slots)) =
    second_descriptor f0 f1 q (record s { open_file = slots }) fd0 (fdalloc f1 0 slots)

-- sys_pipe: the words that it stores at the address of its argument, and the pipe.
unfoldable pub sys_pipe : Process → Memory → Opening → Opened (ℕ × ℕ × Pipe)
unfolding argptr pipealloc first_descriptor fdalloc
sys_pipe p user s = elim (argptr p user 0 8) [
  | none ↦ refused s
  | some fd ↦
      then_opened (pipealloc s)
        (λ s (f0, f1, q). first_descriptor f0 f1 q s (fdalloc f0 0 s.open_file))
]
