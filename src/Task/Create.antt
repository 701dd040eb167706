-- ===== src/Task/Create.antt =====
-- allocateProcess, initialiseFirstUserProcess, growProcess and fork of UoDOS/proc.c, and the system
-- calls of UoDOS/sysproc.c. `none` is the null pointer, and the result -1 of fork.
-- `kernel_end`, `data`, `trapret` and `forkret` are addresses that the linker decides.
use systems_programming_a.Prelude.{
  ℕ, ◌+◌, ◌-◌, ◌%◌, ◌^◌, Bool, true, false, ◌&&◌, not, Option, none, some, List, [], ◌∷◌, ◌==◌, ltb,
  if◌then◌else◌, modify, set, update,
}
use systems_programming_a.Str.Block.{memset, store_dword}
use systems_programming_a.Str.Text.{safestrcpy}
use systems_programming_a.Proc.{Process, Table, ProcState, Trapframe, unused, embryo, runnable}
use systems_programming_a.Kalloc.{page_size}
use systems_programming_a.Files.{Files, fd_device, allocate_file, file_dup}
use systems_programming_a.Vm.{
  Kernel, returned, panicked, null_pointer, out_of_bounds, allocate, free,
  setup_kernel_virtual_memory, initialise_user_virtual_memory, allocate_memory_and_page_tables,
  release_user_pages, copy_process_page_table,
}
use systems_programming_a.Task.Family.{max_cwd_size}
use systems_programming_a.Task.Machine.{
  aborted, completed, Task, ◌>>=◌, ◌>>◌, give, expect, in_kernel, process_at, change_process,
  put_files,
}

abbrev pub is_unused : ProcState → Bool
is_unused unused = true
is_unused _ = false

-- The loop over the table, from the slot `i` on.
unfoldable pub first_unused : ℕ → Table → Option ℕ
first_unused i [] = none
first_unused i (p ∷ ps) =
    let rest = first_unused (i + 1) ps in if is_unused p.state then some i else rest

-- The process is given a number.
abbrev pub take_slot : ℕ → Task (Unit {0})
take_slot i m =
    completed
      (record m {
        processes =
            modify m.processes i (λ p. record p { state = embryo; process_id = m.next_pid });
        next_pid = (m.next_pid + 1) % 2 ^ 32;
      })
      tt

-- The top of the kernel stack: 76 bytes for the trap frame, trapret, and a context of 20 bytes whose
-- last word is eip.
abbrev pub prepare_stack : ℕ → ℕ → ℕ → Kernel (Unit {0})
prepare_stack trapret forkret stack s =
    let sp = stack + page_size - 76 - 4 in
    let m1 = store_dword sp trapret s.memory in
    let m2 = memset (sp - 20) 0 20 m1 in
    returned (record s { memory = store_dword (sp - 20 + 16) forkret m2 }) tt

-- The console as stdin, stdout and stderr. CONSOLE is 0.
unfoldable pub console_device : Task ℕ
unfolding allocate_file file_dup
console_device m =
    let (t, o) = allocate_file m.files in
    elim o [
      | none ↦ aborted null_pointer
      | some f ↦
          let t' = update t f (record (t f) {
            file_type = fd_device;
            device_id = 0;
            readable = true;
            writable = true;
          }) in
          (do
            t1 ← expect panicked (file_dup f t')
            t2 ← expect panicked (file_dup f t1)
            put_files t2
            give f)
            m
    ]

-- allocateProcess, once it has a slot.
unfoldable pub new_process : ℕ → ℕ → ℕ → Task (Option ℕ)
unfolding console_device
new_process trapret forkret i = do
  take_slot i
  stack ← in_kernel allocate
  change_process i (λ p. record p { kernel_stack = stack })
  if stack == 0 then (do change_process i (λ p. record p { state = unused }); give none) else do
    in_kernel (prepare_stack trapret forkret stack)
    f ← console_device
    change_process i
        (λ p. record p { open_file = set (set (set p.open_file 0 (some f)) 1 (some f)) 2 (some f) })
    give (some i)

unfoldable pub allocate_process : ℕ → ℕ → Task (Option ℕ)
unfolding first_unused
allocate_process trapret forkret m = elim (first_unused 0 m.processes) [
  | none ↦ completed m none
  | some i ↦ new_process trapret forkret i m
]

-- The loop of fork over the open files of the parent and of the child.
unfoldable pub dup_files :
    List (Option ℕ) → List (Option ℕ) → Files → Option (List (Option ℕ) × Files)
unfolding file_dup
dup_files [] qs t = some (qs, t)
dup_files (slot ∷ ps) [] t = none
dup_files (slot ∷ ps) (q ∷ qs) t = elim slot [
  | none ↦ elim (dup_files ps qs t) [ none ↦ none | some r ↦ some (q ∷ r.0, r.1) ]
  | some f ↦ elim (file_dup f t) [
    | none ↦ none
    | some t' ↦ elim (dup_files ps qs t') [ none ↦ none | some r ↦ some (some f ∷ r.0, r.1) ]
  ]
]

-- fork, once the child in the slot `c` has its page table `d`; `p` is the parent, in the slot `i`.
unfoldable pub copy_process : ℕ → Process → ℕ → ℕ → Task (Option ℕ)
copy_process i p c d = do
  q ← process_at c
  files ← λ m. expect panicked (dup_files p.open_file q.open_file m.files) m
  put_files files.1
  cwd ← expect out_of_bounds (safestrcpy q.cwd p.cwd max_cwd_size)
  name ← expect out_of_bounds (safestrcpy q.name p.name 16)
  change_process c (λ q. record q {
    memory_size = p.memory_size;
    parent = some i;
    trapframe = record p.trapframe { eax = 0 };
    open_file = files.0;
    cwd = cwd;
    name = name;
    state = runnable;
  })
  give (some q.process_id)

-- fork, once it has the slot `c`.
unfoldable pub fork_into : ℕ → ℕ → ℕ → ℕ → Task (Option ℕ)
fork_into kernel_end data_start i c = do
  p ← process_at i
  d ← in_kernel (copy_process_page_table kernel_end data_start p.page_table p.memory_size)
  change_process c (λ q. record q { page_table = d })
  if d == 0
      then (do
        q ← process_at c
        in_kernel (free kernel_end q.kernel_stack)
        change_process c (λ q. record q { kernel_stack = 0; state = unused })
        give none)
      else copy_process i p c d

-- fork by the process `i`: the child's number.
unfoldable pub fork : ℕ → ℕ → ℕ → ℕ → ℕ → Task (Option ℕ)
fork kernel_end data_start trapret forkret i = do
  c ← allocate_process trapret forkret
  elim c [ none ↦ give none | some c ↦ fork_into kernel_end data_start i c ]

-- growProcess by the int `n`: whether it returns 0. The reload of the page table is left out.
unfoldable pub grow_process : ℕ → ℕ → ℕ → Task Bool
grow_process kernel_end i n = do
  p ← process_at i
  size ←
      if n == 0
      then give p.memory_size
      else if ltb n (2 ^ 31)
      then in_kernel (
          allocate_memory_and_page_tables kernel_end p.page_table p.memory_size
            ((p.memory_size + n) % 2 ^ 32))
      else in_kernel
          (release_user_pages kernel_end p.page_table p.memory_size ((p.memory_size + n) % 2 ^ 32))
  if not (n == 0) && size == 0
      then give false
      else (change_process i (λ p. record p { memory_size = size }) >> give true)

-- "initcode"
abbrev pub initcode_name : List ℕ
initcode_name = 105 ∷ 110 ∷ 105 ∷ 116 ∷ 99 ∷ 111 ∷ 100 ∷ 101 ∷ 0 ∷ []

-- The registers of the first process: its segments are SEG_UCODE and SEG_UDATA with DPL_USER.
abbrev pub first_frame : Trapframe
first_frame = record {
  eax = 0;
  esp = page_size;
  eip = 0;
  eflags = 0x200;
  cs = 0x1b;
  ds = 0x23;
  es = 0x23;
  ss = 0x23;
}

-- initialiseFirstUserProcess. The program stands at `start` in the kernel and is `size` bytes long.
unfoldable pub initialise_first_user_process : ℕ → ℕ → ℕ → ℕ → ℕ → ℕ → Task (Unit {0})
initialise_first_user_process kernel_end data_start trapret forkret start size = do
  slot ← allocate_process trapret forkret
  elim slot [
    | none ↦ λ m. aborted null_pointer
    | some i ↦ do
      λ m. completed (record m { initproc = i }) tt
      d ← in_kernel (setup_kernel_virtual_memory kernel_end data_start)
      if d == 0 then (λ m. aborted panicked) else do
        in_kernel (initialise_user_virtual_memory d start size)
        q ← process_at i
        name ← expect out_of_bounds (safestrcpy q.name initcode_name 16)
        cwd ← expect out_of_bounds (safestrcpy q.cwd (47 ∷ 0 ∷ []) max_cwd_size)
        change_process i (λ q. record q {
          page_table = d;
          memory_size = page_size;
          trapframe = first_frame;
          name = name;
          cwd = cwd;
          state = runnable;
        })
  ]
