-- ===== src/Task/Family.antt =====
-- exit and wait of UoDOS/proc.c. The channel that a process waits for its children on is its own
-- address: `address i` is that of the slot `i`, which the linker decides.
use systems_programming_a.Prelude.{
  ℕ, zero, suc, ◌+◌, Bool, true, false, ◌&&◌, ◌||◌, not, Option, none, some, List, [], ◌∷◌, ◌==◌,
  if◌then◌else◌, modify, get_elem?,
}
use systems_programming_a.Str.Text.{safestrcpy}
use systems_programming_a.Proc.{Process, Table, ProcState, zombie, unused, wakeup, sleep, tidy_up}
use systems_programming_a.Files.{Files, Closing, file_close}
use systems_programming_a.Vm.{panicked, out_of_bounds, free, free_memory_and_page_table}
use systems_programming_a.Task.Machine.{
  aborted, completed, Task, ◌>>=◌, ◌>>◌, give, expect, in_kernel, process_at, change_process,
  put_files,
}

-- NPROC
abbrev pub nproc : ℕ
nproc = 64

abbrev pub is_zombie : ProcState → Bool
is_zombie zombie = true
is_zombie _ = false

-- `p->Parent == curproc`
abbrev pub is_child : ℕ → Process → Bool
is_child i p = elim p.parent [ none ↦ false | some j ↦ j == i ]

-- The channel of a pointer to a process, which may be the null pointer.
abbrev pub channel : (ℕ → ℕ) → Option ℕ → ℕ
channel address p = elim p [ none ↦ 0 | some i ↦ address i ]

-- One round of the loop that gives the children of the process `i` to init.
abbrev pub pass_child : (ℕ → ℕ) → ℕ → ℕ → ℕ → Table → Table
pass_child address initproc i j ps = elim (get_elem? ps j) [
  | none ↦ ps
  | some p ↦
      let ps' = modify ps j (λ q. record q { parent = some initproc }) in
      if not (is_child i p)
      then ps
      else if is_zombie p.state
      then wakeup (address initproc) ps'
      else ps'
]

-- The loop, with `n` slots left at the slot `j`.
unfoldable pub pass_children : (ℕ → ℕ) → ℕ → ℕ → ℕ → ℕ → Table → Table
pass_children address initproc i zero j ps = ps
pass_children address initproc i (suc n) j ps =
    pass_children address initproc i n (j + 1) (pass_child address initproc i j ps)

-- What exit does under the table's lock, up to its call of sched; `p` is the parent.
unfoldable pub leave : (ℕ → ℕ) → ℕ → ℕ → Option ℕ → Table → Table
unfolding pass_children
leave address initproc i p ps =
    modify (pass_children address initproc i nproc 0 (wakeup (channel address p) ps)) i
      (λ q. record q { state = zombie })

-- The loop that closes the open files, with what closing each leaves to do.
unfoldable pub close_files :
    List (Option ℕ) → Files → Option (List (Option ℕ) × Files × List Closing)
unfolding file_close
close_files [] t = some ([], t, [])
close_files (slot ∷ slots) t = elim slot [
  | none ↦ elim (close_files slots t) [ none ↦ none | some r ↦ some (none ∷ r.0, r.1, r.2) ]
  | some f ↦ elim (file_close f t) [
    | none ↦ none
    | some c ↦ elim (close_files slots c.0) [
      | none ↦ none
      | some r ↦ some (none ∷ r.0, r.1, c.1 ∷ r.2)
    ]
  ]
]

-- The first byte of the text is its terminator.
abbrev pub clear_text : List ℕ → List ℕ
clear_text [] = []
clear_text (c ∷ s) = 0 ∷ s

-- MAXCWDSIZE
abbrev pub max_cwd_size : ℕ
max_cwd_size = 200

-- exit, up to its call of sched. `close_behind` is what pipeclose and fsFat12Close do to the table.
unfoldable pub exit : (ℕ → ℕ) → (List Closing → Table → Table) → ℕ → Task (Unit {0})
unfolding leave close_files
exit address close_behind i m =
    if i == m.initproc
    then aborted panicked
    else (do
      p ← process_at i
      r ← expect panicked (close_files p.open_file m.files)
      put_files r.1
      cwd ← expect out_of_bounds (safestrcpy p.cwd (0 ∷ []) max_cwd_size)
      λ m. completed (record m { processes = close_behind r.2 m.processes }) tt
      change_process i (λ q. record q { open_file = r.0; cwd = cwd })
      λ m. completed (record m { processes = leave address m.initproc i p.parent m.processes }) tt)
        m

-- What wait comes to: a child's number, -1, or asleep.
pub data Wait : Type 0 where
  reaped : ℕ → Wait
  no_child : Wait
  asleep : Wait

-- The loop over the table from the slot `j` on: the first child of `i` that is a zombie.
unfoldable pub find_zombie : ℕ → ℕ → Table → Option (ℕ × Process)
find_zombie i j [] = none
find_zombie i j (p ∷ ps) =
    let rest = find_zombie i (j + 1) ps in
    if is_child i p && is_zombie p.state then some (j, p) else rest

-- havekids
unfoldable pub has_child : ℕ → Table → Bool
has_child i [] = false
has_child i (p ∷ ps) = is_child i p || has_child i ps

-- The slot of a child that wait has found is given back.
abbrev pub reap_slot : Process → Process
reap_slot q = record q {
  kernel_stack = 0;
  process_id = 0;
  parent = none;
  name = clear_text q.name;
  is_killed = false;
  state = unused;
}

unfoldable pub reap : ℕ → ℕ → Process → Task Wait
reap kernel_end j q = do
  in_kernel (free kernel_end q.kernel_stack)
  in_kernel (free_memory_and_page_table kernel_end q.page_table)
  change_process j reap_slot
  give (reaped q.process_id)

-- wait without a zombie: -1, or asleep on the process's own address.
unfoldable pub wait_or_fail : (ℕ → ℕ) → ℕ → Process → Task Wait
unfolding has_child
wait_or_fail address i p m =
    if not (has_child i m.processes) || p.is_killed
    then completed m no_child
    else completed (record m { processes = sleep i (address i) m.processes }) asleep

-- One round of wait's loop for the process `i`.
unfoldable pub wait_again : ℕ → (ℕ → ℕ) → ℕ → Task Wait
wait_again kernel_end address i m = elim (find_zombie i 0 m.processes) [
  | some (j, q) ↦ reap kernel_end j q m
  | none ↦ (process_at i >>= wait_or_fail address i) m
]

-- The round after wait has been woken.
unfoldable pub wait_woken : ℕ → (ℕ → ℕ) → ℕ → Task Wait
unfolding wait_again
wait_woken kernel_end address i m =
    wait_again kernel_end address i (record m { processes = tidy_up i m.processes })
