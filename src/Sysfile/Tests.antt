-- ===== src/Sysfile/Tests.antt =====
-- System calls on files at a table without open files and at one with a device.
use systems_programming_a.Prelude.{
  ℕ, ◌≡◌, refl, arith, true, false, none, List, [], ◌∷◌, ◌++◌, Memory, ◌==◌, if◌then◌else◌,
  replicate,
}
use systems_programming_a.Proc.{Process, Trapframe, running}
use systems_programming_a.Syscall.{argstr, argint, fetchint, fetchstr, scan, dword_at}
use systems_programming_a.Files.{File, Files, fd_none, set_count, handles_of, IsCounted}
use systems_programming_a.Sysfile.Defs.{Opening, sys_pipe}
use systems_programming_a.Sysfile.Pair.{OpensPair, sys_pipe_lem}
use systems_programming_a.Sysfile.Paths.{sys_chdir, changed}
use systems_programming_a.Sysfile.Directory.{bytes_at, sys_chdir_lem}

abbrev frame : Trapframe
frame = record { eax = 0; esp = 0; eip = 0; eflags = 0; cs = 0x1b; ds = 0; es = 0; ss = 0 }

-- A process with two descriptors, both free.
abbrev process : Process
process = record {
  memory_size = 4096;
  page_table = 0;
  kernel_stack = 0;
  state = running;
  process_id = 1;
  parent = none;
  trapframe = frame;
  chan = 0;
  is_killed = false;
  open_file = none ∷ none ∷ [];
  cwd = replicate 200 0;
  name = [];
}

-- The argument is 16, where the string "ab" stands.
abbrev user : Memory
user a = if a == 4 then 16 else if a == 16 then 97 else if a == 17 then 98 else 0

abbrev no_file : File
no_file = record {
  file_type = fd_none;
  reference_count = 0;
  readable = false;
  writable = false;
  pipe = 0;
  directory_entry = [];
  name = [];
  eof = 0;
  position = 0;
  size = 0;
  device_id = 0;
}

abbrev no_files : Files
no_files i = no_file

-- One page is free.
abbrev start : Opening
start = record {
  files = no_files;
  kernel = record { use_lock = true; free_list = 0x80400000; memory = λ a. 0 };
  open_file = none ∷ none ∷ [];
  closed = [];
}

no_files-IsCounted : IsCounted no_files []
unfolding handles_of
no_files-IsCounted i = refl

sys_pipe_lem_example : OpensPair start [] (sys_pipe process user start)
sys_pipe_lem_example = sys_pipe_lem process user start [] no_files-IsCounted (λ i e. refl)

-- The file in slot 3, just opened.
abbrev one_file : Files
one_file = set_count no_files 3 1

one_file-IsCounted : IsCounted one_file (3 ∷ [])
unfolding handles_of
one_file-IsCounted i = ground arith

sys_chdir_lem_example :
    (m : Memory) × (rest : List ℕ) × (sys_chdir process user
      ≡ changed m (bytes_at user 16 2 ++ (0x2f ∷ 0 ∷ rest)))
    × (m 18 ≡ 0x2f)
    × (m 19 ≡ 0)
unfolding argstr argint fetchint fetchstr scan dword_at
sys_chdir_lem_example =
    sys_chdir_lem process user 16 2 refl (λ e. omega (arith, e)) (λ j l. ground arith) (omega arith)
