-- ===== src/Files/Descriptors.antt =====
-- argfd, fdalloc, sys_dup and sys_close of UoDOS/sysfile.c, on the open files of the process. An
-- argument is given as the word that argint finds, `none` where it fails.
use systems_programming_a.Prelude.{
  ℕ, ◌+◌, Option, none, some, List, [], ◌∷◌, leb, if◌then◌else◌, get_elem?, set,
}
use systems_programming_a.Files.Defs.{Files, Closing, file_dup, file_close}

-- NOFILE
abbrev pub nofile : ℕ
nofile = 16

-- argfd: the descriptor and the file. A negative word is above NOFILE.
unfoldable pub argfd : Option ℕ → List (Option ℕ) → Option (ℕ × ℕ)
argfd arg open_file = elim arg [
  | none ↦ none
  | some fd ↦ if leb nofile fd then none else elim (get_elem? open_file fd) [
    | none ↦ none
    | some slot ↦ elim slot [ none ↦ none | some f ↦ some (fd, f) ]
  ]
]

-- fdalloc from the descriptor `fd` on: the descriptor, and the open files with the file in it.
unfoldable pub fdalloc : ℕ → ℕ → List (Option ℕ) → Option (ℕ × List (Option ℕ))
fdalloc f fd [] = none
fdalloc f fd (slot ∷ slots) =
    let rest = fdalloc f (fd + 1) slots in
    elim slot [
      | none ↦ some (fd, some f ∷ slots)
      | some g ↦ elim rest [ none ↦ none | some r ↦ some (r.0, some g ∷ r.1) ]
    ]

-- The result of a call on a descriptor: -1, a panic, or a value with the new state.
pub data Result (A : Type 0) : Type 0 where
  refused : Result A
  panicked : Result A
  done : A → Result A

unfoldable pub sys_dup : Option ℕ → List (Option ℕ) → Files → Result (ℕ × List (Option ℕ) × Files)
unfolding argfd fdalloc file_dup
sys_dup arg open_file t = elim (argfd arg open_file) [
  | none ↦ refused
  | some a ↦ elim (fdalloc a.1 0 open_file) [
    | none ↦ refused
    | some r ↦ elim (file_dup a.1 t) [ none ↦ panicked | some t' ↦ done (r.0, r.1, t') ]
  ]
]

unfoldable pub sys_close :
    Option ℕ → List (Option ℕ) → Files → Result (List (Option ℕ) × Files × Closing)
unfolding argfd file_close
sys_close arg open_file t = elim (argfd arg open_file) [
  | none ↦ refused
  | some a ↦ elim (file_close a.1 t) [
    | none ↦ panicked
    | some r ↦ done (set open_file a.0 none, r.0, r.1)
  ]
]
