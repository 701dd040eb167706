-- ===== src/Files/Tests.antt =====
-- Runs of the descriptors' calls, and the counts at a table with one open file.
use systems_programming_a.Prelude.{
  ℕ, ◌<◌, ◌≡◌, refl, arith, some, none, true, [], ◌∷◌, ◌==◌, if◌then◌else◌,
}
use systems_programming_a.Files.Defs.{
  File, Files, fd_device, nfile, allocate_file, file_dup, file_close, closing, nothing_more,
}
use systems_programming_a.Files.Descriptors.{argfd, fdalloc, refused, sys_dup, sys_close}
use systems_programming_a.Files.Counts.{handles_of, drop_handle, IsCounted, allocate_file-IsCounted}

abbrev device : ℕ → File
device n = record {
  file_type = fd_device;
  reference_count = n;
  readable = true;
  writable = true;
  pipe = 0;
  directory_entry = [];
  name = [];
  eof = 0;
  position = 0;
  size = 0;
  device_id = 0;
}

-- Slot 3 is open twice.
abbrev table : Files
table i = device (if i == 3 then 2 else 0)

table-IsCounted : IsCounted table (3 ∷ 3 ∷ [])
unfolding handles_of
table-IsCounted i = ground arith

allocate_file-IsCounted_example :
    ((t' : Files)
      → allocate_file table ≡ (t', some 3)
      → (handles_of 3 (3 ∷ 3 ∷ []) ≡ 0) × (3 < nfile) × IsCounted t' (3 ∷ 3 ∷ 3 ∷ []))
    × (0 < handles_of 3 (3 ∷ 3 ∷ [])
        → (t' : Files) × (file_dup 3 table ≡ some t') × IsCounted t' (3 ∷ 3 ∷ 3 ∷ []))
    × (0 < handles_of 3 (3 ∷ 3 ∷ [])
        → (t' : Files) × (file_close 3 table
            ≡ some (t', if handles_of 3 (3 ∷ 3 ∷ []) == 1 then closing (table 3) else nothing_more))
          × IsCounted t' (drop_handle 3 (3 ∷ 3 ∷ [])))
allocate_file-IsCounted_example = allocate_file-IsCounted table (3 ∷ 3 ∷ []) 3 table-IsCounted

lowest_descriptor : fdalloc 3 0 (some 1 ∷ none ∷ none ∷ []) ≡ some (1, some 1 ∷ some 3 ∷ none ∷ [])
unfolding fdalloc
lowest_descriptor = refl

no_descriptor : sys_dup (some 0) (some 3 ∷ []) table ≡ refused
unfolding sys_dup argfd fdalloc
no_descriptor = refl

bad_descriptor : sys_close (some 2) (some 3 ∷ none ∷ none ∷ []) table ≡ refused
unfolding sys_close argfd
bad_descriptor = refl
