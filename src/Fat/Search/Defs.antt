-- ===== src/Fat/Search/Defs.antt =====
-- fsFat12FindInRootDirectory, fsFat12FindInSubDirectory and fsFat12Open of UoDOS/fs.c. A directory
-- entry is its 32 bytes. The buffers on the stack are filled before they are read, but for the one
-- that a subdirectory is read into: `buffer` is what it holds before.
use systems_programming_a.Prelude.{
  ℕ, zero, suc, ◌+◌, ◌-◌, ◌/◌, ◌*◌, ◌^◌, ◌%◌, Bool, false, not, ◌&&◌, ◌||◌, Option, none, some,
  List, [], ◌∷◌, ◌++◌, ◌==◌, if◌then◌else◌, Memory, length, take, drop, get_or, replicate, set,
  update,
}
use systems_programming_a.Prelude.Int.{pos, negsuc}
use systems_programming_a.Str.Text.{strcmp, strlen, safestrcpy}
use systems_programming_a.Files.{Files, fd_dir, file_close}
use systems_programming_a.Fat.Mount.{Disk, Volume}
use systems_programming_a.Fat.Name.{to_dos_file_name, get_path_part}
use systems_programming_a.Fat.Cluster.{slice}
use systems_programming_a.Fat.Reading.{
  ran_past, unfinished, read, fs_read, create_file_structure, entry_attribute, entry_file_size,
}

-- What a search comes to: an access outside an object or through the null pointer, no end with the
-- fuel, or what it found, with the table of open files.
pub data Found (A : Type 0) : Type 0 where
  bad_access no_end : Found A
  found : A → Files → Found A
  missing : Files → Found A

-- `strcmp(a, b) == 0`
abbrev pub is_same : List ℕ → List ℕ → Bool
is_same a b = elim (strcmp a b) [
  | none ↦ false
  | some r ↦ elim r [ pos n ↦ n == 0 | negsuc n ↦ false ]
]

-- The name in an entry, with the terminator behind it.
abbrev pub entry_name : List ℕ → List ℕ
entry_name e = take 11 e ++ (0 ∷ [])

-- The 8.3 name that is searched for, with its terminator.
unfoldable pub dos_name : List ℕ → Option (List ℕ)
unfolding to_dos_file_name
dos_name name = elim (to_dos_file_name name (replicate 12 0) 11) [
  | none ↦ none
  | some s ↦ some (set s 11 0)
]

-- `for (int i = 0; i<16; i++)` in a sector of the root directory, with `n` entries left at `i`.
unfoldable pub find_in_sector : List ℕ → Memory → ℕ → ℕ → Option (List ℕ)
unfolding slice
find_in_sector name sector zero i = none
find_in_sector name sector (suc n) i =
    let e = slice sector (32 * i) 32 in
    let rest = find_in_sector name sector n (i + 1) in
    if not (get_or e 0 0 == 0) && is_same name (entry_name e) then some e else rest

-- The loop over the sectors, with `n` left at the sector `s` of the disk.
unfoldable pub find_in_sectors : Disk → List ℕ → ℕ → ℕ → Option (List ℕ)
find_in_sectors disk name zero s = none
find_in_sectors disk name (suc n) s =
    let rest = find_in_sectors disk name n ((s + 1) % 2 ^ 32) in
    elim (find_in_sector name (disk s) 16 0) [ none ↦ rest | some e ↦ some e ]

-- fsFat12FindInRootDirectory: `none` is an access outside the name.
unfoldable pub find_in_root_directory : Disk → Volume → List ℕ → Option (Option (List ℕ))
unfolding dos_name
find_in_root_directory disk v name = elim (dos_name name) [
  | none ↦ none
  | some s ↦ some (find_in_sectors disk s (v.mount.num_root_entries / 16) v.mount.root_offset)
]

-- The 16 entries in the buffer that a subdirectory is read into, with `n` left.
unfoldable pub find_in_buffer : List ℕ → ℕ → List ℕ → Option (List ℕ)
find_in_buffer name zero buffer = none
find_in_buffer name (suc n) buffer =
    let e = take 32 buffer in
    let rest = find_in_buffer name n (drop 32 buffer) in
    if is_same (entry_name e) name then some e else rest

-- The file of the subdirectory is closed. fileClose panics for a file without references only.
abbrev pub close_and : {A : Type 0} → ℕ → Files → (Files → Found A) → Found A
close_and slot t k = elim (file_close slot t) [ none ↦ bad_access | some r ↦ k r.0 ]

-- `while (!subDirectory->Eof)`, with `fuel` rounds at most. The file is in the slot `slot`.
unfoldable pub search_rounds : Disk → Volume → ℕ → List ℕ → ℕ → List ℕ → Files → Found (List ℕ)
search_rounds disk v zero name slot buffer t = no_end
search_rounds disk v (suc fuel) name slot buffer t =
    if not ((t slot).eof == 0)
    then close_and slot t missing
    else elim (fs_read disk v (t slot) 512) [
      | ran_past ↦ bad_access
      | unfinished ↦ no_end
      | read f bytes ↦
          let t' = update t slot f in
          let buffer' = bytes ++ drop (length bytes) buffer in
          let rest = search_rounds disk v fuel name slot buffer' t' in
          elim (find_in_buffer name 16 buffer') [
            | none ↦ rest
            | some e ↦ close_and slot t' (found e)
          ]
    ]

-- fsFat12FindInSubDirectory in the directory of the entry `e`. A round of fuel for each block of the
-- size, and two more.
unfoldable pub find_in_sub_directory :
    Disk → Volume → List ℕ → List ℕ → List ℕ → Files → Found (List ℕ)
unfolding create_file_structure dos_name search_rounds
find_in_sub_directory disk v buffer name e t = elim (create_file_structure e (0 ∷ []) t) [
  | none ↦ bad_access
  | some (t', o) ↦ elim (dos_name name) [
    | none ↦ bad_access
    | some s ↦ elim o [
      | none ↦ bad_access
      | some slot ↦ search_rounds disk v (entry_file_size e / 512 + 2) s slot buffer t'
    ]
  ]
]

-- What fsFat12Open does with the entry of the last part: the slot of the file, or the null pointer.
unfoldable pub open_entry : List ℕ → List ℕ → Bool → Files → Found ℕ
unfolding create_file_structure
open_entry e filename directory t =
    if directory && not (entry_attribute e == 0x10)
    then missing t
    else elim (create_file_structure e filename t) [
      | none ↦ bad_access
      | some (t', o) ↦ elim o [
        | none ↦ if directory then bad_access else missing t'
        | some slot ↦
            if directory
            then found slot (update t' slot (record (t' slot) { file_type = fd_dir }))
            else found slot t'
      ]
    ]

-- The search for one part of a path: in the root directory, or in the directory of an entry.
unfoldable pub find_part :
    Disk → Volume → List ℕ → List ℕ → Option (List ℕ) → Files → Found (List ℕ)
unfolding find_in_root_directory find_in_sub_directory
find_part disk v buffer part directory t = elim directory [
  | none ↦ elim (find_in_root_directory disk v part) [
    | none ↦ bad_access
    | some r ↦ elim r [ none ↦ missing t | some e ↦ found e t ]
  ]
  | some e ↦ find_in_sub_directory disk v buffer part e t
]

-- `while (p)`, with the rest of the path from `p` on. A part and its separator take one character at
-- least.
unfoldable pub open_parts :
    Disk → Volume → List ℕ → ℕ → List ℕ → List ℕ → Bool → Option (List ℕ) → Files → Found ℕ
unfolding find_part open_entry get_path_part
open_parts disk v buffer zero path filename is_directory directory t = no_end
open_parts disk v buffer (suc fuel) path filename is_directory directory t =
    elim (get_path_part path (replicate 20 0)) [
      | none ↦ bad_access
      | some (part, n) ↦ elim (find_part disk v buffer part directory t) [
        | bad_access ↦ bad_access
        | no_end ↦ no_end
        | missing t' ↦ missing t'
        | found e t' ↦
            if n == 0
            then open_entry e filename is_directory t'
            else if not (entry_attribute e == 0x10)
            then missing t'
            else open_parts disk v buffer fuel (drop (n + 1) path) filename is_directory (some e) t'
      ]
    ]

-- The path that is searched: the filename, or behind the current directory. MAXCWDSIZE is 200, and
-- `path` 255 bytes long.
unfoldable pub full_path : List ℕ → List ℕ → Option (List ℕ)
unfolding safestrcpy strlen
full_path cwd filename =
    if get_or filename 0 0 == 0x5c || get_or filename 0 0 == 0x2f
    then safestrcpy (replicate 255 0) filename 200
    else elim (safestrcpy (replicate 255 0) cwd 200) [
      | none ↦ none
      | some path ↦ elim (strlen cwd) [
        | none ↦ none
        | some n ↦ elim (safestrcpy (drop n path) filename (200 - n)) [
          | none ↦ none
          | some tail ↦ some (take n path ++ tail)
        ]
      ]
    ]

unfoldable pub fs_open : Disk → Volume → List ℕ → List ℕ → List ℕ → Bool → Files → Found ℕ
unfolding full_path open_parts
fs_open disk v buffer cwd filename is_directory t = elim (full_path cwd filename) [
  | none ↦ bad_access
  | some path ↦ open_parts disk v buffer (length path) (drop 1 path) filename is_directory none t
]
