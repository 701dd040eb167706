-- ===== src/Fat/Reading/Defs.antt =====
-- fsFat12CreateFileStructure, fsFat12Read and fsFat12Close of UoDOS/fs.c. A file is its structure in
-- the table of open files; the bytes that a read stores in the buffer are its result.
use systems_programming_a.Prelude.{
  ℕ, zero, suc, ◌+◌, ◌-◌, ◌/◌, ◌%◌, ◌^◌, ◌*◌, Bool, true, false, ◌&&◌, ◌||◌, Option, none, some,
  List, [], ◌++◌, leb, ◌==◌, if◌then◌else◌, Memory, length, get_or, update,
}
use systems_programming_a.Str.Text.{strcpy}
use systems_programming_a.Files.{File, Files, FileType, fd_file, fd_dir, fd_none, allocate_file}
use systems_programming_a.Fat.Mount.{Disk, Volume}
use systems_programming_a.Fat.Table.{get_next_cluster}
use systems_programming_a.Fat.Cluster.{read_cluster}

-- The fields of a DirectoryEntry, which has 32 bytes.
abbrev pub entry_attribute : List ℕ → ℕ
entry_attribute e = get_or e 11 0

abbrev pub entry_first_cluster : List ℕ → ℕ
entry_first_cluster e = get_or e 26 0 + 2 ^ 8 * get_or e 27 0

abbrev pub entry_file_size : List ℕ → ℕ
entry_file_size e =
    get_or e 28 0 + 2 ^ 8 * get_or e 29 0 + 2 ^ 16 * get_or e 30 0 + 2 ^ 24 * get_or e 31 0

-- fsFat12CreateFileStructure: the slot of the file, `some none` for the null pointer, and `none` where
-- the name does not fit.
unfoldable pub create_file_structure : List ℕ → List ℕ → Files → Option (Files × Option ℕ)
unfolding allocate_file strcpy
create_file_structure entry filename t =
    let (t', o) = allocate_file t in
    elim o [
      | none ↦ some (t', none)
      | some f ↦ elim (strcpy (t' f).name filename) [
        | none ↦ none
        | some name ↦ some (
          update t' f (record (t' f) {
            name = name;
            directory_entry = entry;
            size = entry_file_size entry;
            position = 0;
            eof = 0;
            file_type = fd_file;
          }),
          some f,
        )
      ]
    ]

abbrev pub is_file : FileType → Bool
is_file fd_file = true
is_file _ = false

abbrev pub is_directory : FileType → Bool
is_directory fd_dir = true
is_directory _ = false

-- `while (clusterHops > 0)`
unfoldable pub follow : Memory → ℕ → ℕ → ℕ
follow fat zero cluster = cluster
follow fat (suc hops) cluster = follow fat hops (get_next_cluster fat cluster)

-- What a read comes to: a read past a sector's buffer, no end with the fuel, or the file with the
-- bytes.
pub data Reading : Type 0 where
  ran_past unfinished : Reading
  read : File → List ℕ → Reading

abbrev pub prepend : List ℕ → Reading → Reading
prepend bytes ran_past = ran_past
prepend bytes unfinished = unfinished
prepend bytes (read f more) = read f (bytes ++ more)

-- What follows a read of the `bytes` from `offset` in the cluster on: the file at its end, or the
-- next round's cluster.
abbrev pub advance_file : File → List ℕ → File
advance_file f bytes = record f { position = (f.position + length bytes) % 2 ^ 32 }

abbrev pub is_past_end : File → Bool
is_past_end f = leb f.size f.position && is_file f.file_type

abbrev pub next_cluster : Volume → ℕ → ℕ → ℕ → ℕ
next_cluster v cluster offset n =
    if offset + n == v.mount.cluster_size then get_next_cluster v.fat cluster else cluster

-- `while (length > 0)`, with `fuel` rounds at most.
unfoldable pub read_rounds : Disk → Volume → ℕ → File → ℕ → ℕ → ℕ → Reading
read_rounds disk v zero f cluster offset size = if size == 0 then read f [] else unfinished
read_rounds disk v (suc fuel) f cluster offset size =
    if size == 0 then read f [] else elim (read_cluster disk v.bpb v.mount cluster offset size) [
      | none ↦ ran_past
      | some bytes ↦
          let f' = advance_file f bytes in
          let next = next_cluster v cluster offset (length bytes) in
          let rest = read_rounds disk v fuel f' next 0 (size - length bytes) in
          if is_past_end f' || next == 0
          then read (record f' { eof = 1 }) bytes
          else prepend bytes rest
    ]

-- A round of fuel for each byte.
unfoldable pub fs_read : Disk → Volume → File → ℕ → Reading
unfolding read_rounds follow
fs_read disk v f size =
    if (is_file f.file_type || is_directory f.file_type) && f.eof == 0
    then read_rounds disk v size f
        (follow v.fat (f.position / v.mount.cluster_size) (entry_first_cluster f.directory_entry))
        (f.position % v.mount.cluster_size) size
    else read f []

-- fsFat12Close
unfoldable pub fs_close : File → File
fs_close f = record f { file_type = fd_none }
