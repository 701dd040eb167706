-- ===== src/Fat/Search/Tests.antt =====
-- Reading and finding files on a small volume.
use systems_programming_a.Prelude.{
  ℕ, ◌+◌, ◌%◌, ◌≡◌, refl, arith, true, false, List, [], ◌∷◌, Memory, update, ◌++◌, replicate,
}
use systems_programming_a.Files.{File, Files, fd_file}
use systems_programming_a.Fat.Mount.{Disk, Volume}
use systems_programming_a.Fat.Table.{get_next_cluster}
use systems_programming_a.Fat.Cluster.{slice, read_cluster, read_clipped, read_sectors}
use systems_programming_a.Fat.Reading.{read_rounds, follow, read, fs_read, fs_read_lem, file_bytes}
use systems_programming_a.Fat.Search.Defs.{find_in_sectors}
use systems_programming_a.Fat.Search.Root.{
  is_wanted, first_of, directory_entries, find_in_sectors_lem,
}

-- Byte `a` of the sector `s` is their sum.
abbrev disk : Disk
disk s a = (s + a) % 256

-- Cluster 2 is followed by cluster 3, which is the last.
abbrev fat : Memory
fat = update (update (update (λ a. 0) 3 3) 4 0xf0) 5 0xff

abbrev volume : Volume
volume = record {
  bpb = record {
    bytes_per_sector = 512;
    sectors_per_cluster = 1;
    reserved_sectors = 1;
    number_of_fats = 2;
    num_dir_entries = 224;
    num_sectors = 2880;
    sectors_per_fat = 9;
  };
  mount = record {
    num_sectors = 2880;
    fat_offset = 1;
    num_root_entries = 224;
    root_offset = 19;
    root_size = 14;
    fat_size = 9;
    cluster_size = 512;
  };
  fat = fat;
}

-- A file of `size` bytes in the clusters from 2 on.
abbrev file : ℕ → File
file size = record {
  file_type = fd_file;
  reference_count = 1;
  readable = true;
  writable = false;
  pipe = 0;
  directory_entry = replicate 26 0 ++ (2 ∷ 0 ∷ 0 ∷ 0 ∷ 0 ∷ 0 ∷ []);
  name = [];
  eof = 0;
  position = 0;
  size = size;
  device_id = 0;
}

next_of_two : get_next_cluster fat 2 ≡ 3
unfolding get_next_cluster
next_of_two = refl

next_of_three : get_next_cluster fat 3 ≡ 0
unfolding get_next_cluster
next_of_three = refl

fs_read_lem_example :
    fs_read disk volume (file 1000) 600
    ≡ read
        (record (file 1000) { position = 600; eof = 0 })
        (file_bytes disk volume refl refl (omega arith) 0 2 (3 ∷ []) 0 600)
fs_read_lem_example =
    fs_read_lem disk volume refl refl (omega arith) (file 1000) (3 ∷ []) 600 refl refl
      (λ e. omega (arith, e))
      (omega arith, next_of_two, (λ e. omega (arith, e)), (omega arith, next_of_three)) refl
      (omega arith) (omega arith) (omega arith) (omega arith)

find_in_sectors_lem_example :
    find_in_sectors disk (65 ∷ 0 ∷ []) 14 19
    ≡ first_of (is_wanted (65 ∷ 0 ∷ [])) (directory_entries disk 14 19)
find_in_sectors_lem_example = find_in_sectors_lem disk (65 ∷ 0 ∷ []) 14 19

abbrev files : Files
files slot = file 0

abbrev block : List ℕ
block = slice (disk 33) 0 512

first_read :
    fs_read disk volume (file 0) 512 ≡ read (record (file 0) { position = 512; eof = 1 }) block
unfolding fs_read read_rounds read_cluster read_clipped read_sectors follow slice
first_read = refl
