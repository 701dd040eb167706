-- ===== src/Fat/Tests.antt =====
-- Runs of the file system's functions, and the theorems at concrete disks and names.
use systems_programming_a.Prelude.{
  ℕ, ◌<◌, ◌≡◌, refl, arith, some, List, [], ◌∷◌, ◌++◌, ◌==◌, if◌then◌else◌, leb, replicate,
}
use systems_programming_a.Str.Text.{IsText}
use systems_programming_a.Fat.Mount.{Disk, Bpb, Volume, read_bpb, mount_info, load_fat}
use systems_programming_a.Fat.Table.{get_next_cluster, pack, get_next_cluster-pack}
use systems_programming_a.Fat.Name.{dot, space, to_dos_file_name, IsBase, IsPart}

-- A boot sector with sectors of 512 bytes and tables of 9 sectors behind 1 reserved sector; every
-- byte of another sector is the sector's number.
abbrev floppy : Disk
floppy n a =
    if n == 0
    then (if a == 12
        then 2
        else if a == 13
        then 1
        else if a == 14
        then 1
        else if a == 16
        then 2
        else if a == 17
        then 224
        else if a == 22
        then 9
        else 0)
    else n

abbrev floppy_volume : Volume
floppy_volume =
    let b = read_bpb (floppy 0) in
    record { bpb = b; mount = mount_info b; fat = load_fat floppy 1 9 0 0 (λ _. 0) }

second_sector_lost : (floppy_volume.fat 511 ≡ 1) × (floppy_volume.fat 512 ≡ 0)
unfolding load_fat mount_info read_bpb
second_sector_lost = (refl, refl)

-- A file in the clusters 2, 3 and 4.
abbrev chain : ℕ → ℕ
chain c = if c == 2 then 3 else if c == 3 then 4 else if c == 4 then 0xfff else 0

chain-small : (i : ℕ) → chain i < 4096
chain-small i = ground arith

followed : (get_next_cluster (pack chain) 3 ≡ 4) × (get_next_cluster (pack chain) 4 ≡ 0)
unfolding get_next_cluster pack
followed = (refl, refl)

get_next_cluster-pack_example :
    get_next_cluster (pack chain) 3 ≡ (if leb 0xff8 (chain 3) then 0 else chain 3)
get_next_cluster-pack_example = get_next_cluster-pack chain 3 chain-small (omega arith)

abbrev shell : List ℕ
shell = b's' ∷ b'h' ∷ []

shell-IsBase : IsBase shell
shell-IsBase = omega arith

abbrev blanks : List ℕ
blanks = replicate 12 7

-- "sh.exe", and "sh.c" with an "x" behind its terminator
dos_names :
    (to_dos_file_name (shell ++ (dot ∷ b'e' ∷ b'x' ∷ b'e' ∷ 0 ∷ [])) blanks 11
      ≡ some (
          b'S' ∷ b'H' ∷ space ∷ space ∷ space ∷ space ∷ space ∷ space ∷ b'E' ∷ b'X' ∷ b'E' ∷ 7
          ∷ []))
    × (to_dos_file_name (shell ++ (dot ∷ b'c' ∷ 0 ∷ b'x' ∷ [])) blanks 11
        ≡ some (
            b'S' ∷ b'H' ∷ space ∷ space ∷ space ∷ space ∷ space ∷ space ∷ b'C' ∷ space ∷ b'X' ∷ 7
            ∷ []))
unfolding to_dos_file_name
dos_names = (refl, refl)

shell-IsPart : IsPart shell
shell-IsPart = (((omega arith), refl), (((omega arith), refl), tt))

abbrev rest : List ℕ
rest = b'a' ∷ []

rest-IsText : IsText rest
rest-IsText = omega arith

-- Two sectors to a cluster.
abbrev bpb : Bpb
bpb = record {
  bytes_per_sector = 512;
  sectors_per_cluster = 2;
  reserved_sectors = 1;
  number_of_fats = 2;
  num_dir_entries = 224;
  num_sectors = 2880;
  sectors_per_fat = 9;
}
