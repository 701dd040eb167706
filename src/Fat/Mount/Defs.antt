-- ===== src/Fat/Mount/Defs.antt =====
-- fsFat12Initialise of UoDOS/fs.c, with the records of UoDOS/bpb.h and UoDOS/fs.h that it fills.
-- The disk is read through diskBufferRead: `disk n` is the data of sector n of device 0, by byte.
use systems_programming_a.Prelude.{
  ℕ, zero, suc, ◌+◌, ◌*◌, ◌/◌, ◌%◌, Option, none, some, not, ◌&&◌, ◌==◌, leb, ltb, if◌then◌else◌,
  Memory,
}

abbrev pub Disk : Type 0
Disk = ℕ → Memory

-- BIOSParameterBlock: the fields that fs.c reads.
pub record Bpb : Type 0 where
  pub bytes_per_sector : ℕ
  pub sectors_per_cluster : ℕ
  pub reserved_sectors : ℕ
  pub number_of_fats : ℕ
  pub num_dir_entries : ℕ
  pub num_sectors : ℕ
  pub sectors_per_fat : ℕ

-- Two bytes, low byte first.
abbrev pub word_at : Memory → ℕ → ℕ
word_at m a = m a + 256 * m (a + 1)

-- `memmove(&bootSector, bpb->Data, ...)`: the offsets of the packed structure, which the 3 bytes of
-- the jump and the 8 of the OEM's name come before.
unfoldable pub read_bpb : Memory → Bpb
read_bpb m = record {
  bytes_per_sector = word_at m 11;
  sectors_per_cluster = m 13;
  reserved_sectors = word_at m 14;
  number_of_fats = m 16;
  num_dir_entries = word_at m 17;
  num_sectors = word_at m 19;
  sectors_per_fat = word_at m 22;
}

-- struct _MountInfo
pub record MountInfo : Type 0 where
  pub num_sectors : ℕ
  pub fat_offset : ℕ
  pub num_root_entries : ℕ
  pub root_offset : ℕ
  pub root_size : ℕ
  pub fat_size : ℕ
  pub cluster_size : ℕ

unfoldable pub mount_info : Bpb → MountInfo
mount_info b = record {
  num_sectors = b.num_sectors;
  fat_offset = b.reserved_sectors;
  num_root_entries = b.num_dir_entries;
  root_offset = b.number_of_fats * b.sectors_per_fat + b.reserved_sectors;
  root_size = b.num_dir_entries * 32 / b.bytes_per_sector;
  fat_size = b.sectors_per_fat;
  cluster_size = b.sectors_per_cluster * b.bytes_per_sector;
}

-- MAXFATSIZE, and the size of the array `fat`
abbrev pub max_fat_size : ℕ
max_fat_size = 10

abbrev pub sizeof_fat : ℕ
sizeof_fat = 512 * max_fat_size

-- `memmove(&fat + fatOffset, fatContents->Data, 512)`: `&fat` points to the whole array, so the
-- offset counts arrays. Memory is by distance from the start of the array.
abbrev pub store_sector : ℕ → Memory → Memory → Memory
store_sector fat_offset sector m a =
    if leb (fat_offset * sizeof_fat) a && ltb a (fat_offset * sizeof_fat + 512)
    then sector (a % 512)
    else m a

-- The loop over the sectors of the table, with `n` rounds left at the sector `k`.
unfoldable pub load_fat : Disk → ℕ → ℕ → ℕ → ℕ → Memory → Memory
load_fat disk first zero k fat_offset m = m
load_fat disk first (suc n) k fat_offset m =
    load_fat disk first n (k + 1) (fat_offset + 512) (store_sector fat_offset (disk (k + first)) m)

-- The globals that the function sets.
pub record Volume : Type 0 where
  pub bpb : Bpb
  pub mount : MountInfo
  pub fat : Memory

-- `none` is a panic. `m` is the memory from the array `fat` on, as it is before the call.
unfoldable pub initialise : Disk → Memory → Option Volume
unfolding read_bpb mount_info load_fat
initialise disk m =
    let b = read_bpb (disk 0) in
    let i = mount_info b in
    if not (b.bytes_per_sector == 512)
    then none
    else if ltb max_fat_size i.fat_size
    then none
    else some (record { bpb = b; mount = i; fat = load_fat disk i.fat_offset i.fat_size 0 0 m })
