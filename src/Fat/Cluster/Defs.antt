-- ===== src/Fat/Cluster/Defs.antt =====
-- fsFat12ReadCluster of UoDOS/fs.c. The bytes that it stores in the buffer are its result, and
-- their number is what it returns. `none` is a read past the end of a sector's buffer.
use systems_programming_a.Prelude.{
  ℕ, zero, suc, ◌+◌, ◌-◌, ◌*◌, ◌/◌, ◌%◌, ◌^◌, Option, none, some, List, [], ◌∷◌, ◌++◌, leb, ltb,
  if◌then◌else◌, Memory,
}
use systems_programming_a.Fat.Mount.{Disk, Bpb, MountInfo}

-- The n bytes of the memory from the address a on.
unfoldable pub slice : Memory → ℕ → ℕ → List ℕ
slice m a zero = []
slice m a (suc n) = m a ∷ slice m (a + 1) n

-- BSIZE, the size of `Data` in a DiskBuffer
abbrev pub block_size : ℕ
block_size = 512

-- `memmove(buffer, &sectorContents->Data[0] + offset, n)`
abbrev pub copy_out : Memory → ℕ → ℕ → Option (List ℕ)
copy_out sector offset n =
    if leb (offset + n) block_size then some (slice sector offset n) else none

-- `while (size > 0)`. A round takes at least one byte, so `size` rounds are enough.
unfoldable pub read_sectors : Disk → ℕ → ℕ → ℕ → ℕ → ℕ → Option (List ℕ)
unfolding slice
read_sectors disk per_sector zero sector offset size = if ltb 0 size then none else some []
read_sectors disk per_sector (suc fuel) sector offset size =
    let n = (if ltb size per_sector then size else per_sector) in
    let rest = read_sectors disk per_sector fuel ((sector + 1) % 2 ^ 32) 0 (size - n) in
    if ltb 0 size
    then elim (copy_out (disk sector) offset n) [
      | none ↦ none
      | some bytes ↦ elim rest [ none ↦ none | some more ↦ some (bytes ++ more) ]
    ]
    else some []

-- The part of the request that lies in the cluster: the offset and the size, as the first three
-- tests leave them. (The sum of the two cannot wrap: neither is above the cluster's size.)
abbrev pub clip_offset : ℕ → ℕ → ℕ
clip_offset cluster_size offset = if leb cluster_size offset then 0 else offset

abbrev pub clip_size : ℕ → ℕ → ℕ → ℕ
clip_size cluster_size offset size =
    let n = (if ltb cluster_size size then cluster_size else size) in
    if ltb cluster_size (offset + n) then cluster_size - offset else n

abbrev pub first_sector : Bpb → MountInfo → ℕ → ℕ
first_sector b i cluster =
    (i.root_offset + i.root_size + (cluster + 2 ^ 32 - 2) * b.sectors_per_cluster) % 2 ^ 32

-- From `if (offset > 0)` on, at the first sector `s` of the cluster: the sector and the offset in
-- it, the size clipped once more, and the loop.
unfoldable pub read_clipped : Disk → Bpb → MountInfo → ℕ → ℕ → ℕ → Option (List ℕ)
unfolding read_sectors
read_clipped disk b i s o n =
    let per = b.bytes_per_sector in
    let left = i.cluster_size - (o / per * per + o % per) in
    let m = (if ltb left n then left else n) in
    if ltb 0 o
    then read_sectors disk per m ((s + o / per) % 2 ^ 32) (o % per) m
    else read_sectors disk per n s o n

unfoldable pub read_cluster : Disk → Bpb → MountInfo → ℕ → ℕ → ℕ → Option (List ℕ)
unfolding read_clipped
read_cluster disk b i cluster offset size =
    let o = clip_offset i.cluster_size offset in
    read_clipped disk b i (first_sector b i cluster) o (clip_size i.cluster_size o size)
