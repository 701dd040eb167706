-- ===== src/Fat/Table/Defs.antt =====
-- fsFat12GetNextCluster of UoDOS/fs.c, on the table in memory.
use systems_programming_a.Prelude.{ℕ, ◌+◌, ◌/◌, ◌%◌, ◌^◌, ◌==◌, leb, if◌then◌else◌, Memory}
use systems_programming_a.Fat.Mount.{word_at}

-- The 12 bits of the entry: `cluster & 1`, `>>= 4` and `&= 0x0FFF` as arithmetic.
unfoldable pub entry : Memory → ℕ → ℕ
entry fat cluster =
    let next = word_at fat ((cluster + cluster / 2) % 2 ^ 32) in
    if cluster % 2 == 1 then next / 16 else next % 4096

-- 0 at the end of a file, and at a free cluster.
unfoldable pub get_next_cluster : Memory → ℕ → ℕ
unfolding entry
get_next_cluster fat cluster =
    let next = entry fat cluster in if leb 0xff8 next then 0 else if next == 0 then 0 else next
