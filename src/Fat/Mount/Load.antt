-- ===== src/Fat/Mount/Load.antt =====
-- What the loop of fsFat12Initialise leaves in the array.
use mathlib.Core.Path.{subst}
use systems_programming_a.Prelude.{ℕ, zero, suc, ◌+◌, ◌≤◌, ◌<◌, ◌≡◌, refl, ◌∙◌, arith, some, Memory}
use systems_programming_a.Fat.Mount.Defs.{
  Disk, Volume, read_bpb, mount_info, initialise, load_fat, store_sector, sizeof_fat,
}

-- From the second sector of the table on, a round of the loop writes behind the array.
load_fat-beyond :
    (disk : Disk) (first n k o : ℕ) (m : Memory) (a : ℕ)
    → a < sizeof_fat
    → 0 < o
    → load_fat disk first n k o m a ≡ m a
unfolding load_fat
load_fat-beyond disk first zero k o m a h p = refl
load_fat-beyond disk first (suc n) k o m a h p =
    load_fat-beyond disk first n (k + 1) (o + 512) (store_sector o (disk (k + first)) m) a h
      (omega arith)
    ∙ ground arith

load_fat_lem :
    (disk : Disk) (first n : ℕ) (m : Memory)
    → 0 < n
    → ((a : ℕ) → a < 512 → load_fat disk first n 0 0 m a ≡ disk first a)
      × ((a : ℕ) → 512 ≤ a → a < sizeof_fat → load_fat disk first n 0 0 m a ≡ m a)
unfolding load_fat
load_fat_lem disk first zero m h = absurd (omega arith)
load_fat_lem disk first (suc n) m h = (
  λ a l. load_fat-beyond disk first n 1 512 _ a (omega arith) (omega arith) ∙ ground arith,
  λ a l k. load_fat-beyond disk first n 1 512 _ a k (omega arith) ∙ ground arith,
)

-- The volume that a mount which does not panic leaves.
abbrev mounted : Disk → Memory → Volume
mounted disk m =
    let i = mount_info (read_bpb (disk 0)) in
    record { bpb = read_bpb (disk 0); mount = i; fat = load_fat disk i.fat_offset i.fat_size 0 0 m }

initialise-eq :
    (disk : Disk) (m : Memory) {v : Volume} → initialise disk m ≡ some v → mounted disk m ≡ v
unfolding initialise
initialise-eq disk m e = ground arith

-- After a mount that does not panic the array holds the first sector of the table and then, up to
-- its end, what it held before the mount, however many sectors the table has.
pub initialise_fat :
    (disk : Disk) (m : Memory) {v : Volume}
    → initialise disk m ≡ some v
    → 0 < v.mount.fat_size
    → ((a : ℕ) → a < 512 → v.fat a ≡ disk v.mount.fat_offset a)
      × ((a : ℕ) → 512 ≤ a → a < sizeof_fat → v.fat a ≡ m a)
initialise_fat disk m e =
    subst
      (λ (v : Volume).
        0 < v.mount.fat_size
        → ((a : ℕ) → a < 512 → v.fat a ≡ disk v.mount.fat_offset a)
          × ((a : ℕ) → 512 ≤ a → a < sizeof_fat → v.fat a ≡ m a))
      (initialise-eq disk m e) (load_fat_lem disk _ _ m)
