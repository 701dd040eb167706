-- ===== src/Fat/Cluster/Sectors.antt =====
-- The loop over the sectors reads the disk as one row of bytes.
use mathlib.Core.List.{append-nil}
use systems_programming_a.Prelude.{
  ℕ, zero, suc, ◌+◌, ◌-◌, ◌*◌, ◌/◌, ◌%◌, ◌^◌, ◌≤◌, ◌<◌, ◌≡◌, refl, ap, ap₂, ◌∙◌, sym, arith, none,
  some, List, [], ◌∷◌, ◌++◌, leb, ltb, if◌then◌else◌, Memory, true, false, length,
}
use native.Mathlib.Decide.{dec_le}
use systems_programming_a.Fat.Mount.{Disk}
use systems_programming_a.Fat.Cluster.Defs.{slice, block_size, read_sectors}

-- The disk as one row of bytes.
abbrev pub linear : Disk → Memory
linear disk a = disk (a / 512) (a % 512)

slice-sector :
    (disk : Disk) (s n o : ℕ)
    → o + n ≤ 512
    → slice (disk s) o n ≡ slice (linear disk) (s * 512 + o) n
unfolding slice
slice-sector disk s zero o h = refl
slice-sector disk s (suc n) o h =
    ap₂ ◌∷◌ byte (
      slice-sector disk s n (o + 1) (omega arith) ∙ ap (λ a. slice (linear disk) a n) (omega arith))
  where
    byte : disk s o ≡ linear disk (s * 512 + o)
    byte = ap₂ disk (omega arith) (omega arith)

slice-zero : (m : Memory) (a : ℕ) → slice m a 0 ≡ []
unfolding slice
slice-zero m a = refl

pub slice-add : (m : Memory) (n a k : ℕ) → slice m a (n + k) ≡ slice m a n ++ slice m (a + n) k
unfolding slice
slice-add m zero a k = ap₂ (slice m) (omega arith) (omega arith)
slice-add m (suc n) a k =
    ap (slice m a) (add-suc_left n k)
    ∙ ap (λ l. m a ∷ l)
        (slice-add m n (a + 1) k ∙ ap (λ b. slice m (a + 1) n ++ slice m b k) (omega arith))
  where
    add-suc_left : (n m : ℕ) → suc n + m ≡ suc (n + m)
    add-suc_left n m = omega arith

pub length-slice : (m : Memory) (a n : ℕ) → length (slice m a n) ≡ n
unfolding slice
length-slice m a zero = refl
length-slice m a (suc n) = ap suc (length-slice m (a + 1) n)

abbrev pub chunk : ℕ → ℕ
chunk n = if ltb n 512 then n else 512

read_nothing : (disk : Disk) (fuel s o : ℕ) → read_sectors disk 512 fuel s o 0 ≡ some []
unfolding read_sectors
read_nothing disk zero s o = refl
read_nothing disk (suc fuel) s o = refl

-- One round of the loop.
read_round :
    (disk : Disk) (fuel s o n : ℕ) (more : List ℕ)
    → 0 < n
    → o + chunk n ≤ 512
    → read_sectors disk 512 fuel ((s + 1) % 2 ^ 32) 0 (n - chunk n) ≡ some more
    → read_sectors disk 512 (suc fuel) s o n ≡ some (slice (disk s) o (chunk n) ++ more)
unfolding read_sectors
read_round disk fuel s o n more h k e =
    let b : leb (o + chunk n) block_size ≡ true = ground arith in
    let p : ltb 0 n ≡ true = ground arith in rw (p, b, e)

-- A round whose chunk goes past the end of the sector's buffer.
pub read_overrun :
    (disk : Disk) (fuel s o n : ℕ)
    → 0 < n
    → 512 < o + chunk n
    → read_sectors disk 512 (suc fuel) s o n ≡ none
unfolding read_sectors
read_overrun disk fuel s o n h k =
    let b : leb (o + chunk n) block_size ≡ false = ground arith in
    let p : ltb 0 n ≡ true = ground arith in rw (p, b)

-- A request that ends in the sector in which it begins.
pub read_sectors-last :
    (disk : Disk) (fuel s o n : ℕ)
    → n ≤ fuel
    → o + n ≤ 512
    → read_sectors disk 512 fuel s o n ≡ some (slice (linear disk) (s * 512 + o) n)
read_sectors-last disk fuel s o zero f h =
    read_nothing disk fuel s o ∙ ap some (sym (slice-zero (linear disk) (s * 512 + o)))
read_sectors-last disk zero s o (suc n) f h = absurd (omega arith)
read_sectors-last disk (suc fuel) s o (suc n) f h =
    let whole : chunk (suc n) ≡ suc n = ground arith in
    read_round disk fuel s o (suc n) [] (omega arith) (omega arith) (
      ap (λ k. read_sectors disk 512 fuel ((s + 1) % 2 ^ 32) 0 k) (omega arith)
      ∙ read_nothing disk fuel ((s + 1) % 2 ^ 32) 0)
    ∙ ap some (
        append-nil (slice (disk s) o (chunk (suc n)))
        ∙ ap (slice (disk s) o) whole
        ∙ slice-sector disk s (suc n) o h)

-- A request from the start of a sector on, over as many sectors as it takes.
pub read_sectors_lem :
    (disk : Disk) (fuel s n : ℕ)
    → n ≤ fuel
    → s + n < 2 ^ 32
    → read_sectors disk 512 fuel s 0 n ≡ some (slice (linear disk) (s * 512) n)
read_sectors_lem disk zero s n f h =
    ap (λ k. read_sectors disk 512 0 s 0 k) (omega arith)
    ∙ read_sectors-last disk 0 s 0 0 (omega arith) (omega arith)
    ∙ ap₂ (λ a k. some (slice (linear disk) a k)) (omega arith) (omega arith)
read_sectors_lem disk (suc fuel) s n f h = elim (dec_le n 512) [
  | yes small ↦
      read_sectors-last disk (suc fuel) s 0 n f (omega arith)
      ∙ ap (λ a. some (slice (linear disk) a n)) (omega arith)
  | no large ↦
      let full : chunk n ≡ 512 = ground arith in
      read_round disk fuel s 0 n (slice (linear disk) ((s + 1) * 512) (n - 512)) (omega arith)
        (omega arith)
        (ap₂ (λ t k. read_sectors disk 512 fuel t 0 k) (omega arith) (omega arith)
          ∙ read_sectors_lem disk fuel (s + 1) (n - 512) (omega arith) (omega arith))
      ∙ ap some (
          ap (λ k. slice (disk s) 0 k ++ slice (linear disk) ((s + 1) * 512) (n - 512)) full
          ∙ ap₂ ◌++◌ (slice-sector disk s 512 0 (omega arith))
              (ap (λ a. slice (linear disk) a (n - 512)) (omega arith))
          ∙ sym (slice-add (linear disk) 512 (s * 512 + 0) (n - 512))
          ∙ ap₂ (slice (linear disk)) (omega arith) (omega arith))
]
