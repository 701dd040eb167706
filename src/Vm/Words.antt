-- ===== src/Vm/Words.antt =====
-- Words of memory under the stores of vm.c, at addresses that are multiples of four.
use systems_programming_a.Prelude.{
  ℕ, ◌+◌, ◌/◌, ◌%◌, ◌^◌, ◌<◌, ◌≤◌, ◌≡◌, ◌≢◌, ◌⊎◌, refl, arith, Memory,
}
use systems_programming_a.Str.Block.{memset, store_dword}
use systems_programming_a.Str.Block.Fill.{memset_lem}
use systems_programming_a.Syscall.{dword_at}

abbrev pub IsWord : ℕ → Type 0
IsWord a = a % 4 ≡ 0

pub word_stored : (a w : ℕ) (m : Memory) → w < 2 ^ 32 → dword_at (store_dword a w m) a ≡ w
unfolding dword_at
word_stored a w m h =
    let b0 : store_dword a w m a ≡ w % 256 = ground arith in
    let b1 : store_dword a w m (a + 1) ≡ w / 256 % 256 = ground arith in
    let b2 : store_dword a w m (a + 2) ≡ w / 2 ^ 16 % 256 = ground arith in
    let b3 : store_dword a w m (a + 3) ≡ w / 2 ^ 24 % 256 = ground arith in
    rw (b0, b1, b2, b3) (omega arith)

pub word_kept :
    (a w b : ℕ) (m : Memory)
    → IsWord a
    → IsWord b
    → b ≢ a
    → dword_at (store_dword a w m) b ≡ dword_at m b
unfolding dword_at
word_kept a w b m h k n =
    let b0 : store_dword a w m b ≡ m b = ground arith in
    let b1 : store_dword a w m (b + 1) ≡ m (b + 1) = ground arith in
    let b2 : store_dword a w m (b + 2) ≡ m (b + 2) = ground arith in
    let b3 : store_dword a w m (b + 3) ≡ m (b + 3) = ground arith in rw (b0, b1, b2, b3) refl

-- The word is in the page.
abbrev pub IsIn : ℕ → ℕ → Type 0
IsIn q b = (q ≤ b) × (b < q + 4096)

pub word_cleared :
    (q b : ℕ) (m : Memory) → IsWord b → q % 4096 ≡ 0 → IsIn q b → dword_at (memset q 0 4096 m) b ≡ 0
unfolding dword_at
word_cleared q b m k e i =
    rw
      (
        memset_lem q 0 4096 m b,
        memset_lem q 0 4096 m (b + 1),
        memset_lem q 0 4096 m (b + 2),
        memset_lem q 0 4096 m (b + 3),
      )
      (ground arith)

pub word_spared :
    (q b : ℕ) (m : Memory)
    → IsWord b
    → q % 4096 ≡ 0
    → (b < q) ⊎ (q + 4096 ≤ b)
    → dword_at (memset q 0 4096 m) b ≡ dword_at m b
unfolding dword_at
word_spared q b m k e i =
    rw
      (
        memset_lem q 0 4096 m b,
        memset_lem q 0 4096 m (b + 1),
        memset_lem q 0 4096 m (b + 2),
        memset_lem q 0 4096 m (b + 3),
      )
      (ground arith)
