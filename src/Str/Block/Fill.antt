-- ===== src/Str/Block/Fill.antt =====
-- What memset leaves in memory.
use systems_programming_a.Prelude.{
  ℕ, zero, suc, ◌+◌, ◌*◌, ◌/◌, ◌%◌, ◌<◌, ◌≡◌, refl, ◌∙◌, Memory, update, arith, ◌&&◌, ltb, leb,
  ◌==◌, if◌then◌else◌, Bool-cases, same_to, same_to_lem, true, inl, inr,
}
use systems_programming_a.Str.Block.{store_bytes, store_dword, store_dwords, spread, memset}

-- The memory in which the `n` bytes at `d` are `c`.
abbrev pub filled : ℕ → ℕ → ℕ → Memory → Memory
filled d c n m a = if leb d a && ltb a (d + n) then c else m a

store_bytes_lem :
    (n d c : ℕ) (m : Memory) (a : ℕ) → store_bytes n d c m a ≡ filled d (c % 256) n m a
unfolding store_bytes
store_bytes_lem zero d c m a = ground arith
store_bytes_lem (suc n) d c m a =
    ground (arith, store_bytes_lem n (d + 1) c (update m d (c % 256)) a)

-- The four bytes of the word are the byte that was spread.
spread_table : same_to spread (λ c. c * 0x1010101) 256 ≡ true
unfolding same_to spread
spread_table = refl

spread_lem : (c : ℕ) → c < 256 → spread c ≡ c * 0x1010101
spread_lem c h = same_to_lem spread (λ c. c * 0x1010101) 256 c spread_table h

store_dword_lem :
    (d c w : ℕ) (m : Memory) (a : ℕ)
    → c < 256
    → w ≡ c * 0x1010101
    → store_dword d w m a ≡ filled d c 4 m a
store_dword_lem d c w m a h e = ground arith

store_dwords_lem :
    (n d c w : ℕ) (m : Memory) (a : ℕ)
    → c < 256
    → w ≡ c * 0x1010101
    → store_dwords n d w m a ≡ filled d c (4 * n) m a
unfolding store_dwords
store_dwords_lem zero d c w m a h e = ground arith
store_dwords_lem (suc n) d c w m a h e =
    store_dwords_lem n (d + 4) c w (store_dword d w m) a h e
    ∙ ground (arith, store_dword_lem d c w m a h e)

-- Both ways of filling, four bytes at a time where the address and the length allow it and one at a
-- time elsewhere, leave the low byte of `c` in the `n` bytes at `d` and change no other.
pub memset_lem : (d c n : ℕ) (m : Memory) (a : ℕ) → memset d c n m a ≡ filled d (c % 256) n m a
unfolding memset
memset_lem d c n m a = elim (Bool-cases (d % 4 == 0 && n % 4 == 0)) [
  | inl e ↦ rw e (
      store_dwords_lem (n / 4) d (c % 256) (spread (c % 256)) m a (omega arith)
        (spread_lem (c % 256) (omega arith))
      ∙ ground arith)
  | inr e ↦ rw e (store_bytes_lem n d c m a)
]
