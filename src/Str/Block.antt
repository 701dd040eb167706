-- ===== src/Str/Block.antt =====
-- memset and memmove of UoDOS/string.c, over a memory of bytes by address.
-- Addresses are numbers: an object that runs past the end of the address space is not modelled.
pub mod Move
pub mod Fill
use Prim.Native.Nat.{bit_or}
use systems_programming_a.Prelude.{
  ℕ, zero, suc, ◌+◌, ◌-◌, ◌*◌, ◌/◌, ◌%◌, ◌^◌, Memory, update, Bool, ◌&&◌, ltb, ◌==◌, if◌then◌else◌,
}

-- `while (n-- > 0) *--d = *--s`
unfoldable pub move_down : ℕ → ℕ → ℕ → Memory → Memory
move_down zero d s m = m
move_down (suc n) d s m = move_down n (d - 1) (s - 1) (update m (d - 1) (m (s - 1)))

-- `while (n-- > 0) *d++ = *s++`
unfoldable pub move_up : ℕ → ℕ → ℕ → Memory → Memory
move_up zero d s m = m
move_up (suc n) d s m = move_up n (d + 1) (s + 1) (update m d (m s))

unfoldable pub memmove : ℕ → ℕ → ℕ → Memory → Memory
memmove d s n m =
    if ltb s d && ltb d (s + n) then move_down n (d + n) (s + n) m else move_up n d s m

-- `rep stosb`: `n` times the low byte of `c`.
unfoldable pub store_bytes : ℕ → ℕ → ℕ → Memory → Memory
store_bytes zero a c m = m
store_bytes (suc n) a c m = store_bytes n (a + 1) c (update m a (c % 256))

-- One little-endian store of 32 bits.
abbrev pub store_dword : ℕ → ℕ → Memory → Memory
store_dword a w m =
    update
      (update (update (update m a (w % 256)) (a + 1) (w / 256 % 256)) (a + 2) (w / 2 ^ 16 % 256))
      (a + 3) (w / 2 ^ 24 % 256)

-- `rep stosl`
unfoldable pub store_dwords : ℕ → ℕ → ℕ → Memory → Memory
store_dwords zero a w m = m
store_dwords (suc n) a w m = store_dwords n (a + 4) w (store_dword a w m)

-- `(c << 24) | (c << 16) | (c << 8) | c`, as the bits of a 32-bit word
unfoldable pub spread : ℕ → ℕ
spread c =
    bit_or (bit_or (bit_or (c * 2 ^ 24 % 2 ^ 32) (c * 2 ^ 16 % 2 ^ 32)) (c * 2 ^ 8 % 2 ^ 32)) c

-- `c &= 0xFF` is `c % 256`.
unfoldable pub memset : ℕ → ℕ → ℕ → Memory → Memory
memset d c n m =
    if d % 4 == 0 && n % 4 == 0
    then store_dwords (n / 4) d (spread (c % 256)) m
    else store_bytes n d c m
