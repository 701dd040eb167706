-- ===== src/Prelude/Bits.antt =====
-- Bitwise or on words of a given width.
use Prim.Native.Nat.{ℕ, zero, suc, ◌+◌, ◌-◌, ◌*◌, ◌/◌, ◌%◌, ◌^◌, ◌<◌, ◌≤◌}
use mathlib.Core.Path.{◌≡◌, ◌∙◌}
use mathlib.Core.Bool.{◌||◌}
use native.Mathlib.Omega.{arith}
use systems_programming_a.Prelude.Tests.{◌==◌, if◌then◌else◌}

-- The lowest bit of `a | b`.
abbrev pub low_or : ℕ → ℕ → ℕ
low_or a b = if a % 2 == 1 || b % 2 == 1 then 1 else 0

-- `a | b` on words of `width` bits.
unfoldable pub bits_or : ℕ → ℕ → ℕ → ℕ
bits_or zero a b = 0
bits_or (suc width) a b = 2 * bits_or width (a / 2) (b / 2) + low_or a b

pub bits_or_zero : (width a : ℕ) → a < 2 ^ width → bits_or width a 0 ≡ a
unfolding bits_or
bits_or_zero zero a h = omega (arith, h)
bits_or_zero (suc width) a h = ground (arith, bits_or_zero width (a / 2) (omega arith))

-- With 1, the lowest bit is set.
pub bits_or_one : (width a : ℕ) → a < 2 ^ suc width → bits_or (suc width) a 1 ≡ a - a % 2 + 1
unfolding bits_or
bits_or_one width a h = ground (arith, bits_or_zero width (a / 2) (omega arith))

-- No bit below `k` is set in both, and no bit of `b` from `k` on.
abbrev pub AreDisjoint : ℕ → ℕ → ℕ → Type 0
AreDisjoint zero a b = b ≡ 0
AreDisjoint (suc k) a b = (a % 2 + b % 2 < 2) × AreDisjoint k (a / 2) (b / 2)

-- Words without a common bit add up.
pub bits_or-AreDisjoint :
    (k width a b : ℕ) → AreDisjoint k a b → a < 2 ^ width → k ≤ width → bits_or width a b ≡ a + b
unfolding bits_or
bits_or-AreDisjoint zero width a b d h l = rw d (bits_or_zero width a h ∙ omega arith)
bits_or-AreDisjoint (suc k) zero a b d h l = absurd (omega (arith, l))
bits_or-AreDisjoint (suc k) (suc width) a b d h l =
    ground (arith, d.0, bits_or-AreDisjoint k width (a / 2) (b / 2) d.1 (omega arith) (omega arith))

-- A page's address and flags.
pub bits_or-page : (a b : ℕ) → a % 4096 ≡ 0 → b < 4096 → a < 2 ^ 32 → bits_or 32 a b ≡ a + b
bits_or-page a b d l h = bits_or-AreDisjoint 12 32 a b (grind arith) h (omega arith)
