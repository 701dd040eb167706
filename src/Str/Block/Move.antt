-- ===== src/Str/Block/Move.antt =====
-- What memmove leaves in memory, whichever way it copies.
use systems_programming_a.Prelude.{
  ℕ, zero, suc, ◌+◌, ◌-◌, ◌≤◌, ◌<◌, ◌≡◌, ◌⊎◌, Memory, update, arith, ◌&&◌, ltb, leb, if◌then◌else◌,
}
use systems_programming_a.Str.Block.{move_down, move_up, memmove}

-- The memory in which the `n` bytes at `d` are those that `m` has at `s`.
abbrev pub moved : ℕ → ℕ → ℕ → Memory → Memory
moved d s n m a = if leb d a && ltb a (d + n) then m (s + (a - d)) else m a

move_up_lem :
    (n d s : ℕ) (m : Memory) (a : ℕ) → (d ≤ s) ⊎ (s + n ≤ d) → move_up n d s m a ≡ moved d s n m a
unfolding move_up
move_up_lem zero d s m a h = ground arith
move_up_lem (suc n) d s m a h = ground (arith, move_up_lem n (d + 1) (s + 1) (update m d (m s)) a)

move_down_lem :
    (n d s : ℕ) (m : Memory) (a e f : ℕ)
    → s < d
    → e ≡ d + n
    → f ≡ s + n
    → move_down n e f m a ≡ moved d s n m a
unfolding move_down
move_down_lem zero d s m a e f h p q = ground arith
move_down_lem (suc n) d s m a e f h p q =
    ground (arith, move_down_lem n d s (update m (e - 1) (m (f - 1))) a (e - 1) (f - 1))

-- Whether or not the two ranges overlap, memmove leaves at the destination the bytes that the
-- source had before the call, and no other byte changes.
pub memmove_lem : (d s n : ℕ) (m : Memory) (a : ℕ) → memmove d s n m a ≡ moved d s n m a
unfolding memmove
memmove_lem d s n m a =
    ground (arith, move_up_lem n d s m a, move_down_lem n d s m a (d + n) (s + n))
