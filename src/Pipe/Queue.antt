-- ===== src/Pipe/Queue.antt =====
-- The bytes that a pipe holds, as a queue, and what put, drain and the two tests do to it.
use systems_programming_a.Prelude.{
  ℕ, zero, suc, ◌+◌, ◌-◌, ◌%◌, ◌^◌, ◌≤◌, ◌<◌, ◌≡◌, ◌↔◌, refl, ap, arith, true, false, List, [], ◌∷◌,
  ◌++◌, length, update,
}
use systems_programming_a.Pipe.Defs.{
  Pipe, pipe_size, initialise, is_full, is_empty, put, front, advance,
}

-- The number of bytes that the pipe holds: WriteCount - ReadCount, as a uint32_t.
abbrev pub count : Pipe → ℕ
count p = (p.write_count + 2 ^ 32 - p.read_count) % 2 ^ 32

pub record IsValid (p : Pipe) : Type 0 where
  pub read_fits : p.read_count < 2 ^ 32
  pub write_fits : p.write_count < 2 ^ 32
  pub fits : count p ≤ pipe_size

-- The n bytes of the buffer from the position r on.
unfoldable pub window : (ℕ → ℕ) → ℕ → ℕ → List ℕ
window d r zero = []
window d r (suc n) = d (r % pipe_size) ∷ window d ((r + 1) % 2 ^ 32) n

unfoldable pub contents : Pipe → List ℕ
contents p = window p.buffer p.read_count (count p)

length-window : (d : ℕ → ℕ) (r n : ℕ) → length (window d r n) ≡ n
unfolding window
length-window d r zero = refl
length-window d r (suc n) = ap suc (length-window d ((r + 1) % 2 ^ 32) n)

pub length-contents : (p : Pipe) → length (contents p) ≡ count p
unfolding contents
length-contents p = length-window p.buffer p.read_count (count p)

-- The write at the end of a window of fewer than pipe_size bytes extends it.
window-update :
    (d : ℕ → ℕ) (r n w b : ℕ)
    → n < pipe_size
    → w < 2 ^ 32
    → w ≡ (r + n) % 2 ^ 32
    → window (update d (w % pipe_size) b) r (suc n) ≡ window d r n ++ (b ∷ [])
unfolding window
window-update d r zero w b h f e = ground arith
window-update d r (suc n) w b h f e = ground (arith, window-update d ((r + 1) % 2 ^ 32) n w b)

pub is_full_iff : {p : Pipe} → IsValid p → (is_full p ≡ true) ↔ (count p ≡ pipe_size)
is_full_iff v = ground arith

pub put-IsValid : {p : Pipe} (b : ℕ) → IsValid p → is_full p ≡ false → IsValid (put p b)
unfolding put
put-IsValid b v h = ground arith

pub contents-put :
    {p : Pipe} (b : ℕ) → IsValid p → is_full p ≡ false → contents (put p b) ≡ contents p ++ (b ∷ [])
unfolding put contents
contents-put {p} b v h =
    let grown : count (put p b) ≡ suc (count p) = ground arith in
    rw grown (
      window-update p.buffer p.read_count (count p) p.write_count b (ground arith) v.write_fits
        (ground arith))

pub advance-IsValid : {p : Pipe} → IsValid p → is_empty p ≡ false → IsValid (advance p)
unfolding advance
advance-IsValid v h = ground arith

pub contents-advance :
    {p : Pipe} → IsValid p → is_empty p ≡ false → contents p ≡ front p ∷ contents (advance p)
unfolding advance contents window
contents-advance {p} v h =
    let shrunk : count p ≡ suc (count (advance p)) = ground arith in rw shrunk

pub contents-empty : (p : Pipe) → IsValid p → is_empty p ≡ true → contents p ≡ []
unfolding contents window
contents-empty p v h = let none_left : count p ≡ 0 = ground arith in rw none_left

pub initialise-IsValid : (a : ℕ) (junk : ℕ → ℕ) → IsValid (initialise a junk)
unfolding initialise
initialise-IsValid a junk = omega arith

pub contents-initialise : (a : ℕ) (junk : ℕ → ℕ) → contents (initialise a junk) ≡ []
unfolding contents window initialise
contents-initialise a junk = refl

abbrev pub room : Pipe → ℕ
room p = pipe_size - count p

pub room-put : (p : Pipe) (b : ℕ) → IsValid p → is_full p ≡ false → room p ≡ suc (room (put p b))
unfolding put
room-put p b v h = ground arith
