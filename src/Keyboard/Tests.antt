-- ===== src/Keyboard/Tests.antt =====
-- The keyboard at concrete scan codes.
use systems_programming_a.Prelude.{ℕ, ◌<◌, ◌≡◌, refl, arith, List, [], ◌∷◌, map, false, some}
use systems_programming_a.Console.{Console, IsValid, editor, keys, between_self}
use systems_programming_a.Keyboard.Defs.{kbdgetc, keyboard_interrupt}
use systems_programming_a.Keyboard.Modifiers.{
  Modifiers, receive, shift_word, modifiers, kbdgetc-receive,
}
use systems_programming_a.Keyboard.Typing.{typed, byte, keyboard_interrupt_lem}

abbrev released : Modifiers
released = record {
  is_shift_down = false;
  is_ctl_down = false;
  is_alt_down = false;
  caps_lock = false;
  num_lock = false;
  scroll_lock = false;
  is_prefixed = false;
}

-- Shift and A, both released; A; the caps lock and A; the arrow up, with its prefix
abbrev bytes : List ℕ
bytes = 0x2a ∷ 0x1e ∷ 0x9e ∷ 0xaa ∷ 0x1e ∷ 0x3a ∷ 0x1e ∷ 0xe0 ∷ 0x48 ∷ []

shifted_keys : (typed bytes released).0 ≡ 0 ∷ b'A' ∷ 0 ∷ 0 ∷ b'a' ∷ 0 ∷ b'A' ∷ 0 ∷ 0xe2 ∷ []
unfolding typed receive
shifted_keys = refl

-- Both shift keys go down and one goes up: the word has no bit for the other.
two_shifts : (typed (0x2a ∷ 0x36 ∷ 0xb6 ∷ 0x1e ∷ []) released).0 ≡ 0 ∷ 0 ∷ 0 ∷ b'a' ∷ []
unfolding typed receive
two_shifts = refl

abbrev ports : List (ℕ × ℕ)
ports = map (λ b. (1, b)) bytes

kbdgetc-receive_example :
    let (c, m) = receive 0x1e (modifiers 1) in
    ((kbdgetc 0x1d 0x1e 1).0 ≡ some c)
    × ((kbdgetc 0x1d 0x1e 1).1 ≡ shift_word m)
    × (c < 256)
    × (shift_word m < 128)
kbdgetc-receive_example = kbdgetc-receive 0x1d 0x1e 1 refl (omega arith) (omega arith)

abbrev quiet : Console
quiet = record {
  buf = λ i. 0;
  r = 0;
  w = 0;
  e = 0;
  procs = [];
  channel = 5;
  output = [];
  dump = false;
}

quiet-IsValid : IsValid quiet
quiet-IsValid = record {
  r_fits = omega arith;
  w_fits = omega arith;
  e_fits = omega arith;
  ordered = omega arith;
  fits = omega arith;
  one_line = rw (between_self quiet.buf 0 (omega arith)) tt;
}

keyboard_interrupt_lem_example :
    let (cs, m') = typed (map byte ports) released in
    let (s', shift) = keyboard_interrupt ports (shift_word released) quiet in
    IsValid s' × (editor s' ≡ keys cs (editor quiet)) × (shift ≡ shift_word m')
keyboard_interrupt_lem_example =
    keyboard_interrupt_lem ports released quiet
      (
        (refl, omega arith),
        (
          (refl, omega arith),
          (
            (refl, omega arith),
            (
              (refl, omega arith),
              (
                (refl, omega arith),
                (
                  (refl, omega arith),
                  ((refl, omega arith), ((refl, omega arith), ((refl, omega arith), tt))),
                ),
              ),
            ),
          ),
        ),
      )
      quiet-IsValid
