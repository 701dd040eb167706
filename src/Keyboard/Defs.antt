-- ===== src/Keyboard/Defs.antt =====
-- kbdgetc and keyboardInterrupt of UoDOS/kbd.c. What the ports of the controller give is an argument:
-- the status byte and the byte of data that a call reads.
use Prim.Native.Nat.{bit_and, bit_or, bit_xor}
use systems_programming_a.Prelude.{
  ℕ, ◌+◌, ◌-◌, ◌^◌, Bool, not, ◌&&◌, Option, none, some, List, [], ◌∷◌, ◌==◌, leb, if◌then◌else◌,
}
use systems_programming_a.Keyboard.Tables.{
  kbs_dib, shift, ctl, capslock, e0esc, shiftcode, togglecode, normalmap, shiftmap, ctlmap,
}
use systems_programming_a.Console.{Console, console_interrupt}

-- `x & mask`, read as a truth value.
abbrev pub has : ℕ → ℕ → Bool
has mask x = not (bit_and x mask == 0)

-- `x & ~mask` on 32 bits.
abbrev pub without : ℕ → ℕ → ℕ
without mask x = bit_and x (2 ^ 32 - 1 - mask)

-- `charcode[shift & (CTL | SHIFT)][data]`
unfoldable pub charcode : ℕ → ℕ → ℕ
unfolding normalmap shiftmap ctlmap
charcode s data' =
    let column = bit_and s (bit_or ctl shift) in
    if column == 0 then normalmap data' else if column == 1 then shiftmap data' else ctlmap data'

abbrev pub is_between : ℕ → ℕ → ℕ → Bool
is_between lo hi c = leb lo c && leb c hi

-- The other case of a letter, while CAPSLOCK is on.
abbrev pub swap_case : ℕ → ℕ
swap_case c =
    if is_between b'a' b'z' c
    then c + b'A' - b'a'
    else if is_between b'A' b'Z' c
    then c + b'a' - b'A'
    else c

-- The key `data` has gone down: the character, and `shift`.
unfoldable pub press : ℕ → ℕ → ℕ × ℕ
unfolding shiftcode togglecode charcode
press data' s =
    let s' = bit_xor (bit_or s (shiftcode data')) (togglecode data') in
    let c = charcode s' data' in (if has capslock s' then swap_case c else c, s')

-- A key has been released: `shift`.
unfoldable pub release : ℕ → ℕ → ℕ
unfolding shiftcode
release data' s =
    let key = if has e0esc s then data' else bit_and data' 0x7f in
    without (bit_or (shiftcode key) e0esc) s

-- kbdgetc, with the static `shift`; `none` is -1.
unfoldable pub kbdgetc : ℕ → ℕ → ℕ → Option ℕ × ℕ
unfolding press release
kbdgetc st data' s =
    if not (has kbs_dib st)
    then (none, s)
    else if data' == 0xe0
    then (some 0, bit_or s e0esc)
    else if has 0x80 data'
    then (some 0, release data' s)
    else (let (c, s') =
          if has e0esc s then press (bit_or data' 0x80) (without e0esc s) else press data' s in
        (some c, s'))

-- One round of consoleInterrupt's loop, given the rest: a negative number ends it.
abbrev pub gather : Option ℕ → ℕ → List ℕ × ℕ → List ℕ × ℕ
gather none s rest = ([], s)
gather (some c) s rest = (c ∷ rest.0, rest.1)

-- The characters that consoleInterrupt gets by kbdgetc, from what the two ports give at each call.
unfoldable pub characters : List (ℕ × ℕ) → ℕ → List ℕ × ℕ
characters [] s = ([], s)
characters ((st, data') ∷ ports) s =
    let (c, s') = kbdgetc st data' s in gather c s' (characters ports s')

-- keyboardInterrupt
unfoldable pub keyboard_interrupt : List (ℕ × ℕ) → ℕ → Console → Console × ℕ
unfolding characters
keyboard_interrupt ports s console =
    let (cs, s') = characters ports s in (console_interrupt cs console, s')
