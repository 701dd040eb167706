-- ===== src/Keyboard/Tables.antt =====
-- The constants and tables of UoDOS/kbd.h. A table is its leading entries and those at given places;
-- the entries between are 0.
use systems_programming_a.Prelude.{ℕ, ◌+◌, ◌-◌, ◌%◌, List, [], ◌∷◌, ◌==◌, if◌then◌else◌, get_or}

abbrev pub kbs_dib : ℕ
kbs_dib = 0x01

abbrev pub shift : ℕ
shift = 1

abbrev pub ctl : ℕ
ctl = 2

abbrev pub alt : ℕ
alt = 4

abbrev pub capslock : ℕ
capslock = 8

abbrev pub numlock : ℕ
numlock = 16

abbrev pub scrolllock : ℕ
scrolllock = 32

abbrev pub e0esc : ℕ
e0esc = 64

-- `C(x)`, stored in a byte
abbrev pub control : ℕ → ℕ
control x = (x + 256 - b'@') % 256

-- The last initialiser of a place holds.
unfoldable pub entry_at : List (ℕ × ℕ) → List ℕ → ℕ → ℕ
entry_at [] xs i = get_or xs i 0
entry_at ((k, v) ∷ places) xs i = if i == k then v else entry_at places xs i

unfoldable pub shiftcode : ℕ → ℕ
unfolding entry_at
shiftcode =
    entry_at
      ((0x1d, ctl) ∷ (0x2a, shift) ∷ (0x36, shift) ∷ (0x38, alt) ∷ (0x9d, ctl) ∷ (0xb8, alt) ∷ [])
      []

unfoldable pub togglecode : ℕ → ℕ
unfolding entry_at
togglecode = entry_at ((0x3a, capslock) ∷ (0x45, numlock) ∷ (0x46, scrolllock) ∷ []) []

-- The keys with a code of their own, alike in the three maps.
abbrev special_keys : List (ℕ × ℕ)
special_keys =
    (0xc8, 0xe2)
    ∷ (0xd0, 0xe3)
    ∷ (0xc9, 0xe6)
    ∷ (0xd1, 0xe7)
    ∷ (0xcb, 0xe4)
    ∷ (0xcd, 0xe5)
    ∷ (0x97, 0xe0)
    ∷ (0xcf, 0xe1)
    ∷ (0xd2, 0xe8)
    ∷ (0xd3, 0xe9)
    ∷ []

abbrev row : ℕ → ℕ → ℕ → ℕ → ℕ → ℕ → ℕ → ℕ → List ℕ → List ℕ
row a b c d e f g h rest = a ∷ b ∷ c ∷ d ∷ e ∷ f ∷ g ∷ h ∷ rest

unfoldable pub normalmap : ℕ → ℕ
unfolding entry_at
normalmap = entry_at ((0x9c, 10) ∷ (0xb5, b'/') ∷ special_keys) (
    row 0 0x1b b'1' b'2' b'3' b'4' b'5' b'6' (
      row b'7' b'8' b'9' b'0' b'-' b'=' 8 9 (
        row b'q' b'w' b'e' b'r' b't' b'y' b'u' b'i' (
          row b'o' b'p' b'[' b']' 10 0 b'a' b's' (
            row b'd' b'f' b'g' b'h' b'j' b'k' b'l' b';' (
              row 39 b'`' 0 92 b'z' b'x' b'c' b'v' (
                row b'b' b'n' b'm' b',' b'.' b'/' 0 b'*' (
                  row 0 (b' ') 0 0 0 0 0 0 (
                    row 0 0 0 0 0 0 0 b'7' (
                      row b'8' b'9' b'-' b'4' b'5' b'6' b'+' b'1'
                        (row b'2' b'3' b'0' b'.' 0 0 0 0 [])))))))))))

unfoldable pub shiftmap : ℕ → ℕ
unfolding entry_at
shiftmap = entry_at ((0x9c, 10) ∷ (0xb5, b'/') ∷ special_keys) (
    row 0 0x1b b'!' b'@' b'#' b'$' b'%' b'^' (
      row b'&' b'*' b'(' b')' b'_' b'+' 8 9 (
        row b'Q' b'W' b'E' b'R' b'T' b'Y' b'U' b'I' (
          row b'O' b'P' b'{' b'}' 10 0 b'A' b'S' (
            row b'D' b'F' b'G' b'H' b'J' b'K' b'L' b':' (
              row 34 b'~' 0 b'|' b'Z' b'X' b'C' b'V' (
                row b'B' b'N' b'M' b'<' b'>' b'?' 0 b'*' (
                  row 0 (b' ') 0 0 0 0 0 0 (
                    row 0 0 0 0 0 0 0 b'7' (
                      row b'8' b'9' b'-' b'4' b'5' b'6' b'+' b'1'
                        (row b'2' b'3' b'0' b'.' 0 0 0 0 [])))))))))))

unfoldable pub ctlmap : ℕ → ℕ
unfolding entry_at
ctlmap = entry_at ((0x9c, 13) ∷ (0xb5, control b'/') ∷ special_keys) (
    row 0 0 0 0 0 0 0 0 (
      row 0 0 0 0 0 0 0 0 (
        row (control b'Q') (control b'W') (control b'E') (control b'R') (control b'T')
          (control b'Y') (control b'U') (control b'I')
          (row (control b'O') (control b'P') 0 0 13 0 (control b'A') (control b'S') (
            row (control b'D') (control b'F') (control b'G') (control b'H') (control b'J')
              (control b'K') (control b'L') 0
              (row 0 0 0 (control 92) (control b'Z') (control b'X') (control b'C') (control b'V')
                (row (control b'B') (control b'N') (control b'M') 0 0 (control b'/') 0 0 [])))))))
