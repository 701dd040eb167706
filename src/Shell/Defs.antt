-- ===== src/Shell/Defs.antt =====
-- gettoken and peek of UoDOS/sh.c. A pointer `s` into the line is a cursor: its offset, and the
-- characters from it up to the terminator `es`, none of which is 0.
use systems_programming_a.Prelude.{
  ℕ, ◌+◌, Bool, false, not, ◌&&◌, ◌||◌, List, [], ◌∷◌, ◌==◌, if◌then◌else◌,
}

pub record Cursor : Type 0 where
  pub offset : ℕ
  pub rest : List ℕ

-- `*s`, which is 0 at `es`
abbrev pub at : Cursor → ℕ
at s = elim s.rest [ [] ↦ 0 | c ∷ cs ↦ c ]

-- strchr of the user library as a test: whether a character is in a text.
unfoldable pub contains : List ℕ → ℕ → Bool
contains [] c = false
contains (d ∷ ds) c = d == c || contains ds c

-- " \t\r\n\v"
abbrev pub whitespace : List ℕ
whitespace = 32 ∷ 9 ∷ 13 ∷ 10 ∷ 11 ∷ []

-- "<|>&;()"
abbrev pub symbols : List ℕ
symbols = b'<' ∷ b'|' ∷ b'>' ∷ b'&' ∷ b';' ∷ b'(' ∷ b')' ∷ []

-- `while (s < es && strchr(whitespace, *s)) s++;`
unfoldable pub skip_from : ℕ → List ℕ → Cursor
unfolding contains
skip_from n [] = record { offset = n; rest = [] }
skip_from n (c ∷ cs) =
    let rest = skip_from (n + 1) cs in
    if contains whitespace c then rest else record { offset = n; rest = c ∷ cs }

unfoldable pub skip : Cursor → Cursor
skip s = skip_from s.offset s.rest

-- `while (s < es && !strchr(whitespace, *s) && !strchr(symbols, *s)) s++;`
unfoldable pub word_from : ℕ → List ℕ → Cursor
unfolding contains
word_from n [] = record { offset = n; rest = [] }
word_from n (c ∷ cs) =
    let rest = word_from (n + 1) cs in
    if not (contains whitespace c) && not (contains symbols c)
    then rest
    else record { offset = n; rest = c ∷ cs }

unfoldable pub word : Cursor → Cursor
word s = word_from s.offset s.rest

-- `s++`
abbrev pub next_char : Cursor → Cursor
next_char s = record { offset = s.offset + 1; rest = elim s.rest [ [] ↦ [] | c ∷ cs ↦ cs ] }

-- What gettoken returns, the offsets that it stores in q and eq, and the cursor that it leaves.
pub record Token : Type 0 where
  pub kind : ℕ
  pub q : ℕ
  pub eq : ℕ
  pub after : Cursor

-- The switch: the value and the cursor at the end of the token.
unfoldable pub scan_token : Cursor → ℕ × Cursor
scan_token s =
    let c = at s in
    if c == 0
    then (0, s)
    else if contains (b'|' ∷ b'(' ∷ b')' ∷ b';' ∷ b'&' ∷ b'<' ∷ []) c
    then (c, next_char s)
    else if c == b'>'
    then (if at (next_char s) == b'>' then (b'+', next_char (next_char s)) else (c, next_char s))
    else (b'a', word s)

unfoldable pub gettoken : Cursor → Token
gettoken ps =
    let s = skip ps in
    let (ret, e) = scan_token s in
    record { kind = ret; q = s.offset; eq = e.offset; after = skip e }

-- peek: the cursor and the answer.
unfoldable pub peek : Cursor → List ℕ → Cursor × Bool
peek ps toks = let s = skip ps in (s, not (at s == 0) && contains toks (at s))
