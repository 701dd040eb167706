-- ===== src/Console/Editor.antt =====
-- The line editor that the console's input is: lines that are committed, waiting to be read, and
-- the line that is being typed.
use systems_programming_a.Prelude.{
  ℕ, zero, suc, ◌+◌, ◌%◌, Bool, not, ◌&&◌, ◌||◌, List, [], ◌∷◌, ◌++◌, ◌==◌, if◌then◌else◌, ltb,
  length,
}
use systems_programming_a.Pipe.{Outcome, returned, failed, asleep}
use systems_programming_a.Console.Defs.{
  input_buf, newline, ctrl_d, ctrl_h, ctrl_p, ctrl_u, delete, translate,
}

pub record Editor : Type 0 where
  pub committed : List ℕ
  pub editing : List ℕ

unfoldable pub drop_last : List ℕ → List ℕ
drop_last [] = []
drop_last (x ∷ []) = []
drop_last (x ∷ y ∷ xs) = x ∷ drop_last (y ∷ xs)

unfoldable pub size : Editor → ℕ
size t = length t.committed + length t.editing

-- A character is added if there is room; the line is committed by a newline, by ^D and by the
-- buffer being full.
unfoldable pub type_char : ℕ → Editor → Editor
unfolding size
type_char c t =
    if not (c == 0) && ltb (size t) input_buf
    then (let line = t.editing ++ ((translate c % 256) ∷ []) in
        if translate c == newline || translate c == ctrl_d || size t + 1 == input_buf
        then record { committed = t.committed ++ line; editing = [] }
        else record t { editing = line })
    else t

unfoldable pub key : ℕ → Editor → Editor
unfolding type_char drop_last
key c t =
    if c == ctrl_p
    then t
    else if c == ctrl_u
    then record t { editing = [] }
    else if c == ctrl_h || c == delete
    then record t { editing = drop_last t.editing }
    else type_char c t

unfoldable pub keys : List ℕ → Editor → Editor
unfolding key
keys [] t = t
keys (c ∷ cs) t = keys cs (key c t)

-- Reading up to `n` more bytes of the committed lines `q`, after `got`: what is left of the lines,
-- and where the read stands. It stops behind a newline, and before a ^D that follows something; a
-- ^D at the start is taken, and means the end of the file. With nothing left the reader waits.
unfoldable pub read_lines : Bool → ℕ → ℕ → List ℕ → List ℕ → List ℕ × Outcome (List ℕ) (ℕ × List ℕ)
read_lines killed target zero got q = (q, returned got)
read_lines killed target (suc n) got [] = ([], if killed then failed else asleep (suc n, got))
read_lines killed target (suc n) got (c ∷ q) =
    let rest = read_lines killed target n (got ++ (c ∷ [])) q in
    if c == ctrl_d
    then (if ltb (suc n) target then c ∷ q else q, returned got)
    else if c == newline
    then (q, returned (got ++ (c ∷ [])))
    else rest
