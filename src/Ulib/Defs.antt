-- ===== src/Ulib/Defs.antt =====
-- strcpy, strcmp, strlen, gets, atoi and memmove of UoDOS/ulib.c. A pointer is the list of the bytes
-- from it to the end of its object, and `none` an access past that end.
use mathlib.Core.Option
use systems_programming_a.Prelude.{
  ℕ, zero, suc, ◌+◌, ◌-◌, ◌*◌, ◌%◌, ◌^◌, not, ◌&&◌, ◌||◌, Option, none, some, List, [], ◌∷◌, ◌++◌,
  leb, ◌==◌, if◌then◌else◌, Memory, update,
}
use systems_programming_a.Prelude.Int.{ℤ, sub_ℕ}

unfoldable pub user_strcpy : List ℕ → List ℕ → Option (List ℕ)
user_strcpy (d ∷ s) (c ∷ t) =
    if c == 0 then some (0 ∷ s) else Option.map (λ r. c ∷ r) (user_strcpy s t)
user_strcpy s t = none

unfoldable pub user_strcmp : List ℕ → List ℕ → Option ℤ
user_strcmp (c ∷ p) (d ∷ q) = if not (c == 0) && c == d then user_strcmp p q else some (sub_ℕ c d)
user_strcmp p q = none

unfoldable pub user_strlen : List ℕ → Option ℕ
user_strlen [] = none
user_strlen (c ∷ s) = if c == 0 then some 0 else Option.map (λ n. n + 1) (user_strlen s)

-- The loop of gets, with room for `n` more characters: those that it stores, and the input that is
-- left. At the end of the input, read gives less than 1.
unfoldable pub gets_loop : ℕ → List ℕ → List ℕ × List ℕ
gets_loop zero input = ([], input)
gets_loop (suc n) [] = ([], [])
gets_loop (suc n) (c ∷ input) =
    let rest = gets_loop n input in
    if c == b'\n' || c == b'\r' then (c ∷ [], input) else (c ∷ rest.0, rest.1)

-- The bytes stored from the start of the buffer on.
unfoldable pub store_chars : List ℕ → List ℕ → Option (List ℕ)
store_chars buf [] = some buf
store_chars [] (c ∷ cs) = none
store_chars (b ∷ buf) (c ∷ cs) = Option.map (λ r. c ∷ r) (store_chars buf cs)

-- gets: the buffer and the input that is left. A negative `max` reads nothing, as 0 does.
unfoldable pub gets : List ℕ → ℕ → List ℕ → Option (List ℕ) × List ℕ
unfolding gets_loop store_chars
gets buf max input =
    let (cs, rest) = gets_loop (max - 1) input in (store_chars buf (cs ++ (0 ∷ [])), rest)

-- The loop of atoi; an int is a word.
unfoldable pub atoi_from : ℕ → List ℕ → Option ℕ
atoi_from n [] = none
atoi_from n (c ∷ s) =
    let rest = atoi_from ((n * 10 + c + 2 ^ 32 - b'0') % 2 ^ 32) s in
    if leb b'0' c && leb c b'9' then rest else some n

unfoldable pub atoi : List ℕ → Option ℕ
unfolding atoi_from
atoi s = atoi_from 0 s

-- memmove copies upwards, whichever way the blocks lie.
unfoldable pub user_memmove : ℕ → ℕ → ℕ → Memory → Memory
user_memmove dst src zero m = m
user_memmove dst src (suc n) m = user_memmove (dst + 1) (src + 1) n (update m dst (m src))
