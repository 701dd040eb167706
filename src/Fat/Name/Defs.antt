-- ===== src/Fat/Name/Defs.antt =====
-- toDosFileName and fsGetPathPart of UoDOS/fs.c.
-- A pointer is the list of the bytes from it to the end of its object; `none` is an access past
-- that end.
use systems_programming_a.Prelude.{
  ℕ, zero, suc, ◌+◌, ◌-◌, Option, none, some, Bool, false, ◌&&◌, ◌||◌, List, [], ◌∷◌, ◌==◌, leb,
  ltb, if◌then◌else◌, set, replicate, drop, ◌++◌,
}
use systems_programming_a.Str.Text.{strlen, strcpy}

infixl 5 ◌>>=◌
abbrev pub ◌>>=◌ {ℓ κ} : {A : Type ℓ} {B : Type κ} → Option A → (A → Option B) → Option B
none >>= f = none
some a >>= f = f a

abbrev pub dot : ℕ
dot = b'.'

abbrev pub space : ℕ
space = b' '

-- The macro toupper.
abbrev pub to_upper : ℕ → ℕ
to_upper c = if leb b'a' c && leb c b'z' then c - 32 else c

-- `for (i = 0; i < strlen(filename) && i < filenameLength; i++)`, at `i`: the rest of the filename
-- at the end of the loop, and the converted name.
unfoldable pub copy_base : ℕ → ℕ → ℕ → List ℕ → List ℕ → Option (List ℕ × List ℕ)
copy_base len limit i [] name = none
copy_base len limit i (c ∷ cs) name =
    let rest = copy_base len limit (i + 1) cs (set name i (to_upper c)) in
    if ltb i len && ltb i limit
    then (if c == dot || i == 8 then some (c ∷ cs, name) else rest)
    else some (c ∷ cs, name)

-- `for (int k = 0; k<3; k++) { i++; if (filename[i]) ... }`, with `n` rounds left; the filename is
-- that from `i` on.
unfoldable pub copy_extension : ℕ → ℕ → List ℕ → List ℕ → Option (List ℕ)
copy_extension zero k cs name = some name
copy_extension (suc n) k [] name = none
copy_extension (suc n) k (c ∷ []) name = none
copy_extension (suc n) k (c ∷ d ∷ cs) name =
    copy_extension n (k + 1) (d ∷ cs) (if d == 0 then name else set name (k + 8) (to_upper d))

-- `if (filename[i] == '.')`
unfoldable pub add_extension : List ℕ → List ℕ → Option (List ℕ)
unfolding copy_extension
add_extension [] name = none
add_extension (c ∷ cs) name = if c == dot then copy_extension 3 0 (c ∷ cs) name else some name

abbrev pub head_is : ℕ → List ℕ → Bool
head_is x [] = false
head_is x (c ∷ cs) = c == x

-- The bytes that `memset(convertedFileName, ' ', filenameLength)` leaves.
abbrev pub blank : ℕ → List ℕ → List ℕ
blank n name = replicate n space ++ drop n name

-- toDosFileName, with both pointers valid. The callers pass the length 11 and a name of 12 bytes.
unfoldable pub to_dos_file_name : List ℕ → List ℕ → ℕ → Option (List ℕ)
unfolding strlen copy_base add_extension
to_dos_file_name filename converted limit = if ltb 11 limit then some converted else do
  len ← strlen filename
  let name = blank limit converted
  if len == 1 && head_is dot filename
      then some (set name 0 dot)
      else if len == 2 && head_is dot filename && head_is dot (drop 1 filename)
      then some (set (set name 0 dot) 1 dot)
      else (copy_base len limit 0 filename name >>= λ r. add_extension r.0 r.1)

abbrev pub is_separator : ℕ → Bool
is_separator c = c == 0x5c || c == b'/'

-- The length of the first part of a path, and the byte that ends it.
unfoldable pub part_length : List ℕ → Option (ℕ × ℕ)
part_length [] = none
part_length (c ∷ cs) =
    let rest = part_length cs in
    if c == 0 || is_separator c
    then some (0, c)
    else elim rest [ none ↦ none | some (n, e) ↦ some (n + 1, e) ]

-- fsGetPathPart: the buffer `path_part` as the call leaves it, and the result.
unfoldable pub get_path_part : List ℕ → List ℕ → Option (List ℕ × ℕ)
unfolding part_length strcpy
get_path_part path path_part = do
  r ← part_length path
  buffer ← strcpy path_part path
  some (set buffer r.0 0, if r.1 == 0 then 0 else r.0)
