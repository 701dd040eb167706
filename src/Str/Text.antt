-- ===== src/Str/Text.antt =====
-- The functions of UoDOS/string.c on NUL-terminated text, and memcmp.
-- A pointer is the list of the bytes from it to the end of its object, each below 256, and `none`
-- is an access past that end. The objects of one call are distinct.
pub mod Length
pub mod Compare
pub mod Copy
use mathlib.Core.Option
use systems_programming_a.Prelude.{
  ℕ, zero, suc, ◌+◌, Bool, not, ◌&&◌, ◌≢◌, All, Option, none, some, List, [], ◌∷◌, ◌==◌,
  if◌then◌else◌,
}
use systems_programming_a.Prelude.Int.{ℤ, pos, negsuc, sub_ℕ, ltb_ℤ}

-- No byte of a text is the terminator.
abbrev pub IsText : List ℕ → Type 0
IsText cs = All (λ c. c ≢ 0) cs

unfoldable pub memcmp : List ℕ → List ℕ → ℕ → Option ℤ
memcmp s1 s2 zero = some (pos 0)
memcmp (x ∷ s1) (y ∷ s2) (suc n) = if x == y then memcmp s1 s2 n else some (sub_ℕ x y)
memcmp s1 s2 (suc n) = none

unfoldable pub strncmp : List ℕ → List ℕ → ℕ → Option ℤ
strncmp p q zero = some (pos 0)
strncmp (x ∷ p) (y ∷ q) (suc n) = if not (x == 0) && x == y then strncmp p q n else some (sub_ℕ x y)
strncmp p q (suc n) = none

-- `if (result < 0) result = -1; if (result > 0) result = 1;`
abbrev pub sign : ℤ → ℤ
sign result =
    if ltb_ℤ result (pos 0) then negsuc 0 else if ltb_ℤ (pos 0) result then pos 1 else result

unfoldable pub strcmp : List ℕ → List ℕ → Option ℤ
strcmp (x ∷ str1) (y ∷ str2) =
    if x == y && not (y == 0) then strcmp str1 str2 else some (sign (sub_ℕ x y))
strcmp str1 str2 = none

unfoldable pub strlen : List ℕ → Option ℕ
strlen [] = none
strlen (c ∷ s) = if c == 0 then some 0 else Option.map (λ n. n + 1) (strlen s)

-- The copies return the destination as they leave it.
unfoldable pub strcpy : List ℕ → List ℕ → Option (List ℕ)
strcpy (d ∷ destination) (c ∷ source) =
    if c == 0 then some (0 ∷ destination) else Option.map (λ r. c ∷ r) (strcpy destination source)
strcpy destination source = none

-- `while (n-- > 0) *s++ = 0;`
unfoldable pub pad : List ℕ → ℕ → Option (List ℕ)
pad s zero = some s
pad [] (suc n) = none
pad (d ∷ s) (suc n) = Option.map (λ r. 0 ∷ r) (pad s n)

-- A negative count copies nothing, as 0 does.
unfoldable pub strncpy : List ℕ → List ℕ → ℕ → Option (List ℕ)
unfolding pad
strncpy s t zero = some s
strncpy (d ∷ s) (c ∷ t) (suc n) =
    if c == 0 then Option.map (λ r. 0 ∷ r) (pad s n) else Option.map (λ r. c ∷ r) (strncpy s t n)
strncpy s t (suc n) = none

-- `*s = 0;`
abbrev pub terminate : List ℕ → Option (List ℕ)
terminate [] = none
terminate (d ∷ s) = some (0 ∷ s)

-- The loop of safestrcpy and the store after it, with `n` rounds of `--n > 0` left. A terminator
-- that is copied is followed by a second one.
unfoldable pub safe_copy : List ℕ → List ℕ → ℕ → Option (List ℕ)
safe_copy s t zero = terminate s
safe_copy (d ∷ s) (c ∷ t) (suc n) =
    if c == 0
    then Option.map (λ r. 0 ∷ r) (terminate s)
    else Option.map (λ r. c ∷ r) (safe_copy s t n)
safe_copy s t (suc n) = none

-- A negative count copies nothing, as 0 does.
unfoldable pub safestrcpy : List ℕ → List ℕ → ℕ → Option (List ℕ)
unfolding safe_copy
safestrcpy s t zero = some s
safestrcpy s t (suc n) = safe_copy s t n

-- The offset of the character: `some none` is the null pointer. The terminator is searched too.
unfoldable pub strchr : List ℕ → ℕ → Option (Option ℕ)
strchr [] character = none
strchr (c ∷ str) character =
    if c == character
    then some (some 0)
    else if c == 0
    then some none
    else Option.map (Option.map (λ n. n + 1)) (strchr str character)
