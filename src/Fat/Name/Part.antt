-- ===== src/Fat/Name/Part.antt =====
-- What fsGetPathPart takes from a path.
use mathlib.Core.List.{append_assoc}
use systems_programming_a.Prelude.{
  ℕ, ◌+◌, ◌≤◌, ◌<◌, ◌≡◌, ◌≢◌, refl, ap, ◌∙◌, arith, none, some, true, false, ◌||◌, List, [], ◌∷◌,
  ◌++◌, ◌==◌, if◌then◌else◌, set, length, drop, All,
}
use systems_programming_a.Str.Text.{IsText, strcpy}
use systems_programming_a.Str.Text.Copy.{strcpy_lem}
use systems_programming_a.Fat.Name.Defs.{is_separator, part_length, get_path_part}

-- A part of a path: no terminator and no separator.
abbrev pub IsPart : List ℕ → Type 0
IsPart p = All (λ c. (c ≢ 0) × (is_separator c ≡ false)) p

part_length_lem :
    (p : List ℕ) (e : ℕ) (r : List ℕ)
    → IsPart p
    → (e == 0 || is_separator e) ≡ true
    → part_length (p ++ (e ∷ r)) ≡ some (length p, e)
unfolding part_length
part_length_lem [] e r h s = ground arith
part_length_lem (c ∷ p) e r h s = ground (arith, part_length_lem p e r h.1 s)

set-length : (p r : List ℕ) (e v : ℕ) → set (p ++ (e ∷ r)) (length p) v ≡ p ++ (v ∷ r)
set-length [] r e v = refl
set-length (c ∷ p) r e v = ap (λ t. c ∷ t) (set-length p r e v)

get_path_part-steps :
    (path buffer buffer' : List ℕ) (n e : ℕ)
    → part_length path ≡ some (n, e)
    → strcpy buffer path ≡ some buffer'
    → get_path_part path buffer ≡ some (set buffer' n 0, if e == 0 then 0 else n)
unfolding get_path_part
get_path_part-steps path buffer buffer' n e p q = rw (p, q)

get_path_part-overflow :
    (path buffer : List ℕ) (n e : ℕ)
    → part_length path ≡ some (n, e)
    → strcpy buffer path ≡ none
    → get_path_part path buffer ≡ none
unfolding get_path_part
get_path_part-overflow path buffer n e p q = rw (p, q)

IsText-append :
    (p : List ℕ) (e : ℕ) (rest : List ℕ) → IsPart p → e ≢ 0 → IsText rest → IsText (p ++ (e ∷ rest))
IsText-append [] e rest h z t = (z, t)
IsText-append (c ∷ p) e rest h z t = (h.0.0, IsText-append p e rest h.1 z t)

part-IsText : (p : List ℕ) → IsPart p → IsText p
part-IsText [] h = tt
part-IsText (c ∷ p) h = (h.0.0, part-IsText p h.1)

strcpy-fits :
    (dst cs r : List ℕ)
    → IsText cs
    → length cs < length dst
    → strcpy dst (cs ++ (0 ∷ r)) ≡ some (cs ++ (0 ∷ drop (length cs + 1) dst))
strcpy-fits dst cs r h l = strcpy_lem dst cs r h ∙ ground arith

strcpy-overflows :
    (dst cs r : List ℕ) → IsText cs → length dst ≤ length cs → strcpy dst (cs ++ (0 ∷ r)) ≡ none
strcpy-overflows dst cs r h l = strcpy_lem dst cs r h ∙ ground arith

module _ (p rest r buffer : List ℕ) (e : ℕ) (h : IsPart p) (t : IsText rest) (z : e ≢ 0)
    (s : is_separator e ≡ true) where
  -- The text of the path, whose first part is `p`.
  abbrev whole : List ℕ
  whole = p ++ (e ∷ rest)

  scanned : part_length (whole ++ (0 ∷ r)) ≡ some (length p, e)
  scanned =
      ap part_length (append_assoc p (e ∷ rest) (0 ∷ r))
      ∙ part_length_lem p e (rest ++ (0 ∷ r)) h (ground arith)

  -- On a terminated path whose first part ends at a separator, with room for the whole path in the
  -- buffer, the result is the length of the part, and the buffer holds the part, a terminator, and
  -- behind it the rest of the path.
  pub get_path_part_directory :
      length whole < length buffer
      → get_path_part (whole ++ (0 ∷ r)) buffer
        ≡ some (p ++ (0 ∷ (rest ++ (0 ∷ drop (length whole + 1) buffer))), length p)
  get_path_part_directory l =
      get_path_part-steps (whole ++ (0 ∷ r)) buffer (whole ++ (0 ∷ drop (length whole + 1) buffer))
        (length p) e scanned (strcpy-fits buffer whole r (IsText-append p e rest h z t) l)
      ∙ ap (λ (b : List ℕ). some (b, if e == 0 then 0 else length p))
          (ap (λ b. set b (length p) 0)
              (append_assoc p (e ∷ rest) (0 ∷ drop (length whole + 1) buffer))
            ∙ set-length p (rest ++ (0 ∷ drop (length whole + 1) buffer)) e 0)
      ∙ ground arith

  -- A terminated path that has a separator and is not shorter than the buffer is written past the
  -- end of the buffer, even if its first part is short.
  pub get_path_part_overflow :
      length buffer ≤ length whole → get_path_part (whole ++ (0 ∷ r)) buffer ≡ none
  get_path_part_overflow l =
      get_path_part-overflow (whole ++ (0 ∷ r)) buffer (length p) e scanned
        (strcpy-overflows buffer whole r (IsText-append p e rest h z t) l)

-- On a terminated path without a separator that fits in the buffer with its terminator, the result
-- is 0 and the buffer holds the path.
pub get_path_part_filename :
    (p r buffer : List ℕ)
    → IsPart p
    → length p < length buffer
    → get_path_part (p ++ (0 ∷ r)) buffer ≡ some (p ++ (0 ∷ drop (length p + 1) buffer), 0)
get_path_part_filename p r buffer h l =
    get_path_part-steps (p ++ (0 ∷ r)) buffer (p ++ (0 ∷ drop (length p + 1) buffer)) (length p) 0
      (part_length_lem p 0 r h refl) (strcpy-fits buffer p r (part-IsText p h) l)
    ∙ ap (λ (b : List ℕ). some (b, 0)) (set-length p (drop (length p + 1) buffer) 0 0)
