-- ===== src/Console/Ring.antt =====
-- The input buffer as a ring: what it holds between two of its indices.
use systems_programming_a.Prelude.{
  ℕ, zero, suc, ◌+◌, ◌-◌, ◌%◌, ◌^◌, ◌≤◌, ◌<◌, ◌≡◌, ◌≢◌, refl, ap, ◌∙◌, sym, arith, List, [], ◌∷◌,
  ◌++◌, length, update, All,
}
use systems_programming_a.Console.Defs.{Console, input_buf, newline}
use systems_programming_a.Console.Editor.{Editor, drop_last}

-- b - a, as uint32_t
abbrev pub gap : ℕ → ℕ → ℕ
gap a b = (b + 2 ^ 32 - a) % 2 ^ 32

-- The n bytes from the index a on.
unfoldable pub window : (ℕ → ℕ) → ℕ → ℕ → List ℕ
window d a zero = []
window d a (suc n) = d (a % input_buf) ∷ window d ((a + 1) % 2 ^ 32) n

unfoldable pub between : (ℕ → ℕ) → ℕ → ℕ → List ℕ
between d a b = window d a (gap a b)

-- No byte is a newline.
abbrev pub NoNewline : List ℕ → Type 0
NoNewline xs = All (λ c. c ≢ newline) xs

pub record IsValid (s : Console) : Type 0 where
  pub r_fits : s.r < 2 ^ 32
  pub w_fits : s.w < 2 ^ 32
  pub e_fits : s.e < 2 ^ 32
  pub ordered : gap s.r s.w + gap s.w s.e ≡ gap s.r s.e
  pub fits : gap s.r s.e ≤ input_buf
  pub one_line : NoNewline (between s.buf s.w s.e)

-- What the console holds, as an editor.
abbrev pub editor : Console → Editor
editor s = record { committed = between s.buf s.r s.w; editing = between s.buf s.w s.e }

pub length-window : (d : ℕ → ℕ) (a n : ℕ) → length (window d a n) ≡ n
unfolding window
length-window d a zero = refl
length-window d a (suc n) = ap suc (length-window d ((a + 1) % 2 ^ 32) n)

-- A write outside a window leaves it alone.
pub window-update_ne :
    (d : ℕ → ℕ) (a n b v : ℕ)
    → b < 2 ^ 32
    → gap a b < input_buf
    → n ≤ gap a b
    → a < 2 ^ 32
    → window (update d (b % input_buf) v) a n ≡ window d a n
unfolding window
window-update_ne d a zero b v f g h k = refl
window-update_ne d a (suc n) b v f g h k =
    ground (arith, window-update_ne d ((a + 1) % 2 ^ 32) n b v)

-- One more byte at the end of a window.
pub window-suc :
    (d : ℕ → ℕ) (a n b : ℕ)
    → a < 2 ^ 32
    → b < 2 ^ 32
    → b ≡ (a + n) % 2 ^ 32
    → window d a (suc n) ≡ window d a n ++ (d (b % input_buf) ∷ [])
unfolding window
window-suc d a zero b k f e = ground arith
window-suc d a (suc n) b k f e = ground (arith, window-suc d ((a + 1) % 2 ^ 32) n b)

add-suc_left : (n m : ℕ) → suc n + m ≡ suc (n + m)
add-suc_left n m = omega arith

pub window-append :
    (d : ℕ → ℕ) (a n m b : ℕ)
    → a < 2 ^ 32
    → b ≡ (a + n) % 2 ^ 32
    → window d a (n + m) ≡ window d a n ++ window d b m
unfolding window
window-append d a zero m b k e =
    let same : b ≡ a = omega arith in rw same (ap (λ n. window d a n) (omega arith))
window-append d a (suc n) m b k e =
    ap (λ t. window d a t) (add-suc_left n m)
    ∙ ap (λ t. d (a % input_buf) ∷ t)
        (window-append d ((a + 1) % 2 ^ 32) n m b (omega arith) (omega arith))

pub drop_last-append : (xs : List ℕ) (x : ℕ) → drop_last (xs ++ (x ∷ [])) ≡ xs
unfolding drop_last
drop_last-append [] x = refl
drop_last-append (y ∷ []) x = refl
drop_last-append (y ∷ z ∷ xs) x = ap (λ t. y ∷ t) (drop_last-append (z ∷ xs) x)

pub All-append {ℓ} :
    {A : Type 0} (P : A → Type ℓ) (xs : List A) (x : A)
    → (All P (xs ++ (x ∷ [])) → All P xs × P x) × (All P xs → P x → All P (xs ++ (x ∷ [])))
All-append P [] x = (λ h. (tt, h.0), λ h p. (p, tt))
All-append P (y ∷ xs) x = (
  λ h. let r = (All-append P xs x).0 h.1 in ((h.0, r.0), r.1),
  λ h p. (h.0, (All-append P xs x).1 h.1 p),
)

-- The two ways in which the end of a window moves.
pub between-pred :
    (d : ℕ → ℕ) (a b c : ℕ)
    → a < 2 ^ 32
    → b < 2 ^ 32
    → a ≢ b
    → c ≡ (b + 2 ^ 32 - 1) % 2 ^ 32
    → between d a b ≡ between d a c ++ (d (c % input_buf) ∷ [])
unfolding between
between-pred d a b c h k ne e =
    ap (λ n. window d a n) (omega arith) ∙ window-suc d a (gap a c) c h (omega arith) (omega arith)

pub between-update :
    (d : ℕ → ℕ) (a b v : ℕ)
    → a < 2 ^ 32
    → b < 2 ^ 32
    → gap a b < input_buf
    → between (update d (b % input_buf) v) a ((b + 1) % 2 ^ 32) ≡ between d a b ++ (v ∷ [])
unfolding between
between-update d a b v h k g =
    ap (λ n. window (update d (b % input_buf) v) a n) (omega arith)
    ∙ window-suc (update d (b % input_buf) v) a (gap a b) b h k (omega arith)
    ∙ ground (arith, window-update_ne d a (gap a b) b v)

pub between-update_ne :
    (d : ℕ → ℕ) (a w b v : ℕ)
    → a < 2 ^ 32
    → b < 2 ^ 32
    → gap a b < input_buf
    → gap a w ≤ gap a b
    → between (update d (b % input_buf) v) a w ≡ between d a w
unfolding between
between-update_ne d a w b v h k g l = window-update_ne d a (gap a w) b v k g l h

pub between-append :
    (d : ℕ → ℕ) (a b c : ℕ)
    → a < 2 ^ 32
    → b < 2 ^ 32
    → gap a b + gap b c ≡ gap a c
    → between d a c ≡ between d a b ++ between d b c
unfolding between
between-append d a b c h k e =
    ap (λ n. window d a n) (sym e) ∙ window-append d a (gap a b) (gap b c) b h (omega arith)

pub between_self : (d : ℕ → ℕ) (a : ℕ) → a < 2 ^ 32 → between d a a ≡ []
unfolding between window
between_self d a h = let none_there : gap a a ≡ 0 = omega arith in rw none_there

pub length-between : (d : ℕ → ℕ) (a b : ℕ) → length (between d a b) ≡ gap a b
unfolding between
length-between d a b = length-window d a (gap a b)

-- The byte at the front of a window that is not empty.
pub between-cons :
    (d : ℕ → ℕ) (a b : ℕ)
    → a < 2 ^ 32
    → b < 2 ^ 32
    → a ≢ b
    → between d a b ≡ d (a % input_buf) ∷ between d ((a + 1) % 2 ^ 32) b
unfolding between window
between-cons d a b h k ne =
    let longer : gap a b ≡ suc (gap ((a + 1) % 2 ^ 32) b) = omega arith in rw longer
