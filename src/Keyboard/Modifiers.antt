-- ===== src/Keyboard/Modifiers.antt =====
-- kbdgetc against a keyboard described by its keys.
use systems_programming_a.Prelude.{
  ℕ, zero, suc, ◌+◌, ◌-◌, ◌<◌, ◌≡◌, ◌∙◌, refl, ap, arith, Bool, true, false, not, ◌&&◌, ◌||◌,
  Option, none, some, ◌==◌, if◌then◌else◌, ltb, leb, ◌%◌, ◌/◌,
}
use systems_programming_a.Keyboard.Tables.{kbs_dib, normalmap, shiftmap, ctlmap}
use systems_programming_a.Keyboard.Defs.{has, is_between, kbdgetc}

-- The modifier keys that are down, the locks that are on, and whether the last byte was the prefix
-- of a second code.
pub record Modifiers : Type 0 where
  pub is_shift_down : Bool
  pub is_ctl_down : Bool
  pub is_alt_down : Bool
  pub caps_lock : Bool
  pub num_lock : Bool
  pub scroll_lock : Bool
  pub is_prefixed : Bool

-- The keys, by their codes without the prefix.
abbrev pub is_shift_key : ℕ → Bool → Bool
is_shift_key key prefixed = not prefixed && (key == 0x2a || key == 0x36)

abbrev pub is_ctl_key : ℕ → Bool → Bool
is_ctl_key key prefixed = key == 0x1d

abbrev pub is_alt_key : ℕ → Bool → Bool
is_alt_key key prefixed = key == 0x38

abbrev flip : Bool → Bool → Bool
flip on key = if key then not on else on

-- What a key does when it goes down.
unfoldable pub key_down : ℕ → Modifiers → Modifiers
key_down key m = record {
  is_shift_down = m.is_shift_down || is_shift_key key m.is_prefixed;
  is_ctl_down = m.is_ctl_down || is_ctl_key key m.is_prefixed;
  is_alt_down = m.is_alt_down || is_alt_key key m.is_prefixed;
  caps_lock = flip m.caps_lock (key == 0x3a && not m.is_prefixed);
  num_lock = flip m.num_lock (key == 0x45 && not m.is_prefixed);
  scroll_lock = flip m.scroll_lock (key == 0x46 && not m.is_prefixed);
  is_prefixed = false;
}

-- What it does when it goes up.
unfoldable pub key_up : ℕ → Modifiers → Modifiers
key_up key m = record m {
  is_shift_down = m.is_shift_down && not (is_shift_key key m.is_prefixed);
  is_ctl_down = m.is_ctl_down && not (is_ctl_key key m.is_prefixed);
  is_alt_down = m.is_alt_down && not (is_alt_key key m.is_prefixed);
  is_prefixed = false;
}

abbrev pub is_letter : ℕ → Bool
is_letter c = is_between b'a' b'z' c || is_between b'A' b'Z' c

-- The character of a key that goes down: the column is that of the control key or else that of the
-- shift key, and the caps lock changes the case of letters.
unfoldable pub typed_char : ℕ → Modifiers → ℕ
unfolding normalmap shiftmap ctlmap
typed_char key m =
    let code = if m.is_prefixed then key + 128 else key in
    let c =
      if m.is_ctl_down || is_ctl_key key m.is_prefixed
      then ctlmap code
      else if m.is_shift_down || is_shift_key key m.is_prefixed
      then shiftmap code
      else normalmap code in
    if flip m.caps_lock (key == 0x3a && not m.is_prefixed) && is_letter c
    then (if ltb c b'a' then c + 32 else c - 32)
    else c

-- A byte of the keyboard: the character, and what is down afterwards.
unfoldable pub receive : ℕ → Modifiers → ℕ × Modifiers
unfolding key_down key_up typed_char
receive data' m =
    if data' == 0xe0
    then (0, record m { is_prefixed = true })
    else if leb 128 data'
    then (0, key_up (data' - 128) m)
    else (typed_char data' m, key_down data' m)

-- The word that keeps this, and what a word keeps.
abbrev bit : ℕ → Bool → ℕ
bit value b = if b then value else 0

abbrev pub shift_word : Modifiers → ℕ
shift_word m =
    bit 1 m.is_shift_down
    + bit 2 m.is_ctl_down
    + bit 4 m.is_alt_down
    + bit 8 m.caps_lock
    + bit 16 m.num_lock
    + bit 32 m.scroll_lock
    + bit 64 m.is_prefixed

abbrev pub modifiers : ℕ → Modifiers
modifiers s = record {
  is_shift_down = s % 2 == 1;
  is_ctl_down = s / 2 % 2 == 1;
  is_alt_down = s / 4 % 2 == 1;
  caps_lock = s / 8 % 2 == 1;
  num_lock = s / 16 % 2 == 1;
  scroll_lock = s / 32 % 2 == 1;
  is_prefixed = s / 64 % 2 == 1;
}

-- Both give the same for a byte and a word, and the results are small.
abbrev same : Option ℕ → ℕ → ℕ → ℕ → Bool
same none s' c' w = false
same (some c) s' c' w = c == c' && s' == w && ltb c 256 && ltb s' 128

abbrev agrees : ℕ → ℕ → Bool
agrees data' s =
    let r = kbdgetc 1 data' s in
    let t = receive data' (modifiers s) in same r.0 r.1 t.0 (shift_word t.1)

-- Whether a test holds of every number below a bound.
unfoldable all_below : ℕ → (ℕ → Bool) → Bool
all_below zero p = true
all_below (suc n) p = p n && all_below n p

all_bytes : all_below 256 (λ d. all_below 128 (λ s. agrees d s)) ≡ true
unfolding all_below kbdgetc receive
all_bytes = refl

all_below_sound : (n : ℕ) (p : ℕ → Bool) (x : ℕ) → all_below n p ≡ true → x < n → p x ≡ true
unfolding all_below
all_below_sound zero p x h lt = absurd (omega (arith, lt))
all_below_sound (suc n) p x h lt = ground (arith, all_below_sound n p x)

-- The status byte counts only by its lowest bit.
kbdgetc-status : (st data' s : ℕ) → has kbs_dib st ≡ true → kbdgetc st data' s ≡ kbdgetc 1 data' s
unfolding kbdgetc
kbdgetc-status st data' s h = rw h refl

same_lem :
    (o : Option ℕ) (s' c' w : ℕ)
    → same o s' c' w ≡ true
    → (o ≡ some c') × (s' ≡ w) × (c' < 256) × (w < 128)
same_lem none s' c' w h = absurd (cc)
same_lem (some c) s' c' w h = ground arith

-- kbdgetc on a byte that the controller has, with a `shift` below 128: it gives the character of
-- the key, below 256, and the `shift` that it leaves is the word, below 128 again, of the modifier
-- keys that are then down, the locks that are on and the prefix.
pub kbdgetc-receive :
    (st data' s : ℕ)
    → has kbs_dib st ≡ true
    → data' < 256
    → s < 128
    → let (c, m) = receive data' (modifiers s) in
      ((kbdgetc st data' s).0 ≡ some c)
      × ((kbdgetc st data' s).1 ≡ shift_word m)
      × (c < 256)
      × (shift_word m < 128)
kbdgetc-receive st data' s h d l =
    let e = kbdgetc-status st data' s h in
    let t = all_below_sound 256 (λ d. all_below 128 (λ s. agrees d s)) data' all_bytes d in
    let r = kbdgetc 1 data' s in
    let u = receive data' (modifiers s) in
    let k =
      same_lem r.0 r.1 u.0 (shift_word u.1) (all_below_sound 128 (λ s. agrees data' s) s t l) in
    (ap (λ x. x.0) e ∙ k.0, ap (λ x. x.1) e ∙ k.1, k.2, k.3)
