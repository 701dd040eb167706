-- ===== src/Keyboard/Typing.antt =====
-- keyboardInterrupt and the line editor.
use mathlib.Core.Path.{subst}
use systems_programming_a.Prelude.{
  ℕ, ◌<◌, ◌≡◌, ◌∙◌, sym, refl, ap, arith, true, List, [], ◌∷◌, map, All, some,
}
use systems_programming_a.Console.{
  Console, console_interrupt, console_interrupt_lem, IsValid, editor, keys,
}
use systems_programming_a.Keyboard.Tables.{kbs_dib}
use systems_programming_a.Keyboard.Defs.{has, kbdgetc, gather, characters, keyboard_interrupt}
use systems_programming_a.Keyboard.Modifiers.{
  Modifiers, receive, shift_word, modifiers, kbdgetc-receive,
}

-- The characters of a sequence of bytes, and what is down afterwards.
unfoldable pub typed : List ℕ → Modifiers → List ℕ × Modifiers
typed [] m = ([], m)
typed (d ∷ ds) m = let (c, m') = receive d m in let (cs, m'') = typed ds m' in (c ∷ cs, m'')

modifiers-word : (m : Modifiers) → modifiers (shift_word m) ≡ m
modifiers-word m = ground arith

-- The controller has a byte at each call.
abbrev pub IsReady : ℕ × ℕ → Type 0
IsReady (st, data') = (has kbs_dib st ≡ true) × (data' < 256)

abbrev pub byte : ℕ × ℕ → ℕ
byte (st, data') = data'

abbrev pair : List ℕ → ℕ → List ℕ × ℕ
pair cs s = (cs, s)

-- kbdgetc gives what the keys give, for a word that keeps what is in `n`.
abbrev Same : ℕ → ℕ → Modifiers → Modifiers → Type 0
Same st data' m n =
    let (c, m') = receive data' n in
    ((kbdgetc st data' (shift_word m)).0 ≡ some c)
    × ((kbdgetc st data' (shift_word m)).1 ≡ shift_word m')
    × (c < 256)
    × (shift_word m' < 128)

characters-step :
    (st data' : ℕ) (ports : List (ℕ × ℕ)) (s c : ℕ)
    → (kbdgetc st data' s).0 ≡ some c
    → characters ((st, data') ∷ ports) s ≡ (
      c ∷ (characters ports (kbdgetc st data' s).1).0,
      (characters ports (kbdgetc st data' s).1).1,
    )
unfolding characters
characters-step st data' ports s c e =
    ap (λ o. gather o (kbdgetc st data' s).1 (characters ports (kbdgetc st data' s).1)) e

shift_word_lt : (m : Modifiers) → shift_word m < 128
shift_word_lt m = ground arith

characters_nil : (s : ℕ) → characters [] s ≡ ([], s)
unfolding characters
characters_nil s = refl

characters_lem :
    (ports : List (ℕ × ℕ)) (m : Modifiers)
    → All IsReady ports
    → let (cs, m') = typed (map byte ports) m in
      (characters ports (shift_word m) ≡ pair cs (shift_word m')) × All (λ c. c < 256) cs
unfolding typed
characters_lem [] m h = (characters_nil (shift_word m), tt)
characters_lem ((st, data') ∷ ports) m h =
    let k =
      subst (λ n. Same st data' m n) (modifiers-word m)
        (kbdgetc-receive st data' (shift_word m) h.0.0 h.0.1 (shift_word_lt m)) in
    let t = receive data' m in
    let ih = characters_lem ports t.1 h.1 in
    (
      characters-step st data' ports (shift_word m) t.0 k.0
          ∙ ap (λ s. pair (t.0 ∷ (characters ports s).0) (characters ports s).1) k.1
          ∙ ap (λ r. pair (t.0 ∷ r.0) r.1) ih.0,
      (k.2, ih.1),
    )

-- From a console that keeps its invariant, with a byte of the keyboard at each call of kbdgetc: the
-- invariant is kept, the committed lines and the line being typed become those of the line editor
-- given the characters of the keys, and `shift` becomes the word of the modifier keys that are then
-- down, the locks that are on and the prefix.
pub keyboard_interrupt_lem :
    (ports : List (ℕ × ℕ)) (m : Modifiers) (s : Console)
    → All IsReady ports
    → IsValid s
    → let (cs, m') = typed (map byte ports) m in
      let (s', shift) = keyboard_interrupt ports (shift_word m) s in
      IsValid s' × (editor s' ≡ keys cs (editor s)) × (shift ≡ shift_word m')
unfolding keyboard_interrupt
keyboard_interrupt_lem ports m s h v =
    let k = characters_lem ports m h in
    let cs = (typed (map byte ports) m).0 in
    let e : (characters ports (shift_word m)).0 ≡ cs = ap (λ r. r.0) k.0 in
    let c = console_interrupt_lem cs s v k.1 in
    (
      subst (λ l. IsValid (console_interrupt l s)) (sym e) c.0,
      ap (λ l. editor (console_interrupt l s)) e ∙ c.1,
      ap (λ r. r.1) k.0,
    )
