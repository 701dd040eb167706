-- ===== src/Console/Interrupt.antt =====
-- consoleInterrupt does to the input buffer what the keys do to the line editor.
use systems_programming_a.Prelude.{
  ℕ, ◌+◌, ◌%◌, ◌<◌, ◌≡◌, refl, ap, ◌∙◌, sym, arith, true, false, not, ◌&&◌, ◌||◌, List, [], ◌∷◌,
  ◌++◌, ◌==◌, if◌then◌else◌, ltb, All, Bool-cases, inl, inr,
}
use systems_programming_a.Console.Defs.{
  Console, input_buf, newline, ctrl_d, ctrl_p, ctrl_u, ctrl_h, delete, translate, erase,
  editing_size, insert, commit, ends_line, accept, handle, console_interrupt,
}
use systems_programming_a.Console.Editor.{Editor, drop_last, drop_last, size, type_char, key, keys}
use systems_programming_a.Console.Ring.{gap, between, IsValid, editor, between_self}
use systems_programming_a.Console.Actions.{
  Does, erase-Does, kill_line-Does, insert-Does, commit-Does, insert-indices, size-editor,
}

-- The two tests of the default case, on the buffer and on the editor.
accept-room :
    (c : ℕ) (s : Console)
    → IsValid s
    → (not (c == 0) && ltb (size (editor s)) input_buf)
      ≡ (not (c == 0) && ltb (gap s.r s.e) input_buf)
accept-room c s v = rw (size-editor s v)

accept-ends :
    (c : ℕ) (s : Console)
    → IsValid s
    → gap s.r s.e < input_buf
    → ends_line c (insert c s) ≡ (c == newline || c == ctrl_d || size (editor s) + 1 == input_buf)
accept-ends c s v g = let (e, r) = insert-indices c s in rw (e, r, size-editor s v) (ground arith)

translate-lt : (c : ℕ) → c < 256 → translate c < 256
translate-lt c h = ground arith

module _ (c : ℕ) (s : Console) where
  accept-full : (not (c == 0) && ltb (gap s.r s.e) input_buf) ≡ false → accept c s ≡ s
  unfolding accept
  accept-full h = rw h

  module _ (room : (not (c == 0) && ltb (gap s.r s.e) input_buf) ≡ true) where
    accept-line :
        ends_line (translate c) (insert (translate c) s) ≡ true
        → accept c s ≡ commit (insert (translate c) s)
    unfolding accept
    accept-line e = rw (room, e)

    accept-more :
        ends_line (translate c) (insert (translate c) s) ≡ false
        → accept c s ≡ insert (translate c) s
    unfolding accept
    accept-more e = rw (room, e)

module _ (c : ℕ) (t : Editor) where
  type_char-full : (not (c == 0) && ltb (size t) input_buf) ≡ false → type_char c t ≡ t
  unfolding type_char
  type_char-full h = rw h

  module _ (room : (not (c == 0) && ltb (size t) input_buf) ≡ true) where
    type_char-line :
        (translate c == newline || translate c == ctrl_d || size t + 1 == input_buf) ≡ true
        → type_char c t ≡ record {
          committed = t.committed ++ (t.editing ++ ((translate c % 256) ∷ []));
          editing = [];
        }
    unfolding type_char
    type_char-line e = rw (room, e)

    type_char-more :
        (translate c == newline || translate c == ctrl_d || size t + 1 == input_buf) ≡ false
        → type_char c t ≡ record t { editing = t.editing ++ ((translate c % 256) ∷ []) }
    unfolding type_char
    type_char-more e = rw (room, e)

accept-Does :
    (c : ℕ) (s : Console) → IsValid s → c < 256 → Does (accept c s) (type_char c (editor s))
accept-Does c s v h = elim (Bool-cases (not (c == 0) && ltb (gap s.r s.e) input_buf)) [
  | inr full ↦
      rw (accept-full c s full, type_char-full c (editor s) (accept-room c s v ∙ full))
        (record { valid = v; same = refl })
  | inl room ↦
      let g : gap s.r s.e < input_buf = ground arith in
      let ends = accept-ends (translate c) s v g in
      let small = translate-lt c h in
      elim (Bool-cases (ends_line (translate c) (insert (translate c) s))) [
        | inl e ↦
            rw
              (
                accept-line c s room e,
                type_char-line c (editor s) (accept-room c s v ∙ room) (sym ends ∙ e),
              )
              (commit-Does (translate c) s v g)
        | inr e ↦
            rw
              (
                accept-more c s room e,
                type_char-more c (editor s) (accept-room c s v ∙ room) (sym ends ∙ e),
              )
              (insert-Does (translate c) s v g (ground arith))
      ]
]

backspace-Does :
    (s : Console)
    → IsValid s
    → Does
        (if not (s.e == s.w) then erase s else s)
        (record { committed = between s.buf s.r s.w; editing = drop_last (between s.buf s.w s.e) })
unfolding drop_last
backspace-Does s v = elim (Bool-cases (s.e == s.w)) [
  | inl e ↦
      let at_start : s.e ≡ s.w = ground arith in
      let none_typed : between s.buf s.w s.e ≡ [] =
        ap (λ e. between s.buf s.w e) at_start ∙ between_self s.buf s.w v.w_fits in
      rw (e, none_typed) (record { valid = v; same = rw none_typed })
  | inr ne ↦ rw ne (erase-Does s v (ground arith))
]

handle-Does : (c : ℕ) (s : Console) → IsValid s → c < 256 → Does (handle c s) (key c (editor s))
unfolding handle key
handle-Does c s v h = elim (Bool-cases (c == ctrl_p)) [
  | inl p ↦ rw p (record {
    valid = record {
      r_fits = v.r_fits;
      w_fits = v.w_fits;
      e_fits = v.e_fits;
      ordered = v.ordered;
      fits = v.fits;
      one_line = v.one_line;
    };
    same = refl;
  })
  | inr p ↦ elim (Bool-cases (c == ctrl_u)) [
    | inl u ↦ rw (p, u) (kill_line-Does (editing_size s) s v refl)
    | inr u ↦ elim (Bool-cases (c == ctrl_h || c == delete)) [
      | inl b ↦ rw (p, u, b) (backspace-Does s v)
      | inr b ↦ rw (p, u, b) (accept-Does c s v h)
    ]
  ]
]

-- From an input buffer that keeps its invariant (its indices in order, at most 128 bytes held, no
-- newline on the line being typed), whatever characters come in, each below 256: the invariant is
-- kept, and the committed lines and the line being typed become those of the line editor given the
-- same keys.
pub console_interrupt_lem :
    (cs : List ℕ) (s : Console)
    → IsValid s
    → All (λ c. c < 256) cs
    → IsValid (console_interrupt cs s) × (editor (console_interrupt cs s) ≡ keys cs (editor s))
unfolding console_interrupt keys
console_interrupt_lem [] s v h = (v, refl)
console_interrupt_lem (c ∷ cs) s v h =
    let d = handle-Does c s v h.0 in
    let r = console_interrupt_lem cs (handle c s) d.valid h.1 in
    (r.0, r.1 ∙ ap (λ t. keys cs t) d.same)
