-- ===== src/Console/Read.antt =====
-- consoleRead takes from the input buffer what a reader of the committed lines gets.
use systems_programming_a.Prelude.{
  ℕ, zero, suc, ◌+◌, ◌%◌, ◌^◌, ◌<◌, ◌≡◌, ◌≢◌, refl, ap, ◌∙◌, arith, true, List, [], ◌∷◌, ◌++◌, ◌==◌,
  ltb, Bool-cases, inl, inr,
}
use systems_programming_a.Pipe.{is_killed}
use systems_programming_a.Console.Defs.{
  Console, newline, ctrl_d, next, consume, put_back, console_read,
}
use systems_programming_a.Console.Editor.{read_lines}
use systems_programming_a.Console.Ring.{between, IsValid, between_self, between-cons}

-- What a read leaves behind.
pub record Reads (s s' : Console) (left : List ℕ) : Type 0 where
  pub valid : IsValid s'
  pub committed : between s'.buf s'.r s'.w ≡ left
  pub editing : between s'.buf s'.w s'.e ≡ between s.buf s.w s.e

consume-Reads :
    (s : Console)
    → IsValid s
    → s.r ≢ s.w
    → Reads s (consume s) (between s.buf ((s.r + 1) % 2 ^ 32) s.w)
consume-Reads s v ne = record {
  valid = record {
    r_fits = omega arith;
    w_fits = v.w_fits;
    e_fits = v.e_fits;
    ordered = omega arith;
    fits = omega arith;
    one_line = v.one_line;
  };
  committed = refl;
  editing = refl;
}

put_back-consume : (s : Console) → s.r < 2 ^ 32 → (put_back (consume s)).r ≡ s.r
put_back-consume s h = omega arith

put_back-Reads : (s : Console) → IsValid s → Reads s (put_back (consume s)) (between s.buf s.r s.w)
put_back-Reads s v =
    let e = put_back-consume s v.r_fits in
    record {
      valid = record {
        r_fits = omega arith;
        w_fits = v.w_fits;
        e_fits = v.e_fits;
        ordered = omega arith;
        fits = omega arith;
        one_line = v.one_line;
      };
      committed = ap (λ r. between s.buf r s.w) e;
      editing = refl;
    }

nothing_committed : (s : Console) → IsValid s → (s.r == s.w) ≡ true → between s.buf s.r s.w ≡ []
nothing_committed s v e =
    let same : s.w ≡ s.r = ground arith in
    ap (λ w. between s.buf s.r w) same ∙ between_self s.buf s.r v.r_fits

-- On an input buffer that keeps its invariant, a read of up to n more bytes after those got so far
-- ends as the read of the committed lines ends, and leaves what that leaves; the line that is being
-- typed is untouched and the invariant kept.
pub console_read_lem :
    (i target n : ℕ) (got : List ℕ) (s : Console)
    → IsValid s
    → let (s', o) = console_read i target n got s in
      let (left, o') = read_lines (is_killed i s.procs) target n got (between s.buf s.r s.w) in
      (o ≡ o') × Reads s s' left
unfolding console_read read_lines
console_read_lem i target zero got s v =
    (refl, record { valid = v; committed = refl; editing = refl })
console_read_lem i target (suc n) got s v = elim (Bool-cases (s.r == s.w)) [
  | inl e ↦
      let none_there = nothing_committed s v e in
      elim (Bool-cases (is_killed i s.procs)) [
        | inl k ↦
            rw (e, none_there, k)
              (refl, record { valid = v; committed = none_there; editing = refl })
        | inr k ↦
            rw (e, none_there, k)
              (
                refl,
                record {
                  valid = record {
                    r_fits = v.r_fits;
                    w_fits = v.w_fits;
                    e_fits = v.e_fits;
                    ordered = v.ordered;
                    fits = v.fits;
                    one_line = v.one_line;
                  };
                  committed = none_there;
                  editing = refl;
                },
              )
      ]
  | inr ne ↦
      let some_there = between-cons s.buf s.r s.w v.r_fits v.w_fits (ground arith) in
      let taken = consume-Reads s v (ground arith) in
      elim (Bool-cases (next s == ctrl_d)) [
        | inl d ↦ elim (Bool-cases (ltb (suc n) target)) [
          | inl some_got ↦
              let back = put_back-Reads s v in
              rw (ne, some_there, d, some_got)
                (
                  refl,
                  record {
                    valid = back.valid;
                    committed = back.committed ∙ some_there;
                    editing = back.editing;
                  },
                )
          | inr first ↦ rw (ne, some_there, d, first) (refl, taken)
        ]
        | inr d ↦ elim (Bool-cases (next s == newline)) [
          | inl l ↦ rw (ne, some_there, d, l) (refl, taken)
          | inr l ↦
              let rest =
                console_read_lem i target n (got ++ (next s ∷ [])) (consume s) taken.valid in
              rw (ne, some_there, d, l)
                (
                  rest.0,
                  record {
                    valid = rest.1.valid;
                    committed = rest.1.committed;
                    editing = rest.1.editing;
                  },
                )
        ]
      ]
]
