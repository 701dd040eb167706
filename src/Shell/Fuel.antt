-- ===== src/Shell/Fuel.antt =====
-- The fuel of the parser is enough.
use systems_programming_a.Prelude.{
  ℕ, zero, suc, ◌+◌, ◌*◌, ◌<◌, ◌≤◌, ◌≡◌, ◌≢◌, refl, arith, Bool, true, false, not, ◌||◌, List, [],
  ◌∷◌, ◌++◌, ◌==◌, leb, length, Bool-cases, inl, inr,
}
use systems_programming_a.Shell.Defs.{Cursor, gettoken, peek}
use systems_programming_a.Shell.Parser.{
  Redirection, Cmd, Parsed, parsed, panic, out_of_fuel, then_parse, max_args, add_redirection,
  parseredirs, parseargs, parsebacks, Level, parseline, parsepipe, parseblock, parseexec, parse,
  parsecmd, nulterminate, backcmd, redirect, pipecmd, listcmd,
}
use systems_programming_a.Shell.Shrink.{left, gettoken-left, gettoken-kind, peek-left, peek-takes}

-- A parser has not run out of fuel, and it leaves at most `n` characters.
pub data Settled {A : Type 0} (n : ℕ) : Parsed A → Type 0 where
  at_cursor : (a : A) (s : Cursor) → left s ≤ n → Settled n (parsed a s)
  at_panic : Settled n panic

Settled-le : {A : Type 0} (m n : ℕ) (r : Parsed A) → m ≤ n → Settled m r → Settled n r
Settled-le m n r h (at_cursor a s l) = at_cursor a s (omega arith)
Settled-le m n r h at_panic = at_panic

Settled-then_parse :
    {A B : Type 0} (m n : ℕ) (r : Parsed A) (f : A → Cursor → Parsed B)
    → Settled m r
    → ((a : A) (s : Cursor) → left s ≤ m → Settled n (f a s))
    → Settled n (then_parse r f)
Settled-then_parse m n r f (at_cursor a s l) k = k a s l
Settled-then_parse m n r f at_panic k = at_panic

Settled-elim :
    {A : Type 0} (n : ℕ) (b : Bool) (x y : Parsed A)
    → (b ≡ false → Settled n x)
    → (b ≡ true → Settled n y)
    → Settled n (elim b [ false ↦ x | true ↦ y ])
Settled-elim n false x y f t = f refl
Settled-elim n true x y f t = t refl

parseredirs-Settled :
    (fuel : ℕ) (rs : List Redirection) (s : Cursor)
    → left s < fuel
    → Settled (left s) (parseredirs fuel rs s)
unfolding parseredirs
parseredirs-Settled zero rs s h = absurd (omega arith)
parseredirs-Settled (suc fuel) rs s h =
    let toks : List ℕ = b'<' ∷ b'>' ∷ [] in
    let tok = gettoken (peek s toks).0 in
    let w = gettoken tok.after in
    elim (Bool-cases (peek s toks).1) [
      | inr e ↦ rw (parseredirs, e) (at_cursor rs (peek s toks).0 (peek-left s toks))
      | inl e ↦
          let l : left w.after < left s =
            omega (arith, peek-takes s toks e, gettoken-left tok.after) in
          elim (Bool-cases (w.kind == b'a')) [
            | inr k ↦ rw (parseredirs, e, k) at_panic
            | inl k ↦
                rw (parseredirs, e, k)
                  (Settled-le (left w.after) (left s) _ (omega arith)
                    (parseredirs-Settled fuel (add_redirection tok w rs) w.after (omega arith)))
          ]
    ]

parsebacks-Settled :
    (fuel : ℕ) (cmd : Cmd) (s : Cursor) → left s < fuel → Settled (left s) (parsebacks fuel cmd s)
unfolding parsebacks
parsebacks-Settled zero cmd s h = absurd (omega arith)
parsebacks-Settled (suc fuel) cmd s h =
    let toks : List ℕ = b'&' ∷ [] in
    let tok = gettoken (peek s toks).0 in
    elim (Bool-cases (peek s toks).1) [
      | inr e ↦ rw (parsebacks, e) (at_cursor cmd (peek s toks).0 (peek-left s toks))
      | inl e ↦
          let l = peek-takes s toks e in
          rw (parsebacks, e)
            (Settled-le (left tok.after) (left s) _ (omega arith)
              (parsebacks-Settled fuel (backcmd cmd) tok.after (omega arith)))
    ]

parseargs-Settled :
    (fuel : ℕ) (argv : List (ℕ × ℕ)) (rs : List Redirection) (s : Cursor)
    → left s < fuel
    → Settled (left s) (parseargs fuel argv rs s)
unfolding parseargs
parseargs-Settled zero argv rs s h = absurd (omega arith)
parseargs-Settled (suc fuel) argv rs s h =
    let toks : List ℕ = b'|' ∷ b')' ∷ b'&' ∷ b';' ∷ [] in
    let s1 = (peek s toks).0 in
    let tok = gettoken s1 in
    let argv' = argv ++ ((tok.q, tok.eq) ∷ []) in
    let p = peek-left s toks in
    elim (Bool-cases (peek s toks).1) [
      | inl e ↦ rw (parseargs, e) (at_cursor _ s1 p)
      | inr e ↦ elim (Bool-cases (tok.kind == 0)) [
        | inl k ↦ rw (parseargs, e, k) (at_cursor _ tok.after (omega (arith, gettoken-left s1)))
        | inr k ↦
            let l : left tok.after < left s = omega (arith, gettoken-kind s1 k) in
            elim (Bool-cases (not (tok.kind == b'a') || leb max_args (length argv'))) [
              | inl b ↦ rw (parseargs, e, k, b) at_panic
              | inr b ↦
                  rw (parseargs, e, k, b)
                    (Settled-then_parse (left tok.after) (left s) _ _
                      (parseredirs-Settled fuel rs tok.after (omega arith))
                      (λ rs' s2 m.
                        Settled-le (left s2) (left s) _ (omega arith)
                          (parseargs-Settled fuel argv' rs' s2 (omega arith))))
            ]
      ]
    ]

-- What a level may call before a character is taken.
pub weight : Level → ℕ
weight parseline = 3
weight parsepipe = 2
weight parseexec = 1
weight parseblock = 0

parse-Settled :
    (fuel : ℕ) (level : Level) (s : Cursor)
    → 4 * left s + weight level < fuel
    → Settled (left s) (parse fuel level s)
unfolding parse weight
parse-Settled zero level s h = absurd (omega arith)
parse-Settled (suc fuel) parseline s h =
    Settled-then_parse (left s) (left s) _ _ (parse-Settled fuel parsepipe s (omega arith))
      (λ cmd s1 l.
        Settled-then_parse (left s1) (left s) _ _ (parsebacks-Settled fuel cmd s1 (omega arith))
          (λ cmd' s2 m.
            let toks : List ℕ = b';' ∷ [] in
            let s3 = (peek s2 toks).0 in
            Settled-elim (left s) (peek s2 toks).1 _ _
              (λ e. at_cursor cmd' s3 (omega (arith, peek-left s2 toks)))
              (λ e.
                let t = peek-takes s2 toks e in
                Settled-then_parse (left (gettoken s3).after) (left s) _ _
                  (parse-Settled fuel parseline (gettoken s3).after (omega arith))
                  (λ right s4 r. at_cursor (listcmd cmd' right) s4 (omega arith)))))
parse-Settled (suc fuel) parsepipe s h =
    Settled-then_parse (left s) (left s) _ _ (parse-Settled fuel parseexec s (omega arith))
      (λ cmd s1 l.
        let toks : List ℕ = b'|' ∷ [] in
        let s2 = (peek s1 toks).0 in
        Settled-elim (left s) (peek s1 toks).1 _ _
          (λ e. at_cursor cmd s2 (omega (arith, peek-left s1 toks)))
          (λ e.
            let t = peek-takes s1 toks e in
            Settled-then_parse (left (gettoken s2).after) (left s) _ _
              (parse-Settled fuel parsepipe (gettoken s2).after (omega arith))
              (λ right s3 r. at_cursor (pipecmd cmd right) s3 (omega arith))))
parse-Settled (suc fuel) parseblock s h =
    let toks : List ℕ = b'(' ∷ [] in
    let s1 = (peek s toks).0 in
    Settled-elim (left s) (peek s toks).1 _ _ (λ e. at_panic)
      (λ e.
        let t = peek-takes s toks e in
        Settled-then_parse (left (gettoken s1).after) (left s) _ _
          (parse-Settled fuel parseline (gettoken s1).after (omega arith))
          (λ cmd s2 l.
            let close : List ℕ = b')' ∷ [] in
            let s3 = (peek s2 close).0 in
            Settled-elim (left s) (peek s2 close).1 _ _ (λ f. at_panic)
              (λ f.
                let u = peek-takes s2 close f in
                Settled-then_parse (left (gettoken s3).after) (left s) _ _
                  (parseredirs-Settled fuel [] (gettoken s3).after (omega arith))
                  (λ rs s4 m. at_cursor (redirect rs cmd) s4 (omega arith)))))
parse-Settled (suc fuel) parseexec s h =
    let toks : List ℕ = b'(' ∷ [] in
    let s1 = (peek s toks).0 in
    let p = peek-left s toks in
    elim (Bool-cases (peek s toks).1) [
      | inl e ↦
          rw (parse, e)
            (Settled-le (left s1) (left s) _ p (parse-Settled fuel parseblock s1 (omega arith)))
      | inr e ↦
          rw (parse, e)
            (Settled-then_parse (left s1) (left s) _ _
              (parseredirs-Settled fuel [] s1 (omega arith))
              (λ rs s2 m.
                Settled-le (left s2) (left s) _ (omega arith)
                  (parseargs-Settled fuel [] rs s2 (omega arith))))
    ]

Settled-returns : {A : Type 0} (n : ℕ) (r : Parsed A) → Settled n r → r ≢ out_of_fuel
Settled-returns n r (at_cursor a s l) = λ e. cc
Settled-returns n r at_panic = λ e. cc

Settled-rest :
    {A : Type 0} (n : ℕ) (rest : List ℕ) (x : Parsed A)
    → Settled n x
    → Settled n (elim rest [ c ∷ cs ↦ panic | [] ↦ x ])
Settled-rest n [] x h = h
Settled-rest n (c ∷ cs) x h = at_panic

-- parsecmd of any line, with four rounds of fuel for each of its characters and four more, does not
-- run out of fuel: it returns a command or panics.
pub parsecmd_returns : (line : List ℕ) → parsecmd (4 * length line + 4) line ≢ out_of_fuel
unfolding parsecmd weight
parsecmd_returns line =
    let start : Cursor = record { offset = 0; rest = line } in
    Settled-returns (length line) (parsecmd (4 * length line + 4) line) (
      Settled-then_parse (length line) (length line) _ _
        (parse-Settled (4 * length line + 4) parseline start (omega arith))
        (λ cmd s l. Settled-rest (length line) (peek s []).0.rest _ (
          at_cursor (cmd, nulterminate cmd (line ++ (0 ∷ []))) (peek s []).0
            (omega (arith, peek-left s [])))))
