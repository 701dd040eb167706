-- ===== src/Shell/Parser.antt =====
-- parsecmd and the functions that it calls, of UoDOS/sh.c. A word of the line is a pair of offsets,
-- where it starts and where it ends, as the pointers argv and eargv are.
use systems_programming_a.Prelude.{
  ℕ, zero, suc, true, false, not, ◌||◌, List, [], ◌∷◌, ◌++◌, ◌==◌, leb, if◌then◌else◌, length, set,
}
use systems_programming_a.Shell.Defs.{Cursor, Token, gettoken, peek}

-- struct redircmd without the command that it redirects.
pub record Redirection : Type 0 where
  pub file : ℕ
  pub efile : ℕ
  pub mode : ℕ
  pub fd : ℕ

-- The five structures of commands.
pub data Cmd : Type 0 where
  execcmd : (argv : List (ℕ × ℕ)) → Cmd
  redircmd : (cmd : Cmd) (r : Redirection) → Cmd
  pipecmd listcmd : (left right : Cmd) → Cmd
  backcmd : (cmd : Cmd) → Cmd

-- A parsed value with the cursor after it; a panic, which ends the shell; or the fuel is used up.
pub data Parsed (A : Type 0) : Type 0 where
  parsed : (value : A) (s : Cursor) → Parsed A
  panic : Parsed A
  out_of_fuel : Parsed A

abbrev pub then_parse : {A B : Type 0} → Parsed A → (A → Cursor → Parsed B) → Parsed B
then_parse (parsed a s) f = f a s
then_parse panic f = panic
then_parse out_of_fuel f = out_of_fuel

-- MAXARGS
abbrev pub max_args : ℕ
max_args = 10

-- The switch of parseredirs: O_RDONLY is 0, O_WRONLY | O_CREATE is 0x201.
abbrev pub add_redirection : Token → Token → List Redirection → List Redirection
add_redirection tok w rs =
    if tok.kind == b'<'
    then rs ++ (record { file = w.q; efile = w.eq; mode = 0; fd = 0 } ∷ [])
    else if tok.kind == b'>' || tok.kind == b'+'
    then rs ++ (record { file = w.q; efile = w.eq; mode = 0x201; fd = 1 } ∷ [])
    else rs

-- parseredirs: the redirections so far and those that follow, the innermost first.
unfoldable pub parseredirs : ℕ → List Redirection → Cursor → Parsed (List Redirection)
parseredirs zero rs s = out_of_fuel
parseredirs (suc fuel) rs s =
    let (s1, found) = peek s (b'<' ∷ b'>' ∷ []) in
    let tok = gettoken s1 in
    let w = gettoken tok.after in
    elim found [
      | false ↦ parsed rs s1
      | true ↦ elim (w.kind == b'a') [
        | false ↦ panic
        | true ↦ parseredirs fuel (add_redirection tok w rs) w.after
      ]
    ]

-- The command inside its redirections.
unfoldable pub redirect : List Redirection → Cmd → Cmd
redirect [] cmd = cmd
redirect (r ∷ rs) cmd = redirect rs (redircmd cmd r)

-- The loop of parseexec. Words that come after a redirection still go into the innermost command.
unfoldable pub parseargs : ℕ → List (ℕ × ℕ) → List Redirection → Cursor → Parsed Cmd
unfolding parseredirs redirect
parseargs zero argv rs s = out_of_fuel
parseargs (suc fuel) argv rs s =
    let (s1, stop) = peek s (b'|' ∷ b')' ∷ b'&' ∷ b';' ∷ []) in
    let tok = gettoken s1 in
    let argv' = argv ++ ((tok.q, tok.eq) ∷ []) in
    elim stop [
      | true ↦ parsed (redirect rs (execcmd argv)) s1
      | false ↦ elim (tok.kind == 0) [
        | true ↦ parsed (redirect rs (execcmd argv)) tok.after
        | false ↦ elim (not (tok.kind == b'a') || leb max_args (length argv')) [
          | true ↦ panic
          | false ↦
              then_parse (parseredirs fuel rs tok.after) (λ rs' s2. parseargs fuel argv' rs' s2)
        ]
      ]
    ]

-- `while (peek(ps, es, "&")) { gettoken(ps, es, 0, 0); cmd = backcmd(cmd); }`
unfoldable pub parsebacks : ℕ → Cmd → Cursor → Parsed Cmd
parsebacks zero cmd s = out_of_fuel
parsebacks (suc fuel) cmd s =
    let (s1, found) = peek s (b'&' ∷ []) in
    elim found [ false ↦ parsed cmd s1 | true ↦ parsebacks fuel (backcmd cmd) (gettoken s1).after ]

-- Which of the functions that call each other.
pub data Level : Type 0 where
  parseline parsepipe parseblock parseexec : Level

unfoldable pub parse : ℕ → Level → Cursor → Parsed Cmd
unfolding parseargs parsebacks parseredirs redirect
parse zero level s = out_of_fuel
parse (suc fuel) parseline s = then_parse (parse fuel parsepipe s) (λ cmd s1.
    then_parse (parsebacks fuel cmd s1) (λ cmd' s2.
      let (s3, found) = peek s2 (b';' ∷ []) in
      elim found [
        | false ↦ parsed cmd' s3
        | true ↦
            then_parse (parse fuel parseline (gettoken s3).after)
              (λ right s4. parsed (listcmd cmd' right) s4)
      ]))
parse (suc fuel) parsepipe s = then_parse (parse fuel parseexec s) (λ cmd s1.
    let (s2, found) = peek s1 (b'|' ∷ []) in
    elim found [
      | false ↦ parsed cmd s2
      | true ↦
          then_parse (parse fuel parsepipe (gettoken s2).after)
            (λ right s3. parsed (pipecmd cmd right) s3)
    ])
parse (suc fuel) parseblock s =
    let (s1, found) = peek s (b'(' ∷ []) in
    elim found [
      | false ↦ panic
      | true ↦ then_parse (parse fuel parseline (gettoken s1).after) (λ cmd s2.
          let (s3, closed) = peek s2 (b')' ∷ []) in
          elim closed [
            | false ↦ panic
            | true ↦
                then_parse (parseredirs fuel [] (gettoken s3).after)
                  (λ rs s4. parsed (redirect rs cmd) s4)
          ])
    ]
parse (suc fuel) parseexec s =
    let (s1, found) = peek s (b'(' ∷ []) in
    elim found [
      | true ↦ parse fuel parseblock s1
      | false ↦ then_parse (parseredirs fuel [] s1) (λ rs s2. parseargs fuel [] rs s2)
    ]

unfoldable pub cut_words : List (ℕ × ℕ) → List ℕ → List ℕ
cut_words [] buf = buf
cut_words (w ∷ ws) buf = cut_words ws (set buf w.1 0)

-- nulterminate: the buffer of the line with a terminator at the end of every word.
unfoldable pub nulterminate : Cmd → List ℕ → List ℕ
unfolding cut_words
nulterminate (execcmd argv) buf = cut_words argv buf
nulterminate (redircmd cmd r) buf = set (nulterminate cmd buf) r.efile 0
nulterminate (pipecmd left right) buf = nulterminate right (nulterminate left buf)
nulterminate (listcmd left right) buf = nulterminate right (nulterminate left buf)
nulterminate (backcmd cmd) buf = nulterminate cmd buf

-- parsecmd of a line, given without its terminator: the command, and the line's buffer after it.
unfoldable pub parsecmd : ℕ → List ℕ → Parsed (Cmd × List ℕ)
unfolding parse nulterminate
parsecmd fuel line =
    then_parse (parse fuel parseline (record { offset = 0; rest = line })) (λ cmd s.
      let (s1, found) = peek s [] in
      elim s1.rest [ c ∷ cs ↦ panic | [] ↦ parsed (cmd, nulterminate cmd (line ++ (0 ∷ []))) s1 ])
