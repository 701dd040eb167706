-- ===== src/Shell/Tests.antt =====
-- Lines that are parsed, and the tokens' theorems at small lines.
use systems_programming_a.Prelude.{◌*◌, ◌≢◌, ℕ, ◌+◌, ◌≡◌, refl, [], ◌∷◌, length}
use systems_programming_a.Shell.Defs.{
  contains, skip_from, skip, word_from, word, scan_token, gettoken, peek,
}
use systems_programming_a.Shell.Parser.{
  execcmd, redircmd, out_of_fuel, pipecmd, backcmd, parsed, panic, parse, parseredirs, parseargs,
  parsebacks, redirect, parsecmd, nulterminate, cut_words,
}
use systems_programming_a.Shell.Fuel.{parsecmd_returns}

-- "a|b c>f&": a pipe whose right side writes to f, in the background
parse_pipe :
    parsecmd 40 (b'a' ∷ b'|' ∷ b'b' ∷ 32 ∷ b'c' ∷ b'>' ∷ b'f' ∷ b'&' ∷ [])
    ≡ parsed
        (
          backcmd (
              pipecmd (execcmd ((0, 1) ∷ [])) (
                redircmd
                  (execcmd ((2, 3) ∷ (4, 5) ∷ []))
                  (record { file = 6; efile = 7; mode = 0x201; fd = 1 }))),
          b'a' ∷ 0 ∷ b'b' ∷ 0 ∷ b'c' ∷ 0 ∷ b'f' ∷ 0 ∷ 0 ∷ [],
        )
        (record { offset = 8; rest = [] })
unfolding parsecmd parse parseredirs parseargs parsebacks redirect nulterminate cut_words gettoken
    peek scan_token skip skip_from word word_from contains
parse_pipe = refl

parsecmd_returns_example :
    parsecmd (4 * length {A = ℕ} (b'a' ∷ b'|' ∷ []) + 4) (b'a' ∷ b'|' ∷ []) ≢ out_of_fuel
parsecmd_returns_example = parsecmd_returns (b'a' ∷ b'|' ∷ [])

-- "(a"
missing_paren : parsecmd 40 (b'(' ∷ b'a' ∷ []) ≡ panic
unfolding parsecmd parse parseredirs parseargs parsebacks redirect nulterminate cut_words gettoken
    peek scan_token skip skip_from word word_from contains
missing_paren = refl
