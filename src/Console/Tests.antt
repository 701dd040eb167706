-- ===== src/Console/Tests.antt =====
-- Runs of the line discipline, and the theorems at a concrete console.
use systems_programming_a.Prelude.{ℕ, ◌<◌, ◌≡◌, refl, arith, false, List, [], ◌∷◌, All}
use systems_programming_a.Proc.{wakeup}
use systems_programming_a.Pipe.{returned, is_killed}
use systems_programming_a.Console.Defs.{Console, console_interrupt, console_read}
use systems_programming_a.Console.Editor.{keys, read_lines}
use systems_programming_a.Console.Ring.{IsValid, between, window, editor}
use systems_programming_a.Console.Interrupt.{console_interrupt_lem}
use systems_programming_a.Console.Read.{Reads, console_read_lem}

-- Nothing held; the indices are about to wrap.
abbrev quiet : Console
quiet = record {
  buf = λ _. 0;
  r = 0xfffffffe;
  w = 0xfffffffe;
  e = 0xfffffffe;
  procs = [];
  channel = 0x2000;
  output = [];
  dump = false;
}

quiet-IsValid : IsValid quiet
unfolding between window
quiet-IsValid = record {
  r_fits = omega arith;
  w_fits = omega arith;
  e_fits = omega arith;
  ordered = omega arith;
  fits = omega arith;
  one_line = tt;
}

-- "ax", a backspace, "b", a carriage return, and "c"
abbrev typed : List ℕ
typed = b'a' ∷ b'x' ∷ 8 ∷ b'b' ∷ 13 ∷ b'c' ∷ []

typed-small : All (λ c. c < 256) typed
typed-small = omega arith

typed_line :
    editor (console_interrupt typed quiet)
    ≡ record { committed = b'a' ∷ b'b' ∷ 10 ∷ []; editing = b'c' ∷ [] }
unfolding console_interrupt between window wakeup
typed_line = refl

read_line :
    (console_read 0 9 9 [] (console_interrupt typed quiet)).1 ≡ returned (b'a' ∷ b'b' ∷ 10 ∷ [])
unfolding console_interrupt console_read between window wakeup
read_line = refl

console_interrupt_lem_example :
    IsValid (console_interrupt typed quiet)
    × (editor (console_interrupt typed quiet) ≡ keys typed (editor quiet))
console_interrupt_lem_example = console_interrupt_lem typed quiet quiet-IsValid typed-small

console_read_lem_example :
    let (s', o) = console_read 0 4 4 [] quiet in
    let (left, o') =
      read_lines (is_killed 0 quiet.procs) 4 4 [] (between quiet.buf quiet.r quiet.w) in
    (o ≡ o') × Reads quiet s' left
console_read_lem_example = console_read_lem 0 4 4 [] quiet quiet-IsValid
