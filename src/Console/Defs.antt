-- ===== src/Console/Defs.antt =====
-- The input buffer of UoDOS/console.c, consoleInterrupt, consoleRead and consoleWrite.
-- Each runs under the console's lock; a read that sleeps is continued by another function.
use systems_programming_a.Prelude.{
  ℕ, zero, suc, ◌+◌, ◌-◌, ◌%◌, ◌^◌, Bool, true, not, ◌&&◌, ◌||◌, List, [], ◌∷◌, ◌++◌, map, ◌==◌,
  if◌then◌else◌, ltb, update,
}
use systems_programming_a.Proc.{Table, wakeup, sleep, tidy_up}
use systems_programming_a.Pipe.{Outcome, returned, failed, asleep, is_killed}

abbrev pub input_buf : ℕ
input_buf = 128

-- `BACKSPACE`, and the characters that the driver treats apart
abbrev pub backspace : ℕ
backspace = 0x100

abbrev pub ctrl_d : ℕ
ctrl_d = 4

abbrev pub ctrl_h : ℕ
ctrl_h = 8

abbrev pub newline : ℕ
newline = 10

abbrev pub carriage_return : ℕ
carriage_return = 13

abbrev pub ctrl_p : ℕ
ctrl_p = 16

abbrev pub ctrl_u : ℕ
ctrl_u = 21

abbrev pub delete : ℕ
delete = 0x7f

-- The global `input`, with its three uint32_t indices; the process table; the address of `input.r`,
-- on which readers sleep; what has been given to consputc; and whether the interrupt asked for the
-- process listing, which processDump prints.
pub record Console : Type 0 where
  pub buf : ℕ → ℕ
  pub r : ℕ
  pub w : ℕ
  pub e : ℕ
  pub procs : Table
  pub channel : ℕ
  pub output : List ℕ
  pub dump : Bool

abbrev pub consputc : ℕ → Console → Console
consputc c s = record s { output = s.output ++ (c ∷ []) }

-- `input.e--; consputc(BACKSPACE);`
unfoldable pub erase : Console → Console
erase s = consputc backspace (record s { e = (s.e + 2 ^ 32 - 1) % 2 ^ 32 })

-- `input.buf[(input.e - 1) % INPUT_BUF]`
abbrev pub last : Console → ℕ
last s = s.buf ((s.e + 2 ^ 32 - 1) % 2 ^ 32 % input_buf)

-- input.e - input.w, which bounds the rounds of the loop that kills a line
abbrev pub editing_size : Console → ℕ
editing_size s = (s.e + 2 ^ 32 - s.w) % 2 ^ 32

unfoldable pub kill_line : ℕ → Console → Console
unfolding erase
kill_line zero s = s
kill_line (suc fuel) s =
    let rest = kill_line fuel (erase s) in
    if not (s.e == s.w) && not (last s == newline) then rest else s

-- `c = (c == '\r') ? '\n' : c;`
abbrev pub translate : ℕ → ℕ
translate c = if c == carriage_return then newline else c

-- `input.buf[input.e++ % INPUT_BUF] = c; consputc(c);` The buffer holds bytes.
unfoldable pub insert : ℕ → Console → Console
insert c s =
    consputc c (record s { buf = update s.buf (s.e % input_buf) (c % 256); e = (s.e + 1) % 2 ^ 32 })

-- `input.w = input.e; wakeup(&input.r);`
unfoldable pub commit : Console → Console
commit s = record s { w = s.e; procs = wakeup s.channel s.procs }

abbrev pub ends_line : ℕ → Console → Bool
ends_line c s = c == newline || c == ctrl_d || s.e == (s.r + input_buf) % 2 ^ 32

-- The default case of the switch.
unfoldable pub accept : ℕ → Console → Console
unfolding insert commit
accept c s =
    if not (c == 0) && ltb ((s.e + 2 ^ 32 - s.r) % 2 ^ 32) input_buf
    then (let s' = insert (translate c) s in if ends_line (translate c) s' then commit s' else s')
    else s

-- One character from the device.
unfoldable pub handle : ℕ → Console → Console
unfolding kill_line erase accept
handle c s =
    if c == ctrl_p
    then record s { dump = true }
    else if c == ctrl_u
    then kill_line (editing_size s) s
    else if c == ctrl_h || c == delete
    then (if not (s.e == s.w) then erase s else s)
    else accept c s

-- consoleInterrupt, for the characters that getc returns before a negative number.
unfoldable pub console_interrupt : List ℕ → Console → Console
unfolding handle
console_interrupt [] s = s
console_interrupt (c ∷ cs) s = console_interrupt cs (handle c s)

-- `input.buf[input.r % INPUT_BUF]`, and `input.r++`
abbrev pub next : Console → ℕ
next s = s.buf (s.r % input_buf)

abbrev pub consume : Console → Console
consume s = record s { r = (s.r + 1) % 2 ^ 32 }

-- `input.r--`
abbrev pub put_back : Console → Console
put_back s = record s { r = (s.r + 2 ^ 32 - 1) % 2 ^ 32 }

-- consoleRead by the process in slot `i`, with `n` of the `target` bytes to go and `got` stored so
-- far. A call that sleeps has those two left.
unfoldable pub console_read : ℕ → ℕ → ℕ → List ℕ → Console → Console × Outcome (List ℕ) (ℕ × List ℕ)
unfolding is_killed
console_read i target zero got s = (s, returned got)
console_read i target (suc n) got s =
    let c = next s in
    let rest = console_read i target n (got ++ (c ∷ [])) (consume s) in
    if s.r == s.w
    then (if is_killed i s.procs
        then (s, failed)
        else (record s { procs = sleep i s.channel s.procs }, asleep (suc n, got)))
    else if c == ctrl_d
    then (if ltb (suc n) target then put_back (consume s) else consume s, returned got)
    else if c == newline
    then (consume s, returned (got ++ (c ∷ [])))
    else rest

unfoldable pub console_read_again :
    ℕ → ℕ → ℕ → List ℕ → Console → Console × Outcome (List ℕ) (ℕ × List ℕ)
unfolding console_read
console_read_again i target n got s =
    console_read i target n got (record s { procs = tidy_up i s.procs })

-- consoleWrite
unfoldable pub console_write : List ℕ → Console → Console
console_write bytes s = record s { output = s.output ++ map (λ b. b % 256) bytes }
