-- ===== src/Trap/Killed.antt =====
-- A killed process does not go back to its program.
use systems_programming_a.Prelude.{
  ℕ, ◌%◌, ◌≡◌, ◌⊎◌, refl, sym, ◌∙◌, arith, Bool, true, false, not, ◌&&◌, ◌==◌, if◌then◌else◌, inl,
  inr, Bool-cases,
}
use systems_programming_a.Proc.{Trapframe}
use systems_programming_a.Trap.Defs.{
  Processor, TrapResult, returned, exited, panicked, null_pointer, Services, then_trap,
  current_is_killed, has_process, exit_if, dispatch, leave_killed, give_up, change_current,
  call_handler, call, trap, t_syscall,
}

pub then_trap-returned :
    (o : TrapResult) (f : Processor → TrapResult) (w' : Processor)
    → then_trap o f ≡ returned w'
    → (w : Processor) × (o ≡ returned w) × (f w ≡ returned w')
then_trap-returned (returned w) f w' e = (w, refl, e)
then_trap-returned (exited w) f w' e = absurd (cc)
then_trap-returned panicked f w' e = absurd (cc)
then_trap-returned null_pointer f w' e = absurd (cc)

pub exit_if-returned :
    (b : Bool) (w w' : Processor) → exit_if b w ≡ returned w' → (b ≡ false) × (w ≡ w')
exit_if-returned true w w' e = absurd (cc)
exit_if-returned false w w' e = (refl, cc)

leave_killed-returned :
    (tf : Trapframe) (w w' : Processor)
    → tf.cs % 4 ≡ 3
    → leave_killed tf w ≡ returned w'
    → current_is_killed w' ≡ false
unfolding leave_killed
leave_killed-returned tf w w' u e =
    let (n, s) = exit_if-returned (current_is_killed w && tf.cs % 4 == 3) w w' e in
    let k : current_is_killed w ≡ false = ground arith in rw (← s) k

exit_killed-returned :
    (w w' : Processor)
    → exit_if (current_is_killed w) w ≡ returned w'
    → current_is_killed w' ≡ false
exit_killed-returned w w' e =
    let (n, s) = exit_if-returned (current_is_killed w) w w' e in rw (← s) n

call_handler-returned :
    (k : Services) (tf : Trapframe) (w w' : Processor)
    → call_handler k tf w ≡ returned w'
    → current_is_killed w' ≡ false
unfolding call_handler
call_handler-returned k tf w w' e =
    let (w1, a, b) = then_trap-returned (exit_if (current_is_killed w) w) _ w' e in
    let (w2, c, d) =
      then_trap-returned (k.syscall (change_current (λ p. record p { trapframe = tf }) w1)) _ w'
        b in
    exit_killed-returned w2 w' d

pub call-process :
    (k : Services) (tf : Trapframe) (w : Processor)
    → call k tf w ≡ (if not (has_process w) then null_pointer else call_handler k tf w)
unfolding call
call-process k tf w = refl

call-returned :
    (k : Services) (tf : Trapframe) (w w' : Processor)
    → call k tf w ≡ returned w'
    → current_is_killed w' ≡ false
call-returned k tf w w' e = elim (Bool-cases (has_process w)) [
  | inl h ↦ call_handler-returned k tf w w' (rw h at (sym (call-process k tf w) ∙ e))
  | inr h ↦ absurd (cc (rw h at (sym (call-process k tf w) ∙ e)))
]

in_user :
    (trapno cs : ℕ)
    → (trapno ≡ t_syscall) ⊎ (cs % 4 ≡ 3)
    → (trapno == t_syscall) ≡ false
    → cs % 4 ≡ 3
in_user trapno cs u s = ground arith

-- When trap returns, from a system call or to code that runs with the privilege of a program, then
-- the current process is not killed, whatever the drivers and the system calls have done.
pub trap-not_killed :
    (k : Services) (trapno : ℕ) (tf : Trapframe) (w w' : Processor)
    → trap k trapno tf w ≡ returned w'
    → (trapno ≡ t_syscall) ⊎ (tf.cs % 4 ≡ 3)
    → current_is_killed w' ≡ false
unfolding trap
trap-not_killed k trapno tf w w' e u = elim (Bool-cases (trapno == t_syscall)) [
  | inl s ↦ call-returned k tf w w' (rw s at e)
  | inr s ↦
      let (w1, a, b) = then_trap-returned (dispatch k trapno tf w) _ w' (rw s at e) in
      let (w2, c, d) = then_trap-returned (leave_killed tf w1) _ w' b in
      leave_killed-returned tf (give_up k trapno w2) w' (in_user trapno tf.cs u s) d
]
