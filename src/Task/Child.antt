-- ===== src/Task/Child.antt =====
-- growProcess at its end.
use systems_programming_a.Prelude.{
  ℕ, ◌+◌, ◌-◌, ◌%◌, ◌^◌, ◌<◌, ◌≤◌, ◌≡◌, refl, arith, false, some, ◌==◌, ltb, get_elem?,
}
use systems_programming_a.Kalloc.{KernelMemory}
use systems_programming_a.Proc.{Process}
use systems_programming_a.Vm.{returned, release_user_pages}
use systems_programming_a.Task.Machine.{Machine, completed, in_kernel}
use systems_programming_a.Task.Create.{grow_process}

-- Shrinking a process in slot i by the whole of its size, which is not 0 and at most 2^31, when the
-- release of its pages returns: growProcess fails, although the pages are released, and the process
-- keeps the size that it had.
pub grow_process-to_zero :
    (kernel_end i : ℕ) (m : Machine) (p : Process) (s : KernelMemory)
    → get_elem? m.processes i ≡ some p
    → 0 < p.memory_size
    → p.memory_size ≤ 2 ^ 31
    → release_user_pages kernel_end p.page_table p.memory_size 0 m.kernel ≡ returned s 0
    → grow_process kernel_end i (2 ^ 32 - p.memory_size) m
      ≡ completed (record m { kernel = s }) false
unfolding grow_process
grow_process-to_zero kernel_end i m p s e z l r =
    let n : (2 ^ 32 - p.memory_size == 0) ≡ false = ground arith in
    let b : ltb (2 ^ 32 - p.memory_size) (2 ^ 31) ≡ false = ground arith in
    let t : (p.memory_size + (2 ^ 32 - p.memory_size)) % 2 ^ 32 ≡ 0 = omega (arith, l) in
    rw (e, n, b, t, in_kernel, r) refl
