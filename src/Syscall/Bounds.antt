-- ===== src/Syscall/Bounds.antt =====
-- What the arguments of a system call can point to.
use systems_programming_a.Prelude.{
  ℕ, zero, suc, ◌+◌, ◌-◌, ◌^◌, ◌≤◌, ◌<◌, ◌≡◌, ◌≢◌, arith, some, leb, ◌==◌, Memory, Option-cases,
  Bool-cases, inl, inr,
}
use systems_programming_a.Proc.{Process}
use systems_programming_a.Syscall.Defs.{scan, fetchstr, argint, argptr, argstr}

-- argptr of a block of `size` bytes, in a process whose memory ends below the kernel's half of the
-- address space: a pointer that it accepts is the argument's word, and the whole block lies in the
-- process's memory.
pub argptr_lem :
    (p : Process) (m : Memory) (n size i : ℕ)
    → p.memory_size ≤ 2 ^ 31
    → argptr p m n size ≡ some i
    → (argint p m n ≡ some i) × (size < 2 ^ 31) × (i + size ≤ p.memory_size)
unfolding argptr
argptr_lem p m n size i h e = elim (Option-cases (argint p m n)) [
  | inl f ↦ ground arith
  | inr (k, f) ↦ ground arith
]

scan_lem :
    (m : Memory) (s n k : ℕ)
    → scan m s n ≡ some k
    → (m (s + k) ≡ 0) × (k < n) × ((j : ℕ) → j < k → m (s + j) ≢ 0)
unfolding scan
scan_lem m s zero k e = cc
scan_lem m s (suc n) k e = elim (Bool-cases (m s == 0)) [
  | inl z ↦ ground arith
  | inr nz ↦ elim (Option-cases (scan m (s + 1) n)) [
    | inl f ↦ ground arith
    | inr (l, f) ↦
        let (u, v, w) = scan_lem m (s + 1) n l f in
        let q : k ≡ l + 1 = ground arith in
        (ground arith, ground arith, λ j lt. ground (arith, w (j - 1)))
  ]
]

-- argstr: a string that it accepts is the argument's word and the distance from it to the first
-- zero byte, and the zero byte still lies in the process's memory.
pub argstr_lem :
    (p : Process) (m : Memory) (n a len : ℕ)
    → argstr p m n ≡ some (a, len)
    → (argint p m n ≡ some a)
      × (m (a + len) ≡ 0)
      × (a + len < p.memory_size)
      × ((j : ℕ) → j < len → m (a + j) ≢ 0)
unfolding argstr fetchstr
argstr_lem p m n a len e = elim (Option-cases (argint p m n)) [
  | inl f ↦ ground arith
  | inr (k, f) ↦ elim (Bool-cases (leb p.memory_size k)) [
    | inl g ↦ ground arith
    | inr g ↦ elim (Option-cases (scan m k (p.memory_size - k))) [
      | inl s ↦ ground arith
      | inr (l, s) ↦
          let (u, v, w) = scan_lem m k (p.memory_size - k) l s in
          let q : (k ≡ a) × (l ≡ len) = ground arith in
          (ground arith, ground arith, ground arith, λ j lt. ground (arith, w j))
    ]
  ]
]
