-- ===== src/Lock/Exclusion.antt =====
-- What holding a lock excludes.
use systems_programming_a.Prelude.{
  ℕ, ◌≡◌, ◌≢◌, inl, inr, refl, arith, none, some, true, false, Bool-cases, not,
}
use systems_programming_a.Proc.{NoneAsleep, wakeup-NoneAsleep}
use systems_programming_a.Lock.Defs.{
  Cpu, push_cli, Spinlock, is_holding, exchange, spinlock_acquire, spinlock_release, Sleeplock,
  sleeplock_acquire, sleeplock_release,
}

-- When processor i takes a lock: the lock was free, i holds it, interrupts are off on i; the lock
-- then panics at a second acquire by i, keeps every other processor spinning without a change, and
-- panics at a release by another processor.
pub record Excludes (word : ℕ → ℕ) (i : ℕ) (lk lk' : Spinlock) : Type 0 where
  pub was_free : lk.locked ≡ false
  pub holds : is_holding i lk' ≡ true
  pub again : (v : ℕ) (c : Cpu) → spinlock_acquire word v i c lk' ≡ none
  pub others :
      (v j : ℕ) (c : Cpu) → j ≢ i → spinlock_acquire word v j c lk' ≡ some (push_cli c, lk', false)
  pub release : (j : ℕ) (c : Cpu) → j ≢ i → spinlock_release j c lk' ≡ none

holder-Excludes :
    (word : ℕ → ℕ) (i : ℕ) (lk lk' : Spinlock)
    → lk.locked ≡ false
    → lk'.locked ≡ true
    → lk'.cpu ≡ some i
    → Excludes word i lk lk'
unfolding spinlock_acquire spinlock_release exchange
holder-Excludes word i lk lk' f l c = record {
  was_free = f;
  holds = rw (l, c) (ground arith);
  again = λ v d. ground arith;
  others = λ v j d ne. ground arith;
  release = λ j d ne. ground arith;
}

-- When a first exchange by processor i takes a lock: the lock was free, i holds it and interrupts
-- are off on i; and from then on the lock panics at an acquire by i, keeps every other processor
-- spinning without a change to it, and panics at a release by another processor.
pub spinlock_acquire_lem :
    (word : ℕ → ℕ) (v i : ℕ) (c c' : Cpu) (lk lk' : Spinlock)
    → spinlock_acquire word v i c lk ≡ some (c', lk', true)
    → Excludes word i lk lk' × (c'.flag ≡ false)
unfolding spinlock_acquire exchange push_cli
spinlock_acquire_lem word v i c c' lk lk' e = elim (Bool-cases (is_holding i lk)) [
  | inl h ↦ ground arith
  | inr h ↦ elim (Bool-cases lk.locked) [
    | inl l ↦ ground arith
    | inr l ↦ (holder-Excludes word i lk lk' l (ground arith) (ground arith), ground arith)
  ]
]

-- A process is asleep on a sleeplock only while it is locked.
abbrev pub IsAwake : Sleeplock → Type 0
IsAwake lk = lk.is_locked ≡ false → NoneAsleep lk.address lk.procs

-- If processes sleep on a sleeplock only while it is locked, then this holds after an acquire, which
-- has the lock if it was free and sleeps otherwise, and after a release.
pub sleeplock-IsAwake :
    (i pid : ℕ) (lk : Sleeplock)
    → IsAwake lk
    → let (lk', taken) = sleeplock_acquire i pid lk in
      IsAwake lk'
      × (lk'.is_locked ≡ true)
      × (taken ≡ not lk.is_locked)
      × IsAwake (sleeplock_release lk)
unfolding sleeplock_acquire sleeplock_release
sleeplock-IsAwake i pid lk h = elim (Bool-cases lk.is_locked) [
  | inl e ↦ rw e (λ f. cc, refl, refl, λ f. wakeup-NoneAsleep lk.address lk.procs)
  | inr e ↦ rw e (λ f. cc, refl, refl, λ f. wakeup-NoneAsleep lk.address lk.procs)
]
