-- ===== src/Lock/Tests.antt =====
-- The locks' theorems at two processors and one sleeplock.
use systems_programming_a.Prelude.{◌≡◌, ◌<◌, refl, inl, some, none, true, false, [], replicate}
use systems_programming_a.Lock.Defs.{
  Cpu, push_cli, Spinlock, spinlock_acquire, Sleeplock, exchange, get_process_call_stack,
  call_stack,
}
use systems_programming_a.Lock.Interrupts.{pushes, pops, IsRestored, pops-pushes}
use systems_programming_a.Lock.Exclusion.{Excludes, spinlock_acquire_lem}

abbrev idle : Cpu
idle = record { cli_depth = 0; interrupts_enabled = false; flag = true }

abbrev free_lock : Spinlock
free_lock = record { locked = false; cpu = none; pcs = [] }

abbrev taken_lock : Spinlock
taken_lock = record { locked = true; cpu = some 1; pcs = replicate 10 0 }

pops-pushes_example :
    (d : Cpu) × (pops 2 (pushes 2 idle) ≡ some d)
    × IsRestored idle d
    × (0 < 2 → (pushes 2 idle).flag ≡ false)
pops-pushes_example = pops-pushes 2 idle (inl refl)

spinlock_acquire_lem_example :
    Excludes (λ a. 0) 1 free_lock taken_lock × ((push_cli idle).flag ≡ false)
unfolding spinlock_acquire exchange get_process_call_stack call_stack
spinlock_acquire_lem_example =
    spinlock_acquire_lem (λ a. 0) 0 1 idle (push_cli idle) free_lock taken_lock refl

abbrev free_sleeplock : Sleeplock
free_sleeplock = record { address = 64; is_locked = false; pid = 0; procs = [] }
