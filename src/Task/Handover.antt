-- ===== src/Task/Handover.antt =====
-- What exit leaves behind: no process sleeps in wait that has a zombie child.
use systems_programming_a.Prelude.{
  get_elem?-All, ℕ, ◌≡◌, ◌≢◌, ◌∙◌, sym, refl, false, Option, some, modify, get_elem?, inl, inr,
}
use systems_programming_a.Proc.{
  Process, Table, asleep_on, wake_one, wakeup, NoneAsleep, wakeup-NoneAsleep, zombie,
}
use systems_programming_a.Task.Family.{nproc, channel, pass_children, leave}
use systems_programming_a.Task.Slots.{get_elem?-map, get_elem?-modify}
use systems_programming_a.Task.Orphans.{HoldsAt, pass_children-parent}
use systems_programming_a.Task.Missed.{
  NoMissed, wakeup-NoMissed, pass_children-NoMissed, wake_one-parent,
}

wakeup-parent :
    (address : ℕ → ℕ) (c i : ℕ) (p : Process) (ps : Table)
    → get_elem? ps i ≡ some p
    → HoldsAt (λ q. q.parent ≡ p.parent) i (wakeup c ps)
unfolding wakeup
wakeup-parent address c i p ps e q eq =
    let r = get_elem?-map (wake_one c) ps i q eq in
    let same : r.0 ≡ p = cc (sym r.1 ∙ e) in rw (← r.2, same) (wake_one-parent c p)

-- A process may become a zombie when its parent is awake.
zombie-NoMissed :
    (address : ℕ → ℕ) (i : ℕ) (o : Option ℕ) (ts : Table)
    → NoMissed address ts
    → HoldsAt (λ q. q.parent ≡ o) i ts
    → NoneAsleep (channel address o) ts
    → NoMissed address (modify ts i (λ q. record q { state = zombie }))
zombie-NoMissed address i o ts h g n a k p q ep eq s e =
    elim (get_elem?-modify (λ x. record x { state = zombie }) ts i a p ep) [
      | inr r ↦ absurd (cc (rw (← r.1.2) at s))
      | inl r ↦ elim (get_elem?-modify (λ x. record x { state = zombie }) ts i k q eq) [
        | inl t ↦ h a k p q r.1 t.1 s e
        | inr t ↦
            let c : q.parent ≡ t.1.0.parent = rw (← t.1.2) refl in
            let mine : o ≡ some a = sym (g t.1.0 (rw t.0 at t.1.1)) ∙ (sym c ∙ e) in
            let no : asleep_on (address a) p ≡ false =
              get_elem?-All (λ x. asleep_on (address a) x ≡ false) ts a p (rw mine at n) r.1 in
            absurd (cc (sym s ∙ no))
      ]
    ]

-- The part of exit under the table's lock, for a process in slot i whose parent is another process
-- or none: when no process sleeps in wait that has a zombie child, none does afterwards. The exiting
-- process is then a zombie itself, and the children that it gives to init may be zombies.
pub leave-NoMissed :
    (address : ℕ → ℕ) (initproc i : ℕ) (p : Process) (ps : Table)
    → get_elem? ps i ≡ some p
    → p.parent ≢ some i
    → NoMissed address ps
    → NoMissed address (leave address initproc i p.parent ps)
unfolding leave
leave-NoMissed address initproc i p ps e n h =
    let c = channel address p.parent in
    let ws = wakeup c ps in
    let r =
      pass_children-NoMissed address initproc i nproc 0 c ws (wakeup-NoMissed address c ps h)
        (wakeup-NoneAsleep c ps) in
    zombie-NoMissed address i p.parent (pass_children address initproc i nproc 0 ws) r.0
      (pass_children-parent address initproc i nproc 0 i p.parent ws n
        (wakeup-parent address c i p ps e))
      r.1
