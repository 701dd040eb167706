-- ===== src/Task/Waiting.antt =====
-- wait: what it reaps, and when it sleeps.
use mathlib.Core.Path.{fun_ext}
use systems_programming_a.Prelude.{
  get_elem?-All, ℕ, suc, ◌+◌, ◌-◌, ◌≤◌, ◌≡◌, ◌⊎◌, ◌∙◌, ap, List, set, refl, arith, Bool, true,
  false, not, ◌&&◌, ◌||◌, Option, none, some, [], ◌∷◌, modify, get_elem?, Bool-cases, inl, inr, All,
}
use systems_programming_a.Kalloc.{KernelMemory}
use systems_programming_a.Proc.{Process, Table, sleep, sleeping, unused}
use systems_programming_a.Vm.{
  Run, Kernel, null_pointer, stopped, returned, free, free_memory_and_page_table,
}
use systems_programming_a.Task.Machine.{
  Machine, aborted, completed, then_call, Task, ◌>>=◌, ◌>>◌, in_kernel, change_process, give,
  process_at,
}
use systems_programming_a.Task.Family.{
  clear_text, is_zombie, is_child, Wait, reaped, no_child, asleep, find_zombie, has_child,
  reap_slot, reap, wait_or_fail, wait_again,
}
use systems_programming_a.Task.Slots.{get_elem?-modify}
use systems_programming_a.Task.Missed.{NoMissed}
use systems_programming_a.Task.Orphans.{is_child-some, is_child-true}

&&-true : (a b : Bool) → a && b ≡ true → (a ≡ true) × (b ≡ true)
&&-true true true h = (refl, refl)
&&-true true false h = absurd (cc h)
&&-true false b h = absurd (cc h)

-- What find_zombie gives is a zombie child in its slot.
find_zombie-some :
    (i j : ℕ) (ps : Table) (k : ℕ) (q : Process)
    → find_zombie i j ps ≡ some (k, q)
    → (j ≤ k) × (get_elem? ps (k - j) ≡ some q) × (is_child i q ≡ true) × (is_zombie q.state ≡ true)
unfolding find_zombie
find_zombie-some i j [] k q e = absurd (cc e)
find_zombie-some i j (p ∷ ps) k q e = elim (Bool-cases (is_child i p && is_zombie p.state)) [
  | inl b ↦
      let h : ◌≡◌ {A = Option (ℕ × Process)} (some (j, p)) (some (k, q)) = rw b at e in
      let z : j ≡ k = cc h in
      let z' : p ≡ q = cc h in
      let l = &&-true (is_child i p) (is_zombie p.state) b in
      let o : k - j ≡ 0 = omega arith in rw (← z') (omega arith, rw o refl, l.0, l.1)
  | inr b ↦
      let r = find_zombie-some i (j + 1) ps k q (rw b at e) in
      let z : k - j ≡ suc (k - (j + 1)) = omega (arith, r.0) in
      (omega (arith, r.0), rw z r.1, r.2, r.3)
]

-- No child of the process is a zombie.
abbrev pub NoZombie : ℕ → Table → Type 0
NoZombie i ps = All (λ q. is_child i q ≡ true → is_zombie q.state ≡ false) ps

-- Where it finds none, no child is a zombie.
find_zombie-none : (i j : ℕ) (ps : Table) → find_zombie i j ps ≡ none → NoZombie i ps
unfolding find_zombie
find_zombie-none i j [] e = tt
find_zombie-none i j (p ∷ ps) e = elim (Bool-cases (is_child i p && is_zombie p.state)) [
  | inl b ↦ absurd (cc (rw b at e))
  | inr b ↦ (λ c. ground (arith), find_zombie-none i (j + 1) ps (rw b at e))
]

in_kernel-completed :
    {A B : Type 0} (k : Kernel A) (f : A → Task B) (m m' : Machine) (b : B)
    → then_call (in_kernel k m) f ≡ completed m' b
    → (a : A) × (s : KernelMemory) × (f a (record m { kernel = s }) ≡ completed m' b)
in_kernel-completed {A = A} {B = B} k f m m' b = go (k m.kernel)
  where
    go :
        (r : Run A)
        → then_call
            (elim r [
              | stopped e ↦ aborted e
              | returned s a ↦ completed (record m { kernel = s }) a
            ])
            f
          ≡ completed m' b
        → (a : A) × (s : KernelMemory) × (f a (record m { kernel = s }) ≡ completed m' b)
    go (stopped e) h = absurd (cc h)
    go (returned s a) h = (a, s, h)

-- Reaping changes the table in the child's slot alone.
reap-processes :
    (kernel_end j : ℕ) (q : Process) (m m' : Machine) (w : Wait)
    → reap kernel_end j q m ≡ completed m' w
    → (m'.processes ≡ modify m.processes j reap_slot) × (w ≡ reaped q.process_id)
unfolding reap
reap-processes kernel_end j q m m' w h =
    let r =
      in_kernel-completed (free kernel_end q.kernel_stack)
        (λ u. in_kernel (free_memory_and_page_table kernel_end q.page_table) >>= λ v.
          (change_process j reap_slot >> give (reaped q.process_id)))
        m m' w h in
    let t =
      in_kernel-completed (free_memory_and_page_table kernel_end q.page_table)
        (λ v. change_process j reap_slot >> give (reaped q.process_id)) (record m { kernel = r.1 })
        m' w r.2 in
    let e : record m { kernel = t.1; processes = modify m.processes j reap_slot } ≡ m' = cc t.2 in
    (rw (← e) refl, cc t.2)

-- A child that is given back is no zombie, and does not sleep.
reap-NoMissed :
    (address : ℕ → ℕ) (j : ℕ) (ps : Table)
    → NoMissed address ps
    → NoMissed address (modify ps j reap_slot)
reap-NoMissed address j ps h a k p q ep eq s e = elim (get_elem?-modify reap_slot ps j a p ep) [
  | inr r ↦ absurd (cc (rw (← r.1.2) at s))
  | inl r ↦ elim (get_elem?-modify reap_slot ps j k q eq) [
    | inl t ↦ h a k p q r.1 t.1 s e
    | inr t ↦ rw (← t.1.2) refl
  ]
]

-- A process may go to sleep in wait when none of its children is a zombie.
sleep-NoMissed :
    (address : ℕ → ℕ) (i : ℕ) (ps : Table)
    → NoZombie i ps
    → NoMissed address ps
    → NoMissed address (sleep i (address i) ps)
unfolding sleep
sleep-NoMissed address i ps z h a k p q ep eq s e =
    let f : Process → Process = λ x. record x { chan = address i; state = sleeping } in
    elim (get_elem?-modify f ps i k q eq) [
      | inr t ↦ rw (← t.1.2) refl
      | inl t ↦ elim (get_elem?-modify f ps i a p ep) [
        | inl r ↦ h a k p q r.1 t.1 s e
        | inr r ↦
            get_elem?-All (λ x. is_child i x ≡ true → is_zombie x.state ≡ false) ps k q z t.1
              (is_child-some i q (rw r.0 at e))
      ]
    ]

-- Without a zombie child, -1 changes nothing, and otherwise the process goes to sleep.
wait_or_fail-completed :
    (address : ℕ → ℕ) (i : ℕ) (m m' : Machine) (w : Wait)
    → (process_at i >>= wait_or_fail address i) m ≡ completed m' w
    → ((w ≡ no_child) × (m' ≡ m))
      ⊎ ((w ≡ asleep) × (m'.processes ≡ sleep i (address i) m.processes))
unfolding wait_or_fail
wait_or_fail-completed address i m m' w = go (get_elem? m.processes i)
  where
    go :
        (o : Option Process)
        → then_call
            (elim o [ none ↦ aborted null_pointer | some p ↦ completed m p ])
            (wait_or_fail address i)
          ≡ completed m' w
        → ((w ≡ no_child) × (m' ≡ m))
          ⊎ ((w ≡ asleep) × (m'.processes ≡ sleep i (address i) m.processes))
    go none e = absurd (cc e)
    go (some p) e = elim (Bool-cases (not (has_child i m.processes) || p.is_killed)) [
      | inl b ↦ let f : completed m no_child ≡ completed m' w = rw b at e in inl (cc f, cc f)
      | inr b ↦
          let f : completed (record m { processes = sleep i (address i) m.processes }) asleep
              ≡ completed m' w =
            rw b at e in
          let g : record m { processes = sleep i (address i) m.processes } ≡ m' = cc f in
          inr (cc f, rw (← g) refl)
    ]

-- What a round of wait came to, by the code's own functions on the table.
ComesTo : ℕ → ℕ → Table → Wait → Table → Type 0
ComesTo address i ps (reaped n) ps' =
    (j : ℕ) × (q : Process) × (get_elem? ps j ≡ some q)
    × (q.parent ≡ some i)
    × (is_zombie q.state ≡ true)
    × (n ≡ q.process_id)
    × (ps' ≡ modify ps j reap_slot)
ComesTo address i ps no_child ps' = NoZombie i ps × (ps' ≡ ps)
ComesTo address i ps asleep ps' = NoZombie i ps × (ps' ≡ sleep i address ps)

wait_again-ComesTo :
    (kernel_end : ℕ) (address : ℕ → ℕ) (i : ℕ) (m m' : Machine) (w : Wait)
    → wait_again kernel_end address i m ≡ completed m' w
    → ComesTo (address i) i m.processes w m'.processes
unfolding wait_again ComesTo
wait_again-ComesTo kernel_end address i m m' w e = go (find_zombie i 0 m.processes) refl e
  where
    go :
        (o : Option (ℕ × Process))
        → find_zombie i 0 m.processes ≡ o
        → elim o [
          | some (j, q) ↦ reap kernel_end j q m
          | none ↦ (process_at i >>= wait_or_fail address i) m
        ]
          ≡ completed m' w
        → ComesTo (address i) i m.processes w m'.processes
    go none z e = elim (wait_or_fail-completed address i m m' w e) [
      | inl r ↦ rw (r.0, r.1) (find_zombie-none i 0 m.processes z, refl)
      | inr r ↦ rw (r.0, r.1) (find_zombie-none i 0 m.processes z, refl)
    ]
    go (some (j, q)) z e =
        let r = reap-processes kernel_end j q m m' w e in
        let f = find_zombie-some i 0 m.processes j q z in
        let o : j - 0 ≡ j = omega arith in
        rw (r.0, r.1) (j, q, rw o at f.1, is_child-true i q f.2, f.3, refl, refl)

-- A round of wait of the process in slot i, whatever it comes to: when no process sleeps in wait that
-- has a zombie child, none does afterwards.
pub wait_again-NoMissed :
    (kernel_end : ℕ) (address : ℕ → ℕ) (i : ℕ) (m m' : Machine) (w : Wait)
    → wait_again kernel_end address i m ≡ completed m' w
    → NoMissed address m.processes
    → NoMissed address m'.processes
unfolding ComesTo
wait_again-NoMissed kernel_end address i m m' w e h =
    go w (wait_again-ComesTo kernel_end address i m m' w e)
  where
    go :
        (w : Wait)
        → ComesTo (address i) i m.processes w m'.processes
        → NoMissed address m'.processes
    go (reaped n) r = rw r.6 (reap-NoMissed address r.0 m.processes h)
    go no_child r = rw r.1 h
    go asleep r = rw r.1 (sleep-NoMissed address i m.processes r.0 h)

-- The slot of a child that has been given back: its number, its parent, its stack and its mark are
-- cleared, its name is empty, and it is free.
abbrev pub given_back : Process → Process
given_back q = record q {
  state = unused;
  process_id = 0;
  parent = none;
  kernel_stack = 0;
  is_killed = false;
  name = set q.name 0 0;
}

-- What a round of wait came to, with the table after it.
pub Waited : ℕ → ℕ → Table → Wait → Table → Type 0
Waited address i ps (reaped n) ps' =
    (j : ℕ) × (q : Process) × (get_elem? ps j ≡ some q)
    × (q.parent ≡ some i)
    × (is_zombie q.state ≡ true)
    × (n ≡ q.process_id)
    × (ps' ≡ modify ps j given_back)
Waited address i ps no_child ps' = NoZombie i ps × (ps' ≡ ps)
Waited address i ps asleep ps' =
    NoZombie i ps × (ps' ≡ modify ps i (λ q. record q { chan = address; state = sleeping }))

clear_text-set : (s : List ℕ) → clear_text s ≡ set s 0 0
clear_text-set [] = refl
clear_text-set (c ∷ s) = refl

reap_slot-given_back : reap_slot ≡ given_back
reap_slot-given_back =
    fun_ext (λ q. ap (λ s. record (given_back q) { name = s }) (clear_text-set q.name))

-- A round of wait of the process in slot i, when it neither panics nor runs into another end: either
-- it gives the number of a child that is a zombie, whose slot alone is changed: it is free then, with
-- no number, no parent, no stack, no name and no mark of a kill; or no child of the process is a zombie,
-- and then it returns -1 and leaves the table or puts the process, and no other, to sleep on its own
-- address.
pub wait_again_lem :
    (kernel_end : ℕ) (address : ℕ → ℕ) (i : ℕ) (m m' : Machine) (w : Wait)
    → wait_again kernel_end address i m ≡ completed m' w
    → Waited (address i) i m.processes w m'.processes
unfolding ComesTo Waited sleep
wait_again_lem kernel_end address i m m' w e =
    go w (wait_again-ComesTo kernel_end address i m m' w e)
  where
    go :
        (w : Wait)
        → ComesTo (address i) i m.processes w m'.processes
        → Waited (address i) i m.processes w m'.processes
    go (reaped n) r =
        (r.0, r.1, r.2, r.3, r.4, r.5, r.6 ∙ ap (modify m.processes r.0) reap_slot-given_back)
    go no_child r = r
    go asleep r = r
