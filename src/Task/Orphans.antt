-- ===== src/Task/Orphans.antt =====
-- The children of a process that exits go to init.
use systems_programming_a.Prelude.{
  ℕ, zero, suc, ◌+◌, ◌<◌, ◌≤◌, ◌≡◌, ◌≢◌, ◌⊎◌, ◌∙◌, sym, refl, arith, true, false, not, Option, none,
  some, modify, get_elem?, length, ◌==◌, if◌then◌else◌, Bool-cases, inl, inr, All,
}
use systems_programming_a.Proc.{Process, Table, wake_one, wakeup, zombie}
use systems_programming_a.Task.Family.{
  nproc, is_zombie, is_child, channel, pass_child, pass_children, leave,
}
use systems_programming_a.Task.Slots.{All-get_elem?, get_elem?-map, get_elem?-modify, get_elem?-lt}
use systems_programming_a.Task.Missed.{give_to}

-- The process in the slot, if there is one, has this property.
abbrev pub HoldsAt : (Process → Type 0) → ℕ → Table → Type 0
HoldsAt P k ps = (q : Process) → get_elem? ps k ≡ some q → P q

pub is_child-true : (i : ℕ) (q : Process) → is_child i q ≡ true → q.parent ≡ some i
is_child-true i q h = go q.parent h
  where
    go : (o : Option ℕ) → elim o [ none ↦ false | some j ↦ j == i ] ≡ true → o ≡ some i
    go none h = absurd (cc h)
    go (some j) h = let same : j ≡ i = ground arith in rw same refl

pub is_child-some : (i : ℕ) (q : Process) → q.parent ≡ some i → is_child i q ≡ true
is_child-some i q h = rw h (ground arith)

-- A round leaves a parent, or makes init the parent where it was `i` in the slot of the round.
abbrev pub Passed : ℕ → ℕ → ℕ → ℕ → Process → Process → Type 0
Passed initproc i j k q0 q =
    ((q.parent ≡ q0.parent) × (k ≡ j → is_child i q0 ≡ false))
    ⊎ ((k ≡ j) × (q0.parent ≡ some i) × (q.parent ≡ some initproc))

modify-Passed :
    (initproc i j k : ℕ) (ps : Table) (p q : Process)
    → get_elem? ps j ≡ some p
    → is_child i p ≡ true
    → get_elem? (modify ps j (give_to initproc)) k ≡ some q
    → (q0 : Process) × (get_elem? ps k ≡ some q0) × Passed initproc i j k q0 q
modify-Passed initproc i j k ps p q e b eq =
    elim (get_elem?-modify (give_to initproc) ps j k q eq) [
      | inl r ↦ (q, r.1, inl (refl, λ same. absurd (r.0 same)))
      | inr r ↦
          let same : p ≡ r.1.0 = cc (sym e ∙ rw r.0 at r.1.1) in
          (r.1.0, r.1.1, inr (r.0, is_child-true i r.1.0 (rw same at b), rw (← r.1.2) refl))
    ]

pass_child-Passed :
    (address : ℕ → ℕ) (initproc i j k : ℕ) (ps : Table) (q : Process)
    → get_elem? (pass_child address initproc i j ps) k ≡ some q
    → (q0 : Process) × (get_elem? ps k ≡ some q0) × Passed initproc i j k q0 q
unfolding wakeup
pass_child-Passed address initproc i j k ps q = go (get_elem? ps j) refl
  where
    go :
        (o : Option Process)
        → get_elem? ps j ≡ o
        → get_elem?
            (elim o [
              | none ↦ ps
              | some p ↦
                  let ps' = modify ps j (give_to initproc) in
                  if not (is_child i p)
                  then ps
                  else if is_zombie p.state
                  then wakeup (address initproc) ps'
                  else ps'
            ])
            k
          ≡ some q
        → (q0 : Process) × (get_elem? ps k ≡ some q0) × Passed initproc i j k q0 q
    go none e eq = (q, eq, inl (refl, λ same. absurd (cc (sym e ∙ rw same at eq))))
    go (some p) e eq = elim (Bool-cases (is_child i p)) [
      | inl b ↦ elim (Bool-cases (is_zombie p.state)) [
        | inl z ↦
            let w =
              get_elem?-map (wake_one (address initproc)) (modify ps j (give_to initproc)) k q
                (rw (b, z) at eq) in
            let r = modify-Passed initproc i j k ps p w.0 e b w.1 in
            let same : q.parent ≡ w.0.parent = rw (← w.2) (ground arith) in
            (r.0, r.1, rw (← same) at r.2)
        | inr z ↦ modify-Passed initproc i j k ps p q e b (rw (b, z) at eq)
      ]
      | inr b ↦ (
        q,
        rw b at eq,
        inl (refl, λ same. let it : p ≡ q = cc (sym e ∙ rw same at (rw b at eq)) in rw it at b),
      )
    ]

pass_children-slot :
    (address : ℕ → ℕ) (initproc i n j k : ℕ) (ps : Table) (q : Process)
    → get_elem? (pass_children address initproc i n j ps) k ≡ some q
    → (q0 : Process) × (get_elem? ps k ≡ some q0)
unfolding pass_children
pass_children-slot address initproc i zero j k ps q e = (q, e)
pass_children-slot address initproc i (suc n) j k ps q e =
    let r =
      pass_children-slot address initproc i n (j + 1) k (pass_child address initproc i j ps) q e in
    let s = pass_child-Passed address initproc i j k ps r.0 r.1 in (s.0, s.1)

-- The parent of a process whose parent is not `i`.
pub pass_children-parent :
    (address : ℕ → ℕ) (initproc i n j k : ℕ) (o : Option ℕ) (ps : Table)
    → o ≢ some i
    → HoldsAt (λ q. q.parent ≡ o) k ps
    → HoldsAt (λ q. q.parent ≡ o) k (pass_children address initproc i n j ps)
unfolding pass_children
pass_children-parent address initproc i zero j k o ps n h = h
pass_children-parent address initproc i (suc m) j k o ps n h =
    pass_children-parent address initproc i m (j + 1) k o (pass_child address initproc i j ps) n
      (λ q e.
        let r = pass_child-Passed address initproc i j k ps q e in
        elim r.2 [ inl s ↦ s.0 ∙ h r.0 r.1 | inr s ↦ absurd (n (sym (h r.0 r.1) ∙ s.1)) ])

-- After the round of its slot, a process is no child of `i`.
pass_child-orphan :
    (address : ℕ → ℕ) (initproc i j k : ℕ) (ps : Table)
    → initproc ≢ i
    → (k < j → HoldsAt (λ q. q.parent ≢ some i) k ps)
    → k < j + 1
    → HoldsAt (λ q. q.parent ≢ some i) k (pass_child address initproc i j ps)
pass_child-orphan address initproc i j k ps n h l q e c =
    let r = pass_child-Passed address initproc i j k ps q e in
    elim r.2 [
      | inl s ↦
          let p : r.0.parent ≡ some i = sym s.0 ∙ c in
          elim (Bool-cases (k == j)) [
            | inl b ↦
                let no : is_child i r.0 ≡ false = s.1 (ground arith) in
                let yes : is_child i r.0 ≡ true = is_child-some i r.0 p in
                absurd (cc (sym yes ∙ no))
            | inr b ↦ h (ground arith) r.0 r.1 p
          ]
      | inr s ↦ n (cc (sym s.2 ∙ c))
    ]

pass_children-orphan :
    (address : ℕ → ℕ) (initproc i n j k : ℕ) (ps : Table)
    → initproc ≢ i
    → (k < j → HoldsAt (λ q. q.parent ≢ some i) k ps)
    → k < j + n
    → HoldsAt (λ q. q.parent ≢ some i) k (pass_children address initproc i n j ps)
unfolding pass_children
pass_children-orphan address initproc i zero j k ps n h l = h (omega (arith, l))
pass_children-orphan address initproc i (suc m) j k ps n h l =
    pass_children-orphan address initproc i m (j + 1) k (pass_child address initproc i j ps) n
      (λ l'. pass_child-orphan address initproc i j k ps n h l') (omega (arith, l))

slot-orphan :
    (address : ℕ → ℕ) (initproc i : ℕ) (o : Option ℕ) (ps : Table)
    → initproc ≢ i
    → length ps ≤ nproc
    → (k : ℕ) (q : Process) → get_elem? (leave address initproc i o ps) k ≡ some q
    → q.parent ≢ some i
unfolding leave wakeup
slot-orphan address initproc i o ps n l k q e =
    let ws = wakeup (channel address o) ps in
    let r : (x : Process) × (get_elem? (pass_children address initproc i nproc 0 ws) k ≡ some x)
        × (q.parent ≡ x.parent) =
      elim (get_elem?-modify (λ x. record x { state = zombie })
        (pass_children address initproc i nproc 0 ws) i k q e) [
          | inl s ↦ (q, s.1, refl)
          | inr s ↦ (s.1.0, s.1.1, rw (← s.1.2) refl)
        ] in
    let b = pass_children-slot address initproc i nproc 0 k ws r.0 r.1 in
    let c = get_elem?-map (wake_one (channel address o)) ps k b.0 b.1 in
    let below = get_elem?-lt ps k c.0 c.1 in
    λ p.
      pass_children-orphan address initproc i nproc 0 k ws n (λ z. absurd (omega (arith, z)))
        (omega (arith, below, l)) r.0 r.1 (sym r.2 ∙ p)

-- After the part of exit under the table's lock, for a process in slot i that is not init, in a table
-- of at most NPROC slots, no process has it as its parent.
pub leave-orphans :
    (address : ℕ → ℕ) (initproc i : ℕ) (o : Option ℕ) (ps : Table)
    → initproc ≢ i
    → length ps ≤ nproc
    → All (λ q. q.parent ≢ some i) (leave address initproc i o ps)
leave-orphans address initproc i o ps n l =
    All-get_elem? (λ q. q.parent ≢ some i) (leave address initproc i o ps)
      (slot-orphan address initproc i o ps n l)
