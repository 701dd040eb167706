-- ===== src/Task/Missed.antt =====
-- No process sleeps in wait while it has a zombie child.
use systems_programming_a.Prelude.{
  get_elem?-All, ℕ, zero, suc, ◌+◌, ◌≡◌, ◌⊎◌, ◌∙◌, ap, sym, refl, arith, true, false, not, Option,
  none, some, [], ◌∷◌, modify, get_elem?, if◌then◌else◌, Bool-cases, inl, inr, All-modify,
}
use systems_programming_a.Proc.{
  Process, Table, asleep_on, wake_one, wakeup, NoneAsleep, wakeup-NoneAsleep, wakeup_keeps,
}
use systems_programming_a.Task.Family.{is_zombie, is_child, pass_child, pass_children}
use systems_programming_a.Task.Slots.{get_elem?-map, get_elem?-modify}

-- No process that sleeps on its own address has a child that is a zombie.
abbrev pub NoMissed : (ℕ → ℕ) → Table → Type 0
NoMissed address ps =
    (i j : ℕ) (p q : Process)
    → get_elem? ps i ≡ some p
    → get_elem? ps j ≡ some q
    → asleep_on (address i) p ≡ true
    → q.parent ≡ some i
    → is_zombie q.state ≡ false

wake_one-zombie :
    (c : ℕ) (q : Process) → is_zombie q.state ≡ false → is_zombie (wake_one c q).state ≡ false
wake_one-zombie c q h = ground arith

wake_one-asleep : (c d : ℕ) (p : Process) → asleep_on d (wake_one c p) ≡ true → asleep_on d p ≡ true
wake_one-asleep c d p h = ground arith

pub wake_one-parent : (c : ℕ) (q : Process) → (wake_one c q).parent ≡ q.parent
wake_one-parent c q = ground arith

pub wakeup-NoMissed :
    (address : ℕ → ℕ) (c : ℕ) (ps : Table) → NoMissed address ps → NoMissed address (wakeup c ps)
unfolding wakeup
wakeup-NoMissed address c ps h i j p q ep eq a e =
    let p0 = get_elem?-map (wake_one c) ps i p ep in
    let q0 = get_elem?-map (wake_one c) ps j q eq in
    rw (← q0.2) (
      wake_one-zombie c q0.0 (
        h i j p0.0 q0.0 p0.1 q0.1 (wake_one-asleep c (address i) p0.0 (rw (← p0.2) at a))
          (sym (wake_one-parent c q0.0) ∙ rw (← q0.2) at e)))

abbrev pub give_to : ℕ → Process → Process
give_to initproc q = record q { parent = some initproc }

wakeup-give_to :
    (c initproc j : ℕ) (ps : Table)
    → wakeup c (modify ps j (give_to initproc)) ≡ modify (wakeup c ps) j (give_to initproc)
unfolding wakeup
wakeup-give_to c initproc j [] = refl
wakeup-give_to c initproc zero (p ∷ ps) = ground arith
wakeup-give_to c initproc (suc j) (p ∷ ps) =
    ap (λ t. wake_one c p ∷ t) (wakeup-give_to c initproc j ps)

-- A child may be given to init if it is no zombie or if init is awake.
give_to-NoMissed :
    (address : ℕ → ℕ) (initproc j : ℕ) (ps : Table)
    → NoneAsleep (address initproc) ps
      ⊎ ((q : Process) → get_elem? ps j ≡ some q → is_zombie q.state ≡ false)
    → NoMissed address ps
    → NoMissed address (modify ps j (give_to initproc))
give_to-NoMissed address initproc j ps c h i k p q ep eq a e =
    let p0 : (x : Process) × (get_elem? ps i ≡ some x) × (asleep_on (address i) x ≡ true) =
      elim (get_elem?-modify (give_to initproc) ps j i p ep) [
        | inl r ↦ (p, r.1, a)
        | inr r ↦ (r.1.0, r.1.1, rw (← r.1.2) at a)
      ] in
    elim (get_elem?-modify (give_to initproc) ps j k q eq) [
      | inl r ↦ h i k p0.0 q p0.1 r.1 p0.2 e
      | inr r ↦
          let same : initproc ≡ i = cc (rw (← r.1.2) at e) in
          elim c [
            | inl n ↦
                let no : asleep_on (address initproc) p0.0 ≡ false =
                  get_elem?-All (λ x. asleep_on (address initproc) x ≡ false) ps i p0.0 n p0.1 in
                let yes : asleep_on (address initproc) p0.0 ≡ true = rw (← same) at p0.2 in
                absurd (cc (sym yes ∙ no))
            | inr z ↦ rw (← r.1.2) (z r.1.0 (rw r.0 at r.1.1))
          ]
    ]

pub pass_child-NoMissed :
    (address : ℕ → ℕ) (initproc i j : ℕ) (ps : Table)
    → NoMissed address ps
    → NoMissed address (pass_child address initproc i j ps)
pass_child-NoMissed address initproc i j ps h = go (get_elem? ps j) refl
  where
    go :
        (o : Option Process)
        → get_elem? ps j ≡ o
        → NoMissed address (elim o [
          | none ↦ ps
          | some p ↦
              let ps' = modify ps j (give_to initproc) in
              if not (is_child i p)
              then ps
              else if is_zombie p.state
              then wakeup (address initproc) ps'
              else ps'
        ])
    go none e = h
    go (some p) e = elim (Bool-cases (is_child i p)) [
      | inl b ↦ elim (Bool-cases (is_zombie p.state)) [
        | inl z ↦
            rw (b, z, wakeup-give_to (address initproc) initproc j ps)
              (give_to-NoMissed address initproc j (wakeup (address initproc) ps)
                (inl (wakeup-NoneAsleep (address initproc) ps))
                (wakeup-NoMissed address (address initproc) ps h))
        | inr z ↦
            rw (b, z)
              (give_to-NoMissed address initproc j ps
                (inr (λ q eq. let same : p ≡ q = cc (sym e ∙ eq) in rw same at z)) h)
      ]
      | inr b ↦ rw b h
    ]

pass_child_keeps :
    (address : ℕ → ℕ) (initproc i j c : ℕ) (ps : Table)
    → NoneAsleep c ps
    → NoneAsleep c (pass_child address initproc i j ps)
pass_child_keeps address initproc i j c ps h = go (get_elem? ps j)
  where
    kept : NoneAsleep c (modify ps j (give_to initproc))
    kept = All-modify _ ps j _ (λ p e. e) h

    go :
        (o : Option Process)
        → NoneAsleep c (elim o [
          | none ↦ ps
          | some p ↦
              let ps' = modify ps j (give_to initproc) in
              if not (is_child i p)
              then ps
              else if is_zombie p.state
              then wakeup (address initproc) ps'
              else ps'
        ])
    go none = h
    go (some p) = elim (Bool-cases (is_child i p)) [
      | inl b ↦ elim (Bool-cases (is_zombie p.state)) [
        | inl z ↦
            rw (b, z) (wakeup_keeps (address initproc) c (modify ps j (give_to initproc)) kept)
        | inr z ↦ rw (b, z) kept
      ]
      | inr b ↦ rw b h
    ]

pub pass_children-NoMissed :
    (address : ℕ → ℕ) (initproc i n j c : ℕ) (ps : Table)
    → NoMissed address ps
    → NoneAsleep c ps
    → NoMissed address (pass_children address initproc i n j ps)
      × NoneAsleep c (pass_children address initproc i n j ps)
unfolding pass_children
pass_children-NoMissed address initproc i zero j c ps h k = (h, k)
pass_children-NoMissed address initproc i (suc n) j c ps h k =
    pass_children-NoMissed address initproc i n (j + 1) c (pass_child address initproc i j ps)
      (pass_child-NoMissed address initproc i j ps h) (pass_child_keeps address initproc i j c ps k)
