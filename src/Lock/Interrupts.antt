-- ===== src/Lock/Interrupts.antt =====
-- pushCli and popCli are matched.
use systems_programming_a.Prelude.{
  ℕ, zero, suc, ◌+◌, ◌-◌, ◌≡◌, ◌∙◌, ◌<◌, ◌⊎◌, inr, refl, arith, Option, none, some, false, ◌==◌,
  if◌then◌else◌, ◌&&◌,
}
use systems_programming_a.Lock.Defs.{Cpu, push_cli, pop_cli}

-- `n` calls of pushCli.
pub pushes : ℕ → Cpu → Cpu
pushes zero c = c
pushes (suc n) c = pushes n (push_cli c)

-- `n` calls of popCli.
pub pops : ℕ → Cpu → Option Cpu
pops zero c = some c
pops (suc n) c = elim (pops n c) [ none ↦ none | some c' ↦ pop_cli c' ]

-- Where calls are nested, interrupts are off.
abbrev pub IsMatched : Cpu → Type 0
IsMatched c = (c.cli_depth ≡ 0) ⊎ (c.flag ≡ false)

-- The same flag and depth; what was saved matters only inside a pushCli.
pub record IsRestored (c d : Cpu) : Type 0 where
  pub flag : d.flag ≡ c.flag
  pub depth : d.cli_depth ≡ c.cli_depth
  pub saved : 0 < c.cli_depth → d.interrupts_enabled ≡ c.interrupts_enabled

pop_cli-IsRestored :
    (c d : Cpu)
    → IsMatched c
    → IsRestored (push_cli c) d
    → (e : Cpu) × (pop_cli d ≡ some e) × IsRestored c e
unfolding pop_cli push_cli
pop_cli-IsRestored c d h r =
    let f : d.flag ≡ false = r.flag in
    let z : (d.cli_depth == 0) ≡ false = ground (arith, r.depth) in
    let s : d.interrupts_enabled ≡ (if c.cli_depth == 0 then c.flag else c.interrupts_enabled) =
      r.saved (omega arith) in
    let p : d.cli_depth ≡ c.cli_depth + 1 = r.depth in
    (
      record d { cli_depth = d.cli_depth - 1; flag = d.cli_depth - 1 == 0 && d.interrupts_enabled },
      rw (f, z) refl,
      record {
        flag = rw (p, s) (ground arith);
        depth = omega (arith, p);
        saved = λ l. s ∙ ground arith;
      },
    )

push_cli-IsMatched : (c : Cpu) → IsMatched (push_cli c)
unfolding push_cli
push_cli-IsMatched c = inr refl

pops-suc : (n : ℕ) (c d : Cpu) → pops n c ≡ some d → pops (suc n) c ≡ pop_cli d
unfolding pops
pops-suc n c d e = rw (pops, e) refl

push_cli-off : (c : Cpu) → (pushes 0 (push_cli c)).flag ≡ false
unfolding pushes push_cli
push_cli-off c = refl

-- From a state in which nested calls have interrupts off: n calls of pushCli leave interrupts off if n
-- is not 0, and n calls of popCli after them do not panic and restore the interrupt flag and the depth.
pub pops-pushes :
    (n : ℕ) (c : Cpu)
    → IsMatched c
    → (d : Cpu) × (pops n (pushes n c) ≡ some d)
      × IsRestored c d
      × (0 < n → (pushes n c).flag ≡ false)
unfolding pops pushes
pops-pushes zero c h =
    (c, refl, record { flag = refl; depth = refl; saved = λ l. refl }, λ l. absurd (omega arith))
pops-pushes (suc n) c h =
    let (d, e, r, f) = pops-pushes n (push_cli c) (push_cli-IsMatched c) in
    let (d', e', r') = pop_cli-IsRestored c d h r in
    (d', pops-suc n (pushes n (push_cli c)) d e ∙ e', r', λ l. off n f)
  where
    off :
        (n : ℕ)
        → (0 < n → (pushes n (push_cli c)).flag ≡ false)
        → (pushes n (push_cli c)).flag ≡ false
    off zero f = push_cli-off c
    off (suc n) f = f (omega arith)
