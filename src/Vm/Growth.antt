-- ===== src/Vm/Growth.antt =====
-- What a process that grows gets: the addresses mapped, and the pages taken.
use systems_programming_a.Prelude.{
  ℕ, zero, suc, ◌+◌, ◌-◌, ◌*◌, ◌/◌, ◌<◌, ◌≤◌, ◌≡◌, ◌≢◌, ◌⊎◌, ◌∙◌, ap, refl, arith, Memory, All,
  get_elem?, get_elem?-All, Option, some, List, [], ◌∷◌, length, inl, inr,
}
use systems_programming_a.Kalloc.{KernelMemory}
use systems_programming_a.Vm.Access.{v2p}
use systems_programming_a.Vm.Step.{mapped, entry_for}
use systems_programming_a.Vm.Directory.{IsPage, AreDistinct}
use systems_programming_a.Vm.Spare.{IsSpare, IsOneOf}

-- `g` maps the pages `ps`, one after the other from `a` on, for the user to write, and is `f`
-- elsewhere. A page at an address of the kernel lies at the address less KERNBASE in memory.
abbrev pub Grows : ℕ → List ℕ → (ℕ → Option ℕ) → (ℕ → Option ℕ) → Type 0
Grows a ps f g =
    ((i p vb : ℕ)
      → get_elem? ps i ≡ some p
      → a + i * 4096 ≤ vb
      → vb < a + i * 4096 + 4096
      → g vb ≡ some (p - 0x80000000 + 7))
    × ((vb : ℕ) → (vb < a) ⊎ (a + length ps * 4096 ≤ vb) → g vb ≡ f vb)

own_entry :
    (q a vb : ℕ) (pgdir : ℕ)
    → IsPage pgdir q
    → a ≤ vb
    → vb < a + 4096
    → entry_for (v2p q + (vb - a) / 4096 * 4096) 6 ≡ q - 0x80000000 + 7
own_entry q a vb pgdir h l u = omega (arith, h.0, h.1, h.2, l, u)

pub mapped-Grows :
    (a q pgdir : ℕ) (ps : List ℕ) (f g : ℕ → Option ℕ)
    → IsPage pgdir q
    → Grows (a + 4096) ps (mapped a 1 (v2p q) 6 f) g
    → Grows a (q ∷ ps) f g
mapped-Grows a q pgdir ps f g e h = (
  λ i p vb n l u. at i p vb n l u,
  λ vb l. elim l [
    | inl b ↦ h.1 vb (inl (omega arith)) ∙ ground arith
    | inr b ↦ h.1 vb (inr (omega arith)) ∙ ground arith
  ],
)
  where
    at :
        (i p vb : ℕ)
        → get_elem? (q ∷ ps) i ≡ some p
        → a + i * 4096 ≤ vb
        → vb < a + i * 4096 + 4096
        → g vb ≡ some (p - 0x80000000 + 7)
    at zero p vb n l u =
        let same : q ≡ p = cc n in
        let m : mapped a 1 (v2p q) 6 f vb ≡ some (entry_for (v2p q + (vb - a) / 4096 * 4096) 6) =
          ground arith in
        h.1 vb (inl (omega arith))
        ∙ m
        ∙ ap some (own_entry q a vb pgdir e (omega arith) (omega arith))
        ∙ ap (λ x. some (x - 0x80000000 + 7)) same
    at (suc i) p vb n l u = h.0 i p vb n (omega arith) (omega arith)

-- The pages `ps` were free, are different, and are now apart from the directory, its tables and the
-- pages still free, with every word 0.
abbrev pub AreTaken : ℕ → List ℕ → List ℕ → List ℕ → Memory → Type 0
AreTaken pgdir ps qs qs' m = AreDistinct ps × All (λ p. IsOneOf p qs × IsSpare pgdir p qs' m) ps

All-map : (P Q : ℕ → Type 0) (xs : List ℕ) → ((x : ℕ) → P x → Q x) → All P xs → All Q xs
All-map P Q [] f a = tt
All-map P Q (x ∷ xs) f a = (f x a.0, All-map P Q xs f a.1)

-- The first page is none of those that were free after it was taken.
pub first_taken :
    (pgdir q r : ℕ) (ps qs qs1 qs' : List ℕ) (m1 m : Memory)
    → IsSpare pgdir q qs1 m1
    → IsSpare pgdir q qs' m
    → ((p : ℕ) → IsOneOf p qs1 → IsOneOf p (r ∷ qs))
    → AreTaken pgdir ps qs1 qs' m
    → AreTaken pgdir (q ∷ ps) (q ∷ r ∷ qs) qs' m
first_taken pgdir q r ps qs qs1 qs' m1 m b b' i t = (
  (
    All-map (λ p. IsOneOf p qs1 × IsSpare pgdir p qs' m) (λ p. p ≢ q) ps
        (λ p o. get_elem?-All (λ x. x ≢ q) qs1 o.0.0 p b.is_not_free o.0.1) t.1,
    t.0,
  ),
  (
    ((0, refl), b'),
    All-map (λ p. IsOneOf p qs1 × IsSpare pgdir p qs' m)
        (λ p. IsOneOf p (q ∷ r ∷ qs) × IsSpare pgdir p qs' m) ps
        (λ p o. let j = i p o.0 in ((suc j.0, j.1), o.1)) t.1,
  ),
)

-- A page stays spare while more pages are taken.
abbrev pub KeepsSpare : ℕ → List ℕ → KernelMemory → List ℕ → KernelMemory → Type 0
KeepsSpare pgdir qs s qs' s' = (p : ℕ) → IsSpare pgdir p qs s.memory → IsSpare pgdir p qs' s'.memory
