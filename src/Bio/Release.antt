-- ===== src/Bio/Release.antt =====
-- diskBufferRelease and the order of use.
use mathlib.Core.Path.{subst}
use systems_programming_a.Prelude.{
  ℕ, ◌+◌, ◌-◌, ◌^◌, ◌%◌, ◌≡◌, ◌∙◌, sym, refl, true, false, List, ◌∷◌, ◌++◌, Option, some, none,
  ◌==◌, if◌then◌else◌, update_self, Bool-cases, inl, inr, ap,
}
use systems_programming_a.Bio.Defs.{Cache, head, push_front, unlink, drop_reference, buffer_release}
use systems_programming_a.Bio.Ring.{IsRing, Links-buffers, refresh-IsRing}

refresh-buffers : (b : ℕ) (c : Cache) → (push_front b (unlink b c)).buffers ≡ c.buffers
unfolding push_front unlink
refresh-buffers b c = refl

drop_reference_lem :
    (b : ℕ) (c : Cache)
    → (drop_reference b c).buffers b ≡ record (c.buffers b) {
      is_locked = false;
      reference_count = ((c.buffers b).reference_count + 2 ^ 32 - 1) % 2 ^ 32;
    }
unfolding drop_reference
drop_reference_lem b c = update_self c.buffers b _

drop_reference-IsRing :
    (b : ℕ) (xs : List ℕ) (c : Cache) → IsRing c xs → IsRing (drop_reference b c) xs
unfolding drop_reference
drop_reference-IsRing b xs c r = (r.0, Links-buffers (drop_reference b c).buffers c head xs r.1)

-- The cache after diskBufferRelease of the buffer `b` between `xs` and `ys` in `c`.
abbrev pub IsReleased : ℕ → List ℕ → List ℕ → Cache → Option Cache → Type 0
IsReleased b xs ys c none = (c.buffers b).is_locked ≡ false
IsReleased b xs ys c (some c') =
    ((c.buffers b).is_locked ≡ true)
    × ((c'.buffers b).is_locked ≡ false)
    × ((c'.buffers b).reference_count ≡ ((c.buffers b).reference_count + 2 ^ 32 - 1) % 2 ^ 32)
    × IsRing c' (if (c'.buffers b).reference_count == 0 then b ∷ xs ++ ys else xs ++ b ∷ ys)

-- The two ends of diskBufferRelease have the buffers that drop_reference leaves.
IsReleased-some :
    (b : ℕ) (xs ys : List ℕ) (c c' : Cache)
    → (c.buffers b).is_locked ≡ true
    → c'.buffers ≡ (drop_reference b c).buffers
    → IsRing c' (
        if ((drop_reference b c).buffers b).reference_count == 0
        then b ∷ xs ++ ys
        else xs ++ b ∷ ys)
    → IsReleased b xs ys c (some c')
IsReleased-some b xs ys c c' e k r =
    let at : c'.buffers b ≡ record (c.buffers b) {
      is_locked = false;
      reference_count = ((c.buffers b).reference_count + 2 ^ 32 - 1) % 2 ^ 32;
    } =
      ap (λ f. f b) k ∙ drop_reference_lem b c in
    (
      e,
      ap (λ x. x.is_locked) at,
      ap (λ x. x.reference_count) at,
      subst (λ f. IsRing c' (if (f b).reference_count == 0 then b ∷ xs ++ ys else xs ++ b ∷ ys))
          (sym k) r,
    )

-- diskBufferRelease panics exactly when the buffer is not locked. Otherwise it is unlocked and has
-- one reference less, and the list of buffers is as before, unless that was the last reference: then
-- the buffer is the most recently used, and the order of the others is as before.
pub buffer_release-IsRing :
    (b : ℕ) (xs ys : List ℕ) (c : Cache)
    → IsRing c (xs ++ b ∷ ys)
    → IsReleased b xs ys c (buffer_release b c)
unfolding buffer_release
buffer_release-IsRing b xs ys c r = elim (Bool-cases (c.buffers b).is_locked) [
  | inl e ↦ elim (Bool-cases (((drop_reference b c).buffers b).reference_count == 0)) [
    | inl z ↦
        rw (e, z)
          (IsReleased-some b xs ys c (push_front b (unlink b (drop_reference b c))) e
            (refresh-buffers b (drop_reference b c))
            (rw z (
              refresh-IsRing b xs ys (drop_reference b c)
                (drop_reference-IsRing b (xs ++ b ∷ ys) c r))))
    | inr z ↦
        rw (e, z)
          (IsReleased-some b xs ys c (drop_reference b c) e refl
            (rw z (drop_reference-IsRing b (xs ++ b ∷ ys) c r)))
  ]
  | inr e ↦ rw e e
]
