-- ===== src/Prelude/Cells.antt =====
-- Memory as a function from addresses to the values stored there, and tables over a small range.
use Prim.Native.Nat.{ℕ, zero, suc, ◌<◌}
use mathlib.Core.Path.{◌≡◌}
use mathlib.Core.Logic.{◌≢◌}
use mathlib.Core.Bool.{Bool, true, ◌&&◌}
use native.Mathlib.Omega.{arith}
use systems_programming_a.Prelude.Tests.{◌==◌, if◌then◌else◌}

abbrev pub Memory : Type 0
Memory = ℕ → ℕ

-- The memory after a store of `v` at `a`.
abbrev pub update {ℓ} : {A : Type ℓ} → (ℕ → A) → ℕ → A → ℕ → A
update m a v b = if b == a then v else m b

pub update_self {ℓ} : {A : Type ℓ} (m : ℕ → A) (a : ℕ) (v : A) → update m a v a ≡ v
update_self m a v = ground arith

pub update_ne {ℓ} : {A : Type ℓ} (m : ℕ → A) (a b : ℕ) (v : A) → b ≢ a → update m a v b ≡ m b
update_ne m a b v h = ground arith

-- Whether two functions have the same values below a bound, by evaluation.
unfoldable pub same_to : (ℕ → ℕ) → (ℕ → ℕ) → ℕ → Bool
same_to f g zero = true
same_to f g (suc bound) = same_to f g bound && f bound == g bound

pub same_to_lem : (f g : ℕ → ℕ) (bound i : ℕ) → same_to f g bound ≡ true → i < bound → f i ≡ g i
unfolding same_to
same_to_lem f g zero i e l = absurd (omega (arith, l))
same_to_lem f g (suc bound) i e l = ground (arith, same_to_lem f g bound i)
