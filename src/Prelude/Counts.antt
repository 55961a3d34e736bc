-- ===== src/Prelude/Counts.antt =====
-- How often a number is in a list, and what a write does to that.
use Prim.Native.Nat.{ℕ, zero, suc, ◌+◌, ◌<◌}
use mathlib.Core.Path.{◌≡◌, refl, ap}
use mathlib.Core.Logic.{inl, inr}
use mathlib.Core.List.{List, [], ◌∷◌}
use mathlib.Core.Option.{some}
use native.Mathlib.Omega.{arith}
use project_mittens.Prelude.Tests.{◌==◌, if◌then◌else◌, Bool-cases}
use project_mittens.Prelude.Lists.{length}
use project_mittens.Prelude.Keyed.{nth, put}

abbrev pub hit : ℕ → ℕ → ℕ
hit a x = if a == x then 1 else 0

-- How often `a` is in the list.
abbrev pub occurs : ℕ → List ℕ → ℕ
occurs a [] = 0
occurs a (x ∷ xs) = hit a x + occurs a xs

module _ {A : Type 0} where
  pub nth-some : (xs : List A) (i : ℕ) → i < length xs → (x : A) × (nth xs i ≡ some x)
  nth-some [] i h = absurd (omega arith)
  nth-some (x ∷ xs) zero h = (x, refl)
  nth-some (x ∷ xs) (suc i) h = nth-some xs i (omega arith)

  pub nth-lt : (xs : List A) (i : ℕ) (x : A) → nth xs i ≡ some x → i < length xs
  nth-lt [] i x e = absurd (cc e)
  nth-lt (y ∷ ys) zero x e = omega arith
  nth-lt (y ∷ ys) (suc i) x e = omega (arith, nth-lt ys i x e)

-- Where the list has `v` it still has it, once `v` is written somewhere.
pub nth-put : (xs : List ℕ) (i j v : ℕ) → nth xs j ≡ some v → nth (put xs i v) j ≡ some v
nth-put [] i j v h = h
nth-put (y ∷ ys) zero zero v h = refl
nth-put (y ∷ ys) zero (suc j) v h = h
nth-put (y ∷ ys) (suc i) zero v h = h
nth-put (y ∷ ys) (suc i) (suc j) v h = nth-put ys i j v h

pub occurs-put :
    (a : ℕ) (xs : List ℕ) (i x v : ℕ)
    → nth xs i ≡ some x
    → occurs a (put xs i v) + hit a x ≡ occurs a xs + hit a v
occurs-put a [] i x v h = absurd (cc h)
occurs-put a (y ∷ ys) zero x v h = ground arith
occurs-put a (y ∷ ys) (suc i) x v h = omega (arith, occurs-put a ys i x v h)

-- A number that is there is there somewhere.
pub occurs-nth : (a : ℕ) (xs : List ℕ) → 0 < occurs a xs → (k : ℕ) × (nth xs k ≡ some a)
occurs-nth a [] h = absurd (omega arith)
occurs-nth a (x ∷ xs) h = elim (Bool-cases (a == x)) [
  | inl e ↦ (0, ap some (ground arith))
  | inr e ↦ let (k, q) = occurs-nth a xs (ground arith) in (suc k, q)
]
