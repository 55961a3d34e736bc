-- ===== src/Prelude/Lists.antt =====
-- Lists measured and indexed by native numbers.
use Prim.Native.Nat.{ℕ, zero, suc, ◌+◌, ◌<◌}
use mathlib.Core.Path.{◌≡◌, refl, subst}
use mathlib.Core.Logic.{◌⊎◌, inl, inr}
use mathlib.Core.List.{List, [], ◌∷◌, ◌++◌}
use mathlib.Core.Option.{Option, none, some}
use mathlib.Core.Option
use native.Mathlib.Omega.{arith}

module _ {ℓ} {A : Type ℓ} where
  abbrev pub length : List A → ℕ
  length [] = 0
  length (x ∷ xs) = suc (length xs)

  pub length-append : (xs ys : List A) → length (xs ++ ys) ≡ length xs + length ys
  length-append [] ys = omega arith
  length-append (x ∷ xs) ys = omega (arith, length-append xs ys)

module _ {ℓ} {A : Type ℓ} where
  -- `xs[1:]`, where there is one.
  abbrev pub tail : List A → List A
  tail [] = []
  tail (x ∷ xs) = xs

  abbrev pub replicate : ℕ → A → List A
  replicate zero a = []
  replicate (suc n) a = a ∷ replicate n a

  pub length-replicate : (n : ℕ) (a : A) → length (replicate n a) ≡ n
  length-replicate zero a = refl
  length-replicate (suc n) a = omega (arith, length-replicate n a)

  abbrev pub All {κ} : (A → Type κ) → List A → Type κ
  All P [] = Unit
  All P (x ∷ xs) = P x × All P xs

  pub All-append {κ} : (P : A → Type κ) (xs ys : List A) → All P xs → All P ys → All P (xs ++ ys)
  All-append P [] ys _ q = q
  All-append P (x ∷ xs) ys (p, ps) q = (p, All-append P xs ys ps q)

  pub All-map {κ μ} :
      (P : A → Type κ) (Q : A → Type μ)
      → ((x : A) → P x → Q x)
      → (xs : List A) → All P xs
      → All Q xs
  All-map P Q f [] _ = tt
  All-map P Q f (x ∷ xs) (p, ps) = (f x p, All-map P Q f xs ps)

abbrev pub sum : List ℕ → ℕ
sum [] = 0
sum (x ∷ xs) = x + sum xs

-- `xs[i] += n`; `none` is the panic on an index out of range.
abbrev pub add_at : List ℕ → ℕ → ℕ → Option (List ℕ)
add_at [] i n = none
add_at (x ∷ xs) zero n = some ((x + n) ∷ xs)
add_at (x ∷ xs) (suc i) n = Option.map (λ ys. x ∷ ys) (add_at xs i n)

-- A write in range succeeds, keeps the length and adds to the sum.
pub add_at-some :
    (xs : List ℕ) (i n : ℕ)
    → i < length xs
    → (ys : List ℕ) × (add_at xs i n ≡ some ys) × (length ys ≡ length xs) × (sum ys ≡ sum xs + n)
add_at-some [] i n h = absurd (omega arith)
add_at-some (x ∷ xs) zero n h = ((x + n) ∷ xs, refl, refl, omega arith)
add_at-some (x ∷ xs) (suc i) n h =
    let (ys, e, l, s) = add_at-some xs i n (omega arith) in (x ∷ ys, rw e, omega arith, omega arith)

module _ {ℓ} {A : Type ℓ} where
  -- `xs[len(xs)-1]`, where there is one.
  abbrev pub last : List A → Option A
  last [] = none
  last (x ∷ []) = some x
  last (x ∷ y ∷ ys) = last (y ∷ ys)

  pub last-append : (xs : List A) (y : A) → last (xs ++ (y ∷ [])) ≡ some y
  last-append [] y = refl
  last-append (x ∷ []) y = refl
  last-append (x ∷ z ∷ zs) y = last-append (z ∷ zs) y

module _ {A : Type 0} where
  abbrev pub Has : A → List A → Type 0
  Has x [] = ⊥
  Has x (y ∷ ys) = (y ≡ x) ⊎ Has x ys

  pub append-Has : (x : A) (xs ys : List A) → Has x (xs ++ ys) → Has x xs ⊎ Has x ys
  append-Has x [] ys h = inr h
  append-Has x (y ∷ xs) ys (inl e) = inl (inl e)
  append-Has x (y ∷ xs) ys (inr h) = elim (append-Has x xs ys h) [
    | inl k ↦ inl (inr k)
    | inr k ↦ inr k
  ]

  pub Has-append : (x : A) (xs ys : List A) → Has x xs ⊎ Has x ys → Has x (xs ++ ys)
  Has-append x [] ys (inl h) = absurd h
  Has-append x [] ys (inr h) = h
  Has-append x (y ∷ xs) ys (inl (inl e)) = inl e
  Has-append x (y ∷ xs) ys (inl (inr h)) = inr (Has-append x xs ys (inl h))
  Has-append x (y ∷ xs) ys (inr h) = inr (Has-append x xs ys (inr h))

  pub All-Has {κ} : (P : A → Type κ) (xs : List A) (x : A) → All P xs → Has x xs → P x
  All-Has P [] x _ h = absurd h
  All-Has P (y ∷ ys) x (p, ps) (inl e) = subst P e p
  All-Has P (y ∷ ys) x (p, ps) (inr h) = All-Has P ys x ps h
