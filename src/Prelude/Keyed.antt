-- ===== src/Prelude/Keyed.antt =====
-- Lists by position, and found by a text for a key through an index.
use Prim.Native.Nat.{ℕ, zero, suc, ◌+◌}
use Prim.Native.String.{String}
use text.Mathlib.TextEquality.{eq_iff}
use mathlib.Core.Path.{◌≡◌, refl, sym, ap, ◌∙◌, subst}
use mathlib.Core.Logic.{◌≢◌, ◌⊎◌, inl, inr}
use mathlib.Core.List.{List, [], ◌∷◌}
use mathlib.Core.Option.{Option, none, some}
use native.Mathlib.Omega.{arith}
use project_mittens.Prelude.Tests.{Bool-cases}
use project_mittens.Prelude.Lists.{All, length}
use project_mittens.Prelude.Dict.{Dict, lookup, insert, lookup-insert, str_eq}

module _ {A : Type 0} where
  -- `xs[i]`, where there is one.
  abbrev pub nth : List A → ℕ → Option A
  nth [] i = none
  nth (x ∷ xs) zero = some x
  nth (x ∷ xs) (suc i) = nth xs i

  -- `xs[i] = y`
  abbrev pub put : List A → ℕ → A → List A
  put [] i y = []
  put (x ∷ xs) zero y = y ∷ xs
  put (x ∷ xs) (suc i) y = x ∷ put xs i y

  pub length-put : (xs : List A) (i : ℕ) (y : A) → length (put xs i y) ≡ length xs
  length-put [] i y = refl
  length-put (x ∷ xs) zero y = refl
  length-put (x ∷ xs) (suc i) y = ap suc (length-put xs i y)

  pub nth-put_same :
      (xs : List A) (i : ℕ) (x y : A) → nth xs i ≡ some x → nth (put xs i y) i ≡ some y
  nth-put_same [] i x y e = absurd (cc e)
  nth-put_same (z ∷ zs) zero x y e = refl
  nth-put_same (z ∷ zs) (suc i) x y e = nth-put_same zs i x y e

  pub nth-put_other : (xs : List A) (i j : ℕ) (y : A) → i ≢ j → nth (put xs i y) j ≡ nth xs j
  nth-put_other [] i j y n = refl
  nth-put_other (z ∷ zs) zero zero y n = absurd (n refl)
  nth-put_other (z ∷ zs) zero (suc j) y n = refl
  nth-put_other (z ∷ zs) (suc i) zero y n = refl
  nth-put_other (z ∷ zs) (suc i) (suc j) y n = nth-put_other zs i j y (λ e. n (ap suc e))

  pub nth-All {κ} :
      (P : A → Type κ) (xs : List A) (i : ℕ) (x : A) → nth xs i ≡ some x → All P xs → P x
  nth-All P [] i x e _ = absurd (cc e)
  nth-All P (y ∷ ys) zero x e (p, _) = subst P (cc e) p
  nth-All P (y ∷ ys) (suc i) x e (_, ps) = nth-All P ys i x e ps

  pub All-put {κ} :
      (P : A → Type κ) (xs : List A) (i : ℕ) (x : A) → P x → All P xs → All P (put xs i x)
  All-put P [] i x p _ = tt
  All-put P (y ∷ ys) zero x p (_, ps) = (p, ps)
  All-put P (y ∷ ys) (suc i) x p (q, ps) = (q, All-put P ys i x p ps)

module _ {A : Type 0} (key : A → String) where
  -- `for i, x := range xs { index[x.ID] = i }`
  unfoldable pub index_from : ℕ → List A → Dict ℕ → Dict ℕ
  index_from i [] index = index
  index_from i (x ∷ xs) index = index_from (suc i) xs (insert (key x) i index)

  -- Where the index `r` of the last element with the key `id` is, in a list that starts at `i`.
  abbrev Located : String → ℕ → List A → Option ℕ → Option ℕ → Type 0
  Located id i xs o r =
      ((r ≡ o) × All (λ x. key x ≢ id) xs)
      ⊎ ((k : ℕ) × (x : A) × (r ≡ some (i + k)) × (nth xs k ≡ some x) × (key x ≡ id))

  index_from-Located :
      (id : String) (i : ℕ) (xs : List A) (index : Dict ℕ)
      → Located id i xs (lookup id index) (lookup id (index_from i xs index))
  unfolding index_from
  index_from-Located id i [] index = inl (refl, tt)
  index_from-Located id i (x ∷ xs) index =
      elim (index_from-Located id (suc i) xs (insert (key x) i index)) [
        | inr (k, y, r, n, e) ↦ inr (suc k, y, r ∙ ap some (omega arith), n, e)
        | inl (r, a) ↦ elim (Bool-cases (str_eq (key x) id)) [
          | inl e ↦ inr (
            0,
            x,
            r ∙ lookup-insert (key x) id i index ∙ rw e (ap some (omega arith)),
            refl,
            (eq_iff (key x) id).0 e,
          )
          | inr e ↦ inl (
            r ∙ lookup-insert (key x) id i index ∙ rw e refl,
            (λ q. cc (sym e ∙ (eq_iff (key x) id).1 q), a),
          )
        ]
      ]

  abbrev pub at_index : List A → Option ℕ → Option A
  at_index xs none = none
  at_index xs (some i) = nth xs i

  -- `xs[index[id]]`
  abbrev pub fetch : Dict ℕ → List A → String → Option A
  fetch index xs id = at_index xs (lookup id index)

  -- An index finds an element with the key, or there is none.
  pub fetch-index :
      (xs : List A) (id : String)
      → ((fetch (index_from 0 xs []) xs id ≡ none) × All (λ x. key x ≢ id) xs)
        ⊎ ((k : ℕ) × (x : A) × (lookup id (index_from 0 xs []) ≡ some k)
            × (nth xs k ≡ some x)
            × (fetch (index_from 0 xs []) xs id ≡ some x)
            × (key x ≡ id))
  unfolding lookup
  fetch-index xs id = elim (index_from-Located id 0 xs []) [
    | inl (r, a) ↦ inl (rw r refl, a)
    | inr (k, x, r, n, e) ↦
        let at : lookup id (index_from 0 xs []) ≡ some k = r ∙ ap some (omega arith) in
        inr (k, x, at, n, rw at n, e)
  ]
