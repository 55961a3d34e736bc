-- ===== src/Prelude/Sorting.antt =====
-- `sort.Slice`, and what it keeps.
use Prim.Native.Nat.{suc}
use Prim.Native.String.{String, compare}
use text.Mathlib.Text.{is_lt}
use mathlib.Core.Path.{◌≡◌, refl, ap, ◌∙◌}
use mathlib.Core.Logic.{◌↔◌, ◌⊎◌, inl, inr}
use mathlib.Core.Bool.{Bool, true, false}
use mathlib.Core.List.{List, [], ◌∷◌}
use project_mittens.Prelude.Tests.{if◌then◌else◌, Bool-cases}
use project_mittens.Prelude.Lists.{All, Has, length}

-- `a < b` on Go's strings
abbrev pub str_lt : String → String → Bool
str_lt a b = is_lt (compare a b)

module _ {A : Type 0} (less : A → A → Bool) where
  -- Before the first one that is greater.
  unfoldable pub insert_sorted : A → List A → List A
  insert_sorted y [] = y ∷ []
  insert_sorted y (x ∷ xs) =
      let rest = insert_sorted y xs in if less y x then y ∷ x ∷ xs else x ∷ rest

  -- `sort.Slice`; elements of which neither is less, which it leaves in no certain order, in theirs.
  unfoldable pub sort_by : List A → List A
  unfolding insert_sorted
  sort_by [] = []
  sort_by (x ∷ xs) = insert_sorted x (sort_by xs)

  module _ {ℓ} (P : A → Type ℓ) where
    pub All-insert_sorted : (y : A) (xs : List A) → P y → All P xs → All P (insert_sorted y xs)
    unfolding insert_sorted
    All-insert_sorted y [] p _ = (p, tt)
    All-insert_sorted y (x ∷ xs) p (q, qs) = elim (Bool-cases (less y x)) [
      | inl e ↦ rw e (p, (q, qs))
      | inr e ↦ rw e (q, All-insert_sorted y xs p qs)
    ]

    pub All-sort_by : (xs : List A) → All P xs → All P (sort_by xs)
    unfolding sort_by
    All-sort_by [] _ = tt
    All-sort_by (x ∷ xs) (p, ps) = All-insert_sorted x (sort_by xs) p (All-sort_by xs ps)

    insert_sorted-All : (y : A) (xs : List A) → All P (insert_sorted y xs) → P y × All P xs
    unfolding insert_sorted
    insert_sorted-All y [] = λ p. p
    insert_sorted-All y (x ∷ xs) = by_test (insert_sorted-All y xs) (Bool-cases (less y x))
      where
        by_test :
            (All P (insert_sorted y xs) → P y × All P xs)
            → (less y x ≡ true) ⊎ (less y x ≡ false)
            → All P (if less y x then y ∷ x ∷ xs else x ∷ insert_sorted y xs)
            → P y × (P x × All P xs)
        by_test rest (inl e) = rw e (λ h. h)
        by_test rest (inr e) = rw e (λ h. let (p, q) = rest h.1 in (p, (h.0, q)))

    pub sort_by-All : (xs : List A) → All P (sort_by xs) → All P xs
    unfolding sort_by
    sort_by-All [] _ = tt
    sort_by-All (x ∷ xs) h =
        let (p, q) = insert_sorted-All x (sort_by xs) h in (p, sort_by-All xs q)

  insert_sorted-Has : (z y : A) (xs : List A) → Has z (insert_sorted y xs) → Has z (y ∷ xs)
  unfolding insert_sorted
  insert_sorted-Has z y [] = λ h. h
  insert_sorted-Has z y (x ∷ xs) = by_test (insert_sorted-Has z y xs) (Bool-cases (less y x))
    where
      by_test :
          (Has z (insert_sorted y xs) → Has z (y ∷ xs))
          → (less y x ≡ true) ⊎ (less y x ≡ false)
          → Has z (if less y x then y ∷ x ∷ xs else x ∷ insert_sorted y xs)
          → Has z (y ∷ x ∷ xs)
      by_test rest (inl e) = rw e (λ h. h)
      by_test rest (inr e) = rw e (λ h. elim h [
        | inl q ↦ inr (inl q)
        | inr k ↦ elim (rest k) [ inl q ↦ inl q | inr m ↦ inr (inr m) ]
      ])

  Has-insert_sorted : (z y : A) (xs : List A) → Has z (y ∷ xs) → Has z (insert_sorted y xs)
  unfolding insert_sorted
  Has-insert_sorted z y [] = λ h. h
  Has-insert_sorted z y (x ∷ xs) = by_test (Has-insert_sorted z y xs) (Bool-cases (less y x))
    where
      by_test :
          (Has z (y ∷ xs) → Has z (insert_sorted y xs))
          → (less y x ≡ true) ⊎ (less y x ≡ false)
          → Has z (y ∷ x ∷ xs)
          → Has z (if less y x then y ∷ x ∷ xs else x ∷ insert_sorted y xs)
      by_test rest (inl e) = rw e (λ h. h)
      by_test rest (inr e) = rw e (λ h. elim h [
        | inl q ↦ inr (rest (inl q))
        | inr (inl q) ↦ inl q
        | inr (inr m) ↦ inr (rest (inr m))
      ])

  -- Sorting keeps the elements.
  pub sort_by-Has : (z : A) (xs : List A) → Has z (sort_by xs) ↔ Has z xs
  unfolding sort_by
  sort_by-Has z [] = (λ h. h, λ h. h)
  sort_by-Has z (x ∷ xs) =
      let (to, from) = sort_by-Has z xs in
      (
        λ h. elim (insert_sorted-Has z x (sort_by xs) h) [ inl q ↦ inl q | inr k ↦ inr (to k) ],
        λ h. Has-insert_sorted z x (sort_by xs) (elim h [ inl q ↦ inl q | inr k ↦ inr (from k) ]),
      )

  length-insert_sorted : (y : A) (xs : List A) → length (insert_sorted y xs) ≡ suc (length xs)
  unfolding insert_sorted
  length-insert_sorted y [] = refl
  length-insert_sorted y (x ∷ xs) = elim (Bool-cases (less y x)) [
    | inl e ↦ rw e refl
    | inr e ↦ rw e (ap suc (length-insert_sorted y xs))
  ]

  pub length-sort_by : (xs : List A) → length (sort_by xs) ≡ length xs
  unfolding sort_by
  length-sort_by [] = refl
  length-sort_by (x ∷ xs) = length-insert_sorted x (sort_by xs) ∙ ap suc (length-sort_by xs)
