-- ===== src/Prelude/Canonical.antt =====
-- Sorting forgets the order of a list, where no two of its elements are left in no certain order.
use Prim.Native.String.{String}
use mathlib.Core.Path.{◌≡◌, refl, sym, ap, ◌∙◌, subst}
use mathlib.Core.Logic.{◌⊎◌, inl, inr}
use mathlib.Core.Bool.{Bool, true, false}
use mathlib.Core.List.{List, [], ◌∷◌, ◌++◌, append_assoc, Permᴰ}
use mathlib.Core.List.Permᴰ
use project_mittens.Prelude.Tests.{Bool-cases}
use project_mittens.Prelude.Lists.{Has, All, All-map}
use project_mittens.Prelude.Seen.{Distinct}
use project_mittens.Prelude.Sorting.{insert_sorted, sort_by}

module _ {A : Type 0} where
  -- What one order of a list has, another has.
  pub Has-perm : (x : A) {xs ys : List A} → Permᴰ xs ys → Has x xs → Has x ys
  Has-perm x Permᴰ.nil h = h
  Has-perm x (Permᴰ.cons e p) (inl q) = inl (sym e ∙ q)
  Has-perm x (Permᴰ.cons e p) (inr h) = inr (Has-perm x p h)
  Has-perm x (Permᴰ.swap a b) (inl q) = inr (inl (sym a ∙ q))
  Has-perm x (Permᴰ.swap a b) (inr (inl q)) = inl (sym b ∙ q)
  Has-perm x (Permᴰ.swap a b) (inr (inr h)) = inr (inr h)
  Has-perm x (Permᴰ.trans p q) h = Has-perm x q (Has-perm x p h)

  pub All-perm {κ} : (P : A → Type κ) {xs ys : List A} → Permᴰ xs ys → All P xs → All P ys
  All-perm P Permᴰ.nil h = h
  All-perm P (Permᴰ.cons e p) h = (subst P e h.0, All-perm P p h.1)
  All-perm P (Permᴰ.swap a b) (h, (k, t)) = (subst P b k, (subst P a h, t))
  All-perm P (Permᴰ.trans p q) h = All-perm P q (All-perm P p h)

  exchanged : (xs ys zs : List A) → Permᴰ (ys ++ (xs ++ zs)) (xs ++ (ys ++ zs))
  exchanged xs ys zs =
      rw (sym (append_assoc ys xs zs))
        (rw (sym (append_assoc xs ys zs)) (Permᴰ.append_right zs (Permᴰ.append_comm ys xs)))

module _ {A B : Type 0} (g : A → List B) where
  abbrev pub flat_map : List A → List B
  flat_map [] = []
  flat_map (x ∷ xs) = g x ++ flat_map xs

  pub flat_map-append : (xs ys : List A) → flat_map (xs ++ ys) ≡ flat_map xs ++ flat_map ys
  flat_map-append [] ys = refl
  flat_map-append (x ∷ xs) ys =
      rw (flat_map-append xs ys) (sym (append_assoc (g x) (flat_map xs) (flat_map ys)))

  pub flat_map-perm : {xs ys : List A} → Permᴰ xs ys → Permᴰ (flat_map xs) (flat_map ys)
  flat_map-perm Permᴰ.nil = Permᴰ.nil
  flat_map-perm (Permᴰ.cons {b} e p) = rw e (Permᴰ.append_left (g b) (flat_map-perm p))
  flat_map-perm (Permᴰ.swap {a'} {b'} {l} e d) = rw (e, d) (exchanged (g a') (g b') (flat_map l))
  flat_map-perm (Permᴰ.trans p q) = Permᴰ.trans (flat_map-perm p) (flat_map-perm q)

module _ {A : Type 0} (less : A → A → Bool) where
  -- One comes before the other, or they are the same.
  abbrev pub Comparable : A → A → Type 0
  Comparable x y = (less x y ≡ true) ⊎ (x ≡ y) ⊎ (less y x ≡ true)

  abbrev pub Separated : List A → Type 0
  Separated xs = (x y : A) → Has x xs → Has y xs → Comparable x y

module _ {A : Type 0} (less : A → A → Bool) (asym : (x y : A) → less x y ≡ true → less y x ≡ false)
    (trans : (x y z : A) → less x y ≡ true → less y z ≡ true → less x z ≡ true) where
  insert_sorted_comm :
      (x y : A) (zs : List A)
      → less x y ≡ true
      → insert_sorted less x (insert_sorted less y zs)
        ≡ insert_sorted less y (insert_sorted less x zs)
  unfolding insert_sorted
  insert_sorted_comm x y [] h = rw (h, asym x y h) refl
  insert_sorted_comm x y (z ∷ zs) h = elim (Bool-cases (less x z)) [
    | inl p ↦ elim (Bool-cases (less y z)) [
      | inl q ↦ rw (p, q, h, asym x y h) refl
      | inr q ↦ rw (p, q, p, asym x y h) refl
    ]
    | inr p ↦ elim (Bool-cases (less y z)) [
      | inl q ↦ absurd (cc (sym p ∙ trans x y z h q))
      | inr q ↦ rw (p, q, p) (ap (λ l. z ∷ l) (insert_sorted_comm x y zs h))
    ]
  ]

  sort_cons :
      (x y : A) (zs : List A)
      → Comparable less x y
      → insert_sorted less x (insert_sorted less y zs)
        ≡ insert_sorted less y (insert_sorted less x zs)
  sort_cons x y zs (inl h) = insert_sorted_comm x y zs h
  sort_cons x y zs (inr (inl e)) = rw e refl
  sort_cons x y zs (inr (inr h)) = sym (insert_sorted_comm y x zs h)

  -- Two orders of one list are sorted alike.
  pub sort_by-perm :
      {xs ys : List A} → Permᴰ xs ys → Separated less xs → sort_by less xs ≡ sort_by less ys
  unfolding sort_by
  sort_by-perm Permᴰ.nil s = refl
  sort_by-perm (Permᴰ.cons {b} e p) s =
      rw e (ap (insert_sorted less b) (sort_by-perm p (λ x y h k. s x y (inr h) (inr k))))
  sort_by-perm (Permᴰ.swap {a} {b} {l} e d) s =
      rw (sym e, sym d) (sort_cons a b (sort_by less l) (s a b (inl refl) (inr (inl refl))))
  sort_by-perm (Permᴰ.trans p q) s =
      sort_by-perm p s
      ∙ sort_by-perm q
          (λ x y h k. s x y (Has-perm x (Permᴰ.symm p) h) (Has-perm y (Permᴰ.symm p) k))

module _ {A : Type 0} (less : A → A → Bool) where
  insert_sorted-perm : (x : A) (xs : List A) → Permᴰ (insert_sorted less x xs) (x ∷ xs)
  unfolding insert_sorted
  insert_sorted-perm x [] = Permᴰ.refl (x ∷ [])
  insert_sorted-perm x (y ∷ ys) = elim (Bool-cases (less x y)) [
    | inl e ↦ rw e (Permᴰ.refl (x ∷ y ∷ ys))
    | inr e ↦ rw e (Permᴰ.trans (Permᴰ.cons refl (insert_sorted-perm x ys)) (Permᴰ.swap refl refl))
  ]

  -- Sorting is a rearrangement.
  pub perm-sort_by : (xs : List A) → Permᴰ xs (sort_by less xs)
  unfolding sort_by
  perm-sort_by [] = Permᴰ.nil
  perm-sort_by (x ∷ xs) =
      Permᴰ.trans (Permᴰ.cons refl (perm-sort_by xs))
        (Permᴰ.symm (insert_sorted-perm x (sort_by less xs)))

pub Distinct-perm : {xs ys : List String} → Permᴰ xs ys → Distinct xs → Distinct ys
Distinct-perm Permᴰ.nil h = h
Distinct-perm (Permᴰ.cons {l₂} e p) (n, d) =
    (All-map _ _ (λ j q r. q (e ∙ r)) l₂ (All-perm _ p n), Distinct-perm p d)
Distinct-perm (Permᴰ.swap {a} {b} {a'} {b'} {l} e d) ((n, ns), (m, t)) = (
  (λ q. n (e ∙ sym q ∙ sym d), All-map _ _ (λ j q r. q (d ∙ r)) l m),
  (All-map _ _ (λ j q r. q (e ∙ r)) l ns, t),
)
Distinct-perm (Permᴰ.trans p q) h = Distinct-perm q (Distinct-perm p h)
