-- ===== src/Prelude/Texts.antt =====
-- Go's order of strings is a strict total order.
use Prim.Native.Nat.{ℕ, Ordering, compare as compare_ℕ}
use Prim.Native.Char.{code}
use Prim.Native.String.{String, compare}
use Prim.Native.String
use Prim.Native.String.compare
use text.Mathlib.Text.{is_lt}
use text.Mathlib.TextEquality.{path_by_compare}
use mathlib.Core.Path.{◌≡◌, refl, sym, ap, ◌∙◌}
use mathlib.Core.Logic.{◌⊎◌, inl, inr}
use mathlib.Core.Bool.{true, false}
use native.Mathlib.Omega.{arith}
use project_mittens.Prelude.Sorting.{str_lt}

abbrev flip : Ordering → Ordering
flip Ordering.lt = Ordering.gt
flip Ordering.eq = Ordering.eq
flip Ordering.gt = Ordering.lt

compare-flip : (s t : String) → compare t s ≡ flip (compare s t)
compare-flip String.[] String.[] = rw compare.nil-nil refl
compare-flip String.[] (String.◌∷◌ d t) = rw (compare.cons-nil d t, compare.nil-cons d t) refl
compare-flip (String.◌∷◌ c s) String.[] = rw (compare.cons-nil c s, compare.nil-cons c s) refl
compare-flip (String.◌∷◌ c s) (String.◌∷◌ d t) =
    rw (compare.cons-cons d c t s, compare.cons-cons c d s t) (ground (arith, compare-flip s t))

then_trans :
    (c d e : ℕ) (o p q : Ordering)
    → String.then (compare_ℕ c d) o ≡ Ordering.lt
    → String.then (compare_ℕ d e) p ≡ Ordering.lt
    → (o ≡ Ordering.lt → p ≡ Ordering.lt → q ≡ Ordering.lt)
    → String.then (compare_ℕ c e) q ≡ Ordering.lt
then_trans c d e o p q h k rest = ground arith

compare-lt_trans :
    (s t u : String)
    → compare s t ≡ Ordering.lt
    → compare t u ≡ Ordering.lt
    → compare s u ≡ Ordering.lt
compare-lt_trans String.[] String.[] u h k = absurd (cc (sym compare.nil-nil ∙ h))
compare-lt_trans String.[] (String.◌∷◌ d t) String.[] h k =
    absurd (cc (sym (compare.cons-nil d t) ∙ k))
compare-lt_trans String.[] (String.◌∷◌ d t) (String.◌∷◌ e u) h k = compare.nil-cons e u
compare-lt_trans (String.◌∷◌ c s) String.[] u h k = absurd (cc (sym (compare.cons-nil c s) ∙ h))
compare-lt_trans (String.◌∷◌ c s) (String.◌∷◌ d t) String.[] h k =
    absurd (cc (sym (compare.cons-nil d t) ∙ k))
compare-lt_trans (String.◌∷◌ c s) (String.◌∷◌ d t) (String.◌∷◌ e u) h k =
    compare.cons-cons c e s u
    ∙ then_trans (code c) (code d) (code e) (compare s t) (compare t u) (compare s u)
        (sym (compare.cons-cons c d s t) ∙ h) (sym (compare.cons-cons d e t u) ∙ k)
        (compare-lt_trans s t u)

lt_of : (o : Ordering) → is_lt o ≡ true → o ≡ Ordering.lt
lt_of Ordering.lt h = refl
lt_of Ordering.eq h = absurd (cc h)
lt_of Ordering.gt h = absurd (cc h)

pub str_lt_trans : (s t u : String) → str_lt s t ≡ true → str_lt t u ≡ true → str_lt s u ≡ true
str_lt_trans s t u h k = ap is_lt (compare-lt_trans s t u (lt_of _ h) (lt_of _ k))

pub str_lt_asym : (s t : String) → str_lt s t ≡ true → str_lt t s ≡ false
str_lt_asym s t h = ap is_lt (compare-flip s t) ∙ ap (λ o. is_lt (flip o)) (lt_of _ h)

pub str_lt_total : (s t : String) → (str_lt s t ≡ true) ⊎ (s ≡ t) ⊎ (str_lt t s ≡ true)
str_lt_total s t = by_order (compare s t) refl
  where
    by_order :
        (o : Ordering) → compare s t ≡ o → (str_lt s t ≡ true) ⊎ (s ≡ t) ⊎ (str_lt t s ≡ true)
    by_order Ordering.lt e = inl (ap is_lt e)
    by_order Ordering.eq e = inr (inl (path_by_compare s t e))
    by_order Ordering.gt e = inr (inr (ap is_lt (compare-flip s t ∙ ap flip e)))
