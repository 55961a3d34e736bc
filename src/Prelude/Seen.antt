-- ===== src/Prelude/Seen.antt =====
-- Lists of texts without repetition, and the maps that remember what has been seen.
use Prim.Native.String.{String}
use text.Mathlib.TextEquality.{eq_iff}
use mathlib.Core.Path.{◌≡◌, refl, sym, ap, ◌∙◌}
use mathlib.Core.Logic.{◌≢◌, inl, inr}
use mathlib.Core.Bool.{Bool, true, false}
use mathlib.Core.List.{List, [], ◌∷◌}
use mathlib.Core.Option.{Option, none, some}
use project_mittens.Prelude.Tests.{if◌then◌else◌, Bool-cases}
use project_mittens.Prelude.Lists.{All}
use project_mittens.Prelude.Dict.{Dict, lookup, insert, lookup-insert, str_eq}

-- No text is twice in the list.
abbrev pub Distinct : List String → Type 0
Distinct [] = Unit
Distinct (k ∷ ks) = All (λ j. k ≢ j) ks × Distinct ks

-- A `map[string]bool` that is only ever written `true`.
abbrev pub or_false : Option Bool → Bool
or_false none = false
or_false (some b) = b

abbrev pub seen : String → Dict Bool → Bool
seen k d = or_false (lookup k d)

pub seen-insert :
    (k j : String) (d : Dict Bool)
    → seen j (insert k true d) ≡ (if str_eq k j then true else seen j d)
seen-insert k j d = ap or_false (lookup-insert k j true d) ∙ by_test (str_eq k j)
  where
    by_test :
        (b : Bool)
        → or_false (if b then some true else lookup j d)
          ≡ (if b then true else or_false (lookup j d))
    by_test true = refl
    by_test false = refl

abbrev pub Unseen : Dict Bool → List String → Type 0
Unseen d ks = All (λ k. seen k d ≡ false) ks

pub Unseen-insert :
    (k : String) (d : Dict Bool) (ks : List String)
    → Unseen (insert k true d) ks
    → All (λ j. k ≢ j) ks × Unseen d ks
Unseen-insert k d [] _ = (tt, tt)
Unseen-insert k d (j ∷ js) (h, hs) =
    let (a, b) = Unseen-insert k d js hs in
    let test = sym (seen-insert k j d) ∙ h in
    elim (Bool-cases (str_eq k j)) [
      | inl e ↦ absurd (cc (rw e at test))
      | inr e ↦ ((λ q. cc (sym e ∙ (eq_iff k j).1 q), a), (rw e at test, b))
    ]

pub insert-Unseen :
    (k : String) (d : Dict Bool) (ks : List String)
    → All (λ j. k ≢ j) ks
    → Unseen d ks
    → Unseen (insert k true d) ks
insert-Unseen k d [] _ _ = tt
insert-Unseen k d (j ∷ js) (n, ns) (h, hs) = (
  elim (Bool-cases (str_eq k j)) [
    | inl e ↦ absurd (n ((eq_iff k j).0 e))
    | inr e ↦ seen-insert k j d ∙ rw e h
  ],
  insert-Unseen k d js ns hs,
)

pub Unseen-none : (ks : List String) → Unseen [] ks
unfolding lookup
Unseen-none [] = tt
Unseen-none (k ∷ ks) = (refl, Unseen-none ks)
