-- ===== src/Dispatch/Matcher/Exact/Indexes.antt =====
-- The ids of the candidates have an index.
use mathlib.Core.Path.{subst}
use text.Mathlib.TextEquality.{eq_iff}
use project_mittens.Prelude.{
  ◌<◌, ◌≢◌, refl, sym, ◌∙◌, inl, inr, Bool, true, String, List, [], ◌∷◌, map, length, All, All-Has,
  Has, arith, if_cases,
}
use project_mittens.Prelude.Dict.{Dict, insert, str_eq}
use project_mittens.Prelude.Sorting.{str_lt, sort_by-Has}
use project_mittens.Prelude.Keyed.{fetch-index}
use project_mittens.Prelude.Counts.{nth-lt}
use project_mittens.Prelude.Seen.{Distinct}
use project_mittens.Prelude.Canonical.{perm-sort_by, Distinct-perm}
use project_mittens.Dispatch.Matcher.Exact.{index_of, add_ids, canonical_ids, number_ids}

abbrev keys {ℓ} : {V : Type ℓ} → Dict V → List String
keys d = map (λ e. e.0) d

abbrev HasKey : String → Dict Bool → Type 0
HasKey id d = Has id (keys d)

Has-insert : (id : String) (d : Dict Bool) → Has id (keys (insert id true d))
unfolding insert
Has-insert id [] = inl refl
Has-insert id ((j, w) ∷ d) =
    if_cases (HasKey id) (str_eq j id) ((id, true) ∷ d) ((j, w) ∷ insert id true d) (λ _. inl refl)
      (λ _. inr (Has-insert id d))

insert-Has : (id k : String) (d : Dict Bool) → Has id (keys d) → Has id (keys (insert k true d))
unfolding insert
insert-Has id k [] h = absurd h
insert-Has id k ((j, w) ∷ d) (inl e) =
    if_cases (HasKey id) (str_eq j k) ((k, true) ∷ d) ((j, w) ∷ insert k true d)
      (λ q. inl (sym ((eq_iff j k).0 q) ∙ e)) (λ _. inl e)
insert-Has id k ((j, w) ∷ d) (inr h) =
    if_cases (HasKey id) (str_eq j k) ((k, true) ∷ d) ((j, w) ∷ insert k true d) (λ q. inr h)
      (λ _. inr (insert-Has id k d h))

add_ids-kept :
    (id : String) (ids : List String) (d : Dict Bool)
    → Has id (keys d)
    → Has id (keys (add_ids ids d))
add_ids-kept id [] d h = h
add_ids-kept id (k ∷ ids) d h = add_ids-kept id ids (insert k true d) (insert-Has id k d h)

add_ids-Has :
    (id : String) (ids : List String) (d : Dict Bool) → Has id ids → Has id (keys (add_ids ids d))
add_ids-Has id [] d h = absurd h
add_ids-Has id (k ∷ ids) d (inl e) =
    add_ids-kept id ids (insert k true d)
      (subst (λ x. Has x (keys (insert k true d))) e (Has-insert k d))
add_ids-Has id (k ∷ ids) d (inr h) = add_ids-Has id ids (insert k true d) h

pub canonical_ids-Has : (id : String) (ids : List String) → Has id ids → Has id (canonical_ids ids)
unfolding canonical_ids
canonical_ids-Has id ids h =
    (sort_by-Has str_lt id (keys (add_ids ids []))).1 (add_ids-Has id ids [] h)

pub index_of-lt :
    (id : String) (ids : List String) → Has id ids → index_of id (number_ids ids) < length ids
index_of-lt id ids h = elim (fetch-index (λ x. x) ids id) [
  | inl (_, none_has) ↦ absurd (All-Has _ ids id none_has h refl)
  | inr (k, x, e, q, _, _) ↦ rw e (omega (arith, nth-lt ids k x q))
]

pub index_of-canonical_ids :
    (id : String) (ids : List String)
    → Has id ids
    → index_of id (number_ids (canonical_ids ids)) < length (canonical_ids ids)
index_of-canonical_ids id ids h = index_of-lt id (canonical_ids ids) (canonical_ids-Has id ids h)

-- An id other than those of the map and than `k` is still another.
insert-other :
    (x k : String) (d : Dict Bool)
    → x ≢ k
    → All (λ j. x ≢ j) (keys d)
    → All (λ j. x ≢ j) (keys (insert k true d))
unfolding insert
insert-other x k [] apart _ = (apart, tt)
insert-other x k ((j, w) ∷ d) apart (n, ns) =
    if_cases (λ e. All (λ j. x ≢ j) (keys {V = Bool} e)) (str_eq j k) ((k, true) ∷ d)
      ((j, w) ∷ insert k true d) (λ _. (apart, ns)) (λ _. (n, insert-other x k d apart ns))

abbrev HasDistinct : Dict Bool → Type 0
HasDistinct d = Distinct (keys d)

insert-HasDistinct : (k : String) (d : Dict Bool) → HasDistinct d → HasDistinct (insert k true d)
unfolding insert
insert-HasDistinct k [] _ = (tt, tt)
insert-HasDistinct k ((j, w) ∷ d) (n, ns) =
    if_cases HasDistinct (str_eq j k) ((k, true) ∷ d) ((j, w) ∷ insert k true d)
      (λ q. (subst (λ x. All (λ j. x ≢ j) (keys d)) ((eq_iff j k).0 q) n, ns))
      (λ q. (insert-other j k d (λ e. cc (sym q ∙ (eq_iff j k).1 e)) n, insert-HasDistinct k d ns))

add_ids-HasDistinct :
    (ids : List String) (d : Dict Bool) → HasDistinct d → HasDistinct (add_ids ids d)
add_ids-HasDistinct [] d h = h
add_ids-HasDistinct (k ∷ ids) d h =
    add_ids-HasDistinct ids (insert k true d) (insert-HasDistinct k d h)

pub canonical_ids-Distinct : (ids : List String) → Distinct (canonical_ids ids)
unfolding canonical_ids
canonical_ids-Distinct ids =
    Distinct-perm (perm-sort_by str_lt (keys (add_ids ids []))) (add_ids-HasDistinct ids [] tt)
