-- ===== src/Dispatch/Matcher/Greedy.antt =====
-- What the greedy matcher promises.
use text.Mathlib.TextEquality.{eq_iff}
use project_mittens.Prelude.{
  ◌≡◌, ◌⊎◌, refl, sym, ap, ◌∙◌, inl, inr, Bool, true, false, String, List, [], ◌∷◌, Bool-cases, Has,
  All, All-map,
}
use project_mittens.Prelude.Int.{ℤ}
use project_mittens.Prelude.Dict.{Dict, lookup, insert, str_eq}
use project_mittens.Prelude.Sorting.{sort_by}
use project_mittens.Prelude.Seen.{Distinct, seen, seen-insert, Unseen, Unseen-insert}
use project_mittens.Float.{Float}
use project_mittens.Fleet.Resource.{DriverLoadMatch}
use project_mittens.Fleet.Action.Feasible.{drivers_of, loads_of}
use project_mittens.Dispatch.Evaluations.{CandidateEvaluation}
use project_mittens.Dispatch.Matcher.{
  evaluation_less, match_of, is_unprofitable, assign, solve_greedy,
}

module _ {A : Type 0} where
  -- `c` stands at or before `e` in the list.
  abbrev pub Precedes : A → A → List A → Type 0
  Precedes c e [] = ⊥
  Precedes c e (x ∷ xs) = ((x ≡ c) × Has e (x ∷ xs)) ⊎ Precedes c e xs

seen_or :
    (k j : String) (d : Dict Bool) → seen j (insert k true d) ≡ true → (k ≡ j) ⊎ (seen j d ≡ true)
seen_or k j d h = elim (Bool-cases (str_eq k j)) [
  | inl e ↦ inl ((eq_iff k j).0 e)
  | inr e ↦ inr (rw e at (sym (seen-insert k j d) ∙ h))
]

module _ {W : Type 0} ⦃f : Float W⦄ (allow_negative : Bool) (epoch : ℤ) where
  -- A match is that of a candidate that may be assigned.
  abbrev pub IsOfCandidate : List (CandidateEvaluation W) → DriverLoadMatch W → Type 0
  IsOfCandidate es m =
      (c : CandidateEvaluation W) × Has c es
      × (is_unprofitable allow_negative c ≡ false)
      × (m ≡ match_of epoch c)

  -- A candidate at or before `e` has been matched that takes its driver or its load.
  abbrev pub IsBlocked :
      List (CandidateEvaluation W) → List (DriverLoadMatch W) → CandidateEvaluation W → Type 0
  IsBlocked es ms e =
      (c : CandidateEvaluation W) × Precedes c e es
      × Has (match_of epoch c) ms
      × ((c.driver_id ≡ e.driver_id) ⊎ (c.load_id ≡ e.load_id))

  -- No driver and no load is matched twice, each match is of a candidate that may be assigned, and
  -- each such candidate is matched or loses its driver or its load to one at or before it.
  pub record IsGreedy (es : List (CandidateEvaluation W)) (ms : List (DriverLoadMatch W))
      : Type 0 where
    pub drivers_distinct : Distinct (drivers_of ms)
    pub loads_distinct : Distinct (loads_of ms)
    pub of_candidates : All (IsOfCandidate es) ms
    pub maximal :
        (e : CandidateEvaluation W)
        → Has e es
        → is_unprofitable allow_negative e ≡ false
        → IsBlocked es ms e

  -- The same in the loop, where some drivers and loads are taken.
  record IsAssigning (ds ls : Dict Bool) (es : List (CandidateEvaluation W))
      (ms : List (DriverLoadMatch W)) : Type 0 where
    drivers_distinct : Distinct (drivers_of ms)
    drivers_unseen : Unseen ds (drivers_of ms)
    loads_distinct : Distinct (loads_of ms)
    loads_unseen : Unseen ls (loads_of ms)
    of_candidates : All (IsOfCandidate es) ms
    maximal :
        (e : CandidateEvaluation W)
        → Has e es
        → is_unprofitable allow_negative e ≡ false
        → (seen e.driver_id ds ≡ true) ⊎ (seen e.load_id ls ≡ true) ⊎ IsBlocked es ms e

  later :
      (x : CandidateEvaluation W) (es : List (CandidateEvaluation W)) (m : DriverLoadMatch W)
      → IsOfCandidate es m
      → IsOfCandidate (x ∷ es) m
  later x es m (c, h, p, e) = (c, inr h, p, e)

  IsBlocked-later :
      (x : CandidateEvaluation W) (es : List (CandidateEvaluation W))
      (ms : List (DriverLoadMatch W)) (e : CandidateEvaluation W)
      → IsBlocked es ms e
      → IsBlocked (x ∷ es) ms e
  IsBlocked-later x es ms e (c, p, h, s) = (c, inr p, h, s)

  -- A candidate that is passed over, because it may not be assigned or is taken.
  skip-IsAssigning :
      (ds ls : Dict Bool) (x : CandidateEvaluation W) (es : List (CandidateEvaluation W))
      (ms : List (DriverLoadMatch W))
      → (is_unprofitable allow_negative x ≡ true)
        ⊎ (seen x.driver_id ds ≡ true)
        ⊎ (seen x.load_id ls ≡ true)
      → IsAssigning ds ls es ms
      → IsAssigning ds ls (x ∷ es) ms
  skip-IsAssigning ds ls x es ms why a = record {
    drivers_distinct = a.drivers_distinct;
    drivers_unseen = a.drivers_unseen;
    loads_distinct = a.loads_distinct;
    loads_unseen = a.loads_unseen;
    of_candidates =
        All-map (IsOfCandidate es) (IsOfCandidate (x ∷ es)) (later x es) ms a.of_candidates;
    maximal = λ e h p. elim h [
      | inl q ↦ elim why [
        | inl u ↦ absurd (cc (sym u ∙ ap (λ c. is_unprofitable allow_negative c) q ∙ p))
        | inr (inl s) ↦ inl (sym (ap (λ c. seen c.driver_id ds) q) ∙ s)
        | inr (inr s) ↦ inr (inl (sym (ap (λ c. seen c.load_id ls) q) ∙ s))
      ]
      | inr k ↦ elim (a.maximal e k p) [
        | inl s ↦ inl s
        | inr (inl s) ↦ inr (inl s)
        | inr (inr b) ↦ inr (inr (IsBlocked-later x es ms e b))
      ]
    ];
  }

  take-IsAssigning :
      (ds ls : Dict Bool) (x : CandidateEvaluation W) (es : List (CandidateEvaluation W))
      (ms : List (DriverLoadMatch W))
      → is_unprofitable allow_negative x ≡ false
      → seen x.driver_id ds ≡ false
      → seen x.load_id ls ≡ false
      → IsAssigning (insert x.driver_id true ds) (insert x.load_id true ls) es ms
      → IsAssigning ds ls (x ∷ es) (match_of epoch x ∷ ms)
  take-IsAssigning ds ls x es ms may d l a =
      let (dn, du) = Unseen-insert x.driver_id ds (drivers_of ms) a.drivers_unseen in
      let (ln, lu) = Unseen-insert x.load_id ls (loads_of ms) a.loads_unseen in
      record {
        drivers_distinct = (dn, a.drivers_distinct);
        drivers_unseen = (d, du);
        loads_distinct = (ln, a.loads_distinct);
        loads_unseen = (l, lu);
        of_candidates = (
          (x, inl refl, may, refl),
          All-map (IsOfCandidate es) (IsOfCandidate (x ∷ es)) (later x es) ms a.of_candidates,
        );
        maximal = λ e h p. elim h [
          | inl q ↦ inr (inr (x, inl (refl, inl q), inl refl, inl (ap (λ c. c.driver_id) q)))
          | inr k ↦ elim (a.maximal e k p) [
            | inl s ↦ elim (seen_or x.driver_id e.driver_id ds s) [
              | inl q ↦ inr (inr (x, inl (refl, inr k), inl refl, inl q))
              | inr t ↦ inl t
            ]
            | inr (inl s) ↦ elim (seen_or x.load_id e.load_id ls s) [
              | inl q ↦ inr (inr (x, inl (refl, inr k), inl refl, inr q))
              | inr t ↦ inr (inl t)
            ]
            | inr (inr (c, r, m, s)) ↦ inr (inr (c, inr r, inr m, s))
          ]
        ];
      }

  assign-IsAssigning :
      (ds ls : Dict Bool) (objective net : W) (es : List (CandidateEvaluation W))
      → IsAssigning ds ls es (assign allow_negative epoch ds ls objective net es).matches
  unfolding assign
  assign-IsAssigning ds ls objective net [] = record {
    drivers_distinct = tt;
    drivers_unseen = tt;
    loads_distinct = tt;
    loads_unseen = tt;
    of_candidates = tt;
    maximal = λ e h _. absurd h;
  }
  assign-IsAssigning ds ls objective net (x ∷ es) =
      let skip = assign-IsAssigning ds ls objective net es in
      elim (Bool-cases (is_unprofitable allow_negative x)) [
        | inl u ↦ rw u (skip-IsAssigning ds ls x es _ (inl u) skip)
        | inr u ↦ elim (Bool-cases (seen x.driver_id ds)) [
          | inl d ↦ rw (u, d) (skip-IsAssigning ds ls x es _ (inr (inl d)) skip)
          | inr d ↦ elim (Bool-cases (seen x.load_id ls)) [
            | inl l ↦ rw (u, d, l) (skip-IsAssigning ds ls x es _ (inr (inr l)) skip)
            | inr l ↦
                rw (u, d, l)
                  (take-IsAssigning ds ls x es _ u d l (
                    assign-IsAssigning (insert x.driver_id true ds) (insert x.load_id true ls)
                      (f.add objective x.total_score) (f.add net x.cost_breakdown.net_contribution)
                      es))
          ]
        ]
      ]

  is_blocked :
      (es : List (CandidateEvaluation W)) (ms : List (DriverLoadMatch W))
      (e : CandidateEvaluation W)
      → (seen e.driver_id [] ≡ true) ⊎ (seen e.load_id [] ≡ true) ⊎ IsBlocked es ms e
      → IsBlocked es ms e
  unfolding lookup
  is_blocked es ms e (inl h) = absurd (cc h)
  is_blocked es ms e (inr (inl h)) = absurd (cc h)
  is_blocked es ms e (inr (inr b)) = b

  -- The greedy matcher assigns no driver and no load twice. Each of its matches is that of a
  -- candidate that may be assigned, and each such candidate is matched, or loses its driver or its
  -- load to a match of a candidate that the sorting puts before it.
  pub solve_greedy-IsGreedy :
      (evals : List (CandidateEvaluation W))
      → IsGreedy (sort_by evaluation_less evals) (solve_greedy evals epoch allow_negative).matches
  unfolding solve_greedy
  solve_greedy-IsGreedy evals =
      let es = sort_by evaluation_less evals in
      let a = assign-IsAssigning [] [] f.nought f.nought es in
      record {
        drivers_distinct = a.drivers_distinct;
        loads_distinct = a.loads_distinct;
        of_candidates = a.of_candidates;
        maximal = λ e h p. is_blocked es _ e (a.maximal e h p);
      }
