-- ===== src/Dispatch/Matcher/Best.antt =====
-- The greedy matcher in the order of the scores.
use mathlib.Core.Path.{subst}
use project_mittens.Prelude.{
  ◌≡◌, ◌⊎◌, refl, sym, ◌∙◌, inl, inr, Bool, true, false, List, [], ◌∷◌, Bool-cases, Has, All,
  All-map, All-Has, if_cases,
}
use project_mittens.Prelude.Int.{ℤ}
use project_mittens.Prelude.Sorting.{insert_sorted, sort_by, sort_by-Has, All-insert_sorted}
use project_mittens.Prelude.Seen.{Distinct}
use project_mittens.Float.{Float}
use project_mittens.Fleet.Resource.{DriverLoadMatch}
use project_mittens.Fleet.Action.Feasible.{drivers_of, loads_of}
use project_mittens.Dispatch.Evaluations.{CandidateEvaluation}
use project_mittens.Dispatch.Matcher.{evaluation_less, match_of, is_unprofitable, solve_greedy}
use project_mittens.Dispatch.Matcher.Greedy.{Precedes, IsOfCandidate, solve_greedy-IsGreedy}

-- The comparisons of numbers, as IEEE 754 has them for all floats, NaN included.
pub record IsComparison {W : Type 0} (f : Float W) : Type 0 where
  pub lt_trans : (x y z : W) → f.lt x y ≡ true → f.lt y z ≡ true → f.lt x z ≡ true
  pub lt_asym : (x y : W) → f.lt x y ≡ true → f.lt y x ≡ false
  pub eq_lt : (x y z : W) → f.eq x y ≡ true → f.lt y z ≡ true → f.lt x z ≡ true
  pub eq_apart : (x y : W) → f.eq x y ≡ true → f.lt x y ≡ false
  pub eq_sym : (x y : W) → f.eq x y ≡ true → f.eq y x ≡ true

module _ {W : Type 0} ⦃f : Float W⦄ where
  -- The score of `e` is not above that of `c`.
  abbrev pub NotAbove : CandidateEvaluation W → CandidateEvaluation W → Type 0
  NotAbove c e = f.lt c.total_score e.total_score ≡ false

  abbrev Descending : List (CandidateEvaluation W) → Type 0
  Descending [] = Unit
  Descending (c ∷ es) = All (NotAbove c) es × Descending es

  -- It may be assigned: its score is positive, or the sign does not matter.
  abbrev pub IsEligible : Bool → CandidateEvaluation W → Type 0
  IsEligible allow_negative e = (allow_negative ≡ true) ⊎ (f.le e.total_score f.nought ≡ false)

  IsEligible-profit :
      (allow_negative : Bool) (e : CandidateEvaluation W)
      → is_unprofitable allow_negative e ≡ false
      → IsEligible allow_negative e
  IsEligible-profit true e h = inl refl
  IsEligible-profit false e h = inr h

  profit-IsEligible :
      (allow_negative : Bool) (e : CandidateEvaluation W)
      → IsEligible allow_negative e
      → is_unprofitable allow_negative e ≡ false
  profit-IsEligible true e h = refl
  profit-IsEligible false e (inl q) = absurd (cc q)
  profit-IsEligible false e (inr q) = q

  -- The match is that of the candidate.
  pub record IsMatchOf (epoch : ℤ) (c : CandidateEvaluation W) (m : DriverLoadMatch W)
      : Type 0 where
    pub driver : m.driver_id ≡ c.driver_id
    pub load : m.load_id ≡ c.load_id
    pub at_epoch : m.dispatch_epoch ≡ epoch
    pub contribution : m.estimated_contribution ≡ c.cost_breakdown.net_contribution

  pub record IsBest (allow_negative : Bool) (epoch : ℤ) (es : List (CandidateEvaluation W))
      (ms : List (DriverLoadMatch W)) : Type 0 where
    pub drivers_distinct : Distinct (drivers_of ms)
    pub loads_distinct : Distinct (loads_of ms)
    pub of_candidates :
        All
          (λ m.
            (c : CandidateEvaluation W) × Has c es
            × IsEligible allow_negative c
            × IsMatchOf epoch c m)
          ms
    pub none_better :
        (e : CandidateEvaluation W)
        → Has e es
        → IsEligible allow_negative e
        → (c : CandidateEvaluation W) × (m : DriverLoadMatch W) × Has c es
          × Has m ms
          × IsMatchOf epoch c m
          × ((c.driver_id ≡ e.driver_id) ⊎ (c.load_id ≡ e.load_id))
          × NotAbove c e

  match_of-IsMatchOf :
      (epoch : ℤ) (c : CandidateEvaluation W) → IsMatchOf epoch c (match_of epoch c)
  match_of-IsMatchOf epoch c = record {
    driver = refl;
    load = refl;
    at_epoch = refl;
    contribution = refl;
  }

  module _ (laws : IsComparison f) where
    -- Where `y` goes before `x`, `x` is not above it; where it does not, `y` is not above `x`.
    before :
        (y x : CandidateEvaluation W)
        → evaluation_less y x ≡ true
        → (f.lt x.total_score y.total_score ≡ true) ⊎ (f.eq y.total_score x.total_score ≡ true)
    before y x h = elim (Bool-cases (f.eq y.total_score x.total_score)) [
      | inl e ↦ inr e
      | inr e ↦ inl (rw e at h)
    ]

    not_before : (y x : CandidateEvaluation W) → evaluation_less y x ≡ false → NotAbove x y
    not_before y x h = elim (Bool-cases (f.eq y.total_score x.total_score)) [
      | inl e ↦
          laws.eq_apart x.total_score y.total_score (laws.eq_sym y.total_score x.total_score e)
      | inr e ↦ rw e at h
    ]

    before-NotAbove : (y x : CandidateEvaluation W) → evaluation_less y x ≡ true → NotAbove y x
    before-NotAbove y x h = elim (before y x h) [
      | inl l ↦ laws.lt_asym x.total_score y.total_score l
      | inr e ↦ laws.eq_apart y.total_score x.total_score e
    ]

    NotAbove-trans :
        (y x z : CandidateEvaluation W) → evaluation_less y x ≡ true → NotAbove x z → NotAbove y z
    NotAbove-trans y x z h n = elim (Bool-cases (f.lt y.total_score z.total_score)) [
      | inr q ↦ q
      | inl q ↦
          let above : f.lt x.total_score z.total_score ≡ true = elim (before y x h) [
            | inl l ↦ laws.lt_trans x.total_score y.total_score z.total_score l q
            | inr e ↦
                laws.eq_lt x.total_score y.total_score z.total_score
                  (laws.eq_sym y.total_score x.total_score e) q
          ] in
          absurd (cc (sym n ∙ above))
    ]

    insert_sorted-Descending :
        (y : CandidateEvaluation W) (es : List (CandidateEvaluation W))
        → Descending es
        → Descending (insert_sorted evaluation_less y es)
    unfolding insert_sorted
    insert_sorted-Descending y [] _ = (tt, tt)
    insert_sorted-Descending y (x ∷ es) (h, hs) =
        if_cases Descending (evaluation_less y x) (y ∷ x ∷ es)
          (x ∷ insert_sorted evaluation_less y es)
          (λ l. (
            (
              before-NotAbove y x l,
              All-map (NotAbove x) (NotAbove y) (λ z n. NotAbove-trans y x z l n) es h,
            ),
            (h, hs),
          ))
          (λ l. (
            All-insert_sorted evaluation_less (NotAbove x) y es (not_before y x l) h,
            insert_sorted-Descending y es hs,
          ))

    sort_by-Descending :
        (es : List (CandidateEvaluation W)) → Descending (sort_by evaluation_less es)
    unfolding sort_by
    sort_by-Descending [] = tt
    sort_by-Descending (e ∷ es) =
        insert_sorted-Descending e (sort_by evaluation_less es) (sort_by-Descending es)

    irreflexive : (x : W) → f.lt x x ≡ false
    irreflexive x = elim (Bool-cases (f.lt x x)) [ inl e ↦ laws.lt_asym x x e | inr e ↦ e ]

    Precedes-NotAbove :
        (c e : CandidateEvaluation W) (es : List (CandidateEvaluation W))
        → Descending es
        → Precedes c e es
        → Has c es × NotAbove c e
    Precedes-NotAbove c e [] _ p = absurd p
    Precedes-NotAbove c e (x ∷ es) _ (inl (q, inl r)) =
        (inl q, subst (λ z. NotAbove c z) (sym q ∙ r) (irreflexive c.total_score))
    Precedes-NotAbove c e (x ∷ es) (h, _) (inl (q, inr r)) =
        (inl q, subst (λ z. NotAbove z e) q (All-Has (NotAbove x) es e h r))
    Precedes-NotAbove c e (x ∷ es) (_, hs) (inr p) =
        let (a, b) = Precedes-NotAbove c e es hs p in (inr a, b)

    pub solve_greedy-IsBest :
        (allow_negative : Bool) (epoch : ℤ) (evals : List (CandidateEvaluation W))
        → IsBest allow_negative epoch evals (solve_greedy evals epoch allow_negative).matches
    solve_greedy-IsBest allow_negative epoch evals =
        let g = solve_greedy-IsGreedy allow_negative epoch evals in
        record {
          drivers_distinct = g.drivers_distinct;
          loads_distinct = g.loads_distinct;
          of_candidates =
              All-map (IsOfCandidate allow_negative epoch (sort_by evaluation_less evals)) _
                (λ m (c, h, p, q). (
                  c,
                  (sort_by-Has evaluation_less c evals).0 h,
                  IsEligible-profit allow_negative c p,
                  subst (IsMatchOf epoch c) (sym q) (match_of-IsMatchOf epoch c),
                ))
                (solve_greedy evals epoch allow_negative).matches g.of_candidates;
          none_better = λ e h p.
              let (c, before_e, matched, shares) =
                g.maximal e ((sort_by-Has evaluation_less e evals).1 h)
                  (profit-IsEligible allow_negative e p) in
              let (there, above) =
                Precedes-NotAbove c e (sort_by evaluation_less evals) (sort_by-Descending evals)
                  before_e in
              (
                c,
                match_of epoch c,
                (sort_by-Has evaluation_less c evals).0 there,
                matched,
                match_of-IsMatchOf epoch c,
                shares,
                above,
              );
        }
