-- ===== src/Dispatch/Matcher/Feasible.antt =====
-- A greedy matching is a feasible action.
use mathlib.Core.List.Permᴰ
use project_mittens.Prelude.{◌≡◌, Bool, true, none, some, List, [], All, All-map, All-Has}
use project_mittens.Prelude.Int.{ℤ}
use project_mittens.Prelude.Sorting.{sort_by, sort_by-Has}
use project_mittens.Prelude.Canonical.{perm-sort_by, Distinct-perm, All-perm}
use project_mittens.Float.{Float}
use project_mittens.Fleet.Resource.{
  Driver, Load, DriverLoadMatch, ResourceState, is_idle, get_driver, get_load,
}
use project_mittens.Fleet.Action.{match_less, new_action, validate_feasibility}
use project_mittens.Fleet.Action.Feasible.{IsMatch, validate_feasibility_lem}
use project_mittens.Dispatch.Evaluations.{CandidateEvaluation}
use project_mittens.Dispatch.Matcher.{evaluation_less, solve_greedy}
use project_mittens.Dispatch.Matcher.Greedy.{IsOfCandidate, solve_greedy-IsGreedy}

module _ {W : Type 0} ⦃f : Float W⦄ (rs : ResourceState W) where
  -- The candidate's driver is there and idle, and its load is there.
  abbrev pub IsOpen : CandidateEvaluation W → Type 0
  IsOpen e =
      ((d : Driver W) × (get_driver rs e.driver_id ≡ some d) × (is_idle d ≡ true))
      × ((l : Load W) × (get_load rs e.load_id ≡ some l))

  IsOfCandidate-IsMatch :
      (allow_negative : Bool) (epoch : ℤ) (evals : List (CandidateEvaluation W))
      (m : DriverLoadMatch W)
      → All IsOpen evals
      → IsOfCandidate allow_negative epoch (sort_by evaluation_less evals) m
      → IsMatch rs m
  IsOfCandidate-IsMatch allow_negative epoch evals m open_all (c, h, _, e) =
      let (d, l) = All-Has IsOpen evals c open_all ((sort_by-Has evaluation_less c evals).0 h) in
      rw e (d, l)

  -- Where the driver of each candidate is there and idle and its load is there, the matches that
  -- the greedy matcher makes of the candidates are a feasible action.
  pub validate_feasibility-solve_greedy :
      (evals : List (CandidateEvaluation W)) (epoch : ℤ) (allow_negative : Bool)
      → All IsOpen evals
      → validate_feasibility
          (new_action (solve_greedy evals epoch allow_negative).matches [])
          (some rs)
        ≡ none
  unfolding new_action sort_by
  validate_feasibility-solve_greedy evals epoch allow_negative open_all =
      let g = solve_greedy-IsGreedy allow_negative epoch evals in
      let ms = (solve_greedy evals epoch allow_negative).matches in
      let p = perm-sort_by match_less ms in
      (validate_feasibility_lem rs (new_action ms [])).1 (record {
        matched = All-perm (IsMatch rs) p (
            All-map _ (IsMatch rs)
              (λ m c. IsOfCandidate-IsMatch allow_negative epoch evals m open_all c) ms
              g.of_candidates);
        drivers_distinct = Distinct-perm (Permᴰ.map (λ m. m.driver_id) p) g.drivers_distinct;
        loads_distinct = Distinct-perm (Permᴰ.map (λ m. m.load_id) p) g.loads_distinct;
        bids = tt;
        bids_distinct = tt;
      })
