-- ===== src/Dispatch/Matcher.antt =====
-- internal/domain/policy/matcher.go: the greedy matcher. Tracing is left out.
pub mod Greedy
pub mod Feasible
pub mod Exact
pub mod Best
use project_mittens.Prelude.{
  ℕ, Bool, true, false, not, ◌&&◌, ◌||◌, String, List, [], ◌∷◌, if◌then◌else◌,
}
use project_mittens.Prelude.Int.{ℤ}
use project_mittens.Prelude.Dict.{Dict, insert, str_eq}
use project_mittens.Prelude.Sorting.{str_lt, sort_by}
use project_mittens.Prelude.Seen.{seen}
use project_mittens.Float.{Float}
use project_mittens.Fleet.Resource.{DriverLoadMatch}
use project_mittens.Dispatch.Evaluations.{CandidateEvaluation}

pub data MatchingAlgorithm : Type 0 where
  algorithm_exact_lap algorithm_greedy : MatchingAlgorithm

pub record MatchingSolution (W : Type 0) : Type 0 where
  pub matches : List (DriverLoadMatch W)
  pub evaluations : List (CandidateEvaluation W)
  pub total_objective : W
  pub total_net_contribution : W
  pub driver_dual_values : Dict W
  pub load_dual_values : Dict W

module _ {W : Type 0} ⦃f : Float W⦄ where
  -- By score from the highest, then by driver and by load.
  abbrev pub evaluation_less : CandidateEvaluation W → CandidateEvaluation W → Bool
  evaluation_less a b =
      if not (f.eq a.total_score b.total_score)
      then f.lt b.total_score a.total_score
      else if not (str_eq a.driver_id b.driver_id)
      then str_lt a.driver_id b.driver_id
      else str_lt a.load_id b.load_id

  abbrev pub no_matches : W → W → MatchingSolution W
  no_matches objective net = record {
    matches = [];
    evaluations = [];
    total_objective = objective;
    total_net_contribution = net;
    driver_dual_values = [];
    load_dual_values = [];
  }

  abbrev pub match_of : ℤ → CandidateEvaluation W → DriverLoadMatch W
  match_of epoch e = record {
    driver_id = e.driver_id;
    load_id = e.load_id;
    dispatch_epoch = epoch;
    estimated_contribution = e.cost_breakdown.net_contribution;
  }

  abbrev pub passed_over : CandidateEvaluation W → MatchingSolution W → MatchingSolution W
  passed_over e rest = record rest { evaluations = e ∷ rest.evaluations }

  abbrev pub assigned : ℤ → CandidateEvaluation W → MatchingSolution W → MatchingSolution W
  assigned epoch e rest = record rest {
    matches = match_of epoch e ∷ rest.matches;
    evaluations = record e { is_assigned = true } ∷ rest.evaluations;
  }

  abbrev pub is_unprofitable : Bool → CandidateEvaluation W → Bool
  is_unprofitable allow_negative e = not allow_negative && f.le e.total_score f.nought

  -- The loop over the sorted evaluations, with the totals so far.
  unfoldable pub assign :
      Bool → ℤ → Dict Bool → Dict Bool → W → W → List (CandidateEvaluation W) → MatchingSolution W
  assign allow_negative epoch drivers loads objective net [] = no_matches objective net
  assign allow_negative epoch drivers loads objective net (e ∷ es) =
      let skip = assign allow_negative epoch drivers loads objective net es in
      let rest =
        assign allow_negative epoch (insert e.driver_id true drivers) (insert e.load_id true loads)
          (f.add objective e.total_score) (f.add net e.cost_breakdown.net_contribution) es in
      if is_unprofitable allow_negative e
      then passed_over e skip
      else if not (seen e.driver_id drivers) && not (seen e.load_id loads)
      then assigned epoch e rest
      else passed_over e skip

  unfoldable pub solve_greedy : List (CandidateEvaluation W) → ℤ → Bool → MatchingSolution W
  unfolding assign
  solve_greedy evals epoch allow_negative =
      assign allow_negative epoch [] [] f.nought f.nought (sort_by evaluation_less evals)
