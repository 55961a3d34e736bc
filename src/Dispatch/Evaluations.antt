-- ===== src/Dispatch/Evaluations.antt =====
-- internal/domain/policy/provenance.go: an evaluated arc.
use project_mittens.Prelude.{Bool, String}
use project_mittens.Prelude.Int.{ℤ}
use project_mittens.Dispatch.Costs.{TripCostBreakdown}

pub record CandidateEvaluation (W : Type 0) : Type 0 where
  pub driver_id : String
  pub load_id : String
  pub cost_breakdown : TripCostBreakdown W
  pub cfa_adjustment : W
  pub vfa_value : W
  pub dla_value : W
  pub total_score : W
  pub post_decision_region : String
  pub deadhead_miles : W
  pub loaded_miles : W
  pub inserted_dwell_min : ℤ
  pub inserted_rest_min : ℤ
  pub total_trip_min : ℤ
  pub is_assigned : Bool
