-- ===== src/Tests/MatcherTests.antt =====
-- The exact matcher, on a case in which the greedy one is not best.
use project_mittens.Prelude.{ℕ, ◌≡◌, ◌⊎◌, refl, false, String, List, [], ◌∷◌}
use project_mittens.Prelude.Int.{pos, ◌+ℤ◌}
use project_mittens.Prelude.Dict.{insert, lookup}
use project_mittens.Prelude.Sorting.{sort_by, insert_sorted}
use project_mittens.Prelude.Keyed.{index_from}
use project_mittens.Prelude.Result.{Result, ok, err}
use project_mittens.Dispatch.Costs.{TripCostBreakdown}
use project_mittens.Dispatch.Evaluations.{CandidateEvaluation}
use project_mittens.Numeric.Lap.{LapError, cost_at, solve_lap}
use project_mittens.Dispatch.Matcher.{
  MatchingSolution, solve_greedy, algorithm_exact_lap, algorithm_greedy,
}
use project_mittens.Dispatch.Matcher.Exact.{solve_matching}
use project_mittens.Dispatch.Matcher.Exact.Matches.{
  IsMatching, IsStalled, solve_matching-IsMatching,
}
use project_mittens.Tests.Exact.{Exact, infinite, fin, exact}
use project_mittens.Tests.LapTests.{bounded}

abbrev n : ℕ → Exact
n k = fin (pos k)

abbrev cost : ℕ → TripCostBreakdown Exact
cost k = record {
  revenue = n k;
  fixed_cost = n 0;
  loaded_cost = n 0;
  empty_cost = n 0;
  empty_to_home_cost = n 0;
  dwell_cost = n 0;
  late_penalty = n 0;
  driver_bonus = n 0;
  total_cost = n 0;
  net_contribution = n k;
}

abbrev candidate : String → String → ℕ → CandidateEvaluation Exact
candidate d l score = record {
  driver_id = d;
  load_id = l;
  cost_breakdown = cost score;
  cfa_adjustment = n 0;
  vfa_value = n 0;
  dla_value = n 0;
  total_score = n score;
  post_decision_region = "";
  deadhead_miles = n 0;
  loaded_miles = n 0;
  inserted_dwell_min = pos 0;
  inserted_rest_min = pos 0;
  total_trip_min = pos 0;
  is_assigned = false;
}

abbrev candidates : List (CandidateEvaluation Exact)
candidates =
    candidate "d2" "l1" 7
    ∷ candidate "d1" "l2" 8
    ∷ candidate "d1" "l1" 9
    ∷ candidate "d2" "l2" 1
    ∷ []

abbrev objective : Result LapError (MatchingSolution Exact) → Exact
objective (err _) = infinite
objective (ok s) = s.total_objective

-- 8 + 7 in place of 9 + 1.
solved : objective (solve_matching algorithm_exact_lap candidates (pos 3) false) ≡ n 15
unfolding solve_matching solve_lap cost_at ◌+ℤ◌ insert lookup sort_by insert_sorted index_from
solved = refl

solved_greedily : objective (solve_matching algorithm_greedy candidates (pos 3) false) ≡ n 10
unfolding solve_matching solve_greedy ◌+ℤ◌ insert lookup sort_by insert_sorted
solved_greedily = refl

solve_matching-IsMatching_example :
    ((s : MatchingSolution Exact) × (solve_matching algorithm_exact_lap candidates (pos 3) false
        ≡ ok s)
      × IsMatching s)
    ⊎ ((algorithm_exact_lap ≡ algorithm_exact_lap) × IsStalled candidates)
solve_matching-IsMatching_example =
    solve_matching-IsMatching bounded refl algorithm_exact_lap candidates (pos 3) false
      (refl, (refl, (refl, (refl, tt))))
