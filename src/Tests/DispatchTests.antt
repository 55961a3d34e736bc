-- ===== src/Tests/DispatchTests.antt =====
-- Two drivers and two loads, through the rules, the filter, the costs and the matcher.
use text.Mathlib.TextEquality.{eq_iff}
use mathlib.Core.List.{Permᴰ}
use mathlib.Core.List.Permᴰ
use project_mittens.Prelude.{
  if◌then◌else◌, ℕ, zero, suc, ◌*◌, ◌≡◌, ◌≢◌, ◌↔◌, ◌∙◌, sym, ap, refl, Bool, true, false, String,
  none, some, List, [], ◌∷◌, All, Has, inl, inr, arith,
}
use project_mittens.Prelude.Int.{pos}
use project_mittens.Prelude.Result.{ok}
use project_mittens.Prelude.Dict.{str_eq, lookup, insert}
use project_mittens.Prelude.Keyed.{index_from}
use project_mittens.Prelude.Sorting.{sort_by, insert_sorted}
use project_mittens.Float.{whole}
use project_mittens.Fleet.Resource.{Driver, Load, get_driver, get_load, new_resource_state}
use project_mittens.Fleet.Action.{new_action, validate_feasibility}
use project_mittens.Fleet.Config.{
  FeasibilityConfig, default_cost_config, default_feasibility_config,
}
use project_mittens.Hos.Clocks.Bounds.{new_driver_clocks-IsSound}
use project_mittens.Hos.Clocks.{minute}
use project_mittens.Hos.Specs.{us_policy_specs, validate}
use project_mittens.Dispatch.Rules.{
  Cel, Context, bool_type, CelValue, bool_value, double_value, Rule, CompiledRule, bonus,
  apply_rule, op_add, op_ban, new_rule_evaluation_result, evaluate, build_evaluation_context,
}
use project_mittens.Dispatch.Rules.Outcome.{Evaluated, evaluate_lem}
use project_mittens.Dispatch.Arcs.{CandidateArc, filter_candidates, specs_of}
use project_mittens.Dispatch.Arcs.Pairs.{Sound, IsArc}
use project_mittens.Dispatch.Arcs.Schedule.{taken}
use project_mittens.Dispatch.Arcs.Filtered.{filter_candidates_lem, filter_candidates_deterministic}
use project_mittens.Dispatch.Arcs.Completes.{filter_candidates_completes, IsReady}
use project_mittens.Dispatch.Costs.{
  is_unset, calculate_trip_cost, calculate_trip_cost_with_rules, TripCostBreakdown,
}
use project_mittens.Dispatch.Costs.Neutral.{neutral_cost, way_home}
use project_mittens.Dispatch.Evaluations.{CandidateEvaluation}
use project_mittens.Dispatch.Matcher.{solve_greedy}
use project_mittens.Dispatch.Matcher.Best.{IsComparison, IsBest, solve_greedy-IsBest}
use project_mittens.Dispatch.Matcher.Feasible.{IsOpen, validate_feasibility-solve_greedy}
use project_mittens.Tests.FleetTests.{place, driver, load, drivers, loads, network}

-- Programs that answer their number: 0 and 1 are the truth values, and the others are numbers.
abbrev answer : ℕ → CelValue ℕ
answer zero = bool_value false
answer (suc zero) = bool_value true
answer (suc (suc n)) = double_value (suc (suc n))

abbrev toy_cel : Cel ℕ String ℕ
toy_cel = record {
  environment = true;
  compile = λ s. some s;
  output_type = λ s. bool_type;
  program = λ s. some 1;
  eval = λ p ctx. some (answer p);
}

abbrev rule_of : String → Rule ℕ
rule_of id = record {
  id = id;
  name = id;
  target = bonus;
  operation = op_add;
  condition_cel = "true";
  value_cel = "25";
  static_value = 10;
  message = "";
}

-- A bonus of 25, a rule that does not match, and a ban.
abbrev rules : List (CompiledRule ℕ ℕ)
rules =
    record { rule = rule_of "R1"; condition_program = 1; value_program = some 25 }
    ∷ record { rule = rule_of "R2"; condition_program = 0; value_program = none }
    ∷ record {
      rule = record (rule_of "R3") { operation = op_ban };
      condition_program = 1;
      value_program = none;
    }
    ∷ []

abbrev context : Context ℕ
context = build_evaluation_context (driver "d1") (load "l1") 10 200

evaluate_lem_example :
    Evaluated toy_cel context rules new_rule_evaluation_result
      (evaluate toy_cel (some rules) context)
evaluate_lem_example = evaluate_lem toy_cel context rules

evaluated :
    evaluate toy_cel (some rules) context
    ≡ ok (record {
      bonus = 25;
      loaded_rate_multiplier = 1;
      empty_rate_multiplier = 1;
      empty_to_home_multiplier = 1;
      fixed_cost_multiplier = 1;
      max_deadhead_override = 0;
      is_infeasible = true;
      infeasibility_reason = "banned by rule R3";
      matched_rule_ids = "R1" ∷ "R3" ∷ [];
    })
unfolding evaluate new_rule_evaluation_result apply_rule
evaluated = refl

apart : (s t : String) → str_eq s t ≡ false → s ≢ t
apart s t h e = cc (sym h ∙ (eq_iff s t).1 e)

abbrev config : FeasibilityConfig ℕ
config = default_feasibility_config

-- One worker takes both drivers, or two take one each.
abbrev alone : List (List (Driver ℕ × Bool))
alone = ((driver "d2", false) ∷ (driver "d1", false) ∷ []) ∷ []

abbrev shared : List (List (Driver ℕ × Bool))
shared = ((driver "d1", false) ∷ []) ∷ ((driver "d2", false) ∷ []) ∷ []

alone_takes : Permᴰ (taken alone) drivers
alone_takes = Permᴰ.refl drivers

shared_takes : Permᴰ (taken shared) drivers
shared_takes = Permᴰ.swap refl refl

drivers-IsReady : All (IsReady str_eq config) drivers
unfolding validate specs_of
drivers-IsReady = (
  (refl, new_driver_clocks-IsSound us_policy_specs (1000 * minute)),
  ((refl, new_driver_clocks-IsSound us_policy_specs (1000 * minute)), tt),
)

filter_candidates_completes_example :
    (arcs : List (CandidateArc ℕ)) × (filter_candidates str_eq drivers loads config alone false
      ≡ ok arcs)
filter_candidates_completes_example =
    filter_candidates_completes str_eq config drivers loads alone alone_takes
      ((refl, (refl, tt)), tt) drivers-IsReady

abbrev arcs_alone :
    (arcs : List (CandidateArc ℕ)) × (filter_candidates str_eq drivers loads config alone false
      ≡ ok arcs)
arcs_alone =
    filter_candidates_completes str_eq config drivers loads alone alone_takes
      ((refl, (refl, tt)), tt) drivers-IsReady

abbrev arcs_shared :
    (arcs : List (CandidateArc ℕ)) × (filter_candidates str_eq drivers loads config shared false
      ≡ ok arcs)
arcs_shared =
    filter_candidates_completes str_eq config drivers loads shared shared_takes
      ((refl, tt), ((refl, tt), tt)) drivers-IsReady

filter_candidates_lem_example :
    All (λ d. Sound str_eq config d loads) drivers
    × ((a : CandidateArc ℕ)
        → Has a arcs_alone.0 ↔ (
            (d : Driver ℕ) × (l : Load ℕ) × Has d drivers
            × Has l loads
            × IsArc str_eq config d l a))
filter_candidates_lem_example =
    filter_candidates_lem str_eq config drivers loads alone false arcs_alone.0 alone_takes
      arcs_alone.1

one_driver : (x y : Driver ℕ) → Has x drivers → Has y drivers → x.id ≡ y.id → x ≡ y
one_driver x y (inl p) (inl q) e = sym p ∙ q
one_driver x y (inl p) (inr (inl q)) e =
    absurd (apart "d2" "d1" refl (ap (λ d. d.id) p ∙ e ∙ sym (ap (λ d. d.id) q)))
one_driver x y (inr (inl p)) (inl q) e =
    absurd (apart "d1" "d2" refl (ap (λ d. d.id) p ∙ e ∙ sym (ap (λ d. d.id) q)))
one_driver x y (inr (inl p)) (inr (inl q)) e = sym p ∙ q
one_driver x y (inr (inr h)) k e = absurd h
one_driver x y h (inr (inr k)) e = absurd k

one_load : (x y : Load ℕ) → Has x loads → Has y loads → x.id ≡ y.id → x ≡ y
one_load x y (inl p) (inl q) e = sym p ∙ q
one_load x y (inl p) (inr (inl q)) e =
    absurd (apart "l1" "l2" refl (ap (λ d. d.id) p ∙ e ∙ sym (ap (λ d. d.id) q)))
one_load x y (inr (inl p)) (inl q) e =
    absurd (apart "l2" "l1" refl (ap (λ d. d.id) p ∙ e ∙ sym (ap (λ d. d.id) q)))
one_load x y (inr (inl p)) (inr (inl q)) e = sym p ∙ q
one_load x y (inr (inr h)) k e = absurd h
one_load x y h (inr (inr k)) e = absurd k

filter_candidates_deterministic_example : arcs_alone.0 ≡ arcs_shared.0
filter_candidates_deterministic_example =
    filter_candidates_deterministic str_eq config drivers loads one_driver one_load alone shared
      false false arcs_alone.0 arcs_shared.0 alone_takes shared_takes arcs_alone.1 arcs_shared.1

abbrev an_arc : CandidateArc ℕ
an_arc = record {
  driver_id = "d1";
  load_id = "l1";
  deadhead_miles = 10;
  loaded_miles = 200;
  deadhead_drive_min = pos 12;
  loaded_drive_min = pos 240;
  inserted_rest_min = pos 0;
  inserted_dwell_min = pos 60;
  total_trip_min = pos 400;
  pickup_arrival_time = 0;
  loading_end_time = 0;
  delivery_arrival_time = 62_135_600_490_000_000_000;
  unloading_end_time = 0;
}

-- A driver who is away from his domicile.
abbrev away : Driver ℕ
away = record (driver "d1") { current_location = place "B" }

neutral_cost_example :
    (calculate_trip_cost_with_rules away
        (load "l1")
        an_arc
        default_cost_config
        new_rule_evaluation_result
      ≡ calculate_trip_cost
          (record away { home_location = place "B" })
          (load "l1")
          an_arc
          default_cost_config)
    × ((calculate_trip_cost_with_rules away
          (load "l1")
          an_arc
          default_cost_config
          new_rule_evaluation_result).empty_to_home_cost
        ≡ way_home (place "B") (load "l1") default_cost_config)
    × ((calculate_trip_cost away (load "l1") an_arc default_cost_config).empty_to_home_cost
        ≡ way_home
            (if is_unset (place "A") then place "B" else place "A")
            (load "l1")
            default_cost_config)
neutral_cost_example =
    neutral_cost (λ x. omega arith) (λ x _. omega arith) away (load "l1") an_arc default_cost_config

abbrev cost : ℕ → TripCostBreakdown ℕ
cost n = record {
  revenue = n;
  fixed_cost = 0;
  loaded_cost = 0;
  empty_cost = 0;
  empty_to_home_cost = 0;
  dwell_cost = 0;
  late_penalty = 0;
  driver_bonus = 0;
  total_cost = 0;
  net_contribution = n;
}

abbrev candidate : String → String → ℕ → CandidateEvaluation ℕ
candidate d l score = record {
  driver_id = d;
  load_id = l;
  cost_breakdown = cost score;
  cfa_adjustment = 0;
  vfa_value = 0;
  dla_value = 0;
  total_score = score;
  post_decision_region = "";
  deadhead_miles = 0;
  loaded_miles = 0;
  inserted_dwell_min = pos 0;
  inserted_rest_min = pos 0;
  total_trip_min = pos 0;
  is_assigned = false;
}

abbrev candidates : List (CandidateEvaluation ℕ)
candidates =
    candidate "d1" "l1" 5
    ∷ candidate "d1" "l2" 9
    ∷ candidate "d2" "l2" 7
    ∷ candidate "d2" "l1" 1
    ∷ []

comparison : IsComparison whole
comparison = record {
  lt_trans = λ x y z h k. ground arith;
  lt_asym = λ x y h. ground arith;
  eq_lt = λ x y z h k. ground arith;
  eq_apart = λ x y h. ground arith;
  eq_sym = λ x y h. ground arith;
}

solve_greedy-IsBest_example :
    IsBest false (pos 3) candidates (solve_greedy candidates (pos 3) false).matches
solve_greedy-IsBest_example = solve_greedy-IsBest comparison false (pos 3) candidates

candidates-IsOpen : All (IsOpen network) candidates
unfolding get_driver get_load new_resource_state index_from sort_by insert_sorted lookup insert
candidates-IsOpen = (
  ((driver "d1", refl, refl), (load "l1", refl)),
  (
    ((driver "d1", refl, refl), (load "l2", refl)),
    (
      ((driver "d2", refl, refl), (load "l2", refl)),
      (((driver "d2", refl, refl), (load "l1", refl)), tt),
    ),
  ),
)

validate_feasibility-solve_greedy_example :
    validate_feasibility
      (new_action (solve_greedy candidates (pos 3) false).matches [])
      (some network)
    ≡ none
validate_feasibility-solve_greedy_example =
    validate_feasibility-solve_greedy network candidates (pos 3) false candidates-IsOpen
