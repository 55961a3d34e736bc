-- ===== src/Dispatch/Arcs.antt =====
-- internal/domain/model/feasibility/filter.go. The messages that are logged are left out. The
-- workers take the drivers from one channel, and who takes which is an argument: `Round` is what
-- one worker has taken when it stops, and the rounds are in the order in which their results come.
pub mod Pairs
pub mod Schedule
pub mod Filtered
pub mod Completes
use project_mittens.Prelude.{
  ℕ, ◌*◌, ◌/◌, ◌-◌, Bool, true, false, not, ◌&&◌, ◌||◌, String, Option, none, some, List, [], ◌∷◌,
  ◌++◌, if◌then◌else◌, length, ◌==◌, leb, min,
}
use project_mittens.Prelude.Int.{ℤ, pos, ltb_ℤ}
use project_mittens.Prelude.Dict.{str_eq}
use project_mittens.Prelude.Sorting.{str_lt, sort_by}
use project_mittens.Prelude.Result.{Result, ok, err, ◌>>=◌}
use project_mittens.Float.{Float}
use project_mittens.Hos.Specs.{PolicySpecs, HosError, us_policy_specs}
use project_mittens.Hos.Clocks.{DriverClocks, new_driver_clocks}
use project_mittens.Hos.Trip.{Trip, Windows, TripFeasibilityResult, evaluate_trip_feasibility}
use project_mittens.Stream.Synchronizer.{unix}
use project_mittens.Fleet.Resource.{Driver, Load, distance_miles}
use project_mittens.Fleet.Equipment.{can_handle}
use project_mittens.Fleet.Config.{FeasibilityConfig}

pub record CandidateArc (W : Type 0) : Type 0 where
  pub driver_id : String
  pub load_id : String
  pub deadhead_miles : W
  pub loaded_miles : W
  pub deadhead_drive_min : ℤ
  pub loaded_drive_min : ℤ
  pub inserted_rest_min : ℤ
  pub inserted_dwell_min : ℤ
  pub total_trip_min : ℤ
  pub pickup_arrival_time : ℕ
  pub loading_end_time : ℕ
  pub delivery_arrival_time : ℕ
  pub unloading_end_time : ℕ

-- A trip that cannot be simulated, and a context that is done.
pub data FilterError : Type 0 where
  trip_failed : HosError → FilterError
  context_done : FilterError

-- The instant of an epoch that is set, and else the zero time.
abbrev pub window_time : ℤ → ℕ
window_time epoch = if ltb_ℤ (pos 0) epoch then unix epoch else 0

abbrev pub clocks_or_new : PolicySpecs → ℤ → Option DriverClocks → DriverClocks
clocks_or_new specs epoch none = new_driver_clocks specs (unix epoch)
clocks_or_new specs epoch (some c) = c

module _ {W : Type 0} where
  -- Step 4, with its two fallbacks.
  unfoldable pub specs_of : Driver W → FeasibilityConfig W → PolicySpecs
  specs_of d cfg =
      let specs = if str_eq d.policy_specs.name "" then cfg.hos_policy_specs else d.policy_specs in
      if str_eq specs.name "" then us_policy_specs else specs

  abbrev pub windows_of : Load W → Windows
  windows_of l = record {
    pickup_earliest = window_time l.pickup_earliest_epoch;
    pickup_latest = window_time l.pickup_latest_epoch;
    delivery_earliest = window_time l.delivery_earliest_epoch;
    delivery_latest = window_time l.delivery_latest_epoch;
  }

  abbrev pub with_arc : Option (CandidateArc W) → List (CandidateArc W) → List (CandidateArc W)
  with_arc none arcs = arcs
  with_arc (some a) arcs = a ∷ arcs

  abbrev pub arc_less : CandidateArc W → CandidateArc W → Bool
  arc_less a b =
      if str_eq a.driver_id b.driver_id
      then str_lt a.load_id b.load_id
      else str_lt a.driver_id b.driver_id

module _ {W : Type 0} ⦃f : Float W⦄ where
  abbrev pub trip_of : Driver W → Load W → FeasibilityConfig W → Trip W
  trip_of d l cfg = record {
    deadhead_miles = distance_miles d.current_location l.origin;
    loaded_miles = distance_miles l.origin l.destination;
    loading_min = pos 60;
    unloading_min = pos 60;
    avg_speed_mph = cfg.average_speed_mph;
    windows = windows_of l;
  }

  abbrev pub is_too_far : W → FeasibilityConfig W → Bool
  is_too_far miles cfg = f.lt f.nought cfg.max_deadhead_miles && f.lt cfg.max_deadhead_miles miles

  abbrev pub arc_of : Driver W → Load W → TripFeasibilityResult → CandidateArc W
  arc_of d l trip = record {
    driver_id = d.id;
    load_id = l.id;
    deadhead_miles = distance_miles d.current_location l.origin;
    loaded_miles = distance_miles l.origin l.destination;
    deadhead_drive_min = trip.deadhead_drive_min;
    loaded_drive_min = trip.loaded_drive_min;
    inserted_rest_min = trip.inserted_rest_min;
    inserted_dwell_min = trip.inserted_dwell_min;
    total_trip_min = trip.total_trip_duration_min;
    pickup_arrival_time = trip.pickup_arrival_time;
    loading_end_time = trip.loading_end_time;
    delivery_arrival_time = trip.delivery_arrival_time;
    unloading_end_time = trip.unloading_end_time;
  }

  abbrev pub arc_if_feasible :
      Driver W
      → Load W
      → Result HosError TripFeasibilityResult
      → Result FilterError (Option (CandidateArc W))
  arc_if_feasible d l (err e) = err (trip_failed e)
  arc_if_feasible d l (ok trip) =
      if not trip.is_feasible then ok none else ok (some (arc_of d l trip))

  module _ (equal_fold : String → String → Bool) where
    -- `none` is an infeasible pair.
    unfoldable pub evaluate_pair :
        Driver W → Load W → FeasibilityConfig W → Result FilterError (Option (CandidateArc W))
    evaluate_pair d l cfg =
        let specs = specs_of d cfg in
        if not (can_handle equal_fold d.equipment l.required_equipment l.required_endorsements)
        then ok none
        else if is_too_far (distance_miles d.current_location l.origin) cfg
        then ok none
        else arc_if_feasible d l (
            evaluate_trip_feasibility (trip_of d l cfg)
              (some (clocks_or_new specs d.available_epoch d.clocks)) specs)

    -- The loads for one driver, in their order.
    unfoldable pub evaluate_loads :
        FeasibilityConfig W → Driver W → List (Load W) → Result FilterError (List (CandidateArc W))
    unfolding evaluate_pair
    evaluate_loads cfg d [] = ok []
    evaluate_loads cfg d (l ∷ ls) =
        evaluate_pair d l cfg >>= λ a. evaluate_loads cfg d ls >>= λ arcs. ok (with_arc a arcs)

    -- What a worker sends: `done` says for each driver that it takes whether the context is then
    -- done.
    unfoldable pub run_worker :
        FeasibilityConfig W
        → List (Load W)
        → List (Driver W × Bool)
        → Result FilterError (List (CandidateArc W))
    unfolding evaluate_loads
    run_worker cfg ls [] = ok []
    run_worker cfg ls ((d, true) ∷ jobs) = err context_done
    run_worker cfg ls ((d, false) ∷ jobs) =
        evaluate_loads cfg d ls >>= λ arcs. run_worker cfg ls jobs >>= λ more. ok (arcs ++ more)

    -- The loop that collects the results.
    unfoldable pub collect :
        FeasibilityConfig W
        → List (Load W)
        → List (List (Driver W × Bool))
        → Result FilterError (List (CandidateArc W))
    unfolding run_worker
    collect cfg ls [] = ok []
    collect cfg ls (jobs ∷ workers) =
        run_worker cfg ls jobs >>= λ arcs. collect cfg ls workers >>= λ more. ok (arcs ++ more)

    -- `done` says whether the context is done when all workers have stopped.
    unfoldable pub filter_candidates :
        List (Driver W)
        → List (Load W)
        → FeasibilityConfig W
        → List (List (Driver W × Bool))
        → Bool
        → Result FilterError (List (CandidateArc W))
    unfolding collect
    filter_candidates drivers loads cfg schedule done =
        if (length drivers == 0) || (length loads == 0)
        then ok []
        else collect cfg loads schedule >>= λ arcs.
            if done then err context_done else ok (sort_by arc_less arcs)
