-- ===== src/Tests/HosTests.antt =====
-- The engine at a solo driver's fresh shift under the US policy.
use project_mittens.Prelude.{
  ℕ, ◌+◌, ◌*◌, ◌≤◌, ◌<◌, ◌≡◌, ◌↔◌, ◌⊎◌, refl, true, false, arith, List, [], ◌∷◌, some, min, leb,
  if◌then◌else◌,
}
use project_mittens.Prelude.Int.{pos, ◌≤ℤ◌, ◌+ℤ◌}
use project_mittens.Prelude.Result.{ok, err}
use project_mittens.Float.{whole}
use project_mittens.Hos.Specs.{
  hos_violation, us_policy_specs, PolicySpecs, IsUsable, validate, validate_lem,
}
use project_mittens.Hos.Clocks.{
  apply_off_duty, max_immediate_drive_min, drive, clone, DriverClocks, minute, new_driver_clocks,
  apply_drive, apply_on_duty_not_driving, rest,
}
use project_mittens.Hos.Clocks.Bounds.{IsSound, new_driver_clocks-IsSound, Permits, Driven, Worked}
use project_mittens.Hos.Clocks.Operations.{apply_drive_lem, apply_on_duty_lem, PermitsWork}
use project_mittens.Hos.Clocks.Resets.{IsRested, IsPaired, rest_lem}
use project_mittens.Hos.Clocks.Reachable.{fresh, driven, rested_for, Reachable-IsSound}
use project_mittens.Hos.Events.{Event, SimulationResult, drive_event, loading_event}
use project_mittens.Hos.Simulator.{simulate}
use project_mittens.Hos.Simulator.Completion.{
  drive_minutes, duty_minutes, all_minutes, simulate_completes,
}
use project_mittens.Hos.Simulator.Timeline.{Chain, minutes, simulate_accounts}
use project_mittens.Hos.Simulator.Tally.{Lawful, tally_of, IsGraded}
use project_mittens.Hos.Simulator.Limits.{simulate-Lawful}
use project_mittens.Hos.Trip.{Trip, TripFeasibilityResult, evaluate_trip_feasibility, late_pickup}
use project_mittens.Hos.Trip.Feasibility.{IsProjected, InTime, evaluate_trip_projects}

abbrev us : PolicySpecs
us = us_policy_specs

abbrev morning : DriverClocks
morning = new_driver_clocks us (1000 * minute)

-- An hour of loading, then 15 hours of driving: longer than a shift.
abbrev schedule : List (Event ℕ)
schedule = loading_event (pos 60) "A" ∷ drive_event (pos 900) 900 "B" ∷ []

us-valid : validate us ≡ ok tt
unfolding validate
us-valid = refl

morning-IsSound : IsSound us morning
morning-IsSound = new_driver_clocks-IsSound us (1000 * minute)

us-IsGraded : IsGraded us
us-IsGraded = record {
  daily = omega arith;
  weekly = omega arith;
  short_split = omega arith;
  long_split = omega arith;
}

us_limits : IsUsable us
us_limits = (validate_lem us).0 us-valid

-- Eight hours at the wheel, and ten off duty.
drive_and_rest :
    (c : DriverClocks) × (apply_drive morning (pos 480) ≡ ok c)
    × (next : DriverClocks) × (apply_off_duty c (pos 600) false us ≡ ok next)
unfolding apply_drive apply_off_duty max_immediate_drive_min new_driver_clocks drive clone rest
drive_and_rest = (_, refl, _, refl)

Reachable-IsSound_example : IsSound us drive_and_rest.2
Reachable-IsSound_example = Reachable-IsSound us drive_and_rest.2 (
    rested_for (pos 600) false (driven (pos 480) (fresh (1000 * minute)) drive_and_rest.1)
      drive_and_rest.3)

apply_drive_lem_example :
    ((pos 481 ≤ℤ pos 0) × (apply_drive morning (pos 481) ≡ ok morning))
    ⊎ ((m : ℕ) × (pos 481 ≡ pos m)
        × Permits morning m
        × (next : DriverClocks) × (apply_drive morning (pos 481) ≡ ok next)
        × Driven m morning next)
    ⊎ ((m : ℕ) × (pos 481 ≡ pos m)
        × ¬ (Permits morning m)
        × (apply_drive morning (pos 481) ≡ err hos_violation))
apply_drive_lem_example = apply_drive_lem us morning (pos 481) morning-IsSound

apply_on_duty_lem_example :
    ((pos 90 ≤ℤ pos 0) × (apply_on_duty_not_driving morning (pos 90) ≡ ok morning))
    ⊎ ((m : ℕ) × (pos 90 ≡ pos m)
        × PermitsWork morning m
        × (next : DriverClocks) × (apply_on_duty_not_driving morning (pos 90) ≡ ok next)
        × Worked m morning next)
    ⊎ ((m : ℕ) × (pos 90 ≡ pos m)
        × ¬ (PermitsWork morning m)
        × (apply_on_duty_not_driving morning (pos 90) ≡ err hos_violation))
apply_on_duty_lem_example = apply_on_duty_lem us morning (pos 90) morning-IsSound

rest_lem_example :
    let r = rest us 450 true morning in
    let run = morning.consecutive_off_duty_min + 450 in
    (r.remaining_cycle_min
      ≡ (if leb us.weekly_reset_min run then us.max_cycle_min else morning.remaining_cycle_min))
    × (((min us.weekly_reset_min us.daily_reset_min ≤ run)
          × IsRested us r
          × (r.has_pending_split ≡ false))
        ⊎ ((run < min us.weekly_reset_min us.daily_reset_min)
            × IsPaired us 450 true morning
            × IsRested us r)
        ⊎ ((run < min us.weekly_reset_min us.daily_reset_min)
            × ¬ (IsPaired us 450 true morning)
            × (r.remaining_driving_min ≡ morning.remaining_driving_min)
            × (r.remaining_shift_min ≤ morning.remaining_shift_min)))
rest_lem_example = rest_lem us 450 true morning

simulate_completes_example :
    (r : SimulationResult ℕ) × (simulate (some morning) schedule us true ≡ ok r)
    × (r.total_drive_min ≡ pos (drive_minutes schedule))
    × (r.total_duty_min ≡ pos (duty_minutes schedule))
    × (morning.now + all_minutes schedule * minute ≤ r.final_clocks.now)
    × IsSound us r.final_clocks
simulate_completes_example = simulate_completes us morning schedule us-valid morning-IsSound

-- The result of the run above.
abbrev finished : (r : SimulationResult ℕ) × (simulate (some morning) schedule us true ≡ ok r)
finished =
    let (r, e, _, _, _, _) = simulate_completes us morning schedule us-valid morning-IsSound in
    (r, e)

simulate-Lawful_example : Lawful us (tally_of us morning) finished.0.timeline
simulate-Lawful_example =
    simulate-Lawful us morning schedule true us-IsGraded morning-IsSound finished.1

simulate_accounts_example :
    Chain morning.now finished.0.timeline finished.0.final_clocks.now
    × (finished.0.total_duration_min ≡ minutes finished.0.timeline)
    × (finished.0.total_duration_min ≡ finished.0.total_duty_min +ℤ finished.0.total_rest_min)
simulate_accounts_example = simulate_accounts us morning schedule true morning-IsSound finished.1

abbrev trip : Trip ℕ
trip = record {
  deadhead_miles = 60;
  loaded_miles = 700;
  loading_min = pos 60;
  unloading_min = pos 45;
  avg_speed_mph = 55;
  windows = record {
    pickup_earliest = 1100 * minute;
    pickup_latest = 1200 * minute;
    delivery_earliest = 0;
    delivery_latest = 3000 * minute;
  };
}

evaluate_trip_projects_example :
    (r : TripFeasibilityResult) × (evaluate_trip_feasibility trip (some morning) us ≡ ok r)
    × IsProjected us trip morning r
    × ((r.is_feasible ≡ true) ↔ (
        InTime trip.windows.pickup_latest r.pickup_arrival_time
        × InTime trip.windows.delivery_latest r.delivery_arrival_time))
    × ((r.infeasibility_reason ≡ some late_pickup)
        ↔ (¬ (InTime trip.windows.pickup_latest r.pickup_arrival_time)))
evaluate_trip_projects_example = evaluate_trip_projects trip morning us us-valid morning-IsSound
