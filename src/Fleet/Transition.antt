-- ===== src/Fleet/Transition.antt =====
-- internal/domain/model/resource.go, `Transition`. The messages that are logged are left out.
pub mod Refusals
pub mod Taken
pub mod Effect
pub mod Spots
pub mod Drivers
pub mod Safety
pub mod Dispatched
use project_mittens.Prelude.{
  ℕ, Bool, true, false, not, String, Option, none, some, List, [], ◌∷◌, ◌++◌, if◌then◌else◌,
}
use project_mittens.Prelude.Int.{ℤ, pos, ◌+ℤ◌}
use project_mittens.Prelude.Result.{Result, ok, err}
use project_mittens.Prelude.Dict.{Dict, lookup, insert}
use project_mittens.Prelude.Keyed.{nth, put, at_index}
use project_mittens.Prelude.Seen.{seen}
use project_mittens.Float.{Float}
use project_mittens.Hos.Clocks.{DriverClocks}
use project_mittens.Hos.Specs.{HosError}
use project_mittens.Hos.Events.{
  Event, SimulationResult, drive_event, loading_event, unloading_event,
}
use project_mittens.Hos.Simulator.{simulate}
use project_mittens.Fleet.Resource.{
  ModelError, driver_not_found, load_not_found, driver_already_assigned, duplicate_match, Location,
  Driver, Load, DriverLoadMatch, ResourceState, distance_miles, is_idle, new_resource_state,
  get_driver, get_load,
}

-- `driverIndex[id]`, which is 0 on a missing key.
abbrev pub index_or_0 : Option ℕ → ℕ
index_or_0 none = 0
index_or_0 (some i) = i

module _ {W : Type 0} where
  -- The error of a missing load, or what comes after.
  abbrev pub load_exists :
      Option (Load W) → Result ModelError (Dict Bool) → Result ModelError (Dict Bool)
  load_exists none rest = err load_not_found
  load_exists (some l) rest = rest

  -- The error of a missing or busy driver, or what comes after.
  abbrev pub driver_exists :
      Option (Driver W) → Result ModelError (Dict Bool) → Result ModelError (Dict Bool)
  driver_exists none rest = err driver_not_found
  driver_exists (some d) rest = if not (is_idle d) then err driver_already_assigned else rest

  -- The loop that validates the matches, which answers the loads that it has seen.
  unfoldable pub check_matches :
      ResourceState W
      → Dict Bool
      → Dict Bool
      → List (DriverLoadMatch W)
      → Result ModelError (Dict Bool)
  check_matches rs seen_drivers seen_loads [] = ok seen_loads
  check_matches rs seen_drivers seen_loads (m ∷ ms) =
      let rest =
        check_matches rs (insert m.driver_id true seen_drivers) (insert m.load_id true seen_loads)
          ms in
      if seen m.driver_id seen_drivers
      then err duplicate_match
      else if seen m.load_id seen_loads
      then err duplicate_match
      else driver_exists (get_driver rs m.driver_id) (load_exists (get_load rs m.load_id) rest)

  -- The loads that no match takes.
  unfoldable pub unmatched : Dict Bool → List (Load W) → List (Load W)
  unmatched seen_loads [] = []
  unmatched seen_loads (l ∷ ls) =
      let rest = unmatched seen_loads ls in if seen l.id seen_loads then rest else l ∷ rest

module _ {W : Type 0} ⦃f : Float W⦄ where
  -- `int(math.Ceil(miles / 50.0 * 60.0))`
  abbrev pub minutes_at_50 : W → ℤ
  minutes_at_50 miles = f.ceil (f.mul (f.div miles (f.lit 50 0)) (f.lit 60 0))

  abbrev pub trip_events : W → W → List (Event W)
  trip_events deadhead loaded =
      drive_event (minutes_at_50 deadhead) deadhead "DEADHEAD"
      ∷ loading_event (pos 60) "ORIGIN"
      ∷ drive_event (minutes_at_50 loaded) loaded "LINEHAUL"
      ∷ unloading_event (pos 60) "DESTINATION"
      ∷ []

  -- The clocks of a simulation that succeeds, and else the old ones.
  abbrev pub final_or : DriverClocks → Result HosError (SimulationResult W) → DriverClocks
  final_or clocks (err e) = clocks
  final_or clocks (ok r) = r.final_clocks

  abbrev pub advance_clocks :
      Driver W → Location W → Load W → Option DriverClocks → Option DriverClocks
  advance_clocks d prior_loc load none = none
  advance_clocks d prior_loc load (some clocks) = some (
      final_or clocks (
        simulate (some clocks)
          (trip_events (distance_miles prior_loc load.origin)
            (distance_miles load.origin load.destination))
          d.policy_specs true))

  -- The driver after a match with the load.
  unfoldable pub dispatched : DriverLoadMatch W → Load W → Driver W → Driver W
  dispatched m load d =
      let transit_hours = f.of_int load.estimated_transit_epochs in
      record d {
        current_location = load.destination;
        available_epoch = m.dispatch_epoch +ℤ load.estimated_transit_epochs;
        assigned_load_id = "";
        drive_hours_remaining = f.larger f.nought (f.sub d.drive_hours_remaining transit_hours);
        duty_hours_remaining = f.larger f.nought (f.sub d.duty_hours_remaining transit_hours);
        clocks = advance_clocks d d.current_location load d.clocks;
      }

  abbrev pub write_driver :
      DriverLoadMatch W
      → ℕ
      → Option (Driver W)
      → Option (Load W)
      → List (Driver W)
      → List (Driver W)
  write_driver m idx (some d) (some load) next_drivers = put next_drivers idx (dispatched m load d)
  write_driver m idx none load next_drivers = next_drivers
  write_driver m idx (some d) none next_drivers = next_drivers

  -- The loop that dispatches the matches. The indexes are in range, as the matches are valid.
  unfoldable pub dispatch_matches :
      ResourceState W → List (DriverLoadMatch W) → List (Driver W) → List (Driver W)
  dispatch_matches rs [] next_drivers = next_drivers
  dispatch_matches rs (m ∷ ms) next_drivers =
      let idx = index_or_0 (lookup m.driver_id rs.driver_index) in
      let load = nth rs.loads (index_or_0 (lookup m.load_id rs.load_index)) in
      dispatch_matches rs ms (write_driver m idx (nth next_drivers idx) load next_drivers)

  -- What follows the validation.
  abbrev pub carried_out :
      ResourceState W
      → List (DriverLoadMatch W)
      → List (Load W)
      → Result ModelError (Dict Bool)
      → Result ModelError (ResourceState W)
  carried_out rs matches new_loads (err e) = err e
  carried_out rs matches new_loads (ok seen_loads) = ok (
      new_resource_state (dispatch_matches rs matches rs.drivers)
        (unmatched seen_loads rs.loads ++ new_loads))

  unfoldable pub transition :
      ResourceState W
      → List (DriverLoadMatch W)
      → List (Load W)
      → Result ModelError (ResourceState W)
  transition rs matches new_loads =
      carried_out rs matches new_loads (check_matches rs [] [] matches)
