-- ===== src/Fleet/Transition/Dispatched.antt =====
-- What a match makes of its driver.
use project_mittens.Prelude.{◌≡◌, ◌⊎◌, refl, inl, inr, true, Option, none, some, List, [], ◌∷◌}
use project_mittens.Prelude.Int.{pos, ◌+ℤ◌}
use project_mittens.Prelude.Result.{Result, ok, err}
use project_mittens.Float.{Float}
use project_mittens.Hos.Clocks.{DriverClocks}
use project_mittens.Hos.Specs.{HosError}
use project_mittens.Hos.Events.{
  Event, SimulationResult, drive_event, loading_event, unloading_event,
}
use project_mittens.Hos.Simulator.{simulate}
use project_mittens.Fleet.Resource.{Driver, Load, DriverLoadMatch, distance_miles}
use project_mittens.Fleet.Transition.{final_or, advance_clocks, dispatched}

module _ {W : Type 0} ⦃f : Float W⦄ where
  -- The way to the load, an hour of loading, the way with it, and an hour of unloading, at 50 mph.
  abbrev pub trip_of : Driver W → Load W → List (Event W)
  trip_of d l =
      let deadhead = distance_miles d.current_location l.origin in
      let loaded = distance_miles l.origin l.destination in
      drive_event (f.ceil (f.mul (f.div deadhead (f.lit 50 0)) (f.lit 60 0))) deadhead "DEADHEAD"
      ∷ loading_event (pos 60) "ORIGIN"
      ∷ drive_event (f.ceil (f.mul (f.div loaded (f.lit 50 0)) (f.lit 60 0))) loaded "LINEHAUL"
      ∷ unloading_event (pos 60) "DESTINATION"
      ∷ []

  -- The clocks are those at the end of the simulated trip, or, where the simulation fails, those
  -- before it.
  abbrev pub IsAdvanced : Driver W → Load W → Option DriverClocks → Option DriverClocks → Type 0
  IsAdvanced d l none after = after ≡ none
  IsAdvanced d l (some c) after =
      ((r : SimulationResult W) × (simulate (some c) (trip_of d l) d.policy_specs true ≡ ok r)
        × (after ≡ some r.final_clocks))
      ⊎ ((e : HosError) × (simulate (some c) (trip_of d l) d.policy_specs true ≡ err e)
          × (after ≡ some c))

  pub record IsDispatched (m : DriverLoadMatch W) (l : Load W) (d e : Driver W) : Type 0 where
    pub same_id : e.id ≡ d.id
    pub same_home : e.home_location ≡ d.home_location
    pub same_policy : e.policy_specs ≡ d.policy_specs
    pub same_equipment : e.equipment ≡ d.equipment
    pub arrived : e.current_location ≡ l.destination
    pub free_again : e.available_epoch ≡ m.dispatch_epoch +ℤ l.estimated_transit_epochs
    pub no_load : e.assigned_load_id ≡ ""
    pub drive_hours :
        e.drive_hours_remaining
        ≡ f.larger f.nought (f.sub d.drive_hours_remaining (f.of_int l.estimated_transit_epochs))
    pub duty_hours :
        e.duty_hours_remaining
        ≡ f.larger f.nought (f.sub d.duty_hours_remaining (f.of_int l.estimated_transit_epochs))
    pub advanced : IsAdvanced d l d.clocks e.clocks

  advance_clocks-IsAdvanced :
      (d : Driver W) (l : Load W) (clocks : Option DriverClocks)
      → IsAdvanced d l clocks (advance_clocks d d.current_location l clocks)
  advance_clocks-IsAdvanced d l none = refl
  advance_clocks-IsAdvanced d l (some c) =
      by_result (simulate (some c) (trip_of d l) d.policy_specs true) refl
    where
      by_result :
          (o : Result HosError (SimulationResult W))
          → simulate (some c) (trip_of d l) d.policy_specs true ≡ o
          → IsAdvanced d l (some c) (some (final_or c o))
      by_result (ok r) e = inl (r, e, refl)
      by_result (err x) e = inr (x, e, refl)

  pub dispatched-IsDispatched :
      (m : DriverLoadMatch W) (l : Load W) (d : Driver W) → IsDispatched m l d (dispatched m l d)
  unfolding dispatched
  dispatched-IsDispatched m l d = record {
    same_id = refl;
    same_home = refl;
    same_policy = refl;
    same_equipment = refl;
    arrived = refl;
    free_again = refl;
    no_load = refl;
    drive_hours = refl;
    duty_hours = refl;
    advanced = advance_clocks-IsAdvanced d l d.clocks;
  }
