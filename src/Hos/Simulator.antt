-- ===== src/Hos/Simulator.antt =====
-- internal/domain/model/hos/simulator.go, `Simulate`: each inner `for remDuration > 0` is
-- `while_pos` over a round of `Rounds`.
pub mod Steps
pub mod Progress
pub mod Rounds
pub mod Shifts
pub mod Dispatch
pub mod Completion
pub mod Timeline
pub mod Tally
pub mod Limits
use project_mittens.Prelude.{
  ℕ, ◌+◌, ◌*◌, Bool, false, Option, none, some, List, [], ◌∷◌, if◌then◌else◌,
}
use project_mittens.Prelude.Int.{pos, pos_part, ltb_ℤ}
use project_mittens.Prelude.Result.{Result, ok, err, ◌>>=◌}
use project_mittens.Prelude.Loop.{while_pos}
use project_mittens.Float.{Float}
use project_mittens.Hos.Specs.{PolicySpecs, HosError, simulator_nil_clocks, out_of_fuel, validate}
use project_mittens.Hos.Clocks.{DriverClocks, clone}
use project_mittens.Hos.Events.{EventType, Event, SimulationResult, border_crossing_event}
use project_mittens.Hos.Rounds.{Run, drive_round, duty_round, hold_round, rest_once}

-- At most two statutory rests come before each minute of progress.
abbrev pub enough : ℕ → ℕ
enough rem = 3 * rem + 3

module _ {ℓ} {W : Type ℓ} ⦃f : Float W⦄ where
  abbrev pub work_event : Event W → ℕ → Event W
  work_event ev chunk = record {
    type = ev.type;
    duration_min = pos chunk;
    distance_miles = f.nought;
    is_sleeper = false;
    location_id = ev.location_id;
    description = ev.description;
  }

  abbrev pub border_event : Event W → ℕ → Event W
  border_event ev chunk = border_crossing_event (pos chunk) ev.location_id

  abbrev pub dist_per_min : Event W → W
  dist_per_min ev =
      if ltb_ℤ (pos 0) ev.duration_min
      then f.div ev.distance_miles (f.of_int ev.duration_min)
      else f.nought

  -- The `switch` of `Simulate`.
  unfoldable pub dispatch :
      PolicySpecs → Bool → EventType → Event W → Run W → Result HosError (Run W)
  dispatch specs auto EventType.drive ev run =
      let rem = pos_part ev.duration_min in
      while_pos out_of_fuel (drive_round specs auto (dist_per_min ev) ev.location_id) (enough rem)
        rem (record run { total_distance = f.add run.total_distance ev.distance_miles })
  dispatch specs auto EventType.loading ev run =
      let rem = pos_part ev.duration_min in
      while_pos out_of_fuel (duty_round specs auto (work_event ev) ev.location_id) (enough rem) rem
        run
  dispatch specs auto EventType.unloading ev run =
      let rem = pos_part ev.duration_min in
      while_pos out_of_fuel (duty_round specs auto (work_event ev) ev.location_id) (enough rem) rem
        run
  dispatch specs auto EventType.rest ev run = rest_once specs ev run
  dispatch specs auto EventType.hold ev run =
      let rem = pos_part ev.duration_min in
      while_pos out_of_fuel (hold_round specs ev.location_id) (enough rem) rem run
  dispatch specs auto EventType.border_crossing ev run =
      let rem = pos_part ev.duration_min in
      while_pos out_of_fuel (duty_round specs auto (border_event ev) ev.location_id) (enough rem)
        rem run

  -- The loop of `Simulate` over the events.
  unfoldable pub run_events : PolicySpecs → Bool → List (Event W) → Run W → Result HosError (Run W)
  run_events specs auto [] run = ok run
  run_events specs auto (ev ∷ events) run = elim (dispatch specs auto ev.type ev run) [
    | ok run' ↦ run_events specs auto events run'
    | err e ↦ err e
  ]

  unfoldable pub start : DriverClocks → Run W
  start clocks = record {
    clocks = clone clocks;
    timeline = [];
    total_duration = pos 0;
    total_drive = pos 0;
    total_rest = pos 0;
    total_duty = pos 0;
    total_distance = f.nought;
  }

  abbrev finish : DriverClocks → Run W → SimulationResult W
  finish initial_clocks run = record {
    initial_clocks = initial_clocks;
    final_clocks = run.clocks;
    timeline = run.timeline;
    total_duration_min = run.total_duration;
    total_drive_min = run.total_drive;
    total_rest_min = run.total_rest;
    total_duty_min = run.total_duty;
    total_distance_miles = run.total_distance;
  }

  -- `none` is the nil pointer.
  unfoldable pub simulate :
      Option DriverClocks
      → List (Event W)
      → PolicySpecs
      → Bool
      → Result HosError (SimulationResult W)
  simulate none events specs auto_insert_rests = err simulator_nil_clocks
  simulate (some initial_clocks) events specs auto_insert_rests = validate specs >>= λ _.
      run_events specs auto_insert_rests events (start initial_clocks) >>= λ run.
      ok (finish initial_clocks run)
