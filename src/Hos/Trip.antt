-- ===== src/Hos/Trip.antt =====
-- internal/domain/model/hos/simulator.go, `EvaluateTripFeasibility`: a trip as a chain of
-- simulations. Durations between instants are exact; Go's `Minutes` rounds them to a float64 first.
pub mod Feasibility
use project_mittens.Prelude.{
  ℕ, ◌+◌, ◌-◌, ◌/◌, Bool, true, false, not, ◌&&◌, String, Option, none, some, List, [], ◌∷◌, leb,
  ltb, ◌==◌, if◌then◌else◌,
}
use project_mittens.Prelude.Int.{ℤ, pos, ◌+ℤ◌, ltb_ℤ}
use project_mittens.Prelude.Result.{Result, ok, err, ◌>>=◌}
use project_mittens.Float.{Float}
use project_mittens.Hos.Specs.{PolicySpecs, HosError, simulator_nil_clocks}
use project_mittens.Hos.Clocks.{DriverClocks, minute}
use project_mittens.Hos.Events.{
  Event, SimulationResult, drive_event, loading_event, unloading_event, hold_event,
}
use project_mittens.Hos.Simulator.{simulate}

-- Why a trip is infeasible: an arrival after the end of a window.
pub data Reason : Type 0 where
  late_pickup late_delivery : Reason

pub record TripFeasibilityResult : Type 0 where
  pub is_feasible : Bool
  pub pickup_arrival_time : ℕ
  pub loading_end_time : ℕ
  pub delivery_arrival_time : ℕ
  pub unloading_end_time : ℕ
  pub deadhead_drive_min : ℤ
  pub loaded_drive_min : ℤ
  pub inserted_rest_min : ℤ
  pub inserted_dwell_min : ℤ
  pub total_trip_duration_min : ℤ
  pub infeasibility_reason : Option Reason
  pub final_clocks : DriverClocks

-- The time windows of a load; an instant 0 is absent.
pub record Windows : Type 0 where
  pub pickup_earliest : ℕ
  pub pickup_latest : ℕ
  pub delivery_earliest : ℕ
  pub delivery_latest : ℕ

pub record Trip {ℓ} (W : Type ℓ) : Type ℓ where
  pub deadhead_miles : W
  pub loaded_miles : W
  pub loading_min : ℤ
  pub unloading_min : ℤ
  pub avg_speed_mph : W
  pub windows : Windows

-- `int(math.Ceil(d.Minutes()))`
unfoldable pub ceil_minutes : ℕ → ℕ
ceil_minutes d = (d + (minute - 1)) / minute

-- What an early arrival adds: the clocks after it, and its minutes of dwell and of rest.
pub record Dwell : Type 0 where
  pub clocks : DriverClocks
  pub dwell_min : ℤ
  pub rest_min : ℤ

-- `!latest.IsZero() && arrival.After(latest)`
abbrev pub is_late : ℕ → ℕ → Bool
is_late latest arrival = not (latest == 0) && ltb latest arrival

abbrev no_dwell : DriverClocks → Dwell
no_dwell clocks = record { clocks = clocks; dwell_min = pos 0; rest_min = pos 0 }

-- One event, with rests inserted.
unfoldable pub leg {ℓ} :
    {W : Type ℓ} ⦃f : Float W⦄
    → PolicySpecs
    → DriverClocks
    → Event W
    → Result HosError (SimulationResult W)
leg specs clocks event = simulate (some clocks) (event ∷ []) specs true

-- The body of steps 2 and 5, for an arrival `early` minutes too soon.
hold_early {ℓ} :
    (W : Type ℓ) ⦃f : Float W⦄ → PolicySpecs → ℕ → String → DriverClocks → Result HosError Dwell
hold_early W specs early loc_id clocks =
    leg {W = W} specs clocks (hold_event (pos early) loc_id) >>= λ res.
    ok (record { clocks = res.final_clocks; dwell_min = pos early; rest_min = res.total_rest_min })

-- Steps 2 and 5.
unfoldable pub early_dwell {ℓ} :
    (W : Type ℓ) ⦃f : Float W⦄ → PolicySpecs → ℕ → String → DriverClocks → Result HosError Dwell
unfolding hold_early
early_dwell W specs earliest loc_id clocks =
    let early = ceil_minutes (earliest - clocks.now) in
    if not (earliest == 0) && ltb clocks.now earliest && ltb 0 early
    then hold_early W specs early loc_id clocks
    else ok (no_dwell clocks)

-- `int(math.Ceil((miles / avgSpeedMPH) * 60.0))`
unfoldable pub drive_min {ℓ} : {W : Type ℓ} ⦃f : Float W⦄ → W → W → ℤ
drive_min ⦃f⦄ miles avg_speed = f.ceil (f.mul (f.div miles avg_speed) (f.of_int (pos 60)))

-- `avgSpeedMPH`, or 50 miles an hour where it is not positive.
unfoldable pub speed {ℓ} : {W : Type ℓ} ⦃f : Float W⦄ → W → W
speed ⦃f⦄ avg_speed = if f.le avg_speed f.nought then f.of_int (pos 50) else avg_speed

-- The clocks and the totals that the steps of a trip leave.
pub record Journey : Type 0 where
  pub start : DriverClocks
  pub deadhead : ℤ
  pub linehaul : ℤ
  pub arrived : DriverClocks
  pub loaded_up : DriverClocks
  pub delivered : DriverClocks
  pub unloaded : DriverClocks
  pub rest_min : ℤ
  pub dwell_min : ℤ

-- Steps 1 to 6.
unfoldable pub travel {ℓ} :
    {W : Type ℓ} ⦃f : Float W⦄ → Trip W → DriverClocks → PolicySpecs → Result HosError Journey
travel {W = W} trip c specs =
    let avg = speed trip.avg_speed_mph in
    let deadhead = drive_min trip.deadhead_miles avg in
    let linehaul = drive_min trip.loaded_miles avg in
    leg specs c (drive_event deadhead trip.deadhead_miles "ORIGIN_DEADHEAD") >>= λ res1.
    early_dwell W specs trip.windows.pickup_earliest "ORIGIN_EARLY_ARRIVAL_DWELL" res1.final_clocks
    >>= λ dwell1.
        leg {W = W} specs dwell1.clocks (loading_event trip.loading_min "ORIGIN_FACILITY")
        >>= λ res_loading.
            leg specs res_loading.final_clocks
              (drive_event linehaul trip.loaded_miles "LINEHAUL_TRANSIT")
            >>= λ res_linehaul.
                early_dwell W specs trip.windows.delivery_earliest "DEST_EARLY_ARRIVAL_DWELL"
                  res_linehaul.final_clocks
                >>= λ dwell2.
                    leg {W = W} specs dwell2.clocks
                      (unloading_event trip.unloading_min "DEST_FACILITY")
                    >>= λ res_unloading. ok (record {
                      start = c;
                      deadhead = deadhead;
                      linehaul = linehaul;
                      arrived = res1.final_clocks;
                      loaded_up = res_loading.final_clocks;
                      delivered = res_linehaul.final_clocks;
                      unloaded = res_unloading.final_clocks;
                      rest_min =
                          res1.total_rest_min
                          +ℤ res_loading.total_rest_min
                          +ℤ res_linehaul.total_rest_min
                          +ℤ res_unloading.total_rest_min
                          +ℤ (dwell1.rest_min +ℤ dwell2.rest_min);
                      dwell_min = dwell1.dwell_min +ℤ dwell2.dwell_min;
                    })

-- The first window that the trip misses, if it misses one.
unfoldable pub lateness : Windows → Journey → Option Reason
lateness w j =
    if is_late w.pickup_latest j.arrived.now
    then some late_pickup
    else if is_late w.delivery_latest j.delivered.now
    then some late_delivery
    else none

abbrev is_none : Option Reason → Bool
is_none none = true
is_none (some _) = false

unfoldable pub report : Windows → Journey → TripFeasibilityResult
unfolding lateness
report w j = record {
  is_feasible = is_none (lateness w j);
  pickup_arrival_time = j.arrived.now;
  loading_end_time = j.loaded_up.now;
  delivery_arrival_time = j.delivered.now;
  unloading_end_time = j.unloaded.now;
  deadhead_drive_min = j.deadhead;
  loaded_drive_min = j.linehaul;
  inserted_rest_min = j.rest_min;
  inserted_dwell_min = j.dwell_min;
  total_trip_duration_min = pos (ceil_minutes (j.unloaded.now - j.start.now));
  infeasibility_reason = lateness w j;
  final_clocks = j.unloaded;
}

unfoldable pub evaluate_trip_feasibility {ℓ} :
    {W : Type ℓ} ⦃f : Float W⦄
    → Trip W
    → Option DriverClocks
    → PolicySpecs
    → Result HosError TripFeasibilityResult
evaluate_trip_feasibility trip none specs = err simulator_nil_clocks
evaluate_trip_feasibility trip (some c) specs =
    travel trip c specs >>= λ j. ok (report trip.windows j)
