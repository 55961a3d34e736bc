-- ===== src/Hos/Trip/Feasibility.antt =====
-- `EvaluateTripFeasibility`: the projection, the order of its times, and the windows.
use project_mittens.Prelude.{
  ℕ, ◌+◌, ◌-◌, ◌*◌, ◌≤◌, ◌<◌, ◌≡◌, ◌↔◌, ◌⊎◌, refl, Bool, true, false, String, arith, some, [], ◌∷◌,
  max, ltb, ◌==◌, not, ◌&&◌, Bool-cases, inl, inr,
}
use project_mittens.Prelude.Int.{pos, pos_part, ◌+ℤ◌}
use project_mittens.Prelude.Result.{ok}
use project_mittens.Float.{Float}
use project_mittens.Hos.Specs.{PolicySpecs, validate}
use project_mittens.Hos.Clocks.{DriverClocks, minute}
use project_mittens.Hos.Clocks.Bounds.{IsSound}
use project_mittens.Hos.Events.{
  Event, SimulationResult, drive_event, loading_event, unloading_event, hold_event,
}
use project_mittens.Hos.Simulator.Completion.{simulate_completes, all_minutes}
use project_mittens.Hos.Trip.{
  Trip, Windows, Journey, Dwell, TripFeasibilityResult, ceil_minutes, leg, hold_early, early_dwell,
  drive_min, speed, travel, report, evaluate_trip_feasibility, late_pickup,
}

-- The ceiling of a duration in minutes.
ceil_minutes_bounds :
    (d : ℕ) → (d ≤ ceil_minutes d * minute) × (ceil_minutes d * minute < d + minute)
unfolding ceil_minutes
ceil_minutes_bounds d = omega arith

module _ (W : Type 0) ⦃f : Float W⦄ (specs : PolicySpecs) (v : validate specs ≡ ok tt) where
  -- A leg takes at least as long as its event.
  leg_lem :
      (c : DriverClocks) (ev : Event W)
      → IsSound specs c
      → (r : SimulationResult W) × (leg specs c ev ≡ ok r)
        × (c.now + pos_part ev.duration_min * minute ≤ r.final_clocks.now)
        × IsSound specs r.final_clocks
  unfolding leg all_minutes
  leg_lem c ev s =
      let (r, e, _, _, t, g) = simulate_completes specs c (ev ∷ []) v s in (r, e, omega arith, g)

  hold_early_lem :
      (earliest : ℕ) (loc : String) (c : DriverClocks)
      → IsSound specs c
      → (d : Dwell) × (hold_early W specs (ceil_minutes (earliest - c.now)) loc c ≡ ok d)
        × (max earliest c.now ≤ d.clocks.now)
        × IsSound specs d.clocks
  unfolding hold_early hold_event
  hold_early_lem earliest loc c s =
      let early = ceil_minutes (earliest - c.now) in
      let (r, e, t, g) = leg_lem c (hold_event (pos early) loc) s in
      (
        record { clocks = r.final_clocks; dwell_min = pos early; rest_min = r.total_rest_min },
        rw e,
        omega (arith, t, ceil_minutes_bounds (earliest - c.now)),
        g,
      )

  early_dwell_lem :
      (earliest : ℕ) (loc : String) (c : DriverClocks)
      → IsSound specs c
      → (d : Dwell) × (early_dwell W specs earliest loc c ≡ ok d)
        × (max earliest c.now ≤ d.clocks.now)
        × IsSound specs d.clocks
  unfolding early_dwell
  early_dwell_lem earliest loc c s = elim (Bool-cases test) [
    | inl e ↦ rw e (hold_early_lem earliest loc c s)
    | inr e ↦ rw e (record { clocks = c; dwell_min = pos 0; rest_min = pos 0 }, refl, in_time e, s)
  ]
    where
      test : Bool
      test = not (earliest == 0) && ltb c.now earliest && ltb 0 (ceil_minutes (earliest - c.now))

      in_time : test ≡ false → max earliest c.now ≤ c.now
      in_time e = ground (arith, ceil_minutes_bounds (earliest - c.now))

-- The times of a journey are in order. Loading starts when the driver has arrived and the pickup
-- window is open, and unloading when the load has arrived and the delivery window is open; each
-- takes at least its minutes, and so do the two drives.
pub record IsOrderly {W : Type 0} ⦃f : Float W⦄ (trip : Trip W) (j : Journey) : Type 0 where
  pub deadhead : j.start.now + pos_part j.deadhead * minute ≤ j.arrived.now
  pub loading :
      max trip.windows.pickup_earliest j.arrived.now + pos_part trip.loading_min * minute
      ≤ j.loaded_up.now
  pub linehaul : j.loaded_up.now + pos_part j.linehaul * minute ≤ j.delivered.now
  pub unloading :
      max trip.windows.delivery_earliest j.delivered.now + pos_part trip.unloading_min * minute
      ≤ j.unloaded.now

module _ {W : Type 0} ⦃f : Float W⦄ where
  travel-IsOrderly :
      (trip : Trip W) (c : DriverClocks) (specs : PolicySpecs)
      → validate specs ≡ ok tt
      → IsSound specs c
      → (j : Journey) × (travel trip c specs ≡ ok j)
        × (j.start ≡ c)
        × IsOrderly trip j
        × IsSound specs j.unloaded
  unfolding travel drive_event loading_event unloading_event
  travel-IsOrderly trip c specs v s0 =
      let w = trip.windows in
      let avg = speed trip.avg_speed_mph in
      let dh = drive_min trip.deadhead_miles avg in
      let lh = drive_min trip.loaded_miles avg in
      let (r1, e1, t1, s1) =
        leg_lem W specs v c (drive_event dh trip.deadhead_miles "ORIGIN_DEADHEAD") s0 in
      let (d1, f1, u1, s2) =
        early_dwell_lem W specs v w.pickup_earliest "ORIGIN_EARLY_ARRIVAL_DWELL" r1.final_clocks
          s1 in
      let (r2, e2, t2, s3) =
        leg_lem W specs v d1.clocks (loading_event trip.loading_min "ORIGIN_FACILITY") s2 in
      let (r3, e3, t3, s4) =
        leg_lem W specs v r2.final_clocks (drive_event lh trip.loaded_miles "LINEHAUL_TRANSIT")
          s3 in
      let (d2, f2, u2, s5) =
        early_dwell_lem W specs v w.delivery_earliest "DEST_EARLY_ARRIVAL_DWELL" r3.final_clocks
          s4 in
      let (r4, e4, t4, s6) =
        leg_lem W specs v d2.clocks (unloading_event trip.unloading_min "DEST_FACILITY") s5 in
      (
        record {
          start = c;
          deadhead = dh;
          linehaul = lh;
          arrived = r1.final_clocks;
          loaded_up = r2.final_clocks;
          delivered = r3.final_clocks;
          unloaded = r4.final_clocks;
          rest_min =
              r1.total_rest_min
              +ℤ r2.total_rest_min
              +ℤ r3.total_rest_min
              +ℤ r4.total_rest_min
              +ℤ (d1.rest_min +ℤ d2.rest_min);
          dwell_min = d1.dwell_min +ℤ d2.dwell_min;
        },
        rw (e1, f1, e2, e3, f2, e4),
        refl,
        omega (arith, t1, u1, t2, t3, u2, t4),
        s6,
      )

-- An arrival by the end of a window, or where the window has no end.
abbrev pub InTime : ℕ → ℕ → Type 0
InTime latest t = (latest ≡ 0) ⊎ (t ≤ latest)

-- What a projected trip promises.
pub record IsProjected {W : Type 0} (specs : PolicySpecs) (trip : Trip W) (c : DriverClocks)
    (r : TripFeasibilityResult) : Type 0 where
  pub deadhead : c.now + pos_part r.deadhead_drive_min * minute ≤ r.pickup_arrival_time
  pub loading :
      max trip.windows.pickup_earliest r.pickup_arrival_time + pos_part trip.loading_min * minute
      ≤ r.loading_end_time
  pub linehaul : r.loading_end_time + pos_part r.loaded_drive_min * minute ≤ r.delivery_arrival_time
  pub unloading :
      max trip.windows.delivery_earliest r.delivery_arrival_time
        + pos_part trip.unloading_min * minute
      ≤ r.unloading_end_time
  pub at_end : r.final_clocks.now ≡ r.unloading_end_time
  pub covers : r.unloading_end_time ≤ c.now + pos_part r.total_trip_duration_min * minute
  pub tight : c.now + pos_part r.total_trip_duration_min * minute < r.unloading_end_time + minute
  pub sound : IsSound specs r.final_clocks

report_feasible :
    (w : Windows) (j : Journey)
    → let r = report w j in
      (r.is_feasible ≡ true) ↔ (
        InTime w.pickup_latest r.pickup_arrival_time
        × InTime w.delivery_latest r.delivery_arrival_time)
unfolding report
report_feasible w j = ground arith

report_reason :
    (w : Windows) (j : Journey)
    → let r = report w j in
      (r.infeasibility_reason ≡ some late_pickup)
      ↔ (¬ (InTime w.pickup_latest r.pickup_arrival_time))
unfolding report
report_reason w j = ground arith

report-IsProjected :
    {W : Type 0} ⦃f : Float W⦄ (specs : PolicySpecs) (trip : Trip W) (j : Journey)
    → IsOrderly trip j
    → IsSound specs j.unloaded
    → IsProjected specs trip j.start (report trip.windows j)
unfolding report
report-IsProjected specs trip j o s =
    let (a, b) = ceil_minutes_bounds (j.unloaded.now - j.start.now) in
    record {
      deadhead = o.deadhead;
      loading = o.loading;
      linehaul = o.linehaul;
      unloading = o.unloading;
      at_end = refl;
      covers = omega (arith, o);
      tight = omega (arith, o);
      sound = s;
    }

-- For a sound driver under a valid policy a trip always has a projection. Its times are in order:
-- no loading before the driver has arrived and the pickup window is open, no unloading before the
-- load has arrived and the delivery window is open, and each drive and stop takes at least its
-- minutes. The total is the time to the end of unloading, rounded up to a minute. The trip is
-- feasible exactly when neither arrival is after the end of its window, and a late pickup is the
-- reason given exactly when the pickup is late.
pub evaluate_trip_projects :
    {W : Type 0} ⦃f : Float W⦄ (trip : Trip W) (c : DriverClocks) (specs : PolicySpecs)
    → validate specs ≡ ok tt
    → IsSound specs c
    → (r : TripFeasibilityResult) × (evaluate_trip_feasibility trip (some c) specs ≡ ok r)
      × IsProjected specs trip c r
      × ((r.is_feasible ≡ true) ↔ (
          InTime trip.windows.pickup_latest r.pickup_arrival_time
          × InTime trip.windows.delivery_latest r.delivery_arrival_time))
      × ((r.infeasibility_reason ≡ some late_pickup)
          ↔ (¬ (InTime trip.windows.pickup_latest r.pickup_arrival_time)))
unfolding evaluate_trip_feasibility
evaluate_trip_projects trip c specs v s =
    let (j, e, same, o, g) = travel-IsOrderly trip c specs v s in
    let p = report-IsProjected specs trip j o g in
    (
      report trip.windows j,
      rw e,
      rw same at p,
      report_feasible trip.windows j,
      report_reason trip.windows j,
    )
