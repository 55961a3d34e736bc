-- ===== src/Hos/Simulator/Dispatch.antt =====
-- `Simulate`: its inner loops, event by event, on their fuel.
use native.Mathlib.Nat.{le_refl}
use project_mittens.Prelude.{ℕ, ◌+◌, ◌*◌, ◌≡◌, refl, Bool, arith}
use project_mittens.Prelude.Int.{pos, ◌+ℤ◌, pos_part}
use project_mittens.Prelude.Result.{Yields}
use project_mittens.Prelude.Loop.{while_pos, while_pos-Yields}
use project_mittens.Float.{Float}
use project_mittens.Hos.Specs.{PolicySpecs, out_of_fuel, IsUsable}
use project_mittens.Hos.Clocks.{minute}
use project_mittens.Hos.Clocks.Bounds.{IsSound}
use project_mittens.Hos.Events.{EventType, Event, border_crossing_event}
use project_mittens.Hos.Rounds.{Run, drive_round, duty_round, hold_round}
use project_mittens.Hos.Simulator.{enough, work_event, border_event, dist_per_min, dispatch}
use project_mittens.Hos.Simulator.Steps.{Step, Steps, IsWork}
use project_mittens.Hos.Simulator.Progress.{drive_rests, duty_rests, drive_rests-le, duty_rests-le}
use project_mittens.Hos.Simulator.Rounds.{
  Reached, Refused, drive_share, duty_share, drive_round-Reached,
}
use project_mittens.Hos.Simulator.Shifts.{duty_round-Reached, hold_round-Reached, rest_once-Reached}

module _ {W : Type 0} ⦃f : Float W⦄ (specs : PolicySpecs) (u : IsUsable specs) where
  -- The state before an event, as one with all of its minutes to go.
  abbrev pub Served : (k : EventType) (r : ℕ) (s : Run W) → Run W → Type 0
  Served k r s =
      Reached specs s k (s.total_drive +ℤ pos (drive_share k r))
        (s.total_duty +ℤ pos (duty_share k r)) (s.clocks.now + r * minute) 0

  duty_loop :
      (auto : Bool) (k : EventType) (w : IsWork k) (event : ℕ → Event W)
      → ((m : ℕ) → (event m).type ≡ k)
      → ((m : ℕ) → (event m).duration_min ≡ pos m)
      → (loc : _) (r : ℕ) (s : Run W) → IsSound specs s.clocks
      → Yields
          (Refused auto)
          (Served k r s)
          (while_pos out_of_fuel (duty_round specs auto event loc) (enough r) r s)
  duty_loop auto k w event is_k lasts loc r s h =
      while_pos-Yields out_of_fuel (duty_round specs auto event loc) (Refused auto)
        (Reached specs s k (s.total_drive +ℤ pos (drive_share k r))
          (s.total_duty +ℤ pos (duty_share k r)) (s.clocks.now + r * minute))
        (λ r' t. 3 * r' + duty_rests t.clocks)
        (duty_round-Reached specs u s k _ _ _ w event is_k lasts auto loc) (enough r) r s
        (omega (arith, duty_rests-le s.clocks))
        (record {
          path = Steps.here;
          sound = h;
          drive_left = refl;
          duty_left = refl;
          elapsed = le_refl _;
        })

  pub dispatch-Reached :
      (auto : Bool) (k : EventType) (ev : Event W) (s : Run W)
      → ev.type ≡ k
      → IsSound specs s.clocks
      → Yields (Refused auto) (Served k (pos_part ev.duration_min) s) (dispatch specs auto k ev s)
  unfolding dispatch border_crossing_event
  dispatch-Reached auto EventType.drive ev s e h =
      let r = pos_part ev.duration_min in
      let s1 : Run W = record s { total_distance = f.add s.total_distance ev.distance_miles } in
      let path = Steps.then Steps.here (Step.travels (f.add s.total_distance ev.distance_miles)) in
      while_pos-Yields out_of_fuel (drive_round specs auto (dist_per_min ev) ev.location_id)
        (Refused auto)
        (Reached specs s EventType.drive (s.total_drive +ℤ pos r) (s.total_duty +ℤ pos r)
          (s.clocks.now + r * minute))
        (λ r' t. 3 * r' + drive_rests t.clocks)
        (drive_round-Reached specs u s _ _ _ auto (dist_per_min ev) ev.location_id) (enough r) r s1
        (omega (arith, drive_rests-le s.clocks))
        (record {
          path = path;
          sound = h;
          drive_left = refl;
          duty_left = refl;
          elapsed = le_refl _;
        })
  dispatch-Reached auto EventType.loading ev s e h =
      duty_loop auto EventType.loading tt (work_event ev) (λ m. e) (λ m. refl) _ _ s h
  dispatch-Reached auto EventType.unloading ev s e h =
      duty_loop auto EventType.unloading tt (work_event ev) (λ m. e) (λ m. refl) _ _ s h
  dispatch-Reached auto EventType.border_crossing ev s e h =
      duty_loop auto EventType.border_crossing tt (border_event ev) (λ m. refl) (λ m. refl) _ _ s h
  dispatch-Reached auto EventType.rest ev s e h =
      rest_once-Reached specs u s _ _ _ auto ev s e (record {
        path = Steps.here;
        sound = h;
        drive_left = refl;
        duty_left = refl;
        elapsed = le_refl _;
      })
  dispatch-Reached auto EventType.hold ev s e h =
      let r = pos_part ev.duration_min in
      while_pos-Yields out_of_fuel (hold_round specs ev.location_id) (Refused auto)
        (Reached specs s EventType.hold (s.total_drive +ℤ pos 0) (s.total_duty +ℤ pos 0)
          (s.clocks.now + r * minute))
        (λ r' t. r') (hold_round-Reached specs u s _ _ _ auto ev.location_id) (enough r) r s
        (omega arith)
        (record {
          path = Steps.here;
          sound = h;
          drive_left = refl;
          duty_left = refl;
          elapsed = le_refl _;
        })
