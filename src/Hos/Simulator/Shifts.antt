-- ===== src/Hos/Simulator/Shifts.antt =====
-- The rounds of on-duty work and of holding, and a rest.
use project_mittens.Prelude.{
  ℕ, suc, ◌+◌, ◌*◌, ◌-◌, ◌≤◌, ◌<◌, ◌≡◌, refl, sym, ◌∙◌, Bool, String, arith, min, leb, ◌==◌, inl,
  inr, Bool-cases,
}
use project_mittens.Prelude.Int.{ℤ, pos, pos_part}
use project_mittens.Prelude.Result.{Yields, Yields_mono}
use project_mittens.Prelude.Loop.{Round}
use project_mittens.Float.{Float}
use project_mittens.Hos.Specs.{PolicySpecs, IsUsable}
use project_mittens.Hos.Clocks.{DriverClocks}
use project_mittens.Hos.Clocks.Bounds.{Worked-IsSound}
use project_mittens.Hos.Clocks.Operations.{
  apply_on_duty_branches, PermitsWork, rested-IsSound, apply_off_duty-rested,
}
use project_mittens.Hos.Clocks.Resets.{rested-now}
use project_mittens.Hos.Events.{EventType, Event, hold_event}
use project_mittens.Hos.Rounds.{
  Run, record_entry, count_duty, count_rest, duty_chunk, duty_round, hold_chunk, hold_round,
  rest_once,
}
use project_mittens.Hos.Simulator.Steps.{Step, Steps, IsWork}
use project_mittens.Hos.Simulator.Progress.{duty_rests, reset-duty_rests, duty_rests-le}
use project_mittens.Hos.Simulator.Rounds.{
  Reached, Refused, drive_share, duty_share, pay, exhausted-Ahead,
}

-- Minutes of work are all on duty and none at the wheel.
pub work_shares :
    (k : EventType) → IsWork k → (r : ℕ) → (drive_share k r ≡ 0) × (duty_share k r ≡ r)
work_shares EventType.drive w r = elim w [ ]
work_shares EventType.rest w r = elim w [ ]
work_shares EventType.hold w r = elim w [ ]
work_shares _ w r = (refl, refl)

module _ {W : Type 0} ⦃f : Float W⦄ (specs : PolicySpecs) (u : IsUsable specs) (s0 : Run W)
    (k : EventType) (drive duty : ℤ) (by : ℕ) where
  module _ (w : IsWork k) (event : ℕ → Event W) (is_k : (m : ℕ) → (event m).type ≡ k)
      (lasts : (m : ℕ) → (event m).duration_min ≡ pos m) where
    duty_chunk-Reached :
        (auto : Bool) (avail r : ℕ) (s : Run W)
        → 0 < avail
        → PermitsWork s.clocks avail
        → 0 < r
        → Reached specs s0 k drive duty by r s
        → Yields
            (Refused auto)
            (λ t. (t.rem < r) × Reached specs s0 k drive duty by t.rem t.state)
            (duty_chunk event avail r s)
    unfolding duty_chunk record_entry count_duty
    duty_chunk-Reached auto avail r s a b p h =
        let m = min r avail in
        let limits : PermitsWork s.clocks m = omega arith in
        let (next, e, d) =
          (apply_on_duty_branches specs s.clocks h.sound).1 m (omega arith) limits in
        let all = (work_shares k w r).1 in
        let left = (work_shares k w (r - m)).1 in
        rw e (
          omega arith,
          record {
            path =
                Steps.then h.path
                  (Step.works m (event m) next (omega arith) (rw (is_k m) w) (lasts m) limits d);
            sound = Worked-IsSound h.sound d;
            drive_left = rw ((work_shares k w (r - m)).0, ← (work_shares k w r).0) h.drive_left;
            duty_left = rw left (pay s.total_duty r m (omega arith) ∙ rw all at h.duty_left);
            elapsed = omega (arith, h.elapsed, d.later);
          },
        )

    abbrev Nearer : ℕ → Run W → Round (Run W) → Type 0
    Nearer r s t =
        Reached specs s0 k drive duty by t.rem t.state
        × (3 * t.rem + duty_rests t.state.clocks < 3 * r + duty_rests s.clocks)

    -- A round of work works, or inserts a statutory rest that was due, or is refused.
    pub duty_round-Reached :
        (auto : Bool) (loc : String) (r : ℕ) (s : Run W)
        → Reached specs s0 k drive duty by (suc r) s
        → Yields (Refused auto) (Nearer (suc r) s) (duty_round specs auto event loc (suc r) s)
    unfolding duty_round
    duty_round-Reached auto loc r s h =
        let avail = min s.clocks.remaining_shift_min s.clocks.remaining_cycle_min in
        elim (Bool-cases (avail == 0)) [
          | inl e ↦
              let fewer = reset-duty_rests specs s.clocks u (ground arith) in
              rw e (
                Yields_mono (Refused auto) _ (Nearer (suc r) s) _
                  (exhausted-Ahead specs u s0 k drive duty by auto loc (suc r) s h)
                  (λ t q. (rw (sym q.0) at q.1, rw (q.0, q.2) (omega arith))))
          | inr e ↦ rw e (
              Yields_mono (Refused auto) _ (Nearer (suc r) s) _
                (duty_chunk-Reached auto avail (suc r) s (ground arith) (omega arith) (omega arith)
                  h)
                (λ t q. (q.1, omega (arith, duty_rests-le t.state.clocks))))
        ]

hold_chunk_bounds :
    (specs : PolicySpecs) (c : DriverClocks) (r : ℕ)
    → IsUsable specs
    → 0 < r
    → (0 < hold_chunk specs c r) × (hold_chunk specs c r ≤ r)
unfolding hold_chunk
hold_chunk_bounds specs c r u h = ground arith

module _ {W : Type 0} ⦃f : Float W⦄ (specs : PolicySpecs) (u : IsUsable specs) (s0 : Run W)
    (drive duty : ℤ) (by : ℕ) where
  -- A round of a hold rests for some of what is left, and is never refused.
  pub hold_round-Reached :
      (auto : Bool) (loc : String) (r : ℕ) (s : Run W)
      → Reached specs s0 EventType.hold drive duty by (suc r) s
      → Yields
          (Refused auto)
          (λ t. Reached specs s0 EventType.hold drive duty by t.rem t.state × (t.rem < suc r))
          (hold_round specs loc (suc r) s)
  unfolding hold_round hold_event record_entry count_rest
  hold_round-Reached auto loc r s h =
      let m = hold_chunk specs s.clocks (suc r) in
      let sleeper = leb specs.daily_reset_min (suc r) in
      rw (apply_off_duty-rested specs (pos m) sleeper s.clocks) (
        record {
          path = Steps.then h.path (Step.rests sleeper _ tt);
          sound = rested-IsSound specs (pos m) sleeper s.clocks h.sound;
          drive_left = h.drive_left;
          duty_left = h.duty_left;
          elapsed = omega (
            arith,
            h.elapsed,
            rested-now specs (pos m) sleeper s.clocks,
            hold_chunk_bounds specs s.clocks (suc r) u (omega arith),
          );
        },
        omega (arith, hold_chunk_bounds specs s.clocks (suc r) u (omega arith)),
      )

  pub rest_once-Reached :
      (auto : Bool) (ev : Event W) (s : Run W)
      → ev.type ≡ EventType.rest
      → Reached specs s0 EventType.rest drive duty by (pos_part ev.duration_min) s
      → Yields
          (Refused auto)
          (Reached specs s0 EventType.rest drive duty by 0)
          (rest_once specs ev s)
  unfolding rest_once record_entry count_rest
  rest_once-Reached auto ev s e h =
      rw (apply_off_duty-rested specs ev.duration_min ev.is_sleeper s.clocks) (record {
        path = Steps.then h.path (Step.rests ev.is_sleeper ev (rw e tt));
        sound = rested-IsSound specs ev.duration_min ev.is_sleeper s.clocks h.sound;
        drive_left = h.drive_left;
        duty_left = h.duty_left;
        elapsed = omega (arith, h.elapsed, rested-now specs ev.duration_min ev.is_sleeper s.clocks);
      })
