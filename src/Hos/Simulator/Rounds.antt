-- ===== src/Hos/Simulator/Rounds.antt =====
-- `Simulate`: a round of the driving loop, as part of a path of steps.
use project_mittens.Prelude.{
  ℕ, ◌+◌, ◌*◌, ◌-◌, ◌≤◌, ◌<◌, ◌≡◌, refl, Bool, true, false, String, arith, min, ◌==◌, inl, inr, sym,
  suc, Bool-cases, ◌∙◌,
}
use native.Mathlib.Nat.{le_refl}
use project_mittens.Prelude.Int.{ℤ, pos, ◌+ℤ◌, int_laws}
use project_mittens.Prelude.Result.{Yields, Yields_mono}
use project_mittens.Prelude.Loop.{Round}
use project_mittens.Float.{Float}
use project_mittens.Hos.Specs.{PolicySpecs, HosError, hos_violation, IsUsable}
use project_mittens.Hos.Clocks.{minute, max_immediate_drive_min}
use project_mittens.Hos.Clocks.Bounds.{IsSound, max_immediate_drive_min-Permits, Driven-IsSound}
use project_mittens.Hos.Clocks.Operations.{
  apply_drive_branches, rested, rested-pos, rested-IsSound, apply_off_duty-rested,
}
use project_mittens.Hos.Clocks.Resets.{rested-now}
use project_mittens.Hos.Events.{EventType, drive_event, rest_event}
use project_mittens.Hos.Rounds.{
  Run, required_reset, record_entry, count_duty, count_drive, count_rest, insert_required_reset,
  exhausted, drive_chunk, drive_round,
}
use project_mittens.Hos.Simulator.Steps.{Step, Steps}
use project_mittens.Hos.Simulator.Progress.{
  drive_rests, reset_once, reset-duration_pos, reset-drive_rests, drive_rests-le,
}

-- Of `r` minutes of an event, those at the wheel, and those on duty.
abbrev pub drive_share : EventType → ℕ → ℕ
drive_share EventType.drive r = r
drive_share _ r = 0

abbrev pub duty_share : EventType → ℕ → ℕ
duty_share EventType.rest r = 0
duty_share EventType.hold r = 0
duty_share _ r = r

-- `s` is reached from `s0`, with `r` minutes of an event to go until the totals are `drive` and
-- `duty`, and the time is `by` or later.
pub record Reached {W : Type 0} (specs : PolicySpecs) (s0 : Run W) (k : EventType) (drive duty : ℤ)
    (by : ℕ) (r : ℕ) (s : Run W) : Type 0 where
  pub path : Steps specs s0 s
  pub sound : IsSound specs s.clocks
  pub drive_left : s.total_drive +ℤ pos (drive_share k r) ≡ drive
  pub duty_left : s.total_duty +ℤ pos (duty_share k r) ≡ duty
  pub elapsed : by ≤ s.clocks.now + r * minute

-- The one error of a simulation, and only when it may not insert rests.
abbrev pub Refused : Bool → HosError → Type 0
Refused auto e = (e ≡ hos_violation) × (auto ≡ false)

module _ {W : Type 0} ⦃f : Float W⦄ (specs : PolicySpecs) (u : IsUsable specs) (s0 : Run W)
    (k : EventType) (drive duty : ℤ) (by : ℕ) where
  abbrev pub Ahead : ℕ → Run W → Type 0
  Ahead = Reached specs s0 k drive duty by

  pub exhausted-Ahead :
      (auto : Bool) (loc : String) (r : ℕ) (s : Run W)
      → Ahead r s
      → Yields
          (Refused auto)
          (λ t. (t.rem ≡ r) × Ahead r t.state × (t.state.clocks ≡ reset_once specs s.clocks))
          (exhausted specs auto loc r s)
  unfolding exhausted insert_required_reset rest_event record_entry count_rest
  exhausted-Ahead false loc r s h = (refl, refl)
  exhausted-Ahead true loc r s h =
      let z = required_reset s.clocks specs in
      let c = rested specs (pos z.duration) z.sleeper s.clocks in
      let same : c ≡ reset_once specs s.clocks =
        rested-pos specs z.duration z.sleeper s.clocks (reset-duration_pos specs s.clocks u) in
      rw (apply_off_duty-rested specs (pos z.duration) z.sleeper s.clocks) (
        refl,
        record {
          path = Steps.then h.path (Step.rests z.sleeper _ tt);
          sound = rested-IsSound specs (pos z.duration) z.sleeper s.clocks h.sound;
          drive_left = h.drive_left;
          duty_left = h.duty_left;
          elapsed = omega (arith, h.elapsed, rested-now specs (pos z.duration) z.sleeper s.clocks);
        },
        same,
      )

-- Minutes that are counted move from what is left to the total.
pub pay : (t : ℤ) (r m : ℕ) → m ≤ r → t +ℤ pos m +ℤ pos (r - m) ≡ t +ℤ pos r
pay t r m h = omega int_laws

module _ {W : Type 0} ⦃f : Float W⦄ (specs : PolicySpecs) (u : IsUsable specs) (s0 : Run W)
    (drive duty : ℤ) (by : ℕ) where
  drive_chunk-Reached :
      (auto : Bool) (dpm : W) (loc : String) (avail r : ℕ) (s : Run W)
      → 0 < avail
      → avail ≤ max_immediate_drive_min s.clocks
      → 0 < r
      → Reached specs s0 EventType.drive drive duty by r s
      → Yields
          (Refused auto)
          (λ t. (t.rem < r) × Reached specs s0 EventType.drive drive duty by t.rem t.state)
          (drive_chunk dpm loc avail r s)
  unfolding drive_chunk drive_event record_entry count_drive count_duty
  drive_chunk-Reached auto dpm loc avail r s a b p h =
      let m = min r avail in
      let limits = max_immediate_drive_min-Permits s.clocks m (omega arith) in
      let (next, e, d) = (apply_drive_branches specs s.clocks h.sound).1 m (omega arith) limits in
      rw e (
        omega arith,
        record {
          path = Steps.then h.path (Step.drives m _ next (omega arith) refl refl limits d);
          sound = Driven-IsSound h.sound d;
          drive_left = pay s.total_drive r m (omega arith) ∙ h.drive_left;
          duty_left = pay s.total_duty r m (omega arith) ∙ h.duty_left;
          elapsed = omega (arith, h.elapsed, d.later);
        },
      )

  -- Less is left to drive, or fewer statutory rests are due.
  abbrev Nearer : ℕ → Run W → Round (Run W) → Type 0
  Nearer r s t =
      Reached specs s0 EventType.drive drive duty by t.rem t.state
      × (3 * t.rem + drive_rests t.state.clocks < 3 * r + drive_rests s.clocks)

  -- A round of driving drives, or inserts a statutory rest that was due, or is refused.
  pub drive_round-Reached :
      (auto : Bool) (dpm : W) (loc : String) (r : ℕ) (s : Run W)
      → Reached specs s0 EventType.drive drive duty by (suc r) s
      → Yields (Refused auto) (Nearer (suc r) s) (drive_round specs auto dpm loc (suc r) s)
  unfolding drive_round
  drive_round-Reached auto dpm loc r s h =
      let avail = max_immediate_drive_min s.clocks in
      elim (Bool-cases (avail == 0)) [
        | inl e ↦
            let fewer = reset-drive_rests specs s.clocks u (ground arith) in
            rw e (
              Yields_mono (Refused auto) _ (Nearer (suc r) s) _
                (exhausted-Ahead specs u s0 _ drive duty by auto loc (suc r) s h)
                (λ t q. (rw (sym q.0) at q.1, rw (q.0, q.2) (omega arith))))
        | inr e ↦ rw e (
            Yields_mono (Refused auto) _ (Nearer (suc r) s) _
              (drive_chunk-Reached auto dpm loc avail (suc r) s (ground arith) (le_refl avail)
                (omega arith) h)
              (λ t q. (q.1, omega (arith, drive_rests-le t.state.clocks))))
      ]
