-- ===== src/Hos/Simulator/Progress.antt =====
-- `insertRequiredReset`: how far a driver is from working again, counted in rests.
use project_mittens.Prelude.{
  ℕ, ◌≤◌, ◌<◌, ◌≡◌, ◌||◌, arith, ◌==◌, if◌then◌else◌, min, true, false, ◌⊎◌, inl, inr,
}
use project_mittens.Hos.Specs.{PolicySpecs, IsUsable}
use project_mittens.Hos.Clocks.{DriverClocks, max_immediate_drive_min, rest}
use project_mittens.Hos.Clocks.Resets.{IsRested, rest-cycle, rest_long, rest-break}
use project_mittens.Hos.Rounds.{required_reset}

-- The rests that are due before a minute can be worked, and before one can be driven.
pub duty_rests : DriverClocks → ℕ
duty_rests c = if min c.remaining_shift_min c.remaining_cycle_min == 0 then 1 else 0

pub drive_rests : DriverClocks → ℕ
drive_rests c =
    if max_immediate_drive_min c == 0
    then if c.remaining_cycle_min == 0 || c.remaining_driving_min == 0 || c.remaining_shift_min == 0
      then 1
      else 2
    else 0

abbrev pub reset_once : PolicySpecs → DriverClocks → DriverClocks
reset_once specs c = let reset = required_reset c specs in rest specs reset.duration reset.sleeper c

pub reset-duration_pos :
    (specs : PolicySpecs) (c : DriverClocks)
    → IsUsable specs
    → 0 < (required_reset c specs).duration
unfolding required_reset
reset-duration_pos specs c u = ground arith

drive_rests-ready :
    (specs : PolicySpecs) (c : DriverClocks)
    → IsUsable specs
    → IsRested specs c
    → 0 < c.remaining_cycle_min
    → drive_rests c ≡ 0
unfolding max_immediate_drive_min drive_rests
drive_rests-ready specs c u h k = ground arith

drive_rests-le_one : (c : DriverClocks) → 0 < c.remaining_hygiene_min → drive_rests c ≤ 1
unfolding max_immediate_drive_min drive_rests
drive_rests-le_one c h = ground arith

reset_no_cycle :
    (specs : PolicySpecs) (c : DriverClocks)
    → IsUsable specs
    → c.remaining_cycle_min ≡ 0
    → drive_rests (reset_once specs c) ≡ 0
unfolding required_reset drive_rests
reset_no_cycle specs c u e =
    let d = specs.weekly_reset_min in
    let r = rest specs d false c in
    let same : reset_once specs c ≡ r = ground arith in
    rw same (
      drive_rests-ready specs r u (rest_long specs d false c (inl (omega arith))).0
        (ground (arith, rest-cycle specs d false c)))

reset_no_shift :
    (specs : PolicySpecs) (c : DriverClocks)
    → IsUsable specs
    → 0 < c.remaining_cycle_min
    → (c.remaining_driving_min ≡ 0) ⊎ (c.remaining_shift_min ≡ 0)
    → drive_rests (reset_once specs c) ≡ 0
unfolding required_reset drive_rests
reset_no_shift specs c u k e =
    let d = specs.daily_reset_min in
    let r = rest specs d true c in
    let same : reset_once specs c ≡ r = ground arith in
    rw same (
      drive_rests-ready specs r u (rest_long specs d true c (inr (omega arith))).0
        (ground (arith, rest-cycle specs d true c)))

reset_no_hygiene :
    (specs : PolicySpecs) (c : DriverClocks)
    → IsUsable specs
    → 0 < c.remaining_cycle_min
    → 0 < c.remaining_driving_min
    → 0 < c.remaining_shift_min
    → c.remaining_hygiene_min ≡ 0
    → drive_rests (reset_once specs c) ≤ 1
unfolding required_reset drive_rests
reset_no_hygiene specs c u k d s e =
    let b = specs.rest_break_min in
    let r = rest specs b false c in
    let same : reset_once specs c ≡ r = ground arith in
    rw same (drive_rests-le_one r (omega (arith, rest-break specs b false c)))

pub reset-drive_rests :
    (specs : PolicySpecs) (c : DriverClocks)
    → IsUsable specs
    → max_immediate_drive_min c ≡ 0
    → drive_rests (reset_once specs c) < drive_rests c
unfolding max_immediate_drive_min drive_rests
reset-drive_rests specs c u h =
    ground (arith, reset_no_cycle specs c u, reset_no_shift specs c u, reset_no_hygiene specs c u)

pub reset-duty_rests :
    (specs : PolicySpecs) (c : DriverClocks)
    → IsUsable specs
    → min c.remaining_shift_min c.remaining_cycle_min ≡ 0
    → duty_rests (reset_once specs c) < duty_rests c
unfolding required_reset rest duty_rests
reset-duty_rests specs c u h = ground arith

pub drive_rests-le : (c : DriverClocks) → drive_rests c ≤ 2
unfolding drive_rests
drive_rests-le c = ground arith

pub duty_rests-le : (c : DriverClocks) → duty_rests c ≤ 1
unfolding duty_rests
duty_rests-le c = ground arith
