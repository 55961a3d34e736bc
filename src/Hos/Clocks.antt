-- ===== src/Hos/Clocks.antt =====
-- internal/domain/model/hos/clocks.go. The remaining minutes are numbers: a clock is lowered only
-- by at most what is left. An instant is in nanoseconds after Go's zero time, so that `IsZero`
-- tests for 0.
pub mod Bounds
pub mod Operations
pub mod Resets
pub mod Reachable
use project_mittens.Prelude.{
  ℕ, ◌+◌, ◌-◌, ◌*◌, String, Bool, true, false, ◌&&◌, ◌||◌, none, some, List, leb, ltb, ◌==◌,
  if◌then◌else◌, replicate, add_at,
}
use project_mittens.Prelude.Int.{ℤ, pos, pos_part, leb_ℤ}
use project_mittens.Prelude.Result.{Result, ok, err}
use project_mittens.Hos.Specs.{PolicySpecs, HosError, hos_violation, index_out_of_range}

pub data DutyStatus : Type 0 where
  off_duty sleeper_berth driving on_duty_not_driving : DutyStatus

pub to_string : DutyStatus → String
to_string off_duty = "OFF_DUTY"
to_string sleeper_berth = "SLEEPER_BERTH"
to_string driving = "DRIVING"
to_string on_duty_not_driving = "ON_DUTY_NOT_DRIVING"

pub record DriverClocks : Type 0 where
  pub now : ℕ
  pub remaining_hygiene_min : ℕ
  pub remaining_driving_min : ℕ
  pub remaining_shift_min : ℕ
  pub remaining_cycle_min : ℕ
  pub current_duty_status : DutyStatus
  pub consecutive_off_duty_min : ℕ
  pub consecutive_driving_min : ℕ
  pub duty_minutes_by_day : List ℕ
  pub current_day_index : ℕ
  pub has_pending_split : Bool
  pub pending_split_min : ℕ
  pub pending_split_is_sleeper : Bool
  pub has_adverse_conditions : Bool
  pub driving_ceiling_extension : ℕ

-- `time.Minute`
abbrev pub minute : ℕ
minute = 60_000_000_000

unfoldable pub new_driver_clocks : PolicySpecs → ℕ → DriverClocks
new_driver_clocks specs start_time =
    let cycle_days = if specs.cycle_length_days == 0 then 8 else specs.cycle_length_days in
    record {
      now = start_time;
      remaining_hygiene_min = specs.max_hygiene_min;
      remaining_driving_min = specs.max_driving_min;
      remaining_shift_min = specs.max_shift_min;
      remaining_cycle_min = specs.max_cycle_min;
      current_duty_status = off_duty;
      consecutive_off_duty_min = specs.daily_reset_min;
      consecutive_driving_min = 0;
      duty_minutes_by_day = replicate cycle_days 0;
      current_day_index = 0;
      has_pending_split = false;
      pending_split_min = 0;
      pending_split_is_sleeper = false;
      has_adverse_conditions = false;
      driving_ceiling_extension = 0;
    }

unfoldable pub max_immediate_drive_min : DriverClocks → ℕ
max_immediate_drive_min c =
    let m = c.remaining_hygiene_min in
    let m = if ltb c.remaining_driving_min m then c.remaining_driving_min else m in
    let m = if ltb c.remaining_shift_min m then c.remaining_shift_min else m in
    if ltb c.remaining_cycle_min m then c.remaining_cycle_min else m

-- A deep copy, field by field.
unfoldable pub clone : DriverClocks → DriverClocks
clone c = record {
  now = c.now;
  remaining_hygiene_min = c.remaining_hygiene_min;
  remaining_driving_min = c.remaining_driving_min;
  remaining_shift_min = c.remaining_shift_min;
  remaining_cycle_min = c.remaining_cycle_min;
  current_duty_status = c.current_duty_status;
  consecutive_off_duty_min = c.consecutive_off_duty_min;
  consecutive_driving_min = c.consecutive_driving_min;
  duty_minutes_by_day = c.duty_minutes_by_day;
  current_day_index = c.current_day_index;
  has_pending_split = c.has_pending_split;
  pending_split_min = c.pending_split_min;
  pending_split_is_sleeper = c.pending_split_is_sleeper;
  has_adverse_conditions = c.has_adverse_conditions;
  driving_ceiling_extension = c.driving_ceiling_extension;
}

-- The writes of `ApplyDrive` to the copy, the last of which may be out of range.
drive_writes : ℕ → List ℕ → DriverClocks → DriverClocks
drive_writes m days next = record next {
  now = next.now + m * minute;
  current_duty_status = driving;
  consecutive_off_duty_min = 0;
  consecutive_driving_min = next.consecutive_driving_min + m;
  remaining_hygiene_min = next.remaining_hygiene_min - m;
  remaining_driving_min = next.remaining_driving_min - m;
  remaining_shift_min = next.remaining_shift_min - m;
  remaining_cycle_min = next.remaining_cycle_min - m;
  duty_minutes_by_day = days;
}

unfoldable pub drive : ℕ → DriverClocks → Result HosError DriverClocks
unfolding drive_writes
drive m next = elim (add_at next.duty_minutes_by_day next.current_day_index m) [
  | none ↦ err index_out_of_range
  | some days ↦ ok (drive_writes m days next)
]

unfoldable pub apply_drive : DriverClocks → ℤ → Result HosError DriverClocks
apply_drive c duration_min =
    if leb_ℤ duration_min (pos 0)
    then ok (clone c)
    else if ltb (max_immediate_drive_min c) (pos_part duration_min)
    then err hos_violation
    else drive (pos_part duration_min) (clone c)

-- The writes of `ApplyOnDutyNotDriving` to the copy.
work_writes : ℕ → List ℕ → DriverClocks → DriverClocks
work_writes m days next = record next {
  now = next.now + m * minute;
  current_duty_status = on_duty_not_driving;
  consecutive_off_duty_min = 0;
  remaining_shift_min = next.remaining_shift_min - m;
  remaining_cycle_min = next.remaining_cycle_min - m;
  duty_minutes_by_day = days;
}

unfoldable pub work : ℕ → DriverClocks → Result HosError DriverClocks
unfolding work_writes
work m next = elim (add_at next.duty_minutes_by_day next.current_day_index m) [
  | none ↦ err index_out_of_range
  | some days ↦ ok (work_writes m days next)
]

unfoldable pub apply_on_duty_not_driving : DriverClocks → ℤ → Result HosError DriverClocks
apply_on_duty_not_driving c duration_min =
    if leb_ℤ duration_min (pos 0)
    then ok (clone c)
    else let max_duty = c.remaining_shift_min in
      let max_duty =
        if ltb c.remaining_cycle_min max_duty then c.remaining_cycle_min else max_duty in
      if ltb max_duty (pos_part duration_min)
      then err hos_violation
      else work (pos_part duration_min) (clone c)

-- Driving, shift and hygiene clocks full again, as after a daily reset or a completed split pair.
reset_shift : PolicySpecs → DriverClocks → DriverClocks
reset_shift specs next = record next {
  remaining_driving_min = specs.max_driving_min + next.driving_ceiling_extension;
  remaining_shift_min = specs.max_shift_min;
  remaining_hygiene_min = specs.max_hygiene_min;
  consecutive_driving_min = 0;
}

drop_split : DriverClocks → DriverClocks
drop_split next = record next {
  has_pending_split = false;
  pending_split_min = 0;
  pending_split_is_sleeper = false;
}

anchor_split : ℕ → Bool → DriverClocks → DriverClocks
anchor_split m is_sleeper next = record next {
  has_pending_split = true;
  pending_split_min = m;
  pending_split_is_sleeper = is_sleeper;
}

reset_hygiene : PolicySpecs → DriverClocks → DriverClocks
reset_hygiene specs next = record next {
  remaining_hygiene_min = specs.max_hygiene_min;
  consecutive_driving_min = 0;
}

-- Part 3 of `ApplyOffDuty`: does the rest complete a pair with the pending period?
completes_split : PolicySpecs → ℕ → Bool → DriverClocks → Bool
completes_split specs m is_long_sleeper next =
    let is_short_break = leb specs.min_sleeper_berth_break_min m in
    let has_long =
      (next.pending_split_is_sleeper
        && leb specs.min_sleeper_berth_reset_min next.pending_split_min)
      || is_long_sleeper in
    let has_short =
      leb specs.min_sleeper_berth_break_min next.pending_split_min && is_short_break in
    let total_combined = next.pending_split_min + m in
    next.has_pending_split && has_long && has_short && leb specs.daily_reset_min total_combined

split_rest : PolicySpecs → ℕ → Bool → Bool → DriverClocks → DriverClocks
unfolding reset_shift anchor_split reset_hygiene completes_split
split_rest specs m is_sleeper is_long_sleeper next =
    if completes_split specs m is_long_sleeper next
    then anchor_split m is_sleeper (reset_shift specs next)
    else reset_hygiene specs (anchor_split m is_sleeper next)

-- Part 4 of `ApplyOffDuty`, which is reached by no qualifying split period.
short_rest : PolicySpecs → ℕ → DriverClocks → DriverClocks
unfolding reset_hygiene
short_rest specs m next =
    let next = if leb specs.rest_break_min m then reset_hygiene specs next else next in
    record next { remaining_shift_min = next.remaining_shift_min - m }

-- The writes of `ApplyOffDuty` to the copy.
unfoldable pub rest : PolicySpecs → ℕ → Bool → DriverClocks → DriverClocks
unfolding reset_shift drop_split split_rest short_rest
rest specs m is_sleeper c =
    let next : DriverClocks = record c {
      now = c.now + m * minute;
      current_duty_status = if is_sleeper then sleeper_berth else off_duty;
      consecutive_off_duty_min = c.consecutive_off_duty_min + m;
    } in
    let is_long_sleeper = is_sleeper && leb specs.min_sleeper_berth_reset_min m in
    let is_short_break = leb specs.min_sleeper_berth_break_min m in
    if leb specs.weekly_reset_min next.consecutive_off_duty_min
    then drop_split (record (reset_shift specs next) { remaining_cycle_min = specs.max_cycle_min })
    else if leb specs.daily_reset_min next.consecutive_off_duty_min
    then drop_split (reset_shift specs next)
    else if is_long_sleeper || is_short_break
    then split_rest specs m is_sleeper is_long_sleeper next
    else short_rest specs m next

unfoldable pub apply_off_duty : DriverClocks → ℤ → Bool → PolicySpecs → Result HosError DriverClocks
apply_off_duty c duration_min is_sleeper specs =
    if leb_ℤ duration_min (pos 0)
    then ok (clone c)
    else ok (rest specs (pos_part duration_min) is_sleeper (clone c))
