-- ===== src/Hos/Clocks/Bounds.antt =====
-- What holds of a driver's clocks between two operations.
use project_mittens.Prelude.{
  ℕ, ◌+◌, ◌*◌, ◌≤◌, ◌<◌, ◌≡◌, refl, Bool, arith, length, sum, add_at-some, length-replicate,
}
use project_mittens.Prelude.Result.{ok}
use project_mittens.Hos.Specs.{PolicySpecs}
use project_mittens.Hos.Clocks.{
  DriverClocks, minute, new_driver_clocks, max_immediate_drive_min, clone, drive, drive_writes,
  work, work_writes, rest,
}

-- No clock is above its ceiling, the minutes driven since the last break and those left before
-- the next one make up the ceiling, and the day that is written to exists.
pub record IsSound (specs : PolicySpecs) (c : DriverClocks) : Type 0 where
  pub driving_le : c.remaining_driving_min ≤ specs.max_driving_min + c.driving_ceiling_extension
  pub shift_le : c.remaining_shift_min ≤ specs.max_shift_min
  pub cycle_le : c.remaining_cycle_min ≤ specs.max_cycle_min
  pub since_break : c.consecutive_driving_min + c.remaining_hygiene_min ≡ specs.max_hygiene_min
  pub day_lt : c.current_day_index < length c.duty_minutes_by_day

pub clone_lem : (c : DriverClocks) → clone c ≡ c
unfolding clone
clone_lem c = refl

pub new_driver_clocks-IsSound :
    (specs : PolicySpecs) (t : ℕ) → IsSound specs (new_driver_clocks specs t)
unfolding new_driver_clocks
new_driver_clocks-IsSound specs t =
    ground (arith, length-replicate {A = ℕ} 8 0, length-replicate {A = ℕ} specs.cycle_length_days 0)

-- Driving for `m` minutes is within every limit.
pub record Permits (c : DriverClocks) (m : ℕ) : Type 0 where
  pub hygiene : m ≤ c.remaining_hygiene_min
  pub driving : m ≤ c.remaining_driving_min
  pub shift : m ≤ c.remaining_shift_min
  pub cycle : m ≤ c.remaining_cycle_min

pub max_immediate_drive_min-Permits :
    (c : DriverClocks) (m : ℕ) → m ≤ max_immediate_drive_min c → Permits c m
unfolding max_immediate_drive_min
max_immediate_drive_min-Permits c m h = ground arith

pub Permits-max_immediate_drive_min :
    (c : DriverClocks) (m : ℕ) → Permits c m → m ≤ max_immediate_drive_min c
unfolding max_immediate_drive_min
Permits-max_immediate_drive_min c m h = ground arith

-- `next` is `c` after `m` minutes at the wheel.
pub record Driven (m : ℕ) (c next : DriverClocks) : Type 0 where
  pub later : next.now ≡ c.now + m * minute
  pub on : next.consecutive_off_duty_min ≡ 0
  pub driven : next.consecutive_driving_min ≡ c.consecutive_driving_min + m
  pub hygiene : next.remaining_hygiene_min + m ≡ c.remaining_hygiene_min
  pub driving : next.remaining_driving_min + m ≡ c.remaining_driving_min
  pub shift : next.remaining_shift_min + m ≡ c.remaining_shift_min
  pub cycle : next.remaining_cycle_min + m ≡ c.remaining_cycle_min
  pub logged : sum next.duty_minutes_by_day ≡ sum c.duty_minutes_by_day + m
  pub days : length next.duty_minutes_by_day ≡ length c.duty_minutes_by_day
  pub day : next.current_day_index ≡ c.current_day_index
  pub extension : next.driving_ceiling_extension ≡ c.driving_ceiling_extension

-- A drive within the limits is made, and is entered in the log.
pub drive-Driven :
    (m : ℕ) (c : DriverClocks)
    → c.current_day_index < length c.duty_minutes_by_day
    → Permits c m
    → (next : DriverClocks) × (drive m c ≡ ok next) × Driven m c next
unfolding drive
drive-Driven m c d p =
    let (ys, e, l, s) = add_at-some c.duty_minutes_by_day c.current_day_index m d in
    (drive_writes m ys c, rw (e, drive), omega arith)

-- `next` is `c` after `m` minutes of other work.
pub record Worked (m : ℕ) (c next : DriverClocks) : Type 0 where
  pub later : next.now ≡ c.now + m * minute
  pub on : next.consecutive_off_duty_min ≡ 0
  pub driven : next.consecutive_driving_min ≡ c.consecutive_driving_min
  pub hygiene : next.remaining_hygiene_min ≡ c.remaining_hygiene_min
  pub driving : next.remaining_driving_min ≡ c.remaining_driving_min
  pub shift : next.remaining_shift_min + m ≡ c.remaining_shift_min
  pub cycle : next.remaining_cycle_min + m ≡ c.remaining_cycle_min
  pub logged : sum next.duty_minutes_by_day ≡ sum c.duty_minutes_by_day + m
  pub days : length next.duty_minutes_by_day ≡ length c.duty_minutes_by_day
  pub day : next.current_day_index ≡ c.current_day_index
  pub extension : next.driving_ceiling_extension ≡ c.driving_ceiling_extension

pub work-Worked :
    (m : ℕ) (c : DriverClocks)
    → c.current_day_index < length c.duty_minutes_by_day
    → m ≤ c.remaining_shift_min
    → m ≤ c.remaining_cycle_min
    → (next : DriverClocks) × (work m c ≡ ok next) × Worked m c next
unfolding work
work-Worked m c d p q =
    let (ys, e, l, s) = add_at-some c.duty_minutes_by_day c.current_day_index m d in
    (work_writes m ys c, rw (e, work), omega arith)

pub Driven-IsSound :
    {specs : PolicySpecs} {m : ℕ} {c next : DriverClocks}
    → IsSound specs c
    → Driven m c next
    → IsSound specs next
Driven-IsSound h d = omega arith

pub Worked-IsSound :
    {specs : PolicySpecs} {m : ℕ} {c next : DriverClocks}
    → IsSound specs c
    → Worked m c next
    → IsSound specs next
Worked-IsSound h d = omega arith

pub rest-IsSound :
    (specs : PolicySpecs) (m : ℕ) (sleeper : Bool) (c : DriverClocks)
    → IsSound specs c
    → IsSound specs (rest specs m sleeper c)
unfolding rest
rest-IsSound specs m sleeper c h = ground arith
