-- ===== src/Hos/Clocks/Resets.antt =====
-- What a rest restores.
use native.Mathlib.Decide.{dec_le}
use project_mittens.Prelude.{
  ℕ, ◌*◌, ◌+◌, ◌≤◌, ◌<◌, ◌≡◌, Bool, true, false, ◌⊎◌, inl, inr, arith, leb, if◌then◌else◌, ◌&&◌,
  Bool-cases, min,
}
use project_mittens.Prelude.Int.{ℤ, pos_part}
use project_mittens.Hos.Specs.{PolicySpecs}
use project_mittens.Hos.Clocks.Operations.{rested}
use project_mittens.Hos.Clocks.{DriverClocks, minute, rest, completes_split}

-- Every clock of `c` is full but for the rolling cycle.
pub record IsRested (specs : PolicySpecs) (c : DriverClocks) : Type 0 where
  pub hygiene : c.remaining_hygiene_min ≡ specs.max_hygiene_min
  pub driving : c.remaining_driving_min ≡ specs.max_driving_min + c.driving_ceiling_extension
  pub shift : c.remaining_shift_min ≡ specs.max_shift_min

-- The statutory pairing rule, for a pending period of `p` minutes and a rest of `m`: one of the two
-- is long enough and in the berth, both are long enough to count, and together they make a day's
-- rest.
pub record IsPair (specs : PolicySpecs) (p : ℕ) (p_sleeper : Bool) (m : ℕ) (sleeper : Bool)
    : Type 0 where
  pub long :
      ((p_sleeper ≡ true) × (specs.min_sleeper_berth_reset_min ≤ p))
      ⊎ ((sleeper ≡ true) × (specs.min_sleeper_berth_reset_min ≤ m))
  pub first : specs.min_sleeper_berth_break_min ≤ p
  pub second : specs.min_sleeper_berth_break_min ≤ m
  pub together : specs.daily_reset_min ≤ p + m

completes_split-IsPair :
    (specs : PolicySpecs) (m : ℕ) (sleeper : Bool) (c : DriverClocks)
    → completes_split specs m (sleeper && leb specs.min_sleeper_berth_reset_min m) c ≡ true
    → (c.has_pending_split ≡ true)
      × IsPair specs c.pending_split_min c.pending_split_is_sleeper m sleeper
unfolding completes_split
completes_split-IsPair specs m sleeper c e = ground arith

module _ (specs : PolicySpecs) (m : ℕ) (sleeper : Bool) (c : DriverClocks) where
  abbrev off_run : ℕ
  off_run = c.consecutive_off_duty_min + m

  abbrev after : DriverClocks
  after = rest specs m sleeper c

  -- The cycle is restored by a weekly restart and by nothing else.
  pub rest-cycle :
      after.remaining_cycle_min
      ≡ (if leb specs.weekly_reset_min off_run then specs.max_cycle_min else c.remaining_cycle_min)
  unfolding rest
  rest-cycle = ground arith

  -- A long enough unbroken rest restores the shift.
  pub rest_long :
      (specs.weekly_reset_min ≤ off_run) ⊎ (specs.daily_reset_min ≤ off_run)
      → IsRested specs after × (after.has_pending_split ≡ false)
  unfolding rest
  rest_long h = ground arith

  -- A shorter one restores it exactly when it completes a pair with the pending period.
  pub rest_pair :
      off_run < specs.weekly_reset_min
      → off_run < specs.daily_reset_min
      → c.has_pending_split ≡ true
      → IsPair specs c.pending_split_min c.pending_split_is_sleeper m sleeper
      → IsRested specs after
  unfolding rest
  rest_pair w d s p = ground arith

  pub rest_no_pair :
      off_run < specs.weekly_reset_min
      → off_run < specs.daily_reset_min
      → ¬ (
          (c.has_pending_split ≡ true)
          × IsPair specs c.pending_split_min c.pending_split_is_sleeper m sleeper)
      → (after.remaining_driving_min ≡ c.remaining_driving_min)
        × (after.remaining_shift_min ≤ c.remaining_shift_min)
  unfolding rest
  rest_no_pair w d p =
      let long = sleeper && leb specs.min_sleeper_berth_reset_min m in
      elim (Bool-cases (completes_split specs m long c)) [
        | inl e ↦ absurd (p (completes_split-IsPair specs m sleeper c e))
        | inr e ↦ ground arith
      ]

-- The rest of `m` minutes makes a statutory pair with the pending period of `c`.
abbrev pub IsPaired : PolicySpecs → ℕ → Bool → DriverClocks → Type 0
IsPaired specs m sleeper c =
    (c.has_pending_split ≡ true)
    × IsPair specs c.pending_split_min c.pending_split_is_sleeper m sleeper

IsPaired-cases :
    (specs : PolicySpecs) (m : ℕ) (sleeper : Bool) (c : DriverClocks)
    → IsPaired specs m sleeper c ⊎ ¬ (IsPaired specs m sleeper c)
unfolding completes_split
IsPaired-cases specs m sleeper c =
    let long = sleeper && leb specs.min_sleeper_berth_reset_min m in
    elim (Bool-cases (completes_split specs m long c)) [
      | inl e ↦ inl (completes_split-IsPair specs m sleeper c e)
      | inr e ↦ inr (λ p. ground arith)
    ]

-- What a rest of `m` minutes restores. The cycle is refilled by a weekly restart and by nothing
-- else. For the other clocks there are three cases. An unbroken rest of a day or a week refills
-- hygiene, driving and shift and drops the pending split period. A shorter one that makes a
-- statutory pair with the pending period refills them too. Any other gives no driving time back
-- and does not lengthen the shift.
pub rest_lem :
    (specs : PolicySpecs) (m : ℕ) (sleeper : Bool) (c : DriverClocks)
    → let r = rest specs m sleeper c in
      let run = c.consecutive_off_duty_min + m in
      (r.remaining_cycle_min
        ≡ (if leb specs.weekly_reset_min run then specs.max_cycle_min else c.remaining_cycle_min))
      × (((min specs.weekly_reset_min specs.daily_reset_min ≤ run)
            × IsRested specs r
            × (r.has_pending_split ≡ false))
          ⊎ ((run < min specs.weekly_reset_min specs.daily_reset_min)
              × IsPaired specs m sleeper c
              × IsRested specs r)
          ⊎ ((run < min specs.weekly_reset_min specs.daily_reset_min)
              × ¬ (IsPaired specs m sleeper c)
              × (r.remaining_driving_min ≡ c.remaining_driving_min)
              × (r.remaining_shift_min ≤ c.remaining_shift_min)))
rest_lem specs m sleeper c = (
  rest-cycle specs m sleeper c,
  let run = c.consecutive_off_duty_min + m in
      elim (dec_le (min specs.weekly_reset_min specs.daily_reset_min) run) [
        | yes h ↦
            let (full, dropped) = rest_long specs m sleeper c (omega arith) in
            inl (h, full, dropped)
        | no h ↦ elim (IsPaired-cases specs m sleeper c) [
          | inl p ↦ inr (
              inl (omega arith, p, rest_pair specs m sleeper c (omega arith) (omega arith) p.0 p.1))
          | inr p ↦
              let (same, less) = rest_no_pair specs m sleeper c (omega arith) (omega arith) p in
              inr (inr (omega arith, p, same, less))
        ]
      ],
)

-- A rest never turns the clock back, extends the ceiling or touches the log.
pub record Rested (m : ℕ) (c next : DriverClocks) : Type 0 where
  pub later : next.now ≡ c.now + m * minute
  pub off : next.consecutive_off_duty_min ≡ c.consecutive_off_duty_min + m
  pub days : next.duty_minutes_by_day ≡ c.duty_minutes_by_day
  pub day : next.current_day_index ≡ c.current_day_index
  pub extension : next.driving_ceiling_extension ≡ c.driving_ceiling_extension

pub rest-Rested :
    (specs : PolicySpecs) (m : ℕ) (sleeper : Bool) (c : DriverClocks)
    → Rested m c (rest specs m sleeper c)
unfolding rest
rest-Rested specs m sleeper c = ground arith

-- A break that is long enough, as each of the longer rests is, refills the hygiene clock; no other
-- rest lowers it.
pub rest-break :
    (specs : PolicySpecs) (m : ℕ) (sleeper : Bool) (c : DriverClocks)
    → specs.rest_break_min ≤ m
    → (rest specs m sleeper c).remaining_hygiene_min ≡ specs.max_hygiene_min
unfolding rest
rest-break specs m sleeper c h = ground arith

pub rest-driving :
    (specs : PolicySpecs) (m : ℕ) (sleeper : Bool) (c : DriverClocks)
    → ((rest specs m sleeper c).remaining_driving_min ≡ c.remaining_driving_min)
      ⊎ IsRested specs (rest specs m sleeper c)
unfolding rest
rest-driving specs m sleeper c = ground arith

pub rested-now :
    (specs : PolicySpecs) (d : ℤ) (sleeper : Bool) (c : DriverClocks)
    → (rested specs d sleeper c).now ≡ c.now + pos_part d * minute
rested-now specs d sleeper c = ground (arith, rest-Rested specs (pos_part d) sleeper c)
