-- ===== src/Hos/Clocks/Operations.antt =====
-- The operations on a driver's clocks, on every branch.
use native.Mathlib.Decide.{dec_le}
use project_mittens.Prelude.{
  ℕ, zero, suc, ◌≤◌, ◌<◌, ◌≡◌, refl, Bool, arith, if◌then◌else◌, ◌⊎◌, inl, inr, min,
}
use project_mittens.Prelude.Int.{ℤ, pos, negsuc, pos_part, ◌≤ℤ◌, leb_ℤ}
use project_mittens.Prelude.Result.{ok, err}
use project_mittens.Hos.Specs.{PolicySpecs, hos_violation}
use project_mittens.Hos.Clocks.{
  DriverClocks, max_immediate_drive_min, clone, apply_drive, drive, apply_on_duty_not_driving, work,
  rest, apply_off_duty,
}
use project_mittens.Hos.Clocks.Bounds.{
  IsSound, clone_lem, rest-IsSound, Permits, max_immediate_drive_min-Permits,
  Permits-max_immediate_drive_min, Driven, drive-Driven, Worked, work-Worked,
}

apply_drive-pos :
    (c : DriverClocks) (m : ℕ)
    → 0 < m
    → m ≤ max_immediate_drive_min c
    → apply_drive c (pos m) ≡ drive m (clone c)
unfolding apply_drive
apply_drive-pos c m h k = ground arith

apply_drive-refused :
    (c : DriverClocks) (m : ℕ) → 0 < m → ¬ Permits c m → apply_drive c (pos m) ≡ err hos_violation
unfolding apply_drive
apply_drive-refused c m h p =
    let over : ¬ (m ≤ max_immediate_drive_min c) = λ q. p (max_immediate_drive_min-Permits c m q) in
    ground arith

pub apply_drive_branches :
    (specs : PolicySpecs) (c : DriverClocks)
    → IsSound specs c
    → ((d : ℤ) → d ≤ℤ pos 0 → apply_drive c d ≡ ok c)
      × ((m : ℕ)
          → 0 < m
          → Permits c m
          → (next : DriverClocks) × (apply_drive c (pos m) ≡ ok next) × Driven m c next)
      × ((m : ℕ) → 0 < m → ¬ Permits c m → apply_drive c (pos m) ≡ err hos_violation)
apply_drive_branches specs c s = (
  unfold apply_drive clone in λ d h. ground arith,
  λ m h p.
      let (next, e, dr) = drive-Driven m c s.day_lt p in
      (next, rw (apply_drive-pos c m h (Permits-max_immediate_drive_min c m p), clone_lem) e, dr),
  λ m h p. apply_drive-refused c m h p,
)

-- The limits of on-duty work other than driving.
pub record PermitsWork (c : DriverClocks) (m : ℕ) : Type 0 where
  pub shift : m ≤ c.remaining_shift_min
  pub cycle : m ≤ c.remaining_cycle_min

apply_on_duty-pos :
    (c : DriverClocks) (m : ℕ)
    → 0 < m
    → PermitsWork c m
    → apply_on_duty_not_driving c (pos m) ≡ work m (clone c)
unfolding apply_on_duty_not_driving
apply_on_duty-pos c m h k = ground arith

apply_on_duty-refused :
    (c : DriverClocks) (m : ℕ)
    → 0 < m
    → ¬ PermitsWork c m
    → apply_on_duty_not_driving c (pos m) ≡ err hos_violation
unfolding apply_on_duty_not_driving
apply_on_duty-refused c m h p =
    let over : m ≤ c.remaining_shift_min → ¬ (m ≤ c.remaining_cycle_min) =
      λ q t. p (record { shift = q; cycle = t }) in
    ground arith

pub apply_on_duty_branches :
    (specs : PolicySpecs) (c : DriverClocks)
    → IsSound specs c
    → ((d : ℤ) → d ≤ℤ pos 0 → apply_on_duty_not_driving c d ≡ ok c)
      × ((m : ℕ)
          → 0 < m
          → PermitsWork c m
          → (next : DriverClocks) × (apply_on_duty_not_driving c (pos m) ≡ ok next)
            × Worked m c next)
      × ((m : ℕ)
          → 0 < m
          → ¬ PermitsWork c m
          → apply_on_duty_not_driving c (pos m) ≡ err hos_violation)
apply_on_duty_branches specs c s = (
  unfold apply_on_duty_not_driving clone in λ d h. ground arith,
  λ m h p.
      let (next, e, dr) = work-Worked m c s.day_lt p.shift p.cycle in
      (next, rw (apply_on_duty-pos c m h p, clone_lem) e, dr),
  λ m h p. apply_on_duty-refused c m h p,
)

-- The clocks after an off-duty period of `d` minutes.
abbrev pub rested : PolicySpecs → ℤ → Bool → DriverClocks → DriverClocks
rested specs d sleeper c = if leb_ℤ d (pos 0) then c else rest specs (pos_part d) sleeper c

pub apply_off_duty-rested :
    (specs : PolicySpecs) (d : ℤ) (sleeper : Bool) (c : DriverClocks)
    → apply_off_duty c d sleeper specs ≡ ok (rested specs d sleeper c)
unfolding apply_off_duty clone
apply_off_duty-rested specs d sleeper c = ground arith

pub rested-pos :
    (specs : PolicySpecs) (m : ℕ) (sleeper : Bool) (c : DriverClocks)
    → 0 < m
    → rested specs (pos m) sleeper c ≡ rest specs m sleeper c
rested-pos specs m sleeper c h = ground arith

pub rested-negsuc :
    (specs : PolicySpecs) (n : ℕ) (sleeper : Bool) (c : DriverClocks)
    → rested specs (negsuc n) sleeper c ≡ c
rested-negsuc specs n sleeper c = ground arith

pub rested-IsSound :
    (specs : PolicySpecs) (d : ℤ) (sleeper : Bool) (c : DriverClocks)
    → IsSound specs c
    → IsSound specs (rested specs d sleeper c)
rested-IsSound specs d sleeper c s = ground (arith, rest-IsSound specs (pos_part d) sleeper c s)

-- For a sound driver `ApplyDrive` has three outcomes. A request of no minutes, or of fewer, changes
-- nothing. One that all four limits leave room for is driven: every clock falls by it, the time
-- and the log move on, and there is no panic. Any other is a violation.
pub apply_drive_lem :
    (specs : PolicySpecs) (c : DriverClocks) (d : ℤ)
    → IsSound specs c
    → ((d ≤ℤ pos 0) × (apply_drive c d ≡ ok c))
      ⊎ ((m : ℕ) × (d ≡ pos m)
          × Permits c m
          × (next : DriverClocks) × (apply_drive c d ≡ ok next)
          × Driven m c next)
      ⊎ ((m : ℕ) × (d ≡ pos m) × ¬ (Permits c m) × (apply_drive c d ≡ err hos_violation))
apply_drive_lem specs c (negsuc n) s =
    inl (omega arith, (apply_drive_branches specs c s).0 (negsuc n) (omega arith))
apply_drive_lem specs c (pos zero) s =
    inl (omega arith, (apply_drive_branches specs c s).0 (pos zero) (omega arith))
apply_drive_lem specs c (pos (suc n)) s =
    let m = suc n in
    elim (dec_le m (max_immediate_drive_min c)) [
      | yes h ↦
          let p = max_immediate_drive_min-Permits c m h in
          let (next, e, dr) = (apply_drive_branches specs c s).1 m (omega arith) p in
          inr (inl (m, refl, p, next, e, dr))
      | no h ↦
          let p : ¬ (Permits c m) = λ q. h (Permits-max_immediate_drive_min c m q) in
          inr (inr (m, refl, p, apply_drive-refused c m (omega arith) p))
    ]

-- For a sound driver `ApplyOnDutyNotDriving` has three outcomes. A request of no minutes, or of
-- fewer, changes nothing. One that the shift and the cycle leave room for is worked: those two fall
-- by it, the driving and hygiene clocks stay, and there is no panic. Any other is a violation.
pub apply_on_duty_lem :
    (specs : PolicySpecs) (c : DriverClocks) (d : ℤ)
    → IsSound specs c
    → ((d ≤ℤ pos 0) × (apply_on_duty_not_driving c d ≡ ok c))
      ⊎ ((m : ℕ) × (d ≡ pos m)
          × PermitsWork c m
          × (next : DriverClocks) × (apply_on_duty_not_driving c d ≡ ok next)
          × Worked m c next)
      ⊎ ((m : ℕ) × (d ≡ pos m)
          × ¬ (PermitsWork c m)
          × (apply_on_duty_not_driving c d ≡ err hos_violation))
apply_on_duty_lem specs c (negsuc n) s =
    inl (omega arith, (apply_on_duty_branches specs c s).0 (negsuc n) (omega arith))
apply_on_duty_lem specs c (pos zero) s =
    inl (omega arith, (apply_on_duty_branches specs c s).0 (pos zero) (omega arith))
apply_on_duty_lem specs c (pos (suc n)) s =
    let m = suc n in
    elim (dec_le m (min c.remaining_shift_min c.remaining_cycle_min)) [
      | yes h ↦
          let p : PermitsWork c m = omega arith in
          let (next, e, dr) = (apply_on_duty_branches specs c s).1 m (omega arith) p in
          inr (inl (m, refl, p, next, e, dr))
      | no h ↦
          let p : ¬ (PermitsWork c m) = λ q. h (omega arith) in
          inr (inr (m, refl, p, apply_on_duty-refused c m (omega arith) p))
    ]
