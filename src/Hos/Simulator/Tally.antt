-- ===== src/Hos/Simulator/Tally.antt =====
-- The statutory limits, read off a timeline alone, and how the clocks stay in step with them.
use project_mittens.Prelude.{
  ℕ, ◌+◌, ◌-◌, ◌≤◌, ◌≡◌, refl, Bool, arith, zero, suc, ◌⊎◌, List, [], ◌∷◌, ◌++◌, leb, if◌then◌else◌,
}
use project_mittens.Prelude.Int.{ℤ, pos, negsuc, pos_part}
use project_mittens.Hos.Specs.{PolicySpecs}
use project_mittens.Hos.Clocks.{DriverClocks, rest}
use project_mittens.Hos.Clocks.Bounds.{IsSound, Driven, Worked}
use project_mittens.Hos.Clocks.Operations.{rested, rested-pos, rested-negsuc}
use project_mittens.Hos.Clocks.Resets.{rest-cycle, rest-Rested}
use project_mittens.Hos.Events.{EventType, TimelineEntry}
use project_mittens.Hos.Simulator.Steps.{IsOff, IsWork}

-- What an auditor keeps while reading a timeline: the unbroken minutes off duty, the minutes driven
-- since the last break, and those worked since the last weekly restart.
pub record Tally : Type 0 where
  pub off_run : ℕ
  pub driven : ℕ
  pub worked : ℕ

-- Minutes off duty: a long enough run is a break, or a weekly restart.
pub count_off : PolicySpecs → ℕ → Tally → Tally
count_off specs m t =
    let run = t.off_run + m in
    record {
      off_run = run;
      driven = if leb specs.rest_break_min run then 0 else t.driven;
      worked = if leb specs.weekly_reset_min run then 0 else t.worked;
    }

pub count_as : PolicySpecs → EventType → ℕ → Tally → Tally
unfolding count_off
count_as specs EventType.drive m t = record {
  off_run = 0;
  driven = t.driven + m;
  worked = t.worked + m;
}
count_as specs EventType.rest m t = count_off specs m t
count_as specs EventType.hold m t = count_off specs m t
count_as specs _ m t = record { off_run = 0; driven = t.driven; worked = t.worked + m }

count_as-IsWork :
    (specs : PolicySpecs) (k : EventType) (m : ℕ) (t : Tally)
    → IsWork k
    → count_as specs k m t ≡ record { off_run = 0; driven = t.driven; worked = t.worked + m }
unfolding count_as
count_as-IsWork specs EventType.drive m t w = elim w [ ]
count_as-IsWork specs EventType.rest m t w = elim w [ ]
count_as-IsWork specs EventType.hold m t w = elim w [ ]
count_as-IsWork specs _ m t w = refl

pub count_as-IsOff :
    (specs : PolicySpecs) (k : EventType) (m : ℕ) (t : Tally)
    → IsOff k
    → count_as specs k m t ≡ count_off specs m t
unfolding count_as
count_as-IsOff specs EventType.rest m t w = refl
count_as-IsOff specs EventType.hold m t w = refl
count_as-IsOff specs EventType.drive m t w = elim w [ ]
count_as-IsOff specs EventType.loading m t w = elim w [ ]
count_as-IsOff specs EventType.unloading m t w = elim w [ ]
count_as-IsOff specs EventType.border_crossing m t w = elim w [ ]

module _ {ℓ} {W : Type ℓ} (specs : PolicySpecs) where
  unfoldable pub count_entry : TimelineEntry W → Tally → Tally
  count_entry e t = count_as specs e.event.type (pos_part e.event.duration_min) t

  unfoldable pub tally : Tally → List (TimelineEntry W) → Tally
  tally t [] = t
  tally t (e ∷ es) = tally (count_entry e t) es

  -- After every entry, the minutes driven since a break and those worked since a restart are within
  -- the limits.
  abbrev pub Lawful : Tally → List (TimelineEntry W) → Type 0
  Lawful t [] = Unit
  Lawful t (e ∷ es) =
      ((count_entry e t).driven ≤ specs.max_hygiene_min)
      × ((count_entry e t).worked ≤ specs.max_cycle_min)
      × Lawful (count_entry e t) es

  pub tally-append :
      (t : Tally) (es : List (TimelineEntry W)) (e : TimelineEntry W)
      → tally t (es ++ (e ∷ [])) ≡ count_entry e (tally t es)
  unfolding tally
  tally-append t [] e = refl
  tally-append t (x ∷ es) e = tally-append (count_entry x t) es e

  pub Lawful-append :
      (t : Tally) (es : List (TimelineEntry W)) (e : TimelineEntry W)
      → Lawful t es
      → (count_entry e (tally t es)).driven ≤ specs.max_hygiene_min
      → (count_entry e (tally t es)).worked ≤ specs.max_cycle_min
      → Lawful t (es ++ (e ∷ []))
  unfolding tally
  Lawful-append t [] e l d w = (d, w, tt)
  Lawful-append t (x ∷ es) e (a, b, l) d w = (a, b, Lawful-append (count_entry x t) es e l d w)

-- The auditor's view of a driver at the start: what the clocks have used up.
unfoldable pub tally_of : PolicySpecs → DriverClocks → Tally
tally_of specs c = record {
  off_run = c.consecutive_off_duty_min;
  driven = c.consecutive_driving_min;
  worked = specs.max_cycle_min - c.remaining_cycle_min;
}

-- Every rest that refills the hygiene clock is a break: true of the policies but for the Canadian
-- solo one, whose break is longer than its shortest split period.
pub record IsGraded (specs : PolicySpecs) : Type 0 where
  pub daily : specs.rest_break_min ≤ specs.daily_reset_min
  pub weekly : specs.rest_break_min ≤ specs.weekly_reset_min
  pub short_split : specs.rest_break_min ≤ specs.min_sleeper_berth_break_min
  pub long_split : specs.rest_break_min ≤ specs.min_sleeper_berth_reset_min

-- The auditor's tally never runs ahead of the clocks.
pub record IsTracked (specs : PolicySpecs) (t : Tally) (c : DriverClocks) : Type 0 where
  pub off : t.off_run ≡ c.consecutive_off_duty_min
  pub driven : t.driven ≤ c.consecutive_driving_min
  pub worked : t.worked + c.remaining_cycle_min ≤ specs.max_cycle_min

rest-since_break :
    (specs : PolicySpecs) (m : ℕ) (sleeper : Bool) (c : DriverClocks)
    → IsGraded specs
    → (specs.rest_break_min ≤ c.consecutive_off_duty_min + m)
      ⊎ ((rest specs m sleeper c).consecutive_driving_min ≡ c.consecutive_driving_min)
unfolding rest
rest-since_break specs m sleeper c g = ground arith

rest-IsTracked :
    (specs : PolicySpecs) (m : ℕ) (sleeper : Bool) (c : DriverClocks) (t : Tally)
    → IsGraded specs
    → IsSound specs c
    → IsTracked specs t c
    → IsTracked specs (count_off specs m t) (rest specs m sleeper c)
unfolding count_off
rest-IsTracked specs m sleeper c t g s h = record {
  off = omega (arith, rest-Rested specs m sleeper c);
  driven = ground (arith, rest-since_break specs m sleeper c g);
  worked = ground (arith, rest-cycle specs m sleeper c);
}

-- A rest of no minutes leaves the clocks, and can only lower the tally.
idle-IsTracked :
    (specs : PolicySpecs) (c : DriverClocks) (t : Tally)
    → IsSound specs c
    → IsTracked specs t c
    → IsTracked specs (count_off specs 0 t) c
unfolding count_off
idle-IsTracked specs c t s h = ground arith

pub rested-IsTracked :
    (specs : PolicySpecs) (d : ℤ) (sleeper : Bool) (c : DriverClocks) (t : Tally)
    → IsGraded specs
    → IsSound specs c
    → IsTracked specs t c
    → IsTracked specs (count_off specs (pos_part d) t) (rested specs d sleeper c)
rested-IsTracked specs (negsuc n) sleeper c t g s h =
    rw (rested-negsuc specs n sleeper c) (idle-IsTracked specs c t s h)
rested-IsTracked specs (pos zero) sleeper c t g s h = idle-IsTracked specs c t s h
rested-IsTracked specs (pos (suc n)) sleeper c t g s h =
    rw (rested-pos specs (suc n) sleeper c (omega arith))
      (rest-IsTracked specs (suc n) sleeper c t g s h)

pub drive-IsTracked :
    (specs : PolicySpecs) (m : ℕ) (c next : DriverClocks) (t : Tally)
    → Driven m c next
    → IsTracked specs t c
    → IsTracked specs (count_as specs EventType.drive m t) next
unfolding count_as
drive-IsTracked specs m c next t d h = omega arith

pub work-IsTracked :
    (specs : PolicySpecs) (k : EventType) (m : ℕ) (c next : DriverClocks) (t : Tally)
    → IsWork k
    → Worked m c next
    → IsTracked specs t c
    → IsTracked specs (count_as specs k m t) next
work-IsTracked specs k m c next t w d h = rw (count_as-IsWork specs k m t w) (omega arith)

pub tracked-lawful :
    (specs : PolicySpecs) (c : DriverClocks) (v : Tally)
    → IsSound specs c
    → IsTracked specs v c
    → (v.driven ≤ specs.max_hygiene_min) × (v.worked ≤ specs.max_cycle_min)
tracked-lawful specs c v s k = omega arith
