-- ===== src/Hos/Rounds.antt =====
-- internal/domain/model/hos/simulator.go, `insertRequiredReset` and the bodies of the inner loops of
-- `Simulate`, whose local variables are a record.
use project_mittens.Prelude.{
  ℕ, ◌-◌, String, Bool, true, false, ◌&&◌, ◌||◌, List, [], ◌∷◌, ◌++◌, leb, ◌==◌, if◌then◌else◌, min,
}
use project_mittens.Prelude.Int.{ℤ, pos, ◌+ℤ◌}
use project_mittens.Prelude.Result.{Result, ok, err, ◌>>=◌}
use project_mittens.Prelude.Loop.{Round}
use project_mittens.Float.{Float}
use project_mittens.Hos.Specs.{PolicySpecs, HosError, hos_violation}
use project_mittens.Hos.Clocks.{
  DriverClocks, max_immediate_drive_min, apply_drive, apply_on_duty_not_driving, apply_off_duty,
}
use project_mittens.Hos.Events.{Event, TimelineEntry, drive_event, rest_event, hold_event}

pub record Run {ℓ} (W : Type ℓ) : Type ℓ where
  pub clocks : DriverClocks
  pub timeline : List (TimelineEntry W)
  pub total_duration : ℤ
  pub total_drive : ℤ
  pub total_rest : ℤ
  pub total_duty : ℤ
  pub total_distance : W

-- The statutory rest that `insertRequiredReset` chooses.
pub record Reset : Type 0 where
  pub duration : ℕ
  pub sleeper : Bool
  pub desc : String

unfoldable pub required_reset : DriverClocks → PolicySpecs → Reset
required_reset clocks specs =
    if clocks.remaining_cycle_min == 0
    then record {
      duration = specs.weekly_reset_min;
      sleeper = false;
      desc = "Mandatory 34-Hour Weekly Cycle Restart";
    }
    else if clocks.remaining_driving_min == 0 || clocks.remaining_shift_min == 0
    then record {
      duration = specs.daily_reset_min;
      sleeper = true;
      desc = "Mandatory 10-Hour Daily Off-Duty Reset";
    }
    else if clocks.remaining_hygiene_min == 0
    then record {
      duration = specs.rest_break_min;
      sleeper = false;
      desc = "Mandatory 30-Minute Rest Break (Hygiene)";
    }
    else record {
      duration = specs.daily_reset_min;
      sleeper = true;
      desc = "Mandatory Daily Off-Duty Reset";
    }

-- How long a hold rests in one round.
unfoldable pub hold_chunk : PolicySpecs → DriverClocks → ℕ → ℕ
hold_chunk specs clocks rem =
    if leb specs.daily_reset_min rem
    then if leb specs.weekly_reset_min rem && clocks.remaining_cycle_min == 0
      then specs.weekly_reset_min
      else specs.daily_reset_min
    else rem

module _ {ℓ} {W : Type ℓ} where
  -- `timeline = append(timeline, TimelineEntry{...}); clocks = nextClocks`
  unfoldable pub record_entry : Event W → DriverClocks → Run W → Run W
  record_entry event next run =
      let entry : TimelineEntry W = record {
        start_time = run.clocks.now;
        end_time = next.now;
        event = event;
        clocks_snapshot = next;
      } in
      record run { clocks = next; timeline = run.timeline ++ (entry ∷ []) }

  unfoldable pub count_duty : ℕ → Run W → Run W
  count_duty m run = record run {
    total_duration = run.total_duration +ℤ pos m;
    total_duty = run.total_duty +ℤ pos m;
  }

  unfoldable pub count_drive : ℕ → Run W → Run W
  count_drive m run = record run { total_drive = run.total_drive +ℤ pos m }

  unfoldable pub count_rest : ℤ → Run W → Run W
  count_rest m run = record run {
    total_duration = run.total_duration +ℤ m;
    total_rest = run.total_rest +ℤ m;
  }

module _ {ℓ} {W : Type ℓ} ⦃f : Float W⦄ where
  unfoldable pub insert_required_reset : PolicySpecs → String → Run W → Result HosError (Run W)
  insert_required_reset specs loc_id run =
      let reset = required_reset run.clocks specs in
      let event = record (rest_event (pos reset.duration) reset.sleeper loc_id) {
        description = reset.desc;
      } in
      apply_off_duty run.clocks (pos reset.duration) reset.sleeper specs >>= λ next.
      ok (count_rest (pos reset.duration) (record_entry event next run))

  -- A round with no time left on some clock: fail, or rest and go on.
  unfoldable pub exhausted :
      PolicySpecs → Bool → String → ℕ → Run W → Result HosError (Round (Run W))
  exhausted specs false loc_id rem run = err hos_violation
  exhausted specs true loc_id rem run =
      insert_required_reset specs loc_id run >>= λ run'. ok (record { rem = rem; state = run' })

  -- A round that drives, for at most `avail` minutes.
  unfoldable pub drive_chunk : W → String → ℕ → ℕ → Run W → Result HosError (Round (Run W))
  drive_chunk dist_per_min loc_id avail rem run =
      let chunk = min rem avail in
      let dist = f.mul dist_per_min (f.of_int (pos chunk)) in
      apply_drive run.clocks (pos chunk) >>= λ next. ok (record {
        rem = rem - chunk;
        state =
            count_drive chunk
              (count_duty chunk (record_entry (drive_event (pos chunk) dist loc_id) next run));
      })

  -- The body of the loop of `EventDrive`.
  unfoldable pub drive_round :
      PolicySpecs → Bool → W → String → ℕ → Run W → Result HosError (Round (Run W))
  drive_round specs auto_insert_rests dist_per_min loc_id rem run =
      let avail = max_immediate_drive_min run.clocks in
      if avail == 0
      then exhausted specs auto_insert_rests loc_id rem run
      else drive_chunk dist_per_min loc_id avail rem run

  -- A round of on-duty work, for at most `avail` minutes.
  unfoldable pub duty_chunk : (ℕ → Event W) → ℕ → ℕ → Run W → Result HosError (Round (Run W))
  duty_chunk event avail rem run =
      let chunk = min rem avail in
      apply_on_duty_not_driving run.clocks (pos chunk) >>= λ next.
      ok (record {
        rem = rem - chunk;
        state = count_duty chunk (record_entry (event chunk) next run);
      })

  -- The body of the loops of `EventLoading`, `EventUnloading` and `EventBorderCrossing`, which
  -- differ in the event that they record.
  unfoldable pub duty_round :
      PolicySpecs → Bool → (ℕ → Event W) → String → ℕ → Run W → Result HosError (Round (Run W))
  duty_round specs auto_insert_rests event loc_id rem run =
      let avail = min run.clocks.remaining_shift_min run.clocks.remaining_cycle_min in
      if avail == 0
      then exhausted specs auto_insert_rests loc_id rem run
      else duty_chunk event avail rem run

  -- The body of the loop of `EventHold`.
  unfoldable pub hold_round : PolicySpecs → String → ℕ → Run W → Result HosError (Round (Run W))
  hold_round specs loc_id rem run =
      let chunk = hold_chunk specs run.clocks rem in
      apply_off_duty run.clocks (pos chunk) (leb specs.daily_reset_min rem) specs >>= λ next.
      ok (record {
        rem = rem - chunk;
        state = count_rest (pos chunk) (record_entry (hold_event (pos chunk) loc_id) next run);
      })

  unfoldable pub rest_once : PolicySpecs → Event W → Run W → Result HosError (Run W)
  rest_once specs ev run = apply_off_duty run.clocks ev.duration_min ev.is_sleeper specs >>= λ next.
      ok (count_rest ev.duration_min (record_entry ev next run))
