-- ===== src/Hos/Specs.antt =====
-- internal/domain/model/hos/policy.go. The limits are numbers: `Validate` refuses a negative limit
-- as it refuses 0, and a negative sleeper threshold is passed by every rest, as 0 is.
use project_mittens.Prelude.{
  ℕ, ◌⊎◌, ◌↔◌, ◌<◌, ◌≤◌, ◌≡◌, String, ◌||◌, arith, ltb, ◌==◌, if◌then◌else◌,
}
use project_mittens.Prelude.Result.{Result, ok, err}

-- The errors of the engine. `index_out_of_range` is the run-time panic of Go, and `out_of_fuel`
-- belongs to the model's loops alone.
pub data HosError : Type 0 where
  hos_violation invalid_policy_specs simulator_nil_clocks index_out_of_range out_of_fuel : HosError

pub record PolicySpecs : Type 0 where
  pub name : String
  pub rest_break_min : ℕ
  pub daily_reset_min : ℕ
  pub weekly_reset_min : ℕ
  pub max_hygiene_min : ℕ
  pub max_driving_min : ℕ
  pub max_shift_min : ℕ
  pub max_cycle_min : ℕ
  pub cycle_length_days : ℕ
  pub min_sleeper_berth_break_min : ℕ
  pub min_sleeper_berth_reset_min : ℕ
  pub adverse_conditions_extension_min : ℕ

unfoldable pub validate : PolicySpecs → Result HosError (Unit {0})
validate ps =
    if ps.rest_break_min == 0 || ps.daily_reset_min == 0 || ps.weekly_reset_min == 0
    then err invalid_policy_specs
    else if ps.max_hygiene_min == 0
        || ps.max_driving_min == 0
        || ps.max_shift_min == 0
        || ps.max_cycle_min == 0
    then err invalid_policy_specs
    else if ps.cycle_length_days == 0
    then err invalid_policy_specs
    else if ltb ps.max_shift_min ps.max_driving_min
    then err invalid_policy_specs
    else ok tt

abbrev pub us_policy_specs : PolicySpecs
us_policy_specs = record {
  name = "US_SOLO_70_8";
  rest_break_min = 30;
  daily_reset_min = 600;
  weekly_reset_min = 2040;
  max_hygiene_min = 480;
  max_driving_min = 660;
  max_shift_min = 840;
  max_cycle_min = 4200;
  cycle_length_days = 8;
  min_sleeper_berth_break_min = 120;
  min_sleeper_berth_reset_min = 420;
  adverse_conditions_extension_min = 120;
}

abbrev pub us_team_policy_specs : PolicySpecs
us_team_policy_specs = record {
  name = "US_TEAM_140_8";
  rest_break_min = 30;
  daily_reset_min = 120;
  weekly_reset_min = 1560;
  max_hygiene_min = 480;
  max_driving_min = 1320;
  max_shift_min = 1680;
  max_cycle_min = 8400;
  cycle_length_days = 8;
  min_sleeper_berth_break_min = 120;
  min_sleeper_berth_reset_min = 420;
  adverse_conditions_extension_min = 120;
}

abbrev pub canadian_policy_specs : PolicySpecs
canadian_policy_specs = record {
  name = "CANADIAN_SOLO_70_7";
  rest_break_min = 480;
  daily_reset_min = 480;
  weekly_reset_min = 2160;
  max_hygiene_min = 840;
  max_driving_min = 780;
  max_shift_min = 960;
  max_cycle_min = 4200;
  cycle_length_days = 7;
  min_sleeper_berth_break_min = 120;
  min_sleeper_berth_reset_min = 480;
  adverse_conditions_extension_min = 120;
}

abbrev pub canadian_team_policy_specs : PolicySpecs
canadian_team_policy_specs = record {
  name = "CANADIAN_TEAM_140_7";
  rest_break_min = 30;
  daily_reset_min = 30;
  weekly_reset_min = 2160;
  max_hygiene_min = 480;
  max_driving_min = 480;
  max_shift_min = 480;
  max_cycle_min = 8400;
  cycle_length_days = 7;
  min_sleeper_berth_break_min = 120;
  min_sleeper_berth_reset_min = 480;
  adverse_conditions_extension_min = 120;
}

-- What a caller may rely on after `validate`.
pub record IsUsable (ps : PolicySpecs) : Type 0 where
  pub rest_break_pos : 0 < ps.rest_break_min
  pub daily_pos : 0 < ps.daily_reset_min
  pub weekly_pos : 0 < ps.weekly_reset_min
  pub hygiene_pos : 0 < ps.max_hygiene_min
  pub driving_pos : 0 < ps.max_driving_min
  pub shift_pos : 0 < ps.max_shift_min
  pub cycle_pos : 0 < ps.max_cycle_min
  pub days_pos : 0 < ps.cycle_length_days
  pub driving_le_shift : ps.max_driving_min ≤ ps.max_shift_min

pub validate-IsUsable : (ps : PolicySpecs) → validate ps ≡ ok tt → IsUsable ps
unfolding validate
validate-IsUsable ps h = ground arith

pub IsUsable-validate : (ps : PolicySpecs) → IsUsable ps → validate ps ≡ ok tt
unfolding validate
IsUsable-validate ps h = ground arith

pub validate-cases :
    (ps : PolicySpecs) → (validate ps ≡ ok tt) ⊎ (validate ps ≡ err invalid_policy_specs)
unfolding validate
validate-cases ps = ground arith

-- `Validate` accepts just the policies whose limits are all positive and whose driving limit is not
-- above the shift limit.
pub validate_lem : (ps : PolicySpecs) → (validate ps ≡ ok tt) ↔ IsUsable ps
validate_lem ps = (validate-IsUsable ps, IsUsable-validate ps)
