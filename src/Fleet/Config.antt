-- ===== src/Fleet/Config.antt =====
-- internal/domain/model/config.go. Instants are nanoseconds after Go's zero time, and durations
-- nanoseconds.
use project_mittens.Prelude.{ℕ, Bool, ◌||◌, not, if◌then◌else◌, ◌==◌, ltb}
use project_mittens.Prelude.Int.{ℤ, pos, leb_ℤ}
use project_mittens.Prelude.Result.{Result, ok, err}
use project_mittens.Float.{Float}
use project_mittens.Hos.Specs.{PolicySpecs, us_policy_specs}

pub data ConfigError : Type 0 where
  invalid_config : ConfigError

abbrev pub allowed_early_never_wait_sentinel_minutes : ℤ
allowed_early_never_wait_sentinel_minutes = pos 99999

pub record SimulationConfig : Type 0 where
  pub start_time : ℕ
  pub end_time : ℕ
  pub time_step_duration : ℤ
  pub planning_horizon : ℤ
  pub random_seed : ℕ
  pub enable_competitors : Bool
  pub competitor_postures : ℤ

unfoldable pub validate_simulation : SimulationConfig → Result ConfigError (Unit {0})
validate_simulation c =
    if c.start_time == 0 || c.end_time == 0
    then err invalid_config
    else if not (ltb c.start_time c.end_time)
    then err invalid_config
    else if leb_ℤ c.time_step_duration (pos 0)
    then err invalid_config
    else if leb_ℤ c.planning_horizon (pos 0)
    then err invalid_config
    else ok tt

pub record CostConfig {ℓ} (W : Type ℓ) : Type ℓ where
  pub fixed_cost_per_load : W
  pub loaded_mile_rate : W
  pub empty_mile_rate : W
  pub empty_to_home_rate : W
  pub late_delivery_per_hour : W
  pub early_arrival_per_hour : W
  pub driver_bonus_weight : W
  pub opportunity_cost_ratio : W

pub record FeasibilityConfig {ℓ} (W : Type ℓ) : Type ℓ where
  pub max_deadhead_miles : W
  pub max_early_dwell_hours : W
  pub max_late_delivery_hours : W
  pub average_speed_mph : W
  pub early_arrival_sentinel_min : ℤ
  pub hos_policy_specs : PolicySpecs

module _ {W : Type 0} ⦃f : Float W⦄ where
  abbrev pub default_cost_config : CostConfig W
  default_cost_config = record {
    fixed_cost_per_load = f.lit 50 0;
    loaded_mile_rate = f.lit 185 2;
    empty_mile_rate = f.lit 145 2;
    empty_to_home_rate = f.lit 165 2;
    late_delivery_per_hour = f.lit 100 0;
    early_arrival_per_hour = f.lit 25 0;
    driver_bonus_weight = f.lit 1 0;
    opportunity_cost_ratio = f.lit 15 2;
  }

  unfoldable pub validate_costs : CostConfig W → Result ConfigError (Unit {0})
  validate_costs c =
      if f.lt c.fixed_cost_per_load f.nought
        || f.lt c.loaded_mile_rate f.nought
        || f.lt c.empty_mile_rate f.nought
        || f.lt c.empty_to_home_rate f.nought
      then err invalid_config
      else if f.lt c.late_delivery_per_hour f.nought || f.lt c.early_arrival_per_hour f.nought
      then err invalid_config
      else ok tt

  unfoldable pub validate_feasibility_config : FeasibilityConfig W → Result ConfigError (Unit {0})
  validate_feasibility_config c =
      if f.le c.average_speed_mph f.nought
      then err invalid_config
      else if f.lt c.max_deadhead_miles f.nought
      then err invalid_config
      else ok tt

  abbrev pub default_feasibility_config : FeasibilityConfig W
  default_feasibility_config = record {
    max_deadhead_miles = f.lit 250 0;
    max_early_dwell_hours = f.lit 12 0;
    max_late_delivery_hours = f.lit 2 0;
    average_speed_mph = f.lit 50 0;
    early_arrival_sentinel_min = allowed_early_never_wait_sentinel_minutes;
    hos_policy_specs = us_policy_specs;
  }
