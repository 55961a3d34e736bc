-- ===== src/Dispatch/Costs.antt =====
-- internal/domain/policy/cost.go: what a trip earns and costs.
pub mod Neutral
use project_mittens.Prelude.{ℕ, ◌/◌, Bool, not, ◌&&◌, ◌||◌, String, if◌then◌else◌}
use project_mittens.Prelude.Int.{ℤ, pos, sub_ℕ, ltb_ℤ, ◌+ℤ◌, neg_of}
use project_mittens.Prelude.Dict.{str_eq}
use project_mittens.Float.{Float}
use project_mittens.Fleet.Resource.{Location, Driver, Load, distance_miles}
use project_mittens.Fleet.Config.{CostConfig}
use project_mittens.Dispatch.Arcs.{CandidateArc}
use project_mittens.Dispatch.Rules.{RuleEvaluationResult}

pub record TripCostBreakdown (W : Type 0) : Type 0 where
  pub revenue : W
  pub fixed_cost : W
  pub loaded_cost : W
  pub empty_cost : W
  pub empty_to_home_cost : W
  pub dwell_cost : W
  pub late_penalty : W
  pub driver_bonus : W
  pub total_cost : W
  pub net_contribution : W

-- `t.Unix()`
abbrev pub unix_seconds : ℕ → ℤ
unix_seconds t = sub_ℕ (t / 1_000_000_000) 62_135_596_800

module _ {W : Type 0} ⦃f : Float W⦄ where
  abbrev pub is_unset : Location W → Bool
  is_unset p = str_eq p.node_id "" && f.eq p.lat f.nought && f.eq p.lon f.nought

  abbrev pub is_set : Location W → Bool
  is_set p = not (str_eq p.node_id "") || not (f.eq p.lat f.nought) || not (f.eq p.lon f.nought)

  -- The domicile, or where the driver is if he has none.
  abbrev pub home_target : Driver W → Location W
  home_target d = if is_unset d.home_location then d.current_location else d.home_location

  -- Step 5 of both functions.
  unfoldable pub dwell_cost_of : CandidateArc W → CostConfig W → W
  dwell_cost_of arc cfg =
      f.mul (f.div (f.of_int arc.inserted_dwell_min) (f.lit 60 0)) cfg.early_arrival_per_hour

  -- Step 6 of both functions.
  unfoldable pub late_penalty_of : Load W → CandidateArc W → CostConfig W → W
  late_penalty_of l arc cfg =
      let arrival = unix_seconds arc.delivery_arrival_time in
      if ltb_ℤ (pos 0) l.delivery_latest_epoch && ltb_ℤ l.delivery_latest_epoch arrival
      then f.mul (f.div (f.of_int (arrival +ℤ neg_of l.delivery_latest_epoch)) (f.lit 3600 0))
          cfg.late_delivery_per_hour
      else f.nought

  abbrev pub earns_bonus : CandidateArc W → Bool
  earns_bonus arc = f.lt f.nought arc.loaded_miles && f.lt arc.deadhead_miles (f.lit 50 0)

  -- The sums that both functions end with.
  unfoldable pub itemized : W → W → W → W → W → W → W → W → TripCostBreakdown W
  itemized revenue fixed_cost loaded_cost empty_cost home_cost dwell_cost late_penalty bonus =
      let total =
        f.sub
          (f.add
            (f.add (f.add (f.add (f.add fixed_cost loaded_cost) empty_cost) home_cost) dwell_cost)
            late_penalty)
          bonus in
      record {
        revenue = revenue;
        fixed_cost = fixed_cost;
        loaded_cost = loaded_cost;
        empty_cost = empty_cost;
        empty_to_home_cost = home_cost;
        dwell_cost = dwell_cost;
        late_penalty = late_penalty;
        driver_bonus = bonus;
        total_cost = total;
        net_contribution = f.sub revenue total;
      }

  unfoldable pub calculate_trip_cost :
      Driver W → Load W → CandidateArc W → CostConfig W → TripCostBreakdown W
  calculate_trip_cost d l arc cfg =
      let home = home_target d in
      itemized l.revenue cfg.fixed_cost_per_load (f.mul arc.loaded_miles cfg.loaded_mile_rate)
        (f.mul arc.deadhead_miles cfg.empty_mile_rate)
        (if is_set home && is_set l.destination
          then f.mul (distance_miles l.destination home) cfg.empty_to_home_rate
          else f.nought)
        (dwell_cost_of arc cfg) (late_penalty_of l arc cfg)
        (if f.lt f.nought cfg.driver_bonus_weight
          then if earns_bonus arc then f.mul (f.lit 25 0) cfg.driver_bonus_weight else f.nought
          else f.nought)

  unfoldable pub calculate_trip_cost_with_rules :
      Driver W
      → Load W
      → CandidateArc W
      → CostConfig W
      → RuleEvaluationResult W
      → TripCostBreakdown W
  calculate_trip_cost_with_rules d l arc cfg rules =
      itemized l.revenue (f.mul cfg.fixed_cost_per_load rules.fixed_cost_multiplier)
        (f.mul (f.mul arc.loaded_miles cfg.loaded_mile_rate) rules.loaded_rate_multiplier)
        (f.mul (f.mul arc.deadhead_miles cfg.empty_mile_rate) rules.empty_rate_multiplier)
        (if is_set d.current_location && is_set l.destination
          then f.mul
              (f.mul (distance_miles l.destination d.current_location) cfg.empty_to_home_rate)
              rules.empty_to_home_multiplier
          else f.nought)
        (dwell_cost_of arc cfg) (late_penalty_of l arc cfg)
        (if f.lt f.nought cfg.driver_bonus_weight
          then if earns_bonus arc
            then f.add rules.bonus (f.mul (f.lit 25 0) cfg.driver_bonus_weight)
            else rules.bonus
          else rules.bonus)
