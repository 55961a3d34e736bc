-- ===== src/Dispatch/Costs/Neutral.antt =====
-- The two cost functions, compared.
use project_mittens.Prelude.{◌≡◌, refl, Bool-cases, inl, inr, true, ◌&&◌, if◌then◌else◌}
use project_mittens.Float.{Float}
use project_mittens.Fleet.Resource.{Driver, Load, Location, distance_miles}
use project_mittens.Fleet.Config.{CostConfig}
use project_mittens.Dispatch.Arcs.{CandidateArc}
use project_mittens.Dispatch.Rules.{new_rule_evaluation_result}
use project_mittens.Dispatch.Costs.{
  is_unset, is_set, earns_bonus, itemized, home_target, calculate_trip_cost,
  calculate_trip_cost_with_rules,
}

module _ {W : Type 0} ⦃f : Float W⦄ where
  home_target_here :
      (d : Driver W)
      → home_target (record d { home_location = d.current_location }) ≡ d.current_location
  home_target_here d = elim (Bool-cases (is_unset d.current_location)) [
    | inl e ↦ rw e refl
    | inr e ↦ rw e refl
  ]

  -- The bonus of the neutral rules, which begins at 0, is the plain one.
  neutral_bonus :
      (arc : CandidateArc W) (w : W)
      → ((x : W)
          → f.lt f.nought x ≡ true
          → f.add f.nought (f.mul (f.lit 25 0) x) ≡ f.mul (f.lit 25 0) x)
      → (if f.lt f.nought w
          then if earns_bonus arc then f.add f.nought (f.mul (f.lit 25 0) w) else f.nought
          else f.nought)
        ≡ (if f.lt f.nought w
            then if earns_bonus arc then f.mul (f.lit 25 0) w else f.nought
            else f.nought)
  neutral_bonus arc w add = elim (Bool-cases (f.lt f.nought w)) [
    | inl e ↦ rw e (rw (add w e) refl)
    | inr e ↦ rw e refl
  ]

  -- The way home from a load's destination to a place, as it is priced.
  abbrev pub way_home : Location W → Load W → CostConfig W → W
  way_home p l cfg =
      if is_set p && is_set l.destination
      then f.mul (distance_miles l.destination p) cfg.empty_to_home_rate
      else f.nought

  pub neutral_cost :
      ((x : W) → f.mul x (f.lit 1 0) ≡ x)
      → ((x : W)
          → f.lt f.nought x ≡ true
          → f.add f.nought (f.mul (f.lit 25 0) x) ≡ f.mul (f.lit 25 0) x)
      → (d : Driver W) (l : Load W) (arc : CandidateArc W) (cfg : CostConfig W)
      → (calculate_trip_cost_with_rules d l arc cfg new_rule_evaluation_result
          ≡ calculate_trip_cost (record d { home_location = d.current_location }) l arc cfg)
        × ((calculate_trip_cost_with_rules d l arc cfg
              new_rule_evaluation_result).empty_to_home_cost
            ≡ way_home d.current_location l cfg)
        × ((calculate_trip_cost d l arc cfg).empty_to_home_cost
            ≡ way_home
                (if is_unset d.home_location then d.current_location else d.home_location)
                l
                cfg)
  unfolding calculate_trip_cost calculate_trip_cost_with_rules new_rule_evaluation_result itemized
  neutral_cost mul_one add d l arc cfg = (
    rw (home_target_here d) (rw (neutral_bonus arc cfg.driver_bonus_weight add) (simp mul_one)),
    rw (mul_one (f.mul (distance_miles l.destination d.current_location) cfg.empty_to_home_rate))
        refl,
    refl,
  )
