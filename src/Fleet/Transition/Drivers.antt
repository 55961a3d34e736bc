-- ===== src/Fleet/Transition/Drivers.antt =====
-- Which drivers a transition changes, and how.
use mathlib.Core.Path.{subst}
use project_mittens.Prelude.{
  ℕ, ◌≡◌, ◌≢◌, refl, sym, ap, ◌∙◌, inl, inr, Bool, some, List, [], ◌∷◌, ◌++◌, Has, All, All-map,
  All-Has,
}
use project_mittens.Prelude.Result.{Result, ok, err}
use project_mittens.Prelude.Dict.{Dict}
use project_mittens.Prelude.Keyed.{nth}
use project_mittens.Prelude.Sorting.{sort_by-Has, str_lt}
use project_mittens.Float.{Float}
use project_mittens.Fleet.Resource.{
  ModelError, Driver, Load, DriverLoadMatch, ResourceState, new_resource_state, get_driver,
  get_load,
}
use project_mittens.Fleet.Action.Feasible.{IsMatch, IsClear, drivers_of, validate_matches-IsClear}
use project_mittens.Fleet.Transition.Spots.{
  some-injective, nth-Has, Has-nth, spot, IsPlaced, IsMatch-IsPlaced, dispatch_matches-other,
  dispatch_matches-own,
}
use project_mittens.Fleet.Transition.{
  check_matches, unmatched, dispatched, dispatch_matches, carried_out, transition,
}
use project_mittens.Fleet.Transition.Dispatched.{IsDispatched, dispatched-IsDispatched}
use project_mittens.Fleet.Transition.Refusals.{error_of, check_matches-validate_matches}

module _ {W : Type 0} ⦃f : Float W⦄ where
  -- A transition that succeeds has valid matches, and its drivers are those dispatched.
  accepted :
      (rs t : ResourceState W) (ms : List (DriverLoadMatch W)) (new_loads : List (Load W))
      → transition rs ms new_loads ≡ ok t
      → IsClear rs [] [] ms
        × ((d : Driver W) → Has d (dispatch_matches rs ms rs.drivers) → Has d t.drivers)
  unfolding transition new_resource_state
  accepted rs t ms new_loads = by_check (check_matches rs [] [] ms) refl
    where
      state-injective :
          (a b : ResourceState W)
          → ◌≡◌ {A = Result ModelError (ResourceState W)} (ok a) (ok b)
          → a ≡ b
      state-injective a b q = cc

      kept :
          (s : Dict Bool) (d : Driver W)
          → Has d (dispatch_matches rs ms rs.drivers)
          → Has d
              (new_resource_state
                (dispatch_matches rs ms rs.drivers)
                (unmatched s rs.loads ++ new_loads)).drivers
      kept s d h = (sort_by-Has (λ a b. str_lt a.id b.id) d (dispatch_matches rs ms rs.drivers)).1 h

      by_check :
          (o : Result ModelError (Dict Bool))
          → check_matches rs [] [] ms ≡ o
          → carried_out rs ms new_loads o ≡ ok t
          → IsClear rs [] [] ms
            × ((d : Driver W) → Has d (dispatch_matches rs ms rs.drivers) → Has d t.drivers)
      by_check (err x) c e = absurd (cc e)
      by_check (ok s) c e = (
        validate_matches-IsClear rs [] [] ms
            (check_matches-validate_matches rs [] [] ms ∙ ap error_of c),
        λ d h. subst (λ u. Has d u.drivers) (state-injective _ t e) (kept s d h),
      )

  -- After a transition of a state made from drivers and loads, the driver of each match is there, at
  -- the destination of its load and without a load, available from the epoch of the match and the
  -- transit on, his hours lowered by the transit but not below 0. If he has clocks, they are those at
  -- the end of the simulated trip, or the old ones where the simulation fails.
  pub transition-IsDispatched :
      (ds : List (Driver W)) (ls : List (Load W)) (t : ResourceState W)
      (ms : List (DriverLoadMatch W)) (new_loads : List (Load W)) (m : DriverLoadMatch W)
      → transition (new_resource_state ds ls) ms new_loads ≡ ok t
      → Has m ms
      → (d : Driver W) × (l : Load W) × (get_driver (new_resource_state ds ls) m.driver_id ≡ some d)
        × (get_load (new_resource_state ds ls) m.load_id ≡ some l)
        × (after : Driver W) × Has after t.drivers
        × IsDispatched m l d after
  transition-IsDispatched ds ls t ms new_loads m e h =
      let rs = new_resource_state ds ls in
      let (c, keep) = accepted rs t ms new_loads e in
      let placed = All-map (IsMatch rs) (IsPlaced rs) (IsMatch-IsPlaced ds ls) ms c.matched in
      let p = All-Has (IsPlaced rs) ms m placed h in
      let own = dispatch_matches-own rs ms rs.drivers m p h placed c.drivers_distinct p.driver_at in
      (
        p.driver,
        p.load,
        p.driver_found,
        p.load_found,
        dispatched m p.load p.driver,
        keep _ (nth-Has (dispatch_matches rs ms rs.drivers) (spot rs m) _ own),
        dispatched-IsDispatched m p.load p.driver,
      )

  -- The spot of a driver whose id is in no match.
  idle_spot :
      (rs : ResourceState W) (ms : List (DriverLoadMatch W)) (d : Driver W) (i : ℕ)
      → All (IsPlaced rs) ms
      → nth rs.drivers i ≡ some d
      → ¬ (Has d.id (drivers_of ms))
      → All (λ m. spot rs m ≢ i) ms
  idle_spot rs [] d i _ e n = tt
  idle_spot rs (m ∷ ms) d i (p, ps) e n = (
    λ q.
        let same = some-injective p.driver d (sym p.driver_at ∙ ap (nth rs.drivers) q ∙ e) in
        n (inl (sym p.driver_named ∙ ap (λ x. x.id) same)),
    idle_spot rs ms d i ps e (λ h. n (inr h)),
  )

  -- A driver whose id is in no match is there unchanged.
  pub transition-undispatched :
      (ds : List (Driver W)) (ls : List (Load W)) (t : ResourceState W)
      (ms : List (DriverLoadMatch W)) (new_loads : List (Load W)) (d : Driver W)
      → transition (new_resource_state ds ls) ms new_loads ≡ ok t
      → Has d (new_resource_state ds ls).drivers
      → ¬ (Has d.id (drivers_of ms))
      → Has d t.drivers
  transition-undispatched ds ls t ms new_loads d e h n =
      let rs = new_resource_state ds ls in
      let (c, keep) = accepted rs t ms new_loads e in
      let placed = All-map (IsMatch rs) (IsPlaced rs) (IsMatch-IsPlaced ds ls) ms c.matched in
      let (i, at_i) = Has-nth rs.drivers d h in
      let same = dispatch_matches-other rs ms rs.drivers i (idle_spot rs ms d i placed at_i n) in
      keep d (nth-Has (dispatch_matches rs ms rs.drivers) i d (same ∙ at_i))
