-- ===== src/Fleet/Transition/Safety.antt =====
-- The clocks of the drivers through a transition.
use mathlib.Core.Path.{subst}
use project_mittens.Prelude.{
  ℕ, zero, suc, ◌≡◌, refl, inl, inr, true, Bool, Option, none, some, List, [], ◌∷◌, All,
}
use project_mittens.Prelude.Result.{Result, ok, err}
use project_mittens.Prelude.Dict.{Dict}
use project_mittens.Prelude.Keyed.{nth, put}
use project_mittens.Prelude.Sorting.{str_lt, All-sort_by}
use project_mittens.Float.{Float}
use project_mittens.Hos.Specs.{PolicySpecs, HosError, validate, validate-cases}
use project_mittens.Hos.Clocks.{DriverClocks}
use project_mittens.Hos.Clocks.Bounds.{IsSound}
use project_mittens.Hos.Events.{Event}
use project_mittens.Hos.Simulator.{simulate}
use project_mittens.Hos.Simulator.Completion.{simulate_completes}
use project_mittens.Fleet.Resource.{
  ModelError, Driver, Load, Location, DriverLoadMatch, ResourceState, new_resource_state,
  distance_miles,
}
use project_mittens.Fleet.Transition.{
  check_matches, trip_events, advance_clocks, dispatched, write_driver, dispatch_matches,
  carried_out, transition,
}

-- The clocks, where there are some, are sound under the policy.
abbrev pub AreSound : PolicySpecs → Option DriverClocks → Type 0
AreSound specs none = Unit
AreSound specs (some c) = IsSound specs c

abbrev pub IsSafe : {W : Type 0} → Driver W → Type 0
IsSafe d = AreSound d.policy_specs d.clocks

module _ {A : Type 0} (P : A → Type 0) where
  All-put : (xs : List A) (i : ℕ) (y : A) → P y → All P xs → All P (put xs i y)
  All-put [] i y p _ = tt
  All-put (x ∷ xs) zero y p (_, qs) = (p, qs)
  All-put (x ∷ xs) (suc i) y p (q, qs) = (q, All-put xs i y p qs)

  All-nth : (xs : List A) (i : ℕ) (x : A) → nth xs i ≡ some x → All P xs → P x
  All-nth [] i x e _ = absurd (cc e)
  All-nth (z ∷ zs) zero x e (p, _) = let same : z ≡ x = cc in subst P same p
  All-nth (z ∷ zs) (suc i) x e (_, ps) = All-nth zs i x e ps

module _ {W : Type 0} ⦃f : Float W⦄ where
  simulate-refused :
      (specs : PolicySpecs) (c : DriverClocks) (events : List (Event W)) (x : HosError)
      → validate specs ≡ err x
      → simulate (some c) events specs true ≡ err x
  unfolding simulate
  simulate-refused specs c events x e = rw e refl

  advance_clocks-AreSound :
      (d : Driver W) (loc : Location W) (l : Load W) (o : Option DriverClocks)
      → AreSound d.policy_specs o
      → AreSound d.policy_specs (advance_clocks d loc l o)
  advance_clocks-AreSound d loc l none h = tt
  advance_clocks-AreSound d loc l (some c) h =
      let events =
        trip_events (distance_miles loc l.origin) (distance_miles l.origin l.destination) in
      elim (validate-cases d.policy_specs) [
        | inl v ↦ let (r, e, _, _, _, s) = simulate_completes d.policy_specs c events v h in rw e s
        | inr v ↦ rw (simulate-refused d.policy_specs c events _ v) h
      ]

  dispatched-IsSafe :
      (m : DriverLoadMatch W) (l : Load W) (d : Driver W) → IsSafe d → IsSafe (dispatched m l d)
  unfolding dispatched
  dispatched-IsSafe m l d h = advance_clocks-AreSound d d.current_location l d.clocks h

  write_driver-IsSafe :
      (m : DriverLoadMatch W) (i : ℕ) (o : Option (Driver W)) (load : Option (Load W))
      (xs : List (Driver W))
      → nth xs i ≡ o
      → All IsSafe xs
      → All IsSafe (write_driver m i o load xs)
  write_driver-IsSafe m i none load xs e h = h
  write_driver-IsSafe m i (some d) none xs e h = h
  write_driver-IsSafe m i (some d) (some l) xs e h =
      All-put IsSafe xs i (dispatched m l d) (dispatched-IsSafe m l d (All-nth IsSafe xs i d e h)) h

  dispatch_matches-IsSafe :
      (rs : ResourceState W) (ms : List (DriverLoadMatch W)) (xs : List (Driver W))
      → All IsSafe xs
      → All IsSafe (dispatch_matches rs ms xs)
  unfolding dispatch_matches
  dispatch_matches-IsSafe rs [] xs h = h
  dispatch_matches-IsSafe rs (m ∷ ms) xs h =
      dispatch_matches-IsSafe rs ms _ (write_driver-IsSafe m _ _ _ xs refl h)

  -- A transition that succeeds keeps all clocks sound under the policies of their drivers, whatever
  -- trips are dispatched: no clock that was within its ceiling is above it afterwards.
  pub transition-IsSafe :
      (rs t : ResourceState W) (ms : List (DriverLoadMatch W)) (new_loads : List (Load W))
      → All IsSafe rs.drivers
      → transition rs ms new_loads ≡ ok t
      → All IsSafe t.drivers
  unfolding transition new_resource_state
  transition-IsSafe rs t ms new_loads h = by_check (check_matches rs [] [] ms)
    where
      state-injective :
          (a b : ResourceState W)
          → ◌≡◌ {A = Result ModelError (ResourceState W)} (ok a) (ok b)
          → a ≡ b
      state-injective a b q = cc

      by_check :
          (o : Result ModelError (Dict Bool))
          → carried_out rs ms new_loads o ≡ ok t
          → All IsSafe t.drivers
      by_check (err x) e = absurd (cc e)
      by_check (ok s) e =
          subst (λ u. All IsSafe u.drivers) (state-injective _ t e)
            (All-sort_by (λ a b. str_lt a.id b.id) IsSafe (dispatch_matches rs ms rs.drivers)
              (dispatch_matches-IsSafe rs ms rs.drivers h))
