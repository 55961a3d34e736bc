-- ===== src/Fleet/Transition/Spots.antt =====
-- Where a state keeps the drivers of the matches, and what the loop over them writes there.
use mathlib.Core.Path.{subst}
use project_mittens.Prelude.{
  ℕ, zero, suc, ◌≡◌, ◌≢◌, refl, sym, ap, ◌∙◌, inl, inr, Option, none, some, List, [], ◌∷◌, Has, All,
  All-Has,
}
use project_mittens.Prelude.Dict.{lookup}
use project_mittens.Prelude.Keyed.{nth, nth-put_same, nth-put_other, fetch-index}
use project_mittens.Prelude.Sorting.{sort_by, str_lt}
use project_mittens.Prelude.Seen.{Distinct}
use project_mittens.Float.{Float}
use project_mittens.Fleet.Resource.{
  Driver, Load, DriverLoadMatch, ResourceState, new_resource_state, get_driver, get_load,
}
use project_mittens.Fleet.Action.Feasible.{IsMatch, drivers_of}
use project_mittens.Fleet.Transition.{dispatched, write_driver, index_or_0, dispatch_matches}

module _ {A : Type 0} where
  pub some-injective : (a b : A) → some a ≡ some b → a ≡ b
  some-injective a b e = cc

  pub nth-Has : (xs : List A) (i : ℕ) (x : A) → nth xs i ≡ some x → Has x xs
  nth-Has [] i x e = absurd (cc e)
  nth-Has (z ∷ zs) zero x e = inl (some-injective z x e)
  nth-Has (z ∷ zs) (suc i) x e = inr (nth-Has zs i x e)

  pub Has-nth : (xs : List A) (x : A) → Has x xs → (i : ℕ) × (nth xs i ≡ some x)
  Has-nth [] x h = absurd h
  Has-nth (z ∷ zs) x (inl e) = (0, ap some e)
  Has-nth (z ∷ zs) x (inr h) = let (i, e) = Has-nth zs x h in (suc i, e)

module _ {W : Type 0} where
  -- Where a state keeps the driver of a match.
  abbrev pub spot : ResourceState W → DriverLoadMatch W → ℕ
  spot rs m = index_or_0 (lookup m.driver_id rs.driver_index)

  -- A match whose driver and load are where the indexes of the state say.
  pub record IsPlaced (rs : ResourceState W) (m : DriverLoadMatch W) : Type 0 where
    pub driver : Driver W
    pub load : Load W
    pub driver_at : nth rs.drivers (spot rs m) ≡ some driver
    pub load_at : nth rs.loads (index_or_0 (lookup m.load_id rs.load_index)) ≡ some load
    pub driver_found : get_driver rs m.driver_id ≡ some driver
    pub load_found : get_load rs m.load_id ≡ some load
    pub driver_named : driver.id ≡ m.driver_id

  pub IsMatch-IsPlaced :
      (ds : List (Driver W)) (ls : List (Load W)) (m : DriverLoadMatch W)
      → IsMatch (new_resource_state ds ls) m
      → IsPlaced (new_resource_state ds ls) m
  unfolding new_resource_state get_driver get_load
  IsMatch-IsPlaced ds ls m ((d, g, _), (l, h)) =
      elim (fetch-index (λ x. x.id) (sort_by (λ a b. str_lt a.id b.id) ds) m.driver_id) [
        | inl (e, _) ↦ absurd (cc (sym e ∙ g))
        | inr (k, x, at, n, e, q) ↦
            elim (fetch-index (λ x. x.id) (sort_by (λ a b. str_lt a.id b.id) ls) m.load_id) [
              | inl (e', _) ↦ absurd (cc (sym e' ∙ h))
              | inr (j, y, at', n', e', q') ↦ record {
                driver = x;
                load = y;
                driver_at = rw at n;
                load_at = rw at' n';
                driver_found = e;
                load_found = e';
                driver_named = q;
              }
            ]
      ]

  -- Two placed matches of one spot are of one driver.
  spot-driver :
      (rs : ResourceState W) (m n : DriverLoadMatch W)
      → IsPlaced rs m
      → IsPlaced rs n
      → spot rs m ≡ spot rs n
      → m.driver_id ≡ n.driver_id
  spot-driver rs m n p q e =
      let same =
        some-injective p.driver q.driver (sym p.driver_at ∙ ap (nth rs.drivers) e ∙ q.driver_at) in
      sym p.driver_named ∙ ap (λ d. d.id) same ∙ q.driver_named

module _ {W : Type 0} ⦃f : Float W⦄ (rs : ResourceState W) where
  -- A write elsewhere.
  write_driver-other :
      (m : DriverLoadMatch W) (i j : ℕ) (o : Option (Driver W)) (load : Option (Load W))
      (xs : List (Driver W))
      → i ≢ j
      → nth (write_driver m i o load xs) j ≡ nth xs j
  write_driver-other m i j none load xs n = refl
  write_driver-other m i j (some d) none xs n = refl
  write_driver-other m i j (some d) (some l) xs n = nth-put_other xs i j (dispatched m l d) n

  -- The spots that no match names stay as they are.
  pub dispatch_matches-other :
      (ms : List (DriverLoadMatch W)) (xs : List (Driver W)) (i : ℕ)
      → All (λ m. spot rs m ≢ i) ms
      → nth (dispatch_matches rs ms xs) i ≡ nth xs i
  unfolding dispatch_matches
  dispatch_matches-other [] xs i _ = refl
  dispatch_matches-other (m ∷ ms) xs i (n, ns) =
      dispatch_matches-other ms _ i ns ∙ write_driver-other m (spot rs m) i _ _ xs n

  -- The spots of other drivers.
  other_spots :
      (m : DriverLoadMatch W) (ms : List (DriverLoadMatch W))
      → IsPlaced rs m
      → All (IsPlaced rs) ms
      → All (λ j. m.driver_id ≢ j) (drivers_of ms)
      → All (λ n. spot rs n ≢ spot rs m) ms
  other_spots m [] p _ _ = tt
  other_spots m (n ∷ ms) p (q, qs) (d, ds) =
      (λ e. d (spot-driver rs m n p q (sym e)), other_spots m ms p qs ds)

  first_own :
      (m : DriverLoadMatch W) (ms : List (DriverLoadMatch W)) (xs : List (Driver W))
      (p : IsPlaced rs m)
      → All (IsPlaced rs) ms
      → All (λ j. m.driver_id ≢ j) (drivers_of ms)
      → nth xs (spot rs m) ≡ some p.driver
      → nth (dispatch_matches rs (m ∷ ms) xs) (spot rs m) ≡ some (dispatched m p.load p.driver)
  unfolding dispatch_matches
  first_own m ms xs p ps ds at_spot =
      dispatch_matches-other ms _ (spot rs m) (other_spots m ms p ps ds)
      ∙ rw (at_spot, p.load_at)
          (nth-put_same xs (spot rs m) p.driver (dispatched m p.load p.driver) at_spot)

  -- The driver of a match ends up dispatched with its load.
  pub dispatch_matches-own :
      (ms : List (DriverLoadMatch W)) (xs : List (Driver W)) (m : DriverLoadMatch W)
      (p : IsPlaced rs m)
      → Has m ms
      → All (IsPlaced rs) ms
      → Distinct (drivers_of ms)
      → nth xs (spot rs m) ≡ some p.driver
      → nth (dispatch_matches rs ms xs) (spot rs m) ≡ some (dispatched m p.load p.driver)
  unfolding dispatch_matches
  dispatch_matches-own [] xs m p h _ _ _ = absurd h
  dispatch_matches-own (n ∷ ms) xs m p (inl e) (_, ps) (d, ds) at_spot =
      subst
        (λ k.
          nth (dispatch_matches rs (k ∷ ms) xs) (spot rs m) ≡ some (dispatched m p.load p.driver))
        (sym e)
        (first_own m ms xs p ps (subst (λ k. All (λ j. k.driver_id ≢ j) (drivers_of ms)) e d)
          at_spot)
  dispatch_matches-own (n ∷ ms) xs m p (inr h) (q, ps) (d, ds) at_spot =
      dispatch_matches-own ms _ m p h ps ds (
        write_driver-other n (spot rs n) (spot rs m) _ _ xs
          (λ e. All-Has (λ k. spot rs k ≢ spot rs n) ms m (other_spots n ms q ps d) h (sym e))
        ∙ at_spot)
