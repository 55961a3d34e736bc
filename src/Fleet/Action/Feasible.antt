-- ===== src/Fleet/Action/Feasible.antt =====
-- Which actions are feasible.
use project_mittens.Prelude.{
  ◌≡◌, ◌↔◌, refl, inl, inr, Bool, true, false, String, Option, none, some, List, [], ◌∷◌, map, All,
  Bool-cases,
}
use project_mittens.Prelude.Dict.{Dict, insert}
use project_mittens.Prelude.Seen.{Distinct, seen, Unseen, Unseen-insert, insert-Unseen, Unseen-none}
use project_mittens.Float.{Float}
use project_mittens.Fleet.Resource.{
  ModelError, Driver, Load, DriverLoadMatch, ResourceState, is_idle, get_driver, get_load,
}
use project_mittens.Fleet.Action.{
  SpotPriceBid, Action, check_load, check_driver, or_else, validate_matches, validate_bids,
  validate_feasibility,
}

or_else-none : (a b : Option ModelError) → or_else a b ≡ none → (a ≡ none) × (b ≡ none)
or_else-none none b e = (refl, e)
or_else-none (some x) b e = absurd (cc e)

module _ {W : Type 0} where
  -- The driver is there and idle, and the load is there.
  abbrev pub IsMatch : ResourceState W → DriverLoadMatch W → Type 0
  IsMatch rs m =
      ((d : Driver W) × (get_driver rs m.driver_id ≡ some d) × (is_idle d ≡ true))
      × ((l : Load W) × (get_load rs m.load_id ≡ some l))

  abbrev pub drivers_of : List (DriverLoadMatch W) → List String
  drivers_of ms = map (λ m. m.driver_id) ms

  abbrev pub loads_of : List (DriverLoadMatch W) → List String
  loads_of ms = map (λ m. m.load_id) ms

  check_load-none :
      (o : Option (Load W)) (rest : Option ModelError)
      → check_load o rest ≡ none
      → ((l : Load W) × (o ≡ some l)) × (rest ≡ none)
  check_load-none none rest e = absurd (cc e)
  check_load-none (some l) rest e = ((l, refl), e)

  check_driver-none :
      (o : Option (Driver W)) (rest : Option ModelError)
      → check_driver o rest ≡ none
      → ((d : Driver W) × (o ≡ some d) × (is_idle d ≡ true)) × (rest ≡ none)
  check_driver-none none rest e = absurd (cc e)
  check_driver-none (some d) rest e = elim (Bool-cases (is_idle d)) [
    | inl i ↦ ((d, refl, i), rw i at e)
    | inr i ↦ absurd (cc (rw i at e))
  ]

  -- What the loop over the matches asks of them, with those that it has seen.
  pub record IsClear (rs : ResourceState W) (sd sl : Dict Bool) (ms : List (DriverLoadMatch W))
      : Type 0 where
    pub matched : All (IsMatch rs) ms
    pub drivers_distinct : Distinct (drivers_of ms)
    pub drivers_unseen : Unseen sd (drivers_of ms)
    pub loads_distinct : Distinct (loads_of ms)
    pub loads_unseen : Unseen sl (loads_of ms)

  pub validate_matches-IsClear :
      (rs : ResourceState W) (sd sl : Dict Bool) (ms : List (DriverLoadMatch W))
      → validate_matches rs sd sl ms ≡ none
      → IsClear rs sd sl ms
  unfolding validate_matches
  validate_matches-IsClear rs sd sl [] e = record {
    matched = tt;
    drivers_distinct = tt;
    drivers_unseen = tt;
    loads_distinct = tt;
    loads_unseen = tt;
  }
  validate_matches-IsClear rs sd sl (m ∷ ms) e = elim (Bool-cases (seen m.driver_id sd)) [
    | inl s ↦ absurd (cc (rw s at e))
    | inr s ↦ elim (Bool-cases (seen m.load_id sl)) [
      | inl t ↦ absurd (cc (rw (s, t) at e))
      | inr t ↦
          let (d, e1) = check_driver-none (get_driver rs m.driver_id) _ (rw (s, t) at e) in
          let (l, e2) = check_load-none (get_load rs m.load_id) _ e1 in
          let c =
            validate_matches-IsClear rs (insert m.driver_id true sd) (insert m.load_id true sl) ms
              e2 in
          let (dn, du) = Unseen-insert m.driver_id sd (drivers_of ms) c.drivers_unseen in
          let (ln, lu) = Unseen-insert m.load_id sl (loads_of ms) c.loads_unseen in
          record {
            matched = ((d, l), c.matched);
            drivers_distinct = (dn, c.drivers_distinct);
            drivers_unseen = (s, du);
            loads_distinct = (ln, c.loads_distinct);
            loads_unseen = (t, lu);
          }
    ]
  ]

  IsClear-validate_matches :
      (rs : ResourceState W) (sd sl : Dict Bool) (ms : List (DriverLoadMatch W))
      → IsClear rs sd sl ms
      → validate_matches rs sd sl ms ≡ none
  unfolding validate_matches
  IsClear-validate_matches rs sd sl [] c = refl
  IsClear-validate_matches rs sd sl (m ∷ ms) c =
      let ((d, g, i), (l, h)) = c.matched.0 in
      rw (c.drivers_unseen.0, c.loads_unseen.0, g, i, h)
        (IsClear-validate_matches rs (insert m.driver_id true sd) (insert m.load_id true sl) ms
          (record {
            matched = c.matched.1;
            drivers_distinct = c.drivers_distinct.1;
            drivers_unseen =
                insert-Unseen m.driver_id sd (drivers_of ms) c.drivers_distinct.0
                  c.drivers_unseen.1;
            loads_distinct = c.loads_distinct.1;
            loads_unseen =
                insert-Unseen m.load_id sl (loads_of ms) c.loads_distinct.0 c.loads_unseen.1;
          }))

module _ {W : Type 0} ⦃f : Float W⦄ where
  -- The price is not at or below 0, and the load is there.
  abbrev pub IsBid : ResourceState W → SpotPriceBid W → Type 0
  IsBid rs b =
      (f.le b.bid_price f.nought ≡ false) × ((l : Load W) × (get_load rs b.load_id ≡ some l))

  abbrev pub bid_loads : List (SpotPriceBid W) → List String
  bid_loads bs = map (λ b. b.load_id) bs

  validate_bids-none :
      (rs : ResourceState W) (sb : Dict Bool) (bs : List (SpotPriceBid W))
      → validate_bids rs sb bs ≡ none
      → All (IsBid rs) bs × Distinct (bid_loads bs) × Unseen sb (bid_loads bs)
  unfolding validate_bids
  validate_bids-none rs sb [] e = (tt, tt, tt)
  validate_bids-none rs sb (b ∷ bs) e = elim (Bool-cases (seen b.load_id sb)) [
    | inl s ↦ absurd (cc (rw s at e))
    | inr s ↦ elim (Bool-cases (f.le b.bid_price f.nought)) [
      | inl t ↦ absurd (cc (rw (s, t) at e))
      | inr t ↦
          let (l, e2) = check_load-none (get_load rs b.load_id) _ (rw (s, t) at e) in
          let (bids, dist, uns) = validate_bids-none rs (insert b.load_id true sb) bs e2 in
          let (n, u) = Unseen-insert b.load_id sb (bid_loads bs) uns in
          (((t, l), bids), (n, dist), (s, u))
    ]
  ]

  none-validate_bids :
      (rs : ResourceState W) (sb : Dict Bool) (bs : List (SpotPriceBid W))
      → All (IsBid rs) bs
      → Distinct (bid_loads bs)
      → Unseen sb (bid_loads bs)
      → validate_bids rs sb bs ≡ none
  unfolding validate_bids
  none-validate_bids rs sb [] _ _ _ = refl
  none-validate_bids rs sb (b ∷ bs) ((t, (l, h)), bids) (n, dist) (s, u) =
      rw (s, t, h)
        (none-validate_bids rs (insert b.load_id true sb) bs bids dist
          (insert-Unseen b.load_id sb (bid_loads bs) n u))

  -- The constraints on an action, as a set of conditions on its parts.
  pub record IsFeasible (rs : ResourceState W) (a : Action W) : Type 0 where
    pub matched : All (IsMatch rs) a.matches
    pub drivers_distinct : Distinct (drivers_of a.matches)
    pub loads_distinct : Distinct (loads_of a.matches)
    pub bids : All (IsBid rs) a.bids
    pub bids_distinct : Distinct (bid_loads a.bids)

  -- The validator accepts an action exactly when each driver that it matches is there and idle and
  -- each load is there, no driver and no load is matched twice, and each bid is for a load that is
  -- there, at a price that is not at or below 0, with no load bid for twice. Whether the price is
  -- finite makes no difference.
  pub validate_feasibility_lem :
      (rs : ResourceState W) (a : Action W)
      → (validate_feasibility a (some rs) ≡ none) ↔ IsFeasible rs a
  unfolding validate_feasibility
  validate_feasibility_lem rs a = (
    λ e.
        let (em, eb) =
          or_else-none (validate_matches rs [] [] a.matches) (validate_bids rs [] a.bids) e in
        let c = validate_matches-IsClear rs [] [] a.matches em in
        let (b, d, _) = validate_bids-none rs [] a.bids eb in
        record {
          matched = c.matched;
          drivers_distinct = c.drivers_distinct;
          loads_distinct = c.loads_distinct;
          bids = b;
          bids_distinct = d;
        },
    λ c.
        let passes = IsClear-validate_matches rs [] [] a.matches (record {
          matched = c.matched;
          drivers_distinct = c.drivers_distinct;
          drivers_unseen = Unseen-none (drivers_of a.matches);
          loads_distinct = c.loads_distinct;
          loads_unseen = Unseen-none (loads_of a.matches);
        }) in
        rw passes
          (none-validate_bids rs [] a.bids c.bids c.bids_distinct (Unseen-none (bid_loads a.bids))),
  )
