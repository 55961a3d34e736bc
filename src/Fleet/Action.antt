-- ===== src/Fleet/Action.antt =====
-- internal/domain/model/action.go. The messages that are logged are left out; `none` is a nil error.
pub mod Feasible
use project_mittens.Prelude.{
  ℕ, Bool, true, false, not, ◌&&◌, ◌||◌, String, Option, none, some, List, [], ◌∷◌, if◌then◌else◌,
  length, ◌==◌,
}
use project_mittens.Prelude.Dict.{Dict, insert, str_eq}
use project_mittens.Prelude.Sorting.{str_lt, sort_by}
use project_mittens.Prelude.Seen.{seen}
use project_mittens.Float.{Float}
use project_mittens.Fleet.Resource.{
  ModelError, driver_not_found, load_not_found, driver_already_assigned, duplicate_match,
  invalid_bid_price, duplicate_bid, nil_resource_state, Driver, Load, DriverLoadMatch,
  ResourceState, is_idle, get_driver, get_load,
}

pub record SpotPriceBid {ℓ} (W : Type ℓ) : Type ℓ where
  pub load_id : String
  pub bid_price : W

pub record Action {ℓ} (W : Type ℓ) : Type ℓ where
  pub matches : List (DriverLoadMatch W)
  pub bids : List (SpotPriceBid W)

-- The first error.
abbrev pub or_else : Option ModelError → Option ModelError → Option ModelError
or_else none other = other
or_else (some e) other = some e

module _ {W : Type 0} where
  abbrev pub match_less : DriverLoadMatch W → DriverLoadMatch W → Bool
  match_less a b =
      if str_eq a.driver_id b.driver_id
      then str_lt a.load_id b.load_id
      else str_lt a.driver_id b.driver_id

  unfoldable pub new_action : List (DriverLoadMatch W) → List (SpotPriceBid W) → Action W
  new_action matches bids = record {
    matches = sort_by match_less matches;
    bids = sort_by (λ a b. str_lt a.load_id b.load_id) bids;
  }

  abbrev pub new_empty_action : Action W
  new_empty_action = record { matches = []; bids = [] }

  unfoldable pub is_empty : Action W → Bool
  is_empty a = (length a.matches == 0) && (length a.bids == 0)

  -- The error of a missing load, or what comes after.
  abbrev pub check_load : Option (Load W) → Option ModelError → Option ModelError
  check_load none rest = some load_not_found
  check_load (some l) rest = rest

  -- The error of a missing or busy driver, or what comes after.
  abbrev pub check_driver : Option (Driver W) → Option ModelError → Option ModelError
  check_driver none rest = some driver_not_found
  check_driver (some d) rest = if not (is_idle d) then some driver_already_assigned else rest

  -- The loop over the matches.
  unfoldable pub validate_matches :
      ResourceState W → Dict Bool → Dict Bool → List (DriverLoadMatch W) → Option ModelError
  validate_matches rs seen_drivers seen_match_loads [] = none
  validate_matches rs seen_drivers seen_match_loads (m ∷ ms) =
      let rest =
        validate_matches rs (insert m.driver_id true seen_drivers)
          (insert m.load_id true seen_match_loads) ms in
      if seen m.driver_id seen_drivers
      then some duplicate_match
      else if seen m.load_id seen_match_loads
      then some duplicate_match
      else check_driver (get_driver rs m.driver_id) (check_load (get_load rs m.load_id) rest)

module _ {W : Type 0} ⦃f : Float W⦄ where
  -- The loop over the bids.
  unfoldable pub validate_bids :
      ResourceState W → Dict Bool → List (SpotPriceBid W) → Option ModelError
  validate_bids rs seen_bid_loads [] = none
  validate_bids rs seen_bid_loads (b ∷ bs) =
      let rest = validate_bids rs (insert b.load_id true seen_bid_loads) bs in
      if seen b.load_id seen_bid_loads
      then some duplicate_bid
      else if f.le b.bid_price f.nought
      then some invalid_bid_price
      else check_load (get_load rs b.load_id) rest

  unfoldable pub validate_feasibility : Action W → Option (ResourceState W) → Option ModelError
  validate_feasibility a none = some nil_resource_state
  validate_feasibility a (some rs) =
      or_else (validate_matches rs [] [] a.matches) (validate_bids rs [] a.bids)
