-- ===== src/Fleet/Resource.antt =====
-- internal/domain/model/resource.go: locations, drivers, loads and `ResourceState`.
pub mod Lookup
use project_mittens.Prelude.{
  ℕ, ◌&&◌, Bool, String, Option, none, some, List, [], if◌then◌else◌, length,
}
use project_mittens.Prelude.Int.{ℤ, pos}
use project_mittens.Prelude.Dict.{Dict, str_eq}
use project_mittens.Prelude.Keyed.{index_from, fetch}
use project_mittens.Prelude.Sorting.{str_lt, sort_by}
use project_mittens.Float.{Float}
use project_mittens.Hos.Specs.{PolicySpecs}
use project_mittens.Hos.Clocks.{DriverClocks}

pub data ModelError : Type 0 where
  driver_not_found load_not_found driver_already_assigned duplicate_match : ModelError
  invalid_bid_price duplicate_bid nil_resource_state : ModelError

pub record Location {ℓ} (W : Type ℓ) : Type ℓ where
  pub node_id : String
  pub lat : W
  pub lon : W

pub record Equipment : Type 0 where
  pub type : String
  pub endorsements : List String

pub record Driver {ℓ} (W : Type ℓ) : Type ℓ where
  pub id : String
  pub current_location : Location W
  pub home_location : Location W
  pub available_epoch : ℤ
  pub duty_hours_remaining : W
  pub drive_hours_remaining : W
  pub assigned_load_id : String
  pub equipment : Equipment
  pub endorsements : List String
  pub clocks : Option DriverClocks
  pub policy_specs : PolicySpecs

pub record Load {ℓ} (W : Type ℓ) : Type ℓ where
  pub id : String
  pub origin : Location W
  pub destination : Location W
  pub pickup_earliest_epoch : ℤ
  pub pickup_latest_epoch : ℤ
  pub delivery_earliest_epoch : ℤ
  pub delivery_latest_epoch : ℤ
  pub required_equipment : String
  pub required_endorsements : List String
  pub revenue : W
  pub estimated_transit_epochs : ℤ

pub record DriverLoadMatch {ℓ} (W : Type ℓ) : Type ℓ where
  pub driver_id : String
  pub load_id : String
  pub dispatch_epoch : ℤ
  pub estimated_contribution : W

-- A value; a deep copy of one is the same value.
pub record ResourceState (W : Type 0) : Type 0 where
  pub drivers : List (Driver W)
  pub loads : List (Load W)
  pub driver_index : Dict ℕ
  pub load_index : Dict ℕ

module _ {W : Type 0} ⦃f : Float W⦄ where
  -- The mean radius of the Earth is 3958.8 miles.
  pub distance_miles : Location W → Location W → W
  distance_miles l other =
      if f.eq l.lat other.lat && f.eq l.lon other.lon
      then f.nought
      else let rad = λ (x : W). f.mul x (f.div f.pi (f.lit 180 0)) in
        let half = λ (x : W). f.div x (f.lit 2 0) in
        let s_lat = f.sin (half (f.sub (rad other.lat) (rad l.lat))) in
        let s_lon = f.sin (half (f.sub (rad other.lon) (rad l.lon))) in
        let a =
          f.add (f.mul s_lat s_lat)
            (f.mul (f.mul (f.mul (f.cos (rad l.lat)) (f.cos (rad other.lat))) s_lon) s_lon) in
        let c = f.mul (f.lit 2 0) (f.atan2 (f.sqrt a) (f.sqrt (f.sub (f.lit 1 0) a))) in
        f.mul (f.lit 39588 1) c

module _ {W : Type 0} where
  abbrev pub is_idle : Driver W → Bool
  is_idle d = str_eq d.assigned_load_id ""

  unfoldable pub new_resource_state : List (Driver W) → List (Load W) → ResourceState W
  new_resource_state drivers loads =
      let ds = sort_by (λ a b. str_lt a.id b.id) drivers in
      let ls = sort_by (λ a b. str_lt a.id b.id) loads in
      record {
        drivers = ds;
        loads = ls;
        driver_index = index_from (λ d. d.id) 0 ds [];
        load_index = index_from (λ l. l.id) 0 ls [];
      }

  unfoldable pub driver_count : ResourceState W → ℕ
  driver_count rs = length rs.drivers

  unfoldable pub load_count : ResourceState W → ℕ
  load_count rs = length rs.loads

  unfoldable pub get_driver : ResourceState W → String → Option (Driver W)
  get_driver rs id = fetch (λ d. d.id) rs.driver_index rs.drivers id

  unfoldable pub get_load : ResourceState W → String → Option (Load W)
  get_load rs id = fetch (λ l. l.id) rs.load_index rs.loads id
