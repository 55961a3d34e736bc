-- ===== src/Tests/FleetTests.antt =====
-- Two drivers, two loads and a match of the first ones.
use text.Mathlib.TextEquality.{eq_iff}
use project_mittens.Prelude.{
  ℕ, ◌*◌, ◌≡◌, ◌↔◌, refl, Bool, true, String, none, some, List, [], ◌∷◌, ◌++◌, All, Has, inl, inr,
  arith,
}
use project_mittens.Prelude.Int.{pos}
use project_mittens.Prelude.Result.{ok, err}
use project_mittens.Prelude.Dict.{Dict, str_eq, insert, lookup}
use project_mittens.Prelude.Keyed.{index_from}
use project_mittens.Prelude.Sorting.{sort_by, insert_sorted}
use project_mittens.Float.{whole}
use project_mittens.Hos.Specs.{us_policy_specs}
use project_mittens.Hos.Clocks.{new_driver_clocks, minute}
use project_mittens.Fleet.Resource.{
  Location, Equipment, Driver, Load, DriverLoadMatch, ResourceState, duplicate_match,
  new_resource_state, get_driver, get_load,
}
use project_mittens.Fleet.Action.{Action, validate_matches, validate_bids, validate_feasibility}
use project_mittens.Fleet.Action.Feasible.{IsFeasible, drivers_of, validate_feasibility_lem}
use project_mittens.Fleet.Transition.{check_matches, unmatched, dispatch_matches, transition}
use project_mittens.Hos.Clocks.Bounds.{new_driver_clocks-IsSound}
use project_mittens.Fleet.Equipment.{can_handle}
use project_mittens.Fleet.Equipment.Handling.{Suits, Endorsed, can_handle_lem}
use project_mittens.Fleet.Transition.Safety.{IsSafe, transition-IsSafe}
use project_mittens.Fleet.Transition.Drivers.{transition-IsDispatched, transition-undispatched}
use project_mittens.Fleet.Transition.Dispatched.{IsDispatched}
use project_mittens.Fleet.Transition.Refusals.{transition-validate_feasibility}
use project_mittens.Fleet.Transition.Effect.{IsEffect, transition-IsEffect}

abbrev pub place : String → Location ℕ
place id = record { node_id = id; lat = 40; lon = 70 }

abbrev pub driver : String → Driver ℕ
driver id = record {
  id = id;
  current_location = place "A";
  home_location = place "A";
  available_epoch = pos 0;
  duty_hours_remaining = 14;
  drive_hours_remaining = 11;
  assigned_load_id = "";
  equipment = record { type = "VAN_53"; endorsements = [] };
  endorsements = [];
  clocks = some (new_driver_clocks us_policy_specs (1000 * minute));
  policy_specs = us_policy_specs;
}

abbrev pub load : String → Load ℕ
load id = record {
  id = id;
  origin = place "A";
  destination = place "B";
  pickup_earliest_epoch = pos 0;
  pickup_latest_epoch = pos 9;
  delivery_earliest_epoch = pos 0;
  delivery_latest_epoch = pos 90;
  required_equipment = "";
  required_endorsements = [];
  revenue = 900;
  estimated_transit_epochs = pos 5;
}

abbrev pub drivers : List (Driver ℕ)
drivers = driver "d2" ∷ driver "d1" ∷ []

abbrev pub loads : List (Load ℕ)
loads = load "l1" ∷ load "l2" ∷ []

abbrev pub network : ResourceState ℕ
network = new_resource_state drivers loads

abbrev match : String → String → DriverLoadMatch ℕ
match d l = record {
  driver_id = d;
  load_id = l;
  dispatch_epoch = pos 3;
  estimated_contribution = 400;
}

abbrev matches : List (DriverLoadMatch ℕ)
matches = match "d1" "l1" ∷ []

abbrev action : Action ℕ
action = record { matches = matches; bids = record { load_id = "l2"; bid_price = 700 } ∷ [] }

validate_feasibility_lem_example :
    (validate_feasibility action (some network) ≡ none) ↔ IsFeasible network action
validate_feasibility_lem_example = validate_feasibility_lem network action

-- The action above is feasible.
action_feasible : validate_feasibility action (some network) ≡ none
unfolding validate_feasibility validate_matches validate_bids get_driver get_load new_resource_state
    index_from sort_by insert_sorted lookup insert
action_feasible = refl

transition-validate_feasibility_example :
    (transition network (matches ++ matches) [] ≡ err duplicate_match) ↔ (
      validate_feasibility (record { matches = matches ++ matches; bids = [] }) (some network)
      ≡ some duplicate_match)
transition-validate_feasibility_example =
    transition-validate_feasibility network (matches ++ matches) [] duplicate_match

abbrev taken : Dict Bool
taken = ("l1", true) ∷ []

abbrev afterwards : ResourceState ℕ
afterwards =
    new_resource_state (dispatch_matches network matches network.drivers)
      (unmatched taken network.loads ++ (load "l3" ∷ []))

carried : transition network matches (load "l3" ∷ []) ≡ ok afterwards
unfolding transition check_matches get_driver get_load new_resource_state index_from sort_by
    insert_sorted lookup insert
carried = refl

transition-IsEffect_example : IsEffect network matches (load "l3" ∷ []) afterwards
transition-IsEffect_example =
    transition-IsEffect network afterwards matches (load "l3" ∷ []) carried

transition-IsDispatched_example :
    (d : Driver ℕ) × (l : Load ℕ) × (get_driver network "d1" ≡ some d)
    × (get_load network "l1" ≡ some l)
    × (after : Driver ℕ) × Has after afterwards.drivers
    × IsDispatched (match "d1" "l1") l d after
transition-IsDispatched_example =
    transition-IsDispatched drivers loads afterwards matches (load "l3" ∷ []) (match "d1" "l1")
      carried (inl refl)

d2_kept : Has (driver "d2") network.drivers
unfolding new_resource_state sort_by insert_sorted
d2_kept = inr (inl refl)

d2_unmatched : ¬ (Has "d2" (drivers_of matches))
d2_unmatched (inl e) = ground (arith, eq_iff "d1" "d2")
d2_unmatched (inr h) = h

transition-undispatched_example : Has (driver "d2") afterwards.drivers
transition-undispatched_example =
    transition-undispatched drivers loads afterwards matches (load "l3" ∷ []) (driver "d2") carried
      d2_kept d2_unmatched

network-IsSafe : All IsSafe network.drivers
unfolding new_resource_state sort_by insert_sorted
network-IsSafe = (
  new_driver_clocks-IsSound us_policy_specs (1000 * minute),
  (new_driver_clocks-IsSound us_policy_specs (1000 * minute), tt),
)

transition-IsSafe_example : All IsSafe afterwards.drivers
transition-IsSafe_example =
    transition-IsSafe network afterwards matches (load "l3" ∷ []) network-IsSafe carried

-- A reefer, which may haul dry freight.
abbrev reefer : Equipment
reefer = record { type = "REEFER_53"; endorsements = "HAZMAT" ∷ [] }

can_handle_lem_example :
    (can_handle str_eq reefer "VAN_53" ("HAZMAT" ∷ []) ≡ true)
    ↔ (Suits reefer "VAN_53" × All (Endorsed str_eq reefer) ("HAZMAT" ∷ []))
can_handle_lem_example = can_handle_lem str_eq reefer "VAN_53" ("HAZMAT" ∷ [])
