-- ===== src/Tests/SyncTests.antt =====
-- A synchronization with a known driver, a new one, a tender and a cancellation.
use project_mittens.Prelude.{ℕ, ◌≡◌, String, Option, some, [], ◌∷◌, arith, ◌*◌}
use text.Mathlib.TextEquality.{eq_iff}
use project_mittens.Prelude.Int.{pos}
use project_mittens.Prelude.Dict.{Dict, lookup}
use project_mittens.Prelude.Seen.{Distinct}
use project_mittens.Float.{whole}
use project_mittens.Hos.Specs.{us_policy_specs}
use project_mittens.Hos.Clocks.{new_driver_clocks, minute}
use project_mittens.Fleet.Resource.{
  Location, Driver, Load, DriverLoadMatch, ResourceState, new_resource_state,
}
use project_mittens.Fleet.Transition.{dispatched}
use project_mittens.Stream.Validation.{EldDriverPingDto, TmsLoadTenderDto, TenderCancelDto}
use project_mittens.Stream.Synchronizer.{updated_driver, discovered_driver, new_load}
use project_mittens.Stream.Synchronizer.Run.{
  merge, driver_map_of, load_map_of, drivers_in, loads_in,
}
use project_mittens.Stream.Synchronizer.Merge.{keys, driver_after, tender_or, unless, merge_lem}
use project_mittens.Stream.Synchronizer.Frozen.{synchronized-clocks}

-- Codes that are in upper case already.
abbrev same_case : String → String
same_case s = s

abbrev place : Location ℕ
place = record { node_id = "A"; lat = 40; lon = 70 }

abbrev known : Driver ℕ
known = record {
  id = "d1";
  current_location = place;
  home_location = place;
  available_epoch = pos 0;
  duty_hours_remaining = 14;
  drive_hours_remaining = 11;
  assigned_load_id = "";
  equipment = record { type = "VAN_53"; endorsements = [] };
  endorsements = [];
  clocks = some (new_driver_clocks us_policy_specs (1000 * minute));
  policy_specs = us_policy_specs;
}

abbrev ping_of : String → EldDriverPingDto ℕ
ping_of id = record {
  driver_id = id;
  timestamp = pos 9;
  lat = 41;
  lon = 71;
  node_id = "";
  drive_hours_remaining = 6;
  duty_hours_remaining = 8;
  pta_epoch = pos 0;
  assigned_load_id = "";
  equipment_type = "R";
  endorsements = [];
}

abbrev tender_of : String → TmsLoadTenderDto ℕ
tender_of id = record {
  load_id = id;
  timestamp = pos 5;
  origin_node_id = "A";
  origin_lat = 40;
  origin_lon = 70;
  destination_node_id = "";
  dest_lat = 41;
  dest_lon = 72;
  pickup_earliest_epoch = pos 10;
  pickup_latest_epoch = pos 20;
  delivery_earliest_epoch = pos 30;
  delivery_latest_epoch = pos 40;
  revenue = 900;
  required_equipment = "";
  required_endorsements = [];
}

abbrev base : Option (ResourceState ℕ)
base = some (new_resource_state (known ∷ []) (new_load same_case "l1" (tender_of "l1") ∷ []))

abbrev received : Dict (EldDriverPingDto ℕ)
received = ("d1", ping_of "d1") ∷ ("d9", ping_of "d9") ∷ []

abbrev tendered_loads : Dict (TmsLoadTenderDto ℕ)
tendered_loads = ("l5", tender_of "l5") ∷ []

abbrev cancels : Dict TenderCancelDto
cancels = ("l1", record { load_id = "l1"; reason = ""; timestamp = pos 6 }) ∷ []

received-Distinct : Distinct (keys received)
received-Distinct = (((λ e. ground (arith, eq_iff "d1" "d9")), tt), (tt, tt))

merge_lem_example :
    (lookup "d9" (merge same_case (pos 7) (pos 3) base received tendered_loads cancels).driver_map
      ≡ driver_after same_case
          (pos 7)
          (pos 3)
          "d9"
          (lookup "d9" received)
          (lookup "d9" (driver_map_of (drivers_in base) [])))
    × (lookup "d9" (merge same_case (pos 7) (pos 3) base received tendered_loads cancels).load_map
        ≡ tender_or same_case "d9"
            (lookup "d9" tendered_loads)
            (unless (lookup "d9" cancels) (lookup "d9" (load_map_of (loads_in base) []))))
merge_lem_example =
    merge_lem same_case (pos 7) (pos 3) base received tendered_loads cancels "d9" received-Distinct
      (tt, tt)

abbrev dispatch_match : DriverLoadMatch ℕ
dispatch_match = record {
  driver_id = "d1";
  load_id = "l5";
  dispatch_epoch = pos 3;
  estimated_contribution = 400;
}

abbrev tendered_load : Load ℕ
tendered_load = new_load same_case "l5" (tender_of "l5")

synchronized-clocks_example :
    ((dispatched dispatch_match tendered_load
        (updated_driver same_case (pos 3) known (ping_of "d1"))).clocks
      ≡ known.clocks)
    × ((dispatched dispatch_match tendered_load
          (discovered_driver same_case (pos 7) (pos 3) "d1" (ping_of "d1"))).clocks
        ≡ (discovered_driver same_case (pos 7) (pos 3) "d1" (ping_of "d1")).clocks)
synchronized-clocks_example =
    synchronized-clocks same_case (pos 7) (pos 3) known (ping_of "d1") dispatch_match tendered_load
