-- ===== src/Stream/Synchronizer.antt =====
-- internal/adapter/stream/synchronizer.go. `strings.ToUpper`, which goes by the tables of Unicode, is
-- a parameter. This file makes drivers and loads of what was received.
pub mod Run
pub mod Merge
pub mod Frozen
use Prim.Native.String.{◌++◌ as joined}
use project_mittens.Prelude.{
  ℕ, suc, ◌+◌, ◌-◌, ◌*◌, Bool, true, false, not, ◌&&◌, ◌||◌, String, Option, none, some, List, [],
  ◌∷◌, map, length, if◌then◌else◌, ◌==◌,
}
use project_mittens.Prelude.Int.{ℤ, pos, negsuc, ltb_ℤ, leb_ℤ}
use project_mittens.Prelude.Dict.{Dict, lookup, insert, erase, str_eq}
use project_mittens.Prelude.Sorting.{str_lt, sort_by}
use project_mittens.Float.{Float}
use project_mittens.Hos.Specs.{PolicySpecs, us_policy_specs}
use project_mittens.Hos.Clocks.{new_driver_clocks}
use project_mittens.Fleet.Resource.{
  Location, Equipment, Driver, Load, ResourceState, new_resource_state,
}
use project_mittens.Stream.Validation.{
  EldDriverPingDto, TmsLoadTenderDto, TenderCancelDto, is_blank,
}
use project_mittens.Stream.Buffer.{StreamBuffer, drain}

pub record SyncReport : Type 0 where
  pub drivers_updated : ℕ
  pub drivers_added : ℕ
  pub loads_added : ℕ
  pub loads_canceled : ℕ
  pub total_drivers : ℕ
  pub total_loads : ℕ
  pub sync_timestamp : ℤ

-- The policy of a driver for whom none is written: the zero value.
abbrev pub no_policy_specs : PolicySpecs
no_policy_specs = record {
  name = "";
  rest_break_min = 0;
  daily_reset_min = 0;
  weekly_reset_min = 0;
  max_hygiene_min = 0;
  max_driving_min = 0;
  max_shift_min = 0;
  max_cycle_min = 0;
  cycle_length_days = 0;
  min_sleeper_berth_break_min = 0;
  min_sleeper_berth_reset_min = 0;
  adverse_conditions_extension_min = 0;
}

-- `time.Unix(s, 0)`, after Go's zero time.
abbrev pub unix : ℤ → ℕ
unix (pos s) = (62_135_596_800 + s) * 1_000_000_000
unix (negsuc s) = (62_135_596_800 - suc s) * 1_000_000_000

-- `strings.TrimSpace`: the spaces at the end, and at the start.
abbrev pub trim_end : String → String
trim_end String.[] = String.[]
trim_end (String.◌∷◌ c s) =
    let rest = trim_end s in if is_blank (String.◌∷◌ c s) then String.[] else String.◌∷◌ c rest

abbrev pub trim_start : String → String
trim_start String.[] = String.[]
trim_start (String.◌∷◌ c s) =
    let rest = trim_start s in if is_blank (String.◌∷◌ c String.[]) then rest else String.◌∷◌ c s

abbrev pub trim_space : String → String
trim_space s = trim_end (trim_start s)

abbrev pub or_name : String → String → String
or_name given other = if str_eq given "" then other else given

module _ (upper : String → String) where
  abbrev pub code_of : String → String
  code_of s = upper (trim_space s)

  pub parse_equipment : String → String
  parse_equipment eq_str =
      let code = code_of eq_str in
      if str_eq code "REEFER" || str_eq code "REEFER_53" || str_eq code "R"
      then "REEFER_53"
      else if str_eq code "FLATBED" || str_eq code "FLATBED_53" || str_eq code "FB"
      then "FLATBED_53"
      else if str_eq code "TANKER"
      then "TANKER"
      else "VAN_53"

  module _ {W : Type 0} ⦃f : Float W⦄ where
    abbrev pub place_name : String → W → W → String
    place_name prefix lat lon = joined prefix (joined (f.fixed 4 lat) (joined "_" (f.fixed 4 lon)))

    -- A known driver after a ping. No policy is written.
    unfoldable pub updated_driver : ℤ → Driver W → EldDriverPingDto W → Driver W
    updated_driver current_epoch existing ping = record {
      id = existing.id;
      current_location = record {
        node_id = or_name ping.node_id existing.current_location.node_id;
        lat = ping.lat;
        lon = ping.lon;
      };
      home_location = existing.home_location;
      available_epoch =
          if ltb_ℤ (pos 0) ping.pta_epoch
          then ping.pta_epoch
          else if ltb_ℤ (pos 0) current_epoch && ltb_ℤ existing.available_epoch current_epoch
          then current_epoch
          else existing.available_epoch;
      duty_hours_remaining = ping.duty_hours_remaining;
      drive_hours_remaining = ping.drive_hours_remaining;
      assigned_load_id = or_name ping.assigned_load_id existing.assigned_load_id;
      equipment =
          if str_eq ping.equipment_type ""
          then existing.equipment
          else record { type = parse_equipment ping.equipment_type; endorsements = [] };
      endorsements =
          if length ping.endorsements == 0
          then existing.endorsements
          else map code_of ping.endorsements;
      clocks = existing.clocks;
      policy_specs = no_policy_specs;
    }

    -- A driver whom the telemetry shows first. No policy is written.
    unfoldable pub discovered_driver : ℤ → ℤ → String → EldDriverPingDto W → Driver W
    discovered_driver now current_epoch driver_id ping =
        let loc : Location W = record {
          node_id = or_name ping.node_id (place_name "GPS_" ping.lat ping.lon);
          lat = ping.lat;
          lon = ping.lon;
        } in
        let avail = if leb_ℤ ping.pta_epoch (pos 0) then current_epoch else ping.pta_epoch in
        let avail = if leb_ℤ avail (pos 0) then now else avail in
        record {
          id = driver_id;
          current_location = loc;
          home_location = loc;
          available_epoch = avail;
          duty_hours_remaining = ping.duty_hours_remaining;
          drive_hours_remaining = ping.drive_hours_remaining;
          assigned_load_id = ping.assigned_load_id;
          equipment = record { type = parse_equipment ping.equipment_type; endorsements = [] };
          endorsements = map code_of ping.endorsements;
          clocks = some (new_driver_clocks us_policy_specs (unix avail));
          policy_specs = no_policy_specs;
        }

    unfoldable pub new_load : String → TmsLoadTenderDto W → Load W
    new_load load_id tender = record {
      id = load_id;
      origin = record {
        node_id =
            or_name tender.origin_node_id (place_name "ORIG_" tender.origin_lat tender.origin_lon);
        lat = tender.origin_lat;
        lon = tender.origin_lon;
      };
      destination = record {
        node_id =
            or_name tender.destination_node_id (place_name "DEST_" tender.dest_lat tender.dest_lon);
        lat = tender.dest_lat;
        lon = tender.dest_lon;
      };
      pickup_earliest_epoch = tender.pickup_earliest_epoch;
      pickup_latest_epoch = tender.pickup_latest_epoch;
      delivery_earliest_epoch = tender.delivery_earliest_epoch;
      delivery_latest_epoch = tender.delivery_latest_epoch;
      required_equipment = parse_equipment tender.required_equipment;
      required_endorsements = map code_of tender.required_endorsements;
      revenue = tender.revenue;
      estimated_transit_epochs = pos 0;
    }
