-- ===== src/Hos/Events.antt =====
-- internal/domain/model/hos/events.go, over any type of floats.
use project_mittens.Prelude.{ℕ, Bool, false, true, String, List}
use project_mittens.Prelude.Int.{ℤ}
use project_mittens.Float.{Float}
use project_mittens.Hos.Clocks.{DriverClocks}

pub data EventType : Type 0 where
  drive loading unloading rest hold border_crossing : EventType

pub to_string : EventType → String
to_string drive = "DRIVE"
to_string loading = "LOADING"
to_string unloading = "UNLOADING"
to_string rest = "REST"
to_string hold = "HOLD"
to_string border_crossing = "BORDER_CROSSING"

pub record Event {ℓ} (W : Type ℓ) : Type ℓ where
  pub type : EventType
  pub duration_min : ℤ
  pub distance_miles : W
  pub is_sleeper : Bool
  pub location_id : String
  pub description : String

pub record TimelineEntry {ℓ} (W : Type ℓ) : Type ℓ where
  pub start_time : ℕ
  pub end_time : ℕ
  pub event : Event W
  pub clocks_snapshot : DriverClocks

pub record SimulationResult {ℓ} (W : Type ℓ) : Type ℓ where
  pub initial_clocks : DriverClocks
  pub final_clocks : DriverClocks
  pub timeline : List (TimelineEntry W)
  pub total_duration_min : ℤ
  pub total_drive_min : ℤ
  pub total_rest_min : ℤ
  pub total_duty_min : ℤ
  pub total_distance_miles : W

module _ {ℓ} {W : Type ℓ} ⦃f : Float W⦄ where
  unfoldable pub drive_event : ℤ → W → String → Event W
  drive_event duration_min distance_miles loc_id = record {
    type = drive;
    duration_min = duration_min;
    distance_miles = distance_miles;
    is_sleeper = false;
    location_id = loc_id;
    description = "Commercial Driving";
  }

  unfoldable pub loading_event : ℤ → String → Event W
  loading_event duration_min loc_id = record {
    type = loading;
    duration_min = duration_min;
    distance_miles = f.nought;
    is_sleeper = false;
    location_id = loc_id;
    description = "Freight Loading";
  }

  unfoldable pub unloading_event : ℤ → String → Event W
  unloading_event duration_min loc_id = record {
    type = unloading;
    duration_min = duration_min;
    distance_miles = f.nought;
    is_sleeper = false;
    location_id = loc_id;
    description = "Freight Unloading";
  }

  unfoldable pub rest_event : ℤ → Bool → String → Event W
  rest_event duration_min is_sleeper loc_id = record {
    type = rest;
    duration_min = duration_min;
    distance_miles = f.nought;
    is_sleeper = is_sleeper;
    location_id = loc_id;
    description = elim is_sleeper [ true ↦ "Sleeper Berth Rest" | false ↦ "Off-Duty Rest" ];
  }

  unfoldable pub hold_event : ℤ → String → Event W
  hold_event duration_min loc_id = record {
    type = hold;
    duration_min = duration_min;
    distance_miles = f.nought;
    is_sleeper = false;
    location_id = loc_id;
    description = "Facility Hold";
  }

  unfoldable pub border_crossing_event : ℤ → String → Event W
  border_crossing_event duration_min loc_id = record {
    type = border_crossing;
    duration_min = duration_min;
    distance_miles = f.nought;
    is_sleeper = false;
    location_id = loc_id;
    description = "Border Crossing";
  }
