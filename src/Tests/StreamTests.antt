-- ===== src/Tests/StreamTests.antt =====
-- A buffer that is offered a valid ping, a blank one and a late one.
use project_mittens.Prelude.{ℕ, ◌≡◌, ◌⊎◌, refl, String, none, some, List, [], ◌∷◌, ◌++◌, All}
use project_mittens.Prelude.Int.{pos}
use project_mittens.Prelude.Dict.{lookup, insert}
use project_mittens.Float.{whole}
use project_mittens.Stream.Validation.{
  StreamError, empty_driver_id, EldDriverPingDto, TmsLoadTenderDto, TenderCancelDto,
  validate_driver_ping, is_blank,
}
use project_mittens.Stream.Buffer.{
  StreamBuffer, new_stream_buffer, ingest_driver_ping, ingest_driver_batch, ingest_load_tender,
  cancel_tender,
}
use project_mittens.Stream.Buffer.Reached.{Reached, created, pinged, tendered, cancelled}
use project_mittens.Stream.Buffer.Newest.{IsNewest, Reached-IsNewest}
use project_mittens.Stream.Buffer.Tenders.{Reached-IsExclusive}
use project_mittens.Stream.Buffer.Batches.{ingest_pings, ingest_driver_batch_lem}

abbrev ping : String → ℕ → EldDriverPingDto ℕ
ping id time = record {
  driver_id = id;
  timestamp = pos time;
  lat = 40;
  lon = 70;
  node_id = "";
  drive_hours_remaining = 11;
  duty_hours_remaining = 14;
  pta_epoch = pos 0;
  assigned_load_id = "";
  equipment_type = "";
  endorsements = [];
}

abbrev tender : String → TmsLoadTenderDto ℕ
tender id = record {
  load_id = id;
  timestamp = pos 5;
  origin_node_id = "A";
  origin_lat = 40;
  origin_lon = 70;
  destination_node_id = "B";
  dest_lat = 41;
  dest_lon = 72;
  pickup_earliest_epoch = pos 10;
  pickup_latest_epoch = pos 20;
  delivery_earliest_epoch = pos 30;
  delivery_latest_epoch = pos 40;
  revenue = 900;
  required_equipment = "";
  required_endorsements = [];
}

abbrev pings : List (EldDriverPingDto ℕ)
pings = ping "d" 9 ∷ ping " " 10 ∷ ping "d" 4 ∷ []

abbrev tenders : List (TmsLoadTenderDto ℕ)
tenders = tender "l" ∷ tender "" ∷ []

abbrev empty_buffer : StreamBuffer ℕ
empty_buffer = new_stream_buffer

blank_id : validate_driver_ping (ping " " 10) ≡ some empty_driver_id
unfolding validate_driver_ping is_blank
blank_id = refl

-- The newer ping stays.
late_ping : lookup "d" (ingest_pings (pos 1) empty_buffer pings).driver_pings ≡ some (ping "d" 9)
unfolding ingest_driver_ping validate_driver_ping is_blank lookup insert
late_ping = refl

abbrev built :
    Reached ⦃f = whole⦄
      (ping "d" 4 ∷ ping "d" 9 ∷ [])
      (ingest_driver_ping
        (pos 2)
        (ingest_driver_ping (pos 1) empty_buffer (ping "d" 9)).0
        (ping "d" 4)).0
built = pinged (pos 2) (ping "d" 4) (pinged (pos 1) (ping "d" 9) created)

Reached-IsNewest_example :
    IsNewest "d"
      (lookup "d"
        (ingest_driver_ping
          (pos 2)
          (ingest_driver_ping (pos 1) empty_buffer (ping "d" 9)).0
          (ping "d" 4)).0.driver_pings)
      (ping "d" 4 ∷ ping "d" 9 ∷ [])
Reached-IsNewest_example = Reached-IsNewest _ _ built "d"

abbrev after_late : StreamBuffer ℕ
after_late =
    (ingest_driver_ping (pos 2) (ingest_driver_ping (pos 1) empty_buffer (ping "d" 9)).0
      (ping "d" 4)).0

-- A cancellation, and a tender of the same load after it.
abbrev withdrawn : TenderCancelDto
withdrawn = record { load_id = "l"; reason = ""; timestamp = pos 6 }

abbrev tendered_again : StreamBuffer ℕ
tendered_again =
    (ingest_load_tender (pos 4) (cancel_tender (pos 3) after_late withdrawn).0 (tender "l")).0

Reached-IsExclusive_example :
    (lookup "l" tendered_again.load_tenders ≡ none)
    ⊎ (lookup "l" tendered_again.cancellations ≡ none)
Reached-IsExclusive_example =
    Reached-IsExclusive (ping "d" 4 ∷ ping "d" 9 ∷ []) tendered_again
      (tendered (pos 4) (tender "l") (cancelled (pos 3) withdrawn built)) "l"

ingest_driver_batch_lem_example :
    (All (λ p. validate_driver_ping p ≡ none) pings
      × (ingest_driver_batch (pos 1) empty_buffer pings
          ≡ (ingest_pings (pos 1) empty_buffer pings, none)))
    ⊎ ((before after : List (EldDriverPingDto ℕ)) × (bad : EldDriverPingDto ℕ) × (e : StreamError)
        × (pings ≡ before ++ (bad ∷ after))
        × All (λ p. validate_driver_ping p ≡ none) before
        × (validate_driver_ping bad ≡ some e)
        × (ingest_driver_batch (pos 1) empty_buffer pings
            ≡ (ingest_pings (pos 1) empty_buffer before, some e)))
ingest_driver_batch_lem_example = ingest_driver_batch_lem (pos 1) empty_buffer pings
