-- ===== src/Stream/Buffer.antt =====
-- internal/adapter/stream/buffer.go, `StreamBuffer`. Each method holds the mutex from its first to
-- its last access of the maps, so that it is a function on the buffer's value; the time of the call
-- is an argument.
pub mod Batches
pub mod Reached
pub mod Newest
pub mod Tenders
use project_mittens.Prelude.{
  ℕ, ◌+◌, ◌%◌, ◌^◌, Option, none, some, List, [], ◌∷◌, String, length, if◌then◌else◌,
}
use project_mittens.Prelude.Int.{ℤ, pos, ltb_ℤ}
use project_mittens.Prelude.Dict.{Dict, lookup, insert, erase}
use project_mittens.Float.{Float}
use project_mittens.Stream.Validation.{
  StreamError, empty_load_id, EldDriverPingDto, TmsLoadTenderDto, TenderCancelDto, is_blank,
  validate_driver_ping, validate_load_tender,
}

pub record StreamBuffer {ℓ} (W : Type ℓ) : Type ℓ where
  pub driver_pings : Dict (EldDriverPingDto W)
  pub load_tenders : Dict (TmsLoadTenderDto W)
  pub cancellations : Dict TenderCancelDto
  pub total_pings : ℕ
  pub total_tenders : ℕ
  pub last_ingest : ℤ
  pub last_sync : ℤ

pub record StreamStatusDto : Type 0 where
  pub buffered_driver_pings : ℕ
  pub buffered_tenders_count : ℕ
  pub buffered_cancellations : ℕ
  pub last_ingest_timestamp : ℤ
  pub last_sync_timestamp : ℤ
  pub total_pings_ingested : ℕ
  pub total_tenders_ingested : ℕ

-- `Add(1)` on an `atomic.Uint64`
abbrev pub add_one : ℕ → ℕ
add_one n = (n + 1) % 2 ^ 64

module _ {ℓ} {W : Type ℓ} where
  abbrev pub new_stream_buffer : StreamBuffer W
  new_stream_buffer = record {
    driver_pings = [];
    load_tenders = [];
    cancellations = [];
    total_pings = 0;
    total_tenders = 0;
    last_ingest = pos 0;
    last_sync = pos 0;
  }

  unfoldable pub cancel_tender :
      ℤ → StreamBuffer W → TenderCancelDto → StreamBuffer W × Option StreamError
  cancel_tender now b cancel = if is_blank cancel.load_id then (b, some empty_load_id) else (
    record b {
      load_tenders = erase cancel.load_id b.load_tenders;
      cancellations = insert cancel.load_id cancel b.cancellations;
      last_ingest = now;
    },
    none,
  )

  unfoldable pub status : StreamBuffer W → StreamStatusDto
  status b = record {
    buffered_driver_pings = length b.driver_pings;
    buffered_tenders_count = length b.load_tenders;
    buffered_cancellations = length b.cancellations;
    last_ingest_timestamp = b.last_ingest;
    last_sync_timestamp = b.last_sync;
    total_pings_ingested = b.total_pings;
    total_tenders_ingested = b.total_tenders;
  }

  -- The maps, as they are handed out.
  unfoldable pub snapshot :
      StreamBuffer W → Dict (EldDriverPingDto W) × Dict (TmsLoadTenderDto W) × Dict TenderCancelDto
  snapshot b = (b.driver_pings, b.load_tenders, b.cancellations)

  unfoldable pub drain :
      ℤ
      → StreamBuffer W
      → StreamBuffer W
        × Dict (EldDriverPingDto W)
        × Dict (TmsLoadTenderDto W)
        × Dict TenderCancelDto
  drain now b = (
    record b { driver_pings = []; load_tenders = []; cancellations = []; last_sync = now },
    b.driver_pings,
    b.load_tenders,
    b.cancellations,
  )

module _ {ℓ} {W : Type ℓ} where
  -- The early return on an error, and what is done without one.
  abbrev pub guarded :
      Option StreamError → StreamBuffer W → StreamBuffer W → StreamBuffer W × Option StreamError
  guarded none b after = (after, none)
  guarded (some e) b after = (b, some e)

  -- The early return of a batch.
  abbrev pub stop_at :
      Option StreamError
      → StreamBuffer W
      → StreamBuffer W × Option StreamError
      → StreamBuffer W × Option StreamError
  stop_at none after rest = rest
  stop_at (some e) after rest = (after, some e)

module _ {ℓ} {W : Type ℓ} ⦃f : Float W⦄ where
  -- The write of a valid ping, given the one that is there.
  abbrev pub store_ping :
      EldDriverPingDto W → Option (EldDriverPingDto W) → StreamBuffer W → StreamBuffer W
  store_ping ping none b = record b { driver_pings = insert ping.driver_id ping b.driver_pings }
  store_ping ping (some existing) b =
      if ltb_ℤ ping.timestamp existing.timestamp
      then b
      else record b { driver_pings = insert ping.driver_id ping b.driver_pings }

  unfoldable pub ingest_driver_ping :
      ℤ → StreamBuffer W → EldDriverPingDto W → StreamBuffer W × Option StreamError
  ingest_driver_ping now b ping = guarded (validate_driver_ping ping) b (
      store_ping ping (lookup ping.driver_id b.driver_pings)
        (record b { total_pings = add_one b.total_pings; last_ingest = now }))

  unfoldable pub ingest_driver_batch :
      ℤ → StreamBuffer W → List (EldDriverPingDto W) → StreamBuffer W × Option StreamError
  ingest_driver_batch now b [] = (b, none)
  ingest_driver_batch now b (p ∷ pings) =
      let (after, error) = ingest_driver_ping now b p in
      let rest = ingest_driver_batch now after pings in stop_at error after rest

  unfoldable pub ingest_load_tender :
      ℤ → StreamBuffer W → TmsLoadTenderDto W → StreamBuffer W × Option StreamError
  ingest_load_tender now b tender = guarded (validate_load_tender tender) b (record b {
    cancellations = erase tender.load_id b.cancellations;
    load_tenders = insert tender.load_id tender b.load_tenders;
    total_tenders = add_one b.total_tenders;
    last_ingest = now;
  })

  unfoldable pub ingest_tender_batch :
      ℤ → StreamBuffer W → List (TmsLoadTenderDto W) → StreamBuffer W × Option StreamError
  ingest_tender_batch now b [] = (b, none)
  ingest_tender_batch now b (t ∷ tenders) =
      let (after, error) = ingest_load_tender now b t in
      let rest = ingest_tender_batch now after tenders in stop_at error after rest
