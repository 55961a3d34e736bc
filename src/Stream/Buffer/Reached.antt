-- ===== src/Stream/Buffer/Reached.antt =====
-- The buffers that sequences of operations build, in any order.
use project_mittens.Prelude.{List, [], ◌∷◌}
use project_mittens.Prelude.Int.{ℤ}
use project_mittens.Float.{Float}
use project_mittens.Stream.Validation.{EldDriverPingDto, TmsLoadTenderDto, TenderCancelDto}
use project_mittens.Stream.Buffer.{
  StreamBuffer, new_stream_buffer, ingest_driver_ping, ingest_load_tender, cancel_tender, drain,
}

module _ {W : Type 0} ⦃f : Float W⦄ where
  -- The buffers that the operations build, each with the pings that have been offered to it since
  -- it was last drained, the last one first.
  pub data Reached : List (EldDriverPingDto W) → StreamBuffer W → Type 0 where
    created : Reached [] new_stream_buffer
    pinged :
        {hist : List (EldDriverPingDto W)} {b : StreamBuffer W} (now : ℤ) (p : EldDriverPingDto W)
        → Reached hist b
        → Reached (p ∷ hist) (ingest_driver_ping now b p).0
    tendered :
        {hist : List (EldDriverPingDto W)} {b : StreamBuffer W} (now : ℤ) (t : TmsLoadTenderDto W)
        → Reached hist b
        → Reached hist (ingest_load_tender now b t).0
    cancelled :
        {hist : List (EldDriverPingDto W)} {b : StreamBuffer W} (now : ℤ) (c : TenderCancelDto)
        → Reached hist b
        → Reached hist (cancel_tender now b c).0
    drained :
        (hist : List (EldDriverPingDto W)) {b : StreamBuffer W} (now : ℤ)
        → Reached hist b
        → Reached [] (drain now b).0
