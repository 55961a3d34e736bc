-- ===== src/Stream/Buffer/Tenders.antt =====
-- The tenders and cancellations of one load.
use project_mittens.Prelude.{
  ◌≡◌, ◌⊎◌, refl, inl, inr, String, Option, none, some, List, Option-cases, Bool-cases, arith,
}
use project_mittens.Prelude.Int.{ℤ, ltb_ℤ}
use project_mittens.Prelude.Dict.{lookup, lookup-insert, lookup-erase}
use project_mittens.Float.{Float}
use project_mittens.Stream.Validation.{
  EldDriverPingDto, TmsLoadTenderDto, TenderCancelDto, is_blank, validate_driver_ping,
  validate_load_tender,
}
use project_mittens.Stream.Buffer.{
  StreamBuffer, add_one, store_ping, ingest_driver_ping, ingest_load_tender, cancel_tender, drain,
}
use project_mittens.Stream.Buffer.Reached.{Reached, created, pinged, tendered, cancelled, drained}
use project_mittens.Stream.Buffer.Batches.{ping-refused, tender-refused}

module _ {W : Type 0} ⦃f : Float W⦄ where
  -- No load is both tendered and cancelled.
  abbrev pub IsExclusive : StreamBuffer W → Type 0
  IsExclusive b =
      (id : String) → (lookup id b.load_tenders ≡ none) ⊎ (lookup id b.cancellations ≡ none)

  store_ping-IsExclusive :
      (p : EldDriverPingDto W) (o : Option (EldDriverPingDto W)) (b : StreamBuffer W)
      → IsExclusive b
      → IsExclusive (store_ping p o b)
  store_ping-IsExclusive p none b x = x
  store_ping-IsExclusive p (some old) b x = elim (Bool-cases (ltb_ℤ p.timestamp old.timestamp)) [
    | inl e ↦ rw e x
    | inr e ↦ rw e x
  ]

  ping-IsExclusive :
      (now : ℤ) (b : StreamBuffer W) (p : EldDriverPingDto W)
      → IsExclusive b
      → IsExclusive (ingest_driver_ping now b p).0
  unfolding ingest_driver_ping
  ping-IsExclusive now b p x = elim (Option-cases (validate_driver_ping p)) [
    | inr (e, v) ↦ rw (ping-refused now b p e v) x
    | inl v ↦
        rw (v, ingest_driver_ping)
          (store_ping-IsExclusive p (lookup p.driver_id b.driver_pings)
            (record b { total_pings = add_one b.total_pings; last_ingest = now }) x)
  ]

  tender-IsExclusive :
      (now : ℤ) (b : StreamBuffer W) (t : TmsLoadTenderDto W)
      → IsExclusive b
      → IsExclusive (ingest_load_tender now b t).0
  unfolding ingest_load_tender
  tender-IsExclusive now b t x = elim (Option-cases (validate_load_tender t)) [
    | inr (e, v) ↦ rw (tender-refused now b t e v) x
    | inl v ↦ λ id.
        rw (v, ingest_load_tender)
          (ground (
            arith,
            x id,
            lookup-insert t.load_id id t b.load_tenders,
            lookup-erase t.load_id id b.cancellations,
          ))
  ]

  cancel-IsExclusive :
      (now : ℤ) (b : StreamBuffer W) (c : TenderCancelDto)
      → IsExclusive b
      → IsExclusive (cancel_tender now b c).0
  unfolding cancel_tender
  cancel-IsExclusive now b c x id = elim (Bool-cases (is_blank c.load_id)) [
    | inl e ↦ rw e (x id)
    | inr e ↦ rw e (
        ground (
          arith,
          x id,
          lookup-insert c.load_id id c b.cancellations,
          lookup-erase c.load_id id b.load_tenders,
        ))
  ]

  -- Whatever the order of the operations, no load is at once among the buffered tenders and among
  -- the buffered cancellations.
  pub Reached-IsExclusive :
      (hist : List (EldDriverPingDto W)) (b : StreamBuffer W) → Reached hist b → IsExclusive b
  unfolding lookup drain
  Reached-IsExclusive hist b created = λ id. inl refl
  Reached-IsExclusive hist b (pinged {hist = old} {b = c} now p r) =
      ping-IsExclusive now c p (Reached-IsExclusive old c r)
  Reached-IsExclusive hist b (tendered {b = c} now t r) =
      tender-IsExclusive now c t (Reached-IsExclusive hist c r)
  Reached-IsExclusive hist b (cancelled {b = c} now x r) =
      cancel-IsExclusive now c x (Reached-IsExclusive hist c r)
  Reached-IsExclusive hist b (drained old now r) = λ id. inl refl
