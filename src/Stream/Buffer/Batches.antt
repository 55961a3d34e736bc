-- ===== src/Stream/Buffer/Batches.antt =====
-- What a batch does: the ingests one by one, up to the first error.
use project_mittens.Prelude.{
  ◌≡◌, ◌⊎◌, refl, inl, inr, ap, Option, none, some, List, [], ◌∷◌, ◌++◌, All, Option-cases,
}
use project_mittens.Prelude.Int.{ℤ}
use project_mittens.Float.{Float}
use project_mittens.Stream.Validation.{
  StreamError, EldDriverPingDto, TmsLoadTenderDto, validate_driver_ping, validate_load_tender,
}
use project_mittens.Stream.Buffer.{
  StreamBuffer, guarded, ingest_driver_ping, ingest_driver_batch, ingest_load_tender,
  ingest_tender_batch,
}

module _ {W : Type 0} ⦃f : Float W⦄ where
  -- The ingests in turn, whatever errors they answer.
  abbrev pub ingest_pings : ℤ → StreamBuffer W → List (EldDriverPingDto W) → StreamBuffer W
  ingest_pings now b [] = b
  ingest_pings now b (p ∷ ps) = ingest_pings now (ingest_driver_ping now b p).0 ps

  abbrev pub ingest_tenders : ℤ → StreamBuffer W → List (TmsLoadTenderDto W) → StreamBuffer W
  ingest_tenders now b [] = b
  ingest_tenders now b (t ∷ ts) = ingest_tenders now (ingest_load_tender now b t).0 ts

  guarded-error : (o : Option StreamError) (b after : StreamBuffer W) → (guarded o b after).1 ≡ o
  guarded-error none b after = refl
  guarded-error (some e) b after = refl

  ping-error :
      (now : ℤ) (b : StreamBuffer W) (p : EldDriverPingDto W)
      → (ingest_driver_ping now b p).1 ≡ validate_driver_ping p
  unfolding ingest_driver_ping
  ping-error now b p = guarded-error (validate_driver_ping p) b _

  tender-error :
      (now : ℤ) (b : StreamBuffer W) (t : TmsLoadTenderDto W)
      → (ingest_load_tender now b t).1 ≡ validate_load_tender t
  unfolding ingest_load_tender
  tender-error now b t = guarded-error (validate_load_tender t) b _

  -- A refused item changes nothing.
  pub ping-refused :
      (now : ℤ) (b : StreamBuffer W) (p : EldDriverPingDto W) (e : StreamError)
      → validate_driver_ping p ≡ some e
      → (ingest_driver_ping now b p).0 ≡ b
  unfolding ingest_driver_ping
  ping-refused now b p e h = rw (h, ingest_driver_ping) refl

  pub tender-refused :
      (now : ℤ) (b : StreamBuffer W) (t : TmsLoadTenderDto W) (e : StreamError)
      → validate_load_tender t ≡ some e
      → (ingest_load_tender now b t).0 ≡ b
  unfolding ingest_load_tender
  tender-refused now b t e h = rw (h, ingest_load_tender) refl

  -- A batch of pings in which all are valid ingests them all. Any other batch answers the error of
  -- the first one that is not, and leaves those before it in the buffer.
  pub ingest_driver_batch_lem :
      (now : ℤ) (b : StreamBuffer W) (pings : List (EldDriverPingDto W))
      → (All (λ p. validate_driver_ping p ≡ none) pings
          × (ingest_driver_batch now b pings ≡ (ingest_pings now b pings, none)))
        ⊎ ((before after : List (EldDriverPingDto W)) × (bad : EldDriverPingDto W)
            × (e : StreamError) × (pings ≡ before ++ (bad ∷ after))
            × All (λ p. validate_driver_ping p ≡ none) before
            × (validate_driver_ping bad ≡ some e)
            × (ingest_driver_batch now b pings ≡ (ingest_pings now b before, some e)))
  unfolding ingest_driver_batch
  ingest_driver_batch_lem now b [] = inl (tt, refl)
  ingest_driver_batch_lem now b (p ∷ ps) = elim (Option-cases (validate_driver_ping p)) [
    | inr (e, v) ↦
        inr ([], ps, p, e, refl, tt, v, rw (ping-error now b p, v, ping-refused now b p e v) refl)
    | inl v ↦ elim (ingest_driver_batch_lem now (ingest_driver_ping now b p).0 ps) [
      | inl (vs, q) ↦ inl ((v, vs), rw (ping-error now b p, v, q) refl)
      | inr (before, after, bad, e, s, vs, w, q) ↦ inr (
        p ∷ before,
        after,
        bad,
        e,
        ap (λ xs. p ∷ xs) s,
        (v, vs),
        w,
        rw (ping-error now b p, v, q) refl,
      )
    ]
  ]

  -- A batch of tenders in which all are valid ingests them all. Any other batch answers the error of
  -- the first one that is not, and leaves those before it in the buffer.
  pub ingest_tender_batch_lem :
      (now : ℤ) (b : StreamBuffer W) (tenders : List (TmsLoadTenderDto W))
      → (All (λ p. validate_load_tender p ≡ none) tenders
          × (ingest_tender_batch now b tenders ≡ (ingest_tenders now b tenders, none)))
        ⊎ ((before after : List (TmsLoadTenderDto W)) × (bad : TmsLoadTenderDto W)
            × (e : StreamError) × (tenders ≡ before ++ (bad ∷ after))
            × All (λ p. validate_load_tender p ≡ none) before
            × (validate_load_tender bad ≡ some e)
            × (ingest_tender_batch now b tenders ≡ (ingest_tenders now b before, some e)))
  unfolding ingest_tender_batch
  ingest_tender_batch_lem now b [] = inl (tt, refl)
  ingest_tender_batch_lem now b (p ∷ ps) = elim (Option-cases (validate_load_tender p)) [
    | inr (e, v) ↦
        inr
          ([], ps, p, e, refl, tt, v, rw (tender-error now b p, v, tender-refused now b p e v) refl)
    | inl v ↦ elim (ingest_tender_batch_lem now (ingest_load_tender now b p).0 ps) [
      | inl (vs, q) ↦ inl ((v, vs), rw (tender-error now b p, v, q) refl)
      | inr (before, after, bad, e, s, vs, w, q) ↦ inr (
        p ∷ before,
        after,
        bad,
        e,
        ap (λ xs. p ∷ xs) s,
        (v, vs),
        w,
        rw (tender-error now b p, v, q) refl,
      )
    ]
  ]
