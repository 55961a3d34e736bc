-- ===== src/Stream/Buffer/Newest.antt =====
-- What holds of every buffer that the operations can build.
use mathlib.Core.Path.{subst}
use text.Mathlib.TextEquality.{eq_iff}
use project_mittens.Prelude.{
  ◌≡◌, ◌⊎◌, refl, sym, inl, inr, ap, ◌∙◌, true, false, String, Option, none, some, List, ◌∷◌, All,
  Has, All-map, Option-cases, Bool-cases, arith, if◌then◌else◌,
}
use project_mittens.Prelude.Int.{ℤ, ◌≤ℤ◌, ltb_ℤ}
use project_mittens.Prelude.Dict.{lookup, lookup-insert, str_eq}
use project_mittens.Float.{Float}
use project_mittens.Stream.Validation.{
  EldDriverPingDto, TmsLoadTenderDto, TenderCancelDto, validate_driver_ping, validate_load_tender,
}
use project_mittens.Stream.Buffer.{
  StreamBuffer, add_one, store_ping, ingest_driver_ping, ingest_load_tender, cancel_tender, drain,
}
use project_mittens.Stream.Buffer.Reached.{Reached, created, pinged, tendered, cancelled, drained}
use project_mittens.Stream.Buffer.Batches.{ping-refused, tender-refused}

module _ {W : Type 0} ⦃f : Float W⦄ where
  -- `p` is a valid ping of the driver `d`.
  abbrev pub IsOf : String → EldDriverPingDto W → Type 0
  IsOf d p = (validate_driver_ping p ≡ none) × (p.driver_id ≡ d)

  -- Of the pings `hist`, the one that is kept for the driver `d`.
  abbrev pub IsNewest : String → Option (EldDriverPingDto W) → List (EldDriverPingDto W) → Type 0
  IsNewest d none hist = All (λ q. ¬ (IsOf d q)) hist
  IsNewest d (some p) hist =
      Has p hist × IsOf d p × All (λ q. IsOf d q → q.timestamp ≤ℤ p.timestamp) hist

  -- A ping that is not one of `d` changes nothing for `d`.
  other-IsNewest :
      (d : String) (o : Option (EldDriverPingDto W)) (p : EldDriverPingDto W)
      (hist : List (EldDriverPingDto W))
      → ¬ (IsOf d p)
      → IsNewest d o hist
      → IsNewest d o (p ∷ hist)
  other-IsNewest d none p hist n h = (n, h)
  other-IsNewest d (some q) p hist n (m, i, h) = (inr m, i, (λ x. absurd (n x), h))

  -- The choice that a valid ping of `d` makes.
  abbrev newer : EldDriverPingDto W → Option (EldDriverPingDto W) → Option (EldDriverPingDto W)
  newer p none = some p
  newer p (some old) = if ltb_ℤ p.timestamp old.timestamp then some old else some p

  newer-IsNewest :
      (d : String) (o : Option (EldDriverPingDto W)) (p : EldDriverPingDto W)
      (hist : List (EldDriverPingDto W))
      → IsOf d p
      → IsNewest d o hist
      → IsNewest d (newer p o) (p ∷ hist)
  newer-IsNewest d none p hist i h = (
    inl refl,
    i,
    (
      λ _. omega arith,
      All-map (λ q. ¬ (IsOf d q)) (λ q. IsOf d q → q.timestamp ≤ℤ p.timestamp)
          (λ q n k. absurd (n k)) hist h,
    ),
  )
  newer-IsNewest d (some old) p hist i (m, k, h) =
      elim (Bool-cases (ltb_ℤ p.timestamp old.timestamp)) [
        | inl e ↦ rw e (inr m, k, (λ _. ground arith, h))
        | inr e ↦ rw e (
          inl refl,
          i,
          (
            λ _. omega arith,
            All-map (λ q. IsOf d q → q.timestamp ≤ℤ old.timestamp)
                (λ q. IsOf d q → q.timestamp ≤ℤ p.timestamp)
                (λ q le j. let bound = le j in ground arith) hist h,
          ),
        )
      ]

  store_ping-lookup :
      (p : EldDriverPingDto W) (o : Option (EldDriverPingDto W)) (b : StreamBuffer W) (d : String)
      → lookup p.driver_id b.driver_pings ≡ o
      → lookup d (store_ping p o b).driver_pings
        ≡ (if str_eq p.driver_id d then newer p o else lookup d b.driver_pings)
  store_ping-lookup p none b d h = lookup-insert p.driver_id d p b.driver_pings
  store_ping-lookup p (some old) b d h = elim (Bool-cases (ltb_ℤ p.timestamp old.timestamp)) [
    | inr e ↦ rw e (lookup-insert p.driver_id d p b.driver_pings)
    | inl e ↦ elim (Bool-cases (str_eq p.driver_id d)) [
      | inr n ↦ rw (e, n) refl
      | inl q ↦ rw (e, q) (ap (λ x. lookup x b.driver_pings) (sym ((eq_iff p.driver_id d).0 q)) ∙ h)
    ]
  ]

  valid-lookup :
      (now : ℤ) (b : StreamBuffer W) (p : EldDriverPingDto W) (d : String)
      → validate_driver_ping p ≡ none
      → lookup d (ingest_driver_ping now b p).0.driver_pings ≡ (
          if str_eq p.driver_id d
          then newer p (lookup p.driver_id b.driver_pings)
          else lookup d b.driver_pings)
  unfolding ingest_driver_ping
  valid-lookup now b p d v =
      rw (v, ingest_driver_ping)
        (store_ping-lookup p (lookup p.driver_id b.driver_pings)
          (record b { total_pings = add_one b.total_pings; last_ingest = now }) d refl)

  ping-IsNewest :
      (now : ℤ) (b : StreamBuffer W) (p : EldDriverPingDto W) (d : String)
      (hist : List (EldDriverPingDto W))
      → IsNewest d (lookup d b.driver_pings) hist
      → IsNewest d (lookup d (ingest_driver_ping now b p).0.driver_pings) (p ∷ hist)
  unfolding ingest_driver_ping
  ping-IsNewest now b p d hist h = elim (Option-cases (validate_driver_ping p)) [
    | inr (e, v) ↦
        rw (ping-refused now b p e v)
          (other-IsNewest d (lookup d b.driver_pings) p hist (λ i. cc (sym v ∙ i.0)) h)
    | inl v ↦ rw (valid-lookup now b p d v) (by_driver v (Bool-cases (str_eq p.driver_id d)))
  ]
    where
      by_driver :
          validate_driver_ping p ≡ none
          → (str_eq p.driver_id d ≡ true) ⊎ (str_eq p.driver_id d ≡ false)
          → IsNewest d
              (if str_eq p.driver_id d
                then newer p (lookup p.driver_id b.driver_pings)
                else lookup d b.driver_pings)
              (p ∷ hist)
      by_driver v (inl e) =
          let same = (eq_iff p.driver_id d).0 e in
          rw e (
            newer-IsNewest d (lookup p.driver_id b.driver_pings) p hist (v, same)
              (subst (λ x. IsNewest d (lookup x b.driver_pings) hist) (sym same) h))
      by_driver v (inr n) = rw n (
          other-IsNewest d (lookup d b.driver_pings) p hist
            (λ i. cc (sym n ∙ (eq_iff p.driver_id d).1 i.1)) h)

  tender-pings :
      (now : ℤ) (b : StreamBuffer W) (t : TmsLoadTenderDto W)
      → (ingest_load_tender now b t).0.driver_pings ≡ b.driver_pings
  unfolding ingest_load_tender
  tender-pings now b t = elim (Option-cases (validate_load_tender t)) [
    | inr (e, v) ↦ ap (λ x. x.driver_pings) (tender-refused now b t e v)
    | inl v ↦ rw (v, ingest_load_tender) refl
  ]

  cancel-pings :
      (now : ℤ) (b : StreamBuffer W) (c : TenderCancelDto)
      → (cancel_tender now b c).0.driver_pings ≡ b.driver_pings
  unfolding cancel_tender
  cancel-pings now b c = ground arith

  -- The ping that a buffer holds for a driver is one of those offered since the last drain, is
  -- valid, names the driver and is as new as each other valid one of his; without one in the
  -- buffer, none was offered.
  pub Reached-IsNewest :
      (hist : List (EldDriverPingDto W)) (b : StreamBuffer W)
      → Reached hist b
      → (d : String) → IsNewest d (lookup d b.driver_pings) hist
  unfolding lookup drain
  Reached-IsNewest hist b created d = tt
  Reached-IsNewest hist b (pinged {hist = old} {b = c} now p r) d =
      ping-IsNewest now c p d old (Reached-IsNewest old c r d)
  Reached-IsNewest hist b (tendered {b = c} now t r) d =
      rw (tender-pings now c t) (Reached-IsNewest hist c r d)
  Reached-IsNewest hist b (cancelled {b = c} now x r) d =
      rw (cancel-pings now c x) (Reached-IsNewest hist c r d)
  Reached-IsNewest hist b (drained old now r) d = tt
