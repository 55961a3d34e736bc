-- ===== src/Stream/Synchronizer/Merge.antt =====
-- What a synchronization does to each driver and each load.
use text.Mathlib.TextEquality.{eq_iff}
use project_mittens.Prelude.{
  ◌≡◌, ◌≢◌, ◌⊎◌, refl, sym, ap, ◌∙◌, inl, inr, true, false, String, Option, none, some, List, [],
  ◌∷◌, All, Bool-cases, if◌then◌else◌,
}
use project_mittens.Prelude.Int.{ℤ}
use project_mittens.Prelude.Dict.{Dict, lookup, lookup-insert, lookup-erase, str_eq}
use project_mittens.Prelude.Seen.{Distinct}
use project_mittens.Float.{Float}
use project_mittens.Fleet.Resource.{Driver, Load, ResourceState}
use project_mittens.Stream.Validation.{EldDriverPingDto, TmsLoadTenderDto, TenderCancelDto}
use project_mittens.Stream.Synchronizer.{updated_driver, discovered_driver, new_load}
use project_mittens.Stream.Synchronizer.Run.{
  Sync, driver_map_of, load_map_of, drivers_in, loads_in, cancel_load, apply_cancels, apply_ping,
  apply_pings, apply_tenders, begin_sync, merge,
}

module _ {V : Type 0} where
  abbrev pub keys : Dict V → List String
  keys [] = []
  keys ((k, v) ∷ d) = k ∷ keys d

  lookup-absent : (k : String) (d : Dict V) → All (λ j. k ≢ j) (keys d) → lookup k d ≡ none
  unfolding lookup
  lookup-absent k [] _ = refl
  lookup-absent k ((j, v) ∷ d) (n, ns) = elim (Bool-cases (str_eq j k)) [
    | inl e ↦ absurd (n (sym ((eq_iff j k).0 e)))
    | inr e ↦ rw e (lookup-absent k d ns)
  ]

module _ {W : Type 0} where
  -- A load that is cancelled is gone, whether it was there or not.
  cancel_load-lookup :
      (k id : String) (o : Option (Load W)) (st : Sync W)
      → lookup k st.load_map ≡ o
      → lookup id (cancel_load k o st).load_map
        ≡ (if str_eq k id then none else lookup id st.load_map)
  cancel_load-lookup k id none st h = elim (Bool-cases (str_eq k id)) [
    | inl e ↦ rw e (ap (λ x. lookup x st.load_map) (sym ((eq_iff k id).0 e)) ∙ h)
    | inr e ↦ rw e refl
  ]
  cancel_load-lookup k id (some l) st h = lookup-erase k id st.load_map

  abbrev pub unless : Option TenderCancelDto → Option (Load W) → Option (Load W)
  unless none o = o
  unless (some c) o = none

  unless-none : (c : Option TenderCancelDto) → unless c none ≡ none
  unless-none none = refl
  unless-none (some c) = refl

  apply_cancels-lookup :
      (id : String) (cs : Dict TenderCancelDto) (st : Sync W)
      → lookup id (apply_cancels cs st).load_map ≡ unless (lookup id cs) (lookup id st.load_map)
  unfolding apply_cancels lookup
  apply_cancels-lookup id [] st = refl
  apply_cancels-lookup id ((k, c) ∷ cs) st =
      apply_cancels-lookup id cs (cancel_load k (lookup k st.load_map) st)
      ∙ ap (unless (lookup id cs)) (cancel_load-lookup k id (lookup k st.load_map) st refl)
      ∙ by_test (Bool-cases (str_eq k id))
    where
      by_test :
          (str_eq k id ≡ true) ⊎ (str_eq k id ≡ false)
          → unless (lookup id cs) (if str_eq k id then none else lookup id st.load_map)
            ≡ unless (if str_eq k id then some c else lookup id cs) (lookup id st.load_map)
      by_test (inl e) = rw e (unless-none (lookup id cs))
      by_test (inr e) = rw e refl

  cancel_load-drivers :
      (k : String) (o : Option (Load W)) (st : Sync W)
      → (cancel_load k o st).driver_map ≡ st.driver_map
  cancel_load-drivers k none st = refl
  cancel_load-drivers k (some l) st = refl

  apply_cancels-drivers :
      (cs : Dict TenderCancelDto) (st : Sync W) → (apply_cancels cs st).driver_map ≡ st.driver_map
  unfolding apply_cancels
  apply_cancels-drivers [] st = refl
  apply_cancels-drivers ((k, c) ∷ cs) st =
      apply_cancels-drivers cs (cancel_load k (lookup k st.load_map) st)
      ∙ cancel_load-drivers k (lookup k st.load_map) st

module _ (upper : String → String) {W : Type 0} ⦃f : Float W⦄ where
  -- A driver after his ping, if there is one.
  abbrev pub driver_after :
      ℤ → ℤ → String → Option (EldDriverPingDto W) → Option (Driver W) → Option (Driver W)
  driver_after now epoch id none o = o
  driver_after now epoch id (some p) none = some (discovered_driver upper now epoch id p)
  driver_after now epoch id (some p) (some d) = some (updated_driver upper epoch d p)

  -- A load after its tender, if there is one.
  abbrev pub tender_or : String → Option (TmsLoadTenderDto W) → Option (Load W) → Option (Load W)
  tender_or id none o = o
  tender_or id (some t) o = some (new_load upper id t)

  apply_ping-lookup :
      (now epoch : ℤ) (k id : String) (p : EldDriverPingDto W) (o : Option (Driver W)) (st : Sync W)
      → lookup id (apply_ping upper now epoch k p o st).driver_map
        ≡ (if str_eq k id then driver_after now epoch k (some p) o else lookup id st.driver_map)
  apply_ping-lookup now epoch k id p none st = lookup-insert k id _ st.driver_map
  apply_ping-lookup now epoch k id p (some d) st = lookup-insert k id _ st.driver_map

  apply_pings-lookup :
      (now epoch : ℤ) (id : String) (ps : Dict (EldDriverPingDto W)) (st : Sync W)
      → Distinct (keys ps)
      → lookup id (apply_pings upper now epoch ps st).driver_map
        ≡ driver_after now epoch id (lookup id ps) (lookup id st.driver_map)
  unfolding apply_pings lookup
  apply_pings-lookup now epoch id [] st _ = refl
  apply_pings-lookup now epoch id ((k, p) ∷ ps) st (n, ns) =
      apply_pings-lookup now epoch id ps
        (apply_ping upper now epoch k p (lookup k st.driver_map) st) ns
      ∙ ap (driver_after now epoch id (lookup id ps))
          (apply_ping-lookup now epoch k id p (lookup k st.driver_map) st)
      ∙ by_test (Bool-cases (str_eq k id))
    where
      by_test :
          (str_eq k id ≡ true) ⊎ (str_eq k id ≡ false)
          → driver_after now epoch id (lookup id ps) (
              if str_eq k id
              then driver_after now epoch k (some p) (lookup k st.driver_map)
              else lookup id st.driver_map)
            ≡ driver_after now epoch id
                (if str_eq k id then some p else lookup id ps)
                (lookup id st.driver_map)
      by_test (inl e) =
          let same = (eq_iff k id).0 e in
          rw (e, ap (λ x. lookup x ps) (sym same) ∙ lookup-absent k ps n)
            (ap (λ x. driver_after now epoch x (some p) (lookup x st.driver_map)) same)
      by_test (inr e) = rw e refl

  apply_tenders-lookup :
      (id : String) (ts : Dict (TmsLoadTenderDto W)) (st : Sync W)
      → Distinct (keys ts)
      → lookup id (apply_tenders upper ts st).load_map
        ≡ tender_or id (lookup id ts) (lookup id st.load_map)
  unfolding apply_tenders lookup
  apply_tenders-lookup id [] st _ = refl
  apply_tenders-lookup id ((k, t) ∷ ts) st (n, ns) =
      apply_tenders-lookup id ts _ ns
      ∙ ap (tender_or id (lookup id ts)) (lookup-insert k id (new_load upper k t) st.load_map)
      ∙ by_test (Bool-cases (str_eq k id))
    where
      by_test :
          (str_eq k id ≡ true) ⊎ (str_eq k id ≡ false)
          → tender_or id
              (lookup id ts)
              (if str_eq k id then some (new_load upper k t) else lookup id st.load_map)
            ≡ tender_or id (if str_eq k id then some t else lookup id ts) (lookup id st.load_map)
      by_test (inl e) =
          let same = (eq_iff k id).0 e in
          rw (e, ap (λ x. lookup x ts) (sym same) ∙ lookup-absent k ts n)
            (ap (λ x. some (new_load upper x t)) same)
      by_test (inr e) = rw e refl

  apply_tenders-drivers :
      (ts : Dict (TmsLoadTenderDto W)) (st : Sync W)
      → (apply_tenders upper ts st).driver_map ≡ st.driver_map
  unfolding apply_tenders
  apply_tenders-drivers [] st = refl
  apply_tenders-drivers ((k, t) ∷ ts) st = apply_tenders-drivers ts _

  apply_ping-loads :
      (now epoch : ℤ) (k : String) (p : EldDriverPingDto W) (o : Option (Driver W)) (st : Sync W)
      → (apply_ping upper now epoch k p o st).load_map ≡ st.load_map
  apply_ping-loads now epoch k p none st = refl
  apply_ping-loads now epoch k p (some d) st = refl

  apply_pings-loads :
      (now epoch : ℤ) (ps : Dict (EldDriverPingDto W)) (st : Sync W)
      → (apply_pings upper now epoch ps st).load_map ≡ st.load_map
  unfolding apply_pings
  apply_pings-loads now epoch [] st = refl
  apply_pings-loads now epoch ((k, p) ∷ ps) st =
      apply_pings-loads now epoch ps (apply_ping upper now epoch k p (lookup k st.driver_map) st)
      ∙ apply_ping-loads now epoch k p (lookup k st.driver_map) st

  -- A merge treats each driver and each load by itself, whatever the order of the maps. A driver
  -- with a ping is updated, or added if he is not known; any other stays as he is. A load with a
  -- tender is the tendered one, even where it is known or cancelled as well; of the others, those
  -- that are cancelled are gone and the rest stay. It holds where no key of the drained maps is
  -- there twice.
  pub merge_lem :
      (now epoch : ℤ) (base : Option (ResourceState W)) (ps : Dict (EldDriverPingDto W))
      (ts : Dict (TmsLoadTenderDto W)) (cs : Dict TenderCancelDto) (id : String)
      → Distinct (keys ps)
      → Distinct (keys ts)
      → (lookup id (merge upper now epoch base ps ts cs).driver_map
          ≡ driver_after now epoch id
              (lookup id ps)
              (lookup id (driver_map_of (drivers_in base) [])))
        × (lookup id (merge upper now epoch base ps ts cs).load_map
            ≡ tender_or id
                (lookup id ts)
                (unless (lookup id cs) (lookup id (load_map_of (loads_in base) []))))
  unfolding merge begin_sync
  merge_lem now epoch base ps ts cs id dp dt =
      let st0 = begin_sync upper now base in
      let st1 = apply_pings upper now epoch ps st0 in
      let st2 = apply_cancels cs st1 in
      (
        ap (lookup id) (apply_tenders-drivers ts st2 ∙ apply_cancels-drivers cs st1)
            ∙ apply_pings-lookup now epoch id ps st0 dp,
        apply_tenders-lookup id ts st2 dt
            ∙ ap (tender_or id (lookup id ts)) (
                apply_cancels-lookup id cs st1
                ∙ ap (λ m. unless (lookup id cs) (lookup id m))
                    (apply_pings-loads now epoch ps st0)),
      )
