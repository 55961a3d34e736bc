-- ===== src/Stream/Synchronizer/Run.antt =====
-- `Synchronize`. The clock stands still during a call. The maps are gone through in their order as
-- lists; Go goes through them in no certain order.
use project_mittens.Prelude.{suc, String, Option, none, some, List, [], ◌∷◌, length}
use project_mittens.Prelude.Int.{ℤ}
use project_mittens.Prelude.Dict.{Dict, lookup, insert, erase}
use project_mittens.Prelude.Sorting.{str_lt, sort_by}
use project_mittens.Float.{Float}
use project_mittens.Fleet.Resource.{Driver, Load, ResourceState, new_resource_state}
use project_mittens.Stream.Validation.{EldDriverPingDto, TmsLoadTenderDto, TenderCancelDto}
use project_mittens.Stream.Buffer.{StreamBuffer, drain}
use project_mittens.Stream.Synchronizer.{SyncReport, updated_driver, discovered_driver, new_load}

-- The local variables of `Synchronize`.
pub record Sync (W : Type 0) : Type 0 where
  pub driver_map : Dict (Driver W)
  pub load_map : Dict (Load W)
  pub report : SyncReport

-- The values of a map.
abbrev pub values : {V : Type 0} → Dict V → List V
values [] = []
values ((k, v) ∷ d) = v ∷ values d

module _ {W : Type 0} where
  -- `driverMap[d.ID] = d`, and the same for loads.
  unfoldable pub driver_map_of : List (Driver W) → Dict (Driver W) → Dict (Driver W)
  driver_map_of [] driver_map = driver_map
  driver_map_of (d ∷ ds) driver_map = driver_map_of ds (insert d.id d driver_map)

  unfoldable pub load_map_of : List (Load W) → Dict (Load W) → Dict (Load W)
  load_map_of [] load_map = load_map
  load_map_of (l ∷ ls) load_map = load_map_of ls (insert l.id l load_map)

  abbrev pub drivers_in : Option (ResourceState W) → List (Driver W)
  drivers_in none = []
  drivers_in (some rs) = rs.drivers

  abbrev pub loads_in : Option (ResourceState W) → List (Load W)
  loads_in none = []
  loads_in (some rs) = rs.loads

  -- A cancellation, given the load that is there.
  abbrev pub cancel_load : String → Option (Load W) → Sync W → Sync W
  cancel_load id none st = st
  cancel_load id (some l) st = record st {
    load_map = erase id st.load_map;
    report = record st.report { loads_canceled = suc st.report.loads_canceled };
  }

  -- The loop over the cancellations.
  unfoldable pub apply_cancels : Dict TenderCancelDto → Sync W → Sync W
  apply_cancels [] st = st
  apply_cancels ((id, cancel) ∷ cancels) st =
      apply_cancels cancels (cancel_load id (lookup id st.load_map) st)

  -- Step 3.
  unfoldable pub assemble : Sync W → ResourceState W × SyncReport
  assemble st =
      let drivers = sort_by (λ a b. str_lt a.id b.id) (values st.driver_map) in
      let loads = sort_by (λ a b. str_lt a.id b.id) (values st.load_map) in
      (
        new_resource_state drivers loads,
        record st.report { total_drivers = length drivers; total_loads = length loads },
      )

module _ (upper : String → String) {W : Type 0} ⦃f : Float W⦄ where
  -- A ping, given the driver that is there.
  abbrev pub apply_ping : ℤ → ℤ → String → EldDriverPingDto W → Option (Driver W) → Sync W → Sync W
  apply_ping now current_epoch id ping none st = record st {
    driver_map = insert id (discovered_driver upper now current_epoch id ping) st.driver_map;
    report = record st.report { drivers_added = suc st.report.drivers_added };
  }
  apply_ping now current_epoch id ping (some existing) st = record st {
    driver_map = insert id (updated_driver upper current_epoch existing ping) st.driver_map;
    report = record st.report { drivers_updated = suc st.report.drivers_updated };
  }

  -- The loop over the pings.
  unfoldable pub apply_pings : ℤ → ℤ → Dict (EldDriverPingDto W) → Sync W → Sync W
  apply_pings now current_epoch [] st = st
  apply_pings now current_epoch ((id, ping) ∷ pings) st =
      apply_pings now current_epoch pings
        (apply_ping now current_epoch id ping (lookup id st.driver_map) st)

  -- The loop over the tenders.
  unfoldable pub apply_tenders : Dict (TmsLoadTenderDto W) → Sync W → Sync W
  apply_tenders [] st = st
  apply_tenders ((id, tender) ∷ tenders) st = apply_tenders tenders (record st {
    load_map = insert id (new_load upper id tender) st.load_map;
    report = record st.report { loads_added = suc st.report.loads_added };
  })

  unfoldable pub begin_sync : ℤ → Option (ResourceState W) → Sync W
  begin_sync now base = record {
    driver_map = driver_map_of (drivers_in base) [];
    load_map = load_map_of (loads_in base) [];
    report = record {
      drivers_updated = 0;
      drivers_added = 0;
      loads_added = 0;
      loads_canceled = 0;
      total_drivers = 0;
      total_loads = 0;
      sync_timestamp = now;
    };
  }

  -- The three steps on what was drained.
  unfoldable pub merge :
      ℤ
      → ℤ
      → Option (ResourceState W)
      → Dict (EldDriverPingDto W)
      → Dict (TmsLoadTenderDto W)
      → Dict TenderCancelDto
      → Sync W
  merge now current_epoch base pings tenders cancels =
      apply_tenders tenders
        (apply_cancels cancels (apply_pings now current_epoch pings (begin_sync now base)))

  unfoldable pub synchronize :
      ℤ
      → StreamBuffer W
      → Option (ResourceState W)
      → ℤ
      → StreamBuffer W × ResourceState W × SyncReport
  synchronize now b base current_epoch =
      let (emptied, pings, tenders, cancels) = drain now b in
      let (resource, report) = assemble (merge now current_epoch base pings tenders cancels) in
      (emptied, resource, report)
