-- ===== src/Stream/Synchronizer/Frozen.antt =====
-- `Synchronize` and `Transition`: the clocks of a driver who has been synchronized.
use project_mittens.Prelude.{◌≡◌, refl, String, Option, none, some}
use project_mittens.Prelude.Int.{ℤ}
use project_mittens.Float.{Float}
use project_mittens.Hos.Specs.{validate}
use project_mittens.Hos.Clocks.{DriverClocks}
use project_mittens.Hos.Simulator.{simulate}
use project_mittens.Fleet.Resource.{Driver, Load, Location, DriverLoadMatch}
use project_mittens.Fleet.Transition.{advance_clocks, dispatched}
use project_mittens.Stream.Validation.{EldDriverPingDto}
use project_mittens.Stream.Synchronizer.{no_policy_specs, updated_driver, discovered_driver}

module _ {W : Type 0} ⦃f : Float W⦄ where
  -- A simulation without a policy fails.
  advance_clocks-none :
      (d : Driver W) (loc : Location W) (l : Load W) (o : Option DriverClocks)
      → d.policy_specs ≡ no_policy_specs
      → advance_clocks d loc l o ≡ o
  unfolding simulate validate
  advance_clocks-none d loc l none e = refl
  advance_clocks-none d loc l (some c) e = rw e refl

  dispatched-clocks :
      (m : DriverLoadMatch W) (l : Load W) (d : Driver W)
      → d.policy_specs ≡ no_policy_specs
      → (dispatched m l d).clocks ≡ d.clocks
  unfolding dispatched
  dispatched-clocks m l d e = advance_clocks-none d d.current_location l d.clocks e

module _ (upper : String → String) {W : Type 0} ⦃f : Float W⦄ where
  -- No drive or stop moves the clocks of a driver whom a synchronization has updated or added: a
  -- transition that dispatches him leaves them as they were, however long the trip. He has lost his
  -- policy, without which the simulation fails, and the failure is passed over.
  pub synchronized-clocks :
      (now current_epoch : ℤ) (existing : Driver W) (ping : EldDriverPingDto W)
      (m : DriverLoadMatch W) (l : Load W)
      → ((dispatched m l (updated_driver upper current_epoch existing ping)).clocks
          ≡ existing.clocks)
        × ((dispatched m l (discovered_driver upper now current_epoch ping.driver_id ping)).clocks
            ≡ (discovered_driver upper now current_epoch ping.driver_id ping).clocks)
  unfolding updated_driver discovered_driver
  synchronized-clocks now current_epoch existing ping m l = (
    dispatched-clocks m l (updated_driver upper current_epoch existing ping) refl,
    dispatched-clocks m l (discovered_driver upper now current_epoch ping.driver_id ping) refl,
  )
