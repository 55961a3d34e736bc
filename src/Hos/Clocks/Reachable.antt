-- ===== src/Hos/Clocks/Reachable.antt =====
-- What the operations keep, in any order, from a fresh shift on.
use mathlib.Core.Path.{subst}
use project_mittens.Prelude.{ℕ, ◌≡◌, ◌↔◌, sym, ◌∙◌, inl, inr, Bool, ◌≤◌}
use project_mittens.Prelude.Int.{ℤ}
use project_mittens.Prelude.Result.{ok, ok-injective}
use project_mittens.Hos.Specs.{PolicySpecs}
use project_mittens.Hos.Clocks.{
  DriverClocks, new_driver_clocks, max_immediate_drive_min, apply_drive, apply_on_duty_not_driving,
  apply_off_duty,
}
use project_mittens.Hos.Clocks.Bounds.{
  IsSound, new_driver_clocks-IsSound, Driven-IsSound, Worked-IsSound, Permits,
  max_immediate_drive_min-Permits, Permits-max_immediate_drive_min,
}
use project_mittens.Hos.Clocks.Operations.{
  apply_drive_lem, apply_on_duty_lem, apply_off_duty-rested, rested-IsSound,
}

-- The clocks that sequences of successful operations reach.
pub data Reachable (specs : PolicySpecs) : DriverClocks → Type 0 where
  fresh : (t : ℕ) → Reachable specs (new_driver_clocks specs t)
  driven :
      {c next : DriverClocks} (d : ℤ)
      → Reachable specs c
      → apply_drive c d ≡ ok next
      → Reachable specs next
  worked :
      {c next : DriverClocks} (d : ℤ)
      → Reachable specs c
      → apply_on_duty_not_driving c d ≡ ok next
      → Reachable specs next
  rested_for :
      {c next : DriverClocks} (d : ℤ) (sleeper : Bool)
      → Reachable specs c
      → apply_off_duty c d sleeper specs ≡ ok next
      → Reachable specs next

-- In every order of the operations, no clock goes above its ceiling, the minutes driven since the
-- last break and those left before the next make up the hygiene limit, and the day of the log that
-- is written to exists.
pub Reachable-IsSound :
    (specs : PolicySpecs) (c : DriverClocks) → Reachable specs c → IsSound specs c
Reachable-IsSound specs c (fresh t) = new_driver_clocks-IsSound specs t
Reachable-IsSound specs c (driven {c = b} d r e) =
    let s = Reachable-IsSound specs b r in
    elim (apply_drive_lem specs b d s) [
      | inl (_, q) ↦ subst (IsSound specs) (ok-injective _ _ (sym q ∙ e)) s
      | inr (inl (m, _, _, next, q, dr)) ↦
          subst (IsSound specs) (ok-injective _ _ (sym q ∙ e)) (Driven-IsSound s dr)
      | inr (inr (m, _, _, q)) ↦ absurd (cc (sym q ∙ e))
    ]
Reachable-IsSound specs c (worked {c = b} d r e) =
    let s = Reachable-IsSound specs b r in
    elim (apply_on_duty_lem specs b d s) [
      | inl (_, q) ↦ subst (IsSound specs) (ok-injective _ _ (sym q ∙ e)) s
      | inr (inl (m, _, _, next, q, w)) ↦
          subst (IsSound specs) (ok-injective _ _ (sym q ∙ e)) (Worked-IsSound s w)
      | inr (inr (m, _, _, q)) ↦ absurd (cc (sym q ∙ e))
    ]
Reachable-IsSound specs c (rested_for {c = b} d sleeper r e) =
    subst (IsSound specs) (ok-injective _ _ (sym (apply_off_duty-rested specs d sleeper b) ∙ e))
      (rested-IsSound specs d sleeper b (Reachable-IsSound specs b r))

-- `MaxImmediateDriveMin` is the longest drive that all four limits leave room for: it and all that
-- is less is allowed, and nothing more.
pub max_immediate_drive_min_lem :
    (c : DriverClocks) (m : ℕ) → (m ≤ max_immediate_drive_min c) ↔ Permits c m
max_immediate_drive_min_lem c m =
    (max_immediate_drive_min-Permits c m, Permits-max_immediate_drive_min c m)
