-- ===== src/Hos/Simulator/Steps.antt =====
-- What a simulation does to its state, as a relation: it drives, works, rests, or adds miles to the
-- total.
use project_mittens.Prelude.{ℕ, ◌<◌, ◌≡◌, Bool}
use project_mittens.Prelude.Int.{pos}
use project_mittens.Hos.Specs.{PolicySpecs}
use project_mittens.Hos.Clocks.{DriverClocks}
use project_mittens.Hos.Clocks.Bounds.{Permits, Driven, Worked}
use project_mittens.Hos.Clocks.Operations.{PermitsWork, rested}
use project_mittens.Hos.Events.{EventType, Event}
use project_mittens.Hos.Rounds.{Run, record_entry, count_duty, count_drive, count_rest}

-- Events whose minutes are off duty.
abbrev pub IsOff : EventType → Type 0
IsOff EventType.rest = Unit
IsOff EventType.hold = Unit
IsOff _ = ⊥

-- Events whose minutes are worked, but not at the wheel.
abbrev pub IsWork : EventType → Type 0
IsWork EventType.loading = Unit
IsWork EventType.unloading = Unit
IsWork EventType.border_crossing = Unit
IsWork _ = ⊥

pub data Step {ℓ} {W : Type ℓ} (specs : PolicySpecs) : Run W → Run W → Type ℓ where
  travels : {s : Run W} (x : W) → Step specs s (record s { total_distance = x })
  drives :
      {s : Run W} (m : ℕ) (ev : Event W) (next : DriverClocks)
      → 0 < m
      → ev.type ≡ EventType.drive
      → ev.duration_min ≡ pos m
      → Permits s.clocks m
      → Driven m s.clocks next
      → Step specs s (count_drive m (count_duty m (record_entry ev next s)))
  works :
      {s : Run W} (m : ℕ) (ev : Event W) (next : DriverClocks)
      → 0 < m
      → IsWork ev.type
      → ev.duration_min ≡ pos m
      → PermitsWork s.clocks m
      → Worked m s.clocks next
      → Step specs s (count_duty m (record_entry ev next s))
  rests :
      {s : Run W} (sleeper : Bool) (ev : Event W)
      → IsOff ev.type
      → Step specs s (
          count_rest ev.duration_min
            (record_entry ev (rested specs ev.duration_min sleeper s.clocks) s))

pub data Steps {ℓ} {W : Type ℓ} (specs : PolicySpecs) (s : Run W) : Run W → Type ℓ where
  here : Steps specs s s
  then : {t u : Run W} → Steps specs s t → Step specs t u → Steps specs s u

pub Steps-trans {ℓ} :
    {W : Type ℓ} {specs : PolicySpecs} {s t u : Run W}
    → Steps specs s t
    → Steps specs t u
    → Steps specs s u
Steps-trans p here = p
Steps-trans p (then q st) = then (Steps-trans p q) st
