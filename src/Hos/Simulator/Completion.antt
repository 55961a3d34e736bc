-- ===== src/Hos/Simulator/Completion.antt =====
-- `Simulate`: how it ends, and what part of a schedule has been served by then.
use project_mittens.Prelude.{
  ℕ, ◌+◌, ◌*◌, ◌≤◌, ◌≡◌, refl, sym, ap, ◌∙◌, Bool, true, arith, some, inl, inr, List, [], ◌∷◌,
}
use project_mittens.Prelude.Int.{ℤ, pos, ◌+ℤ◌, int_laws, pos_part}
use project_mittens.Prelude.Result.{
  Result, ok, err, Yields, Yields_mono, Yields_bind, Yields-ok, Yields-value,
}
use project_mittens.Float.{Float}
use project_mittens.Hos.Specs.{
  PolicySpecs, HosError, IsUsable, validate, IsUsable-validate, validate-IsUsable, validate-cases,
}
use project_mittens.Hos.Clocks.{DriverClocks, clone, minute}
use project_mittens.Hos.Clocks.Bounds.{IsSound}
use project_mittens.Hos.Events.{EventType, Event, SimulationResult}
use project_mittens.Hos.Rounds.{Run}
use project_mittens.Hos.Simulator.{dispatch, run_events, start, finish, simulate}
use project_mittens.Hos.Simulator.Steps.{Steps, Steps-trans}
use project_mittens.Hos.Simulator.Rounds.{Refused, drive_share, duty_share}
use project_mittens.Hos.Simulator.Dispatch.{Served, dispatch-Reached}

-- The minutes of a schedule at the wheel, and those on duty.
unfoldable pub drive_minutes {ℓ} : {W : Type ℓ} → List (Event W) → ℕ
drive_minutes [] = 0
drive_minutes (ev ∷ events) = drive_share ev.type (pos_part ev.duration_min) + drive_minutes events

unfoldable pub duty_minutes {ℓ} : {W : Type ℓ} → List (Event W) → ℕ
duty_minutes [] = 0
duty_minutes (ev ∷ events) = duty_share ev.type (pos_part ev.duration_min) + duty_minutes events

unfoldable pub all_minutes {ℓ} : {W : Type ℓ} → List (Event W) → ℕ
all_minutes [] = 0
all_minutes (ev ∷ events) = pos_part ev.duration_min + all_minutes events

-- The whole schedule has been served on the way from `s0` to `s`.
pub record IsServed {W : Type 0} (specs : PolicySpecs) (s0 : Run W) (events : List (Event W))
    (s : Run W) : Type 0 where
  pub path : Steps specs s0 s
  pub sound : IsSound specs s.clocks
  pub driven : s.total_drive ≡ s0.total_drive +ℤ pos (drive_minutes events)
  pub worked : s.total_duty ≡ s0.total_duty +ℤ pos (duty_minutes events)
  pub elapsed : s0.clocks.now + all_minutes events * minute ≤ s.clocks.now

add_zero : (a : ℤ) → a +ℤ pos 0 ≡ a
add_zero a = omega int_laws

add_two : (a : ℤ) (m n : ℕ) → a +ℤ pos m +ℤ pos n ≡ a +ℤ pos (m + n)
add_two a m n = omega int_laws

share_zero : (k : EventType) → (drive_share k 0 ≡ 0) × (duty_share k 0 ≡ 0)
share_zero EventType.drive = (refl, refl)
share_zero EventType.rest = (refl, refl)
share_zero EventType.hold = (refl, refl)
share_zero _ = (refl, refl)

-- The totals of two parts of a schedule add up.
add_parts :
    (s t v : ℤ) (m n : ℕ) {z : ℕ}
    → z ≡ 0
    → t +ℤ pos z ≡ s +ℤ pos m
    → v ≡ t +ℤ pos n
    → v ≡ s +ℤ pos (m + n)
add_parts s t v m n e h k =
    k ∙ ap (λ x. x +ℤ pos n) (sym (add_zero t) ∙ ap (λ y. t +ℤ pos y) (sym e) ∙ h) ∙ add_two s m n

module _ {W : Type 0} ⦃f : Float W⦄ (specs : PolicySpecs) (u : IsUsable specs) where
  run_events-IsServed :
      (auto : Bool) (events : List (Event W)) (s : Run W)
      → IsSound specs s.clocks
      → Yields (Refused auto) (IsServed specs s events) (run_events specs auto events s)
  unfolding run_events drive_minutes duty_minutes all_minutes
  run_events-IsServed auto [] s h = record {
    path = Steps.here;
    sound = h;
    driven = omega int_laws;
    worked = omega int_laws;
    elapsed = omega arith;
  }
  run_events-IsServed auto (ev ∷ events) s h =
      after (dispatch specs auto ev.type ev s) (dispatch-Reached specs u auto ev.type ev s refl h)
        (run_events-IsServed auto events)
    where
      after :
          (m : Result HosError (Run W))
          → Yields (Refused auto) (Served specs u ev.type (pos_part ev.duration_min) s) m
          → ((t : Run W)
              → IsSound specs t.clocks
              → Yields (Refused auto) (IsServed specs t events) (run_events specs auto events t))
          → Yields
              (Refused auto)
              (IsServed specs s (ev ∷ events))
              (elim m [ ok t ↦ run_events specs auto events t | err e ↦ err e ])
      after (err e) q k = q
      after (ok t) q k =
          Yields_mono (Refused auto) (IsServed specs t events) _ _ (k t q.sound) λ v g. record {
            path = Steps-trans q.path g.path;
            sound = g.sound;
            driven =
                add_parts s.total_drive t.total_drive v.total_drive _ _ (share_zero ev.type).0
                  q.drive_left g.driven;
            worked =
                add_parts s.total_duty t.total_duty v.total_duty _ _ (share_zero ev.type).1
                  q.duty_left g.worked;
            elapsed = omega (arith, q.elapsed, g.elapsed);
          }

  -- `r` is the result of a run that has served the whole schedule.
  pub IsOutcome : DriverClocks → List (Event W) → SimulationResult W → Type 0
  IsOutcome c events r = (s : Run W) × (r ≡ finish c s) × IsServed specs (start c) events s

  pub simulate-IsOutcome :
      (c : DriverClocks) (events : List (Event W)) (auto : Bool)
      → IsSound specs c
      → Yields (Refused auto) (IsOutcome c events) (simulate (some c) events specs auto)
  unfolding simulate start IsOutcome clone
  simulate-IsOutcome c events auto h = rw (IsUsable-validate specs u) (
      Yields_bind (Refused auto) (IsServed specs (start c) events) (IsOutcome c events) _ _
        (run_events-IsServed auto events (start c) h) (λ s g. (s, refl, g)))

zero_add : (n : ℕ) → pos 0 +ℤ pos n ≡ pos n
zero_add n = omega int_laws

-- No policy that `Validate` refuses is simulated.
pub simulate-validate :
    {W : Type 0} ⦃f : Float W⦄ (specs : PolicySpecs) (c : DriverClocks) (events : List (Event W))
    (auto : Bool) {r : SimulationResult W}
    → simulate (some c) events specs auto ≡ ok r
    → validate specs ≡ ok tt
unfolding simulate
simulate-validate specs c events auto {r} e = elim (validate-cases specs) [
  | inl v ↦ v
  | inr v ↦ let bad = (rw (v, simulate) at e) in cc
]

-- A result comes from a path of steps, under a valid policy.
pub simulate_path :
    {W : Type 0} ⦃f : Float W⦄ (specs : PolicySpecs) (c : DriverClocks) (events : List (Event W))
    (auto : Bool) {r : SimulationResult W}
    → IsSound specs c
    → simulate (some c) events specs auto ≡ ok r
    → (s : Run W) × (r ≡ finish c s) × Steps specs (start c) s
unfolding IsOutcome
simulate_path specs c events auto {r} h e =
    let u = validate-IsUsable specs (simulate-validate specs c events auto e) in
    let (s, same, g) =
      Yields-value (Refused auto) (IsOutcome specs u c events) _ r e
        (simulate-IsOutcome specs u c events auto h) in
    (s, same, g.path)

-- With rests inserted, a simulation of a sound driver under a valid policy always ends with a
-- result: no limit is violated, no loop goes on for ever, and the log is never written out of range.
-- All the minutes of the schedule are served: the totals of driving and of duty are those of the
-- events, at least the minutes of all events pass, and the driver is sound afterwards.
pub simulate_completes :
    {W : Type 0} ⦃f : Float W⦄ (specs : PolicySpecs) (c : DriverClocks) (events : List (Event W))
    → validate specs ≡ ok tt
    → IsSound specs c
    → (r : SimulationResult W) × (simulate (some c) events specs true ≡ ok r)
      × (r.total_drive_min ≡ pos (drive_minutes events))
      × (r.total_duty_min ≡ pos (duty_minutes events))
      × (c.now + all_minutes events * minute ≤ r.final_clocks.now)
      × IsSound specs r.final_clocks
unfolding IsOutcome start clone
simulate_completes specs c events v h =
    let u = validate-IsUsable specs v in
    let (r, e, (s, same, g)) =
      Yields-ok (Refused true) (IsOutcome specs u c events) _ (λ x q. cc)
        (simulate-IsOutcome specs u c events true h) in
    (
      r,
      e,
      rw same (g.driven ∙ zero_add (drive_minutes events)),
      rw same (g.worked ∙ zero_add (duty_minutes events)),
      rw same g.elapsed,
      rw same g.sound,
    )
