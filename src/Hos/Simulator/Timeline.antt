-- ===== src/Hos/Simulator/Timeline.antt =====
-- `Simulate`: its timeline as an account of the driver's time.
use project_mittens.Prelude.{
  ℕ, ◌+◌, ◌*◌, ◌≡◌, refl, sym, ◌∙◌, Bool, arith, some, List, [], ◌∷◌, ◌++◌,
}
use project_mittens.Prelude.Int.{ℤ, pos, pos_part, ◌+ℤ◌, int_laws}
use project_mittens.Prelude.Result.{ok}
use project_mittens.Float.{Float}
use project_mittens.Hos.Specs.{PolicySpecs}
use project_mittens.Hos.Clocks.{DriverClocks, minute, clone}
use project_mittens.Hos.Clocks.Bounds.{IsSound}
use project_mittens.Hos.Clocks.Operations.{rested}
use project_mittens.Hos.Clocks.Resets.{rested-now}
use project_mittens.Hos.Events.{Event, TimelineEntry, SimulationResult}
use project_mittens.Hos.Rounds.{Run, record_entry, count_duty, count_drive, count_rest}
use project_mittens.Hos.Simulator.{start, simulate}
use project_mittens.Hos.Simulator.Steps.{Step, Steps}
use project_mittens.Hos.Simulator.Completion.{simulate_path}

module _ {ℓ} {W : Type ℓ} where
  -- The entries run from `t` to `u` with no gap and no overlap, each as long as its event, and each
  -- snapshot is taken at the entry's end.
  abbrev pub Chain : ℕ → List (TimelineEntry W) → ℕ → Type 0
  Chain t [] u = t ≡ u
  Chain t (e ∷ es) u =
      (e.start_time ≡ t)
      × (e.end_time ≡ t + pos_part e.event.duration_min * minute)
      × (e.clocks_snapshot.now ≡ e.end_time)
      × Chain e.end_time es u

  -- The minutes of all entries.
  pub minutes : List (TimelineEntry W) → ℤ
  minutes [] = pos 0
  minutes (e ∷ es) = e.event.duration_min +ℤ minutes es

  Chain-append :
      (t u : ℕ) (es : List (TimelineEntry W)) (e : TimelineEntry W)
      → Chain t es u
      → e.start_time ≡ u
      → e.end_time ≡ u + pos_part e.event.duration_min * minute
      → e.clocks_snapshot.now ≡ e.end_time
      → Chain t (es ++ (e ∷ [])) e.clocks_snapshot.now
  Chain-append t u [] e c s n k = (omega arith, omega arith, k, sym k)
  Chain-append t u (x ∷ es) e (a, b, d, c) s n k = (a, b, d, Chain-append x.end_time u es e c s n k)

  minutes-append :
      (es : List (TimelineEntry W)) (e : TimelineEntry W)
      → minutes (es ++ (e ∷ [])) ≡ minutes es +ℤ e.event.duration_min
  unfolding minutes
  minutes-append [] e = omega int_laws
  minutes-append (x ∷ es) e = rw (minutes-append es e) (omega int_laws)

-- What the timeline and the totals say of each other.
pub record IsAccount {W : Type 0} (t : ℕ) (s : Run W) : Type 0 where
  pub chain : Chain t s.timeline s.clocks.now
  pub durations : s.total_duration ≡ minutes s.timeline
  pub parts : s.total_duration ≡ s.total_duty +ℤ s.total_rest

regroup_duty : (a b c d : ℤ) → a ≡ b +ℤ c → a +ℤ d ≡ b +ℤ d +ℤ c
regroup_duty a b c d e = rw e (omega int_laws)

regroup_rest : (a b c d : ℤ) → a ≡ b +ℤ c → a +ℤ d ≡ b +ℤ (c +ℤ d)
regroup_rest a b c d e = rw e (omega int_laws)

module _ {W : Type 0} where
  add_entry :
      (t : ℕ) (s : Run W) (ev : Event W) (next : DriverClocks)
      → IsAccount t s
      → next.now ≡ s.clocks.now + pos_part ev.duration_min * minute
      → Chain t (record_entry ev next s).timeline next.now
        × (minutes (record_entry ev next s).timeline ≡ s.total_duration +ℤ ev.duration_min)
  unfolding record_entry
  add_entry t s ev next a n = (
    Chain-append t s.clocks.now s.timeline _ a.chain refl n refl,
    minutes-append s.timeline _ ∙ rw a.durations,
  )

  Step-IsAccount :
      (t : ℕ) (specs : PolicySpecs) {s u : Run W} → Step specs s u → IsAccount t s → IsAccount t u
  unfolding record_entry count_duty count_drive count_rest
  Step-IsAccount t specs (Step.travels x) a = record {
    chain = a.chain;
    durations = a.durations;
    parts = a.parts;
  }
  Step-IsAccount t specs (Step.drives {s = s} m ev next p k l q d) a =
      let (c, e) = add_entry t s ev next a (rw l d.later) in
      record { chain = c; durations = rw (← l) (sym e); parts = regroup_duty _ _ _ (pos m) a.parts }
  Step-IsAccount t specs (Step.works {s = s} m ev next p k l q d) a =
      let (c, e) = add_entry t s ev next a (rw l d.later) in
      record { chain = c; durations = rw (← l) (sym e); parts = regroup_duty _ _ _ (pos m) a.parts }
  Step-IsAccount t specs (Step.rests {s = s} sleeper ev k) a =
      let d = ev.duration_min in
      let (c, e) =
        add_entry t s ev (rested specs d sleeper s.clocks) a
          (rested-now specs d sleeper s.clocks) in
      record { chain = c; durations = sym e; parts = regroup_rest _ _ _ d a.parts }

  Steps-IsAccount :
      (t : ℕ) (specs : PolicySpecs) {s u : Run W} → Steps specs s u → IsAccount t s → IsAccount t u
  Steps-IsAccount t specs Steps.here a = a
  Steps-IsAccount t specs (Steps.then p st) a =
      Step-IsAccount t specs st (Steps-IsAccount t specs p a)

-- Whatever a simulation returns, its timeline runs from the driver's time to that of the final
-- clocks with no gap and no overlap, each entry as long as its event says. The total duration is
-- the sum of the entries' minutes, and splits into duty and rest.
pub simulate_accounts :
    {W : Type 0} ⦃f : Float W⦄ (specs : PolicySpecs) (c : DriverClocks) (events : List (Event W))
    (auto : Bool) {r : SimulationResult W}
    → IsSound specs c
    → simulate (some c) events specs auto ≡ ok r
    → Chain c.now r.timeline r.final_clocks.now
      × (r.total_duration_min ≡ minutes r.timeline)
      × (r.total_duration_min ≡ r.total_duty_min +ℤ r.total_rest_min)
unfolding start minutes clone
simulate_accounts specs c events auto {r} h e =
    let (s, same, path) = simulate_path specs c events auto h e in
    let a =
      Steps-IsAccount c.now specs path
        (record { chain = refl; durations = refl; parts = omega int_laws }) in
    rw same (a.chain, a.durations, a.parts)
