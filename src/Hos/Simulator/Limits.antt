-- ===== src/Hos/Simulator/Limits.antt =====
-- `Simulate`: the statutory limits along its timeline.
use project_mittens.Prelude.{◌≡◌, Bool, arith, some, List}
use project_mittens.Prelude.Int.{pos_part}
use project_mittens.Prelude.Result.{ok}
use project_mittens.Float.{Float}
use project_mittens.Hos.Specs.{PolicySpecs}
use project_mittens.Hos.Clocks.{DriverClocks, clone}
use project_mittens.Hos.Clocks.Bounds.{IsSound, Driven-IsSound, Worked-IsSound}
use project_mittens.Hos.Clocks.Operations.{rested, rested-IsSound}
use project_mittens.Hos.Events.{Event, TimelineEntry, SimulationResult}
use project_mittens.Hos.Rounds.{Run, record_entry, count_duty, count_drive, count_rest}
use project_mittens.Hos.Simulator.{start, simulate}
use project_mittens.Hos.Simulator.Steps.{Step, Steps}
use project_mittens.Hos.Simulator.Completion.{simulate_path}
use project_mittens.Hos.Simulator.Tally.{
  Tally, count_as, count_as-IsOff, count_entry, tally, Lawful, tally-append, Lawful-append,
  tally_of, IsGraded, IsTracked, rested-IsTracked, drive-IsTracked, work-IsTracked, tracked-lawful,
}

-- A timeline that is lawful so far, with the clocks in step.
record IsLawful {W : Type 0} (specs : PolicySpecs) (t : Tally) (s : Run W) : Type 0 where
  lawful : Lawful specs t s.timeline
  tracked : IsTracked specs (tally specs t s.timeline) s.clocks
  sound : IsSound specs s.clocks

module _ {W : Type 0} (specs : PolicySpecs) (g : IsGraded specs) (t : Tally) where
  add_entry :
      (s : Run W) (ev : Event W) (next : DriverClocks)
      → IsLawful specs t s
      → IsSound specs next
      → IsTracked specs
          (count_as specs ev.type (pos_part ev.duration_min) (tally specs t s.timeline))
          next
      → IsLawful specs t (record_entry ev next s)
  unfolding record_entry count_entry
  add_entry s ev next h n k =
      let e : TimelineEntry W = record {
        start_time = s.clocks.now;
        end_time = next.now;
        event = ev;
        clocks_snapshot = next;
      } in
      let (d, w) = tracked-lawful specs next _ n k in
      record {
        lawful = Lawful-append specs t s.timeline e h.lawful d w;
        tracked = rw (tally-append specs t s.timeline e) k;
        sound = n;
      }

  Step-IsLawful : {s u : Run W} → Step specs s u → IsLawful specs t s → IsLawful specs t u
  unfolding count_duty count_drive count_rest record_entry
  Step-IsLawful (Step.travels x) h = record {
    lawful = h.lawful;
    tracked = h.tracked;
    sound = h.sound;
  }
  Step-IsLawful (Step.drives {s = s} m ev next p k l q d) h =
      let a =
        add_entry s ev next h (Driven-IsSound h.sound d)
          (rw (k, l) (drive-IsTracked specs m s.clocks next _ d h.tracked)) in
      record { lawful = a.lawful; tracked = a.tracked; sound = a.sound }
  Step-IsLawful (Step.works {s = s} m ev next p k l q d) h =
      let a =
        add_entry s ev next h (Worked-IsSound h.sound d)
          (rw l (work-IsTracked specs ev.type m s.clocks next _ k d h.tracked)) in
      record { lawful = a.lawful; tracked = a.tracked; sound = a.sound }
  Step-IsLawful (Step.rests {s = s} sleeper ev k) h =
      let n = ev.duration_min in
      let a =
        add_entry s ev (rested specs n sleeper s.clocks) h
          (rested-IsSound specs n sleeper s.clocks h.sound)
          (rw (count_as-IsOff _ _ _ _ k)
            (rested-IsTracked specs n sleeper s.clocks _ g h.sound h.tracked)) in
      record { lawful = a.lawful; tracked = a.tracked; sound = a.sound }

  Steps-IsLawful : {s u : Run W} → Steps specs s u → IsLawful specs t s → IsLawful specs t u
  Steps-IsLawful Steps.here h = h
  Steps-IsLawful (Steps.then p st) h = Step-IsLawful st (Steps-IsLawful p h)

-- Whatever a simulation returns, its timeline is lawful, read alone by an auditor who starts from
-- what the driver's clocks have used up: at no moment has the driver driven for longer than the
-- hygiene limit since the last break, or worked for longer than the cycle limit since the last
-- weekly restart. It holds for a sound driver under a policy whose break is no longer than its other rests.
pub simulate-Lawful :
    {W : Type 0} ⦃f : Float W⦄ (specs : PolicySpecs) (c : DriverClocks) (events : List (Event W))
    (auto : Bool) {r : SimulationResult W}
    → IsGraded specs
    → IsSound specs c
    → simulate (some c) events specs auto ≡ ok r
    → Lawful specs (tally_of specs c) r.timeline
unfolding start clone tally tally_of
simulate-Lawful specs c events auto {r} g h e =
    let (s, same, path) = simulate_path specs c events auto h e in
    let a =
      Steps-IsLawful specs g (tally_of specs c) path
        (record { lawful = tt; tracked = omega arith; sound = h }) in
    rw same a.lawful
