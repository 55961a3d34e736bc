-- ===== src/Dispatch/Arcs/Completes.antt =====
-- `FilterCandidates` on drivers with lawful clocks always succeeds.
use mathlib.Core.List.{Permᴰ}
use mathlib.Core.List.Permᴰ
use project_mittens.Prelude.{
  ◌≡◌, refl, inl, inr, Bool, true, false, ◌||◌, ◌==◌, String, Option, none, some, List, [], ◌∷◌,
  ◌++◌, length, Bool-cases, All,
}
use project_mittens.Prelude.Int.{ℤ}
use project_mittens.Prelude.Result.{ok}
use project_mittens.Prelude.Sorting.{sort_by}
use project_mittens.Float.{Float}
use project_mittens.Hos.Specs.{PolicySpecs, validate}
use project_mittens.Hos.Clocks.{DriverClocks}
use project_mittens.Hos.Clocks.Bounds.{IsSound, new_driver_clocks-IsSound}
use project_mittens.Hos.Trip.{TripFeasibilityResult}
use project_mittens.Hos.Trip.Feasibility.{evaluate_trip_projects}
use project_mittens.Stream.Synchronizer.{unix}
use project_mittens.Fleet.Resource.{Driver, Load, distance_miles}
use project_mittens.Fleet.Equipment.{can_handle}
use project_mittens.Fleet.Config.{FeasibilityConfig}
use project_mittens.Dispatch.Arcs.{
  CandidateArc, specs_of, clocks_or_new, trip_of, is_too_far, arc_of, arc_if_feasible,
  evaluate_pair, evaluate_loads, with_arc, run_worker, collect, arc_less, filter_candidates,
}
use project_mittens.Dispatch.Arcs.Pairs.{projected}
use project_mittens.Dispatch.Arcs.Schedule.{jobs_of, taken}
use project_mittens.Prelude.Canonical.{All-perm}

-- Clocks of the driver's own are sound under the policy.
abbrev pub OwnClocks : PolicySpecs → Option DriverClocks → Type 0
OwnClocks specs none = Unit
OwnClocks specs (some c) = IsSound specs c

clocks_or_new-IsSound :
    (specs : PolicySpecs) (epoch : ℤ) (o : Option DriverClocks)
    → OwnClocks specs o
    → IsSound specs (clocks_or_new specs epoch o)
clocks_or_new-IsSound specs epoch none h = new_driver_clocks-IsSound specs (unix epoch)
clocks_or_new-IsSound specs epoch (some c) h = h

module _ {W : Type 0} ⦃f : Float W⦄ (equal_fold : String → String → Bool)
    (cfg : FeasibilityConfig W) where
  -- The policy that the driver is evaluated under is valid, and his clocks, if he has some, keep to
  -- it.
  abbrev pub IsReady : Driver W → Type 0
  IsReady d = (validate (specs_of d cfg) ≡ ok tt) × OwnClocks (specs_of d cfg) d.clocks

  arc_if_feasible-ok :
      (d : Driver W) (l : Load W) (t : TripFeasibilityResult)
      → (o : Option (CandidateArc W)) × (arc_if_feasible d l (ok t) ≡ ok o)
  arc_if_feasible-ok d l t = elim (Bool-cases t.is_feasible) [
    | inl e ↦ rw e (some (arc_of d l t), refl)
    | inr e ↦ rw e (none, refl)
  ]

  projected-ok :
      (d : Driver W) (l : Load W)
      → IsReady d
      → (t : TripFeasibilityResult) × (projected equal_fold cfg d l ≡ ok t)
  projected-ok d l (v, s) =
      let (t, e, _, _, _) =
        evaluate_trip_projects (trip_of d l cfg)
          (clocks_or_new (specs_of d cfg) d.available_epoch d.clocks) (specs_of d cfg) v
          (clocks_or_new-IsSound (specs_of d cfg) d.available_epoch d.clocks s) in
      (t, e)

  evaluate_pair-ok :
      (d : Driver W) (l : Load W)
      → IsReady d
      → (o : Option (CandidateArc W)) × (evaluate_pair equal_fold d l cfg ≡ ok o)
  unfolding evaluate_pair
  evaluate_pair-ok d l r =
      elim (Bool-cases
        (can_handle equal_fold d.equipment l.required_equipment l.required_endorsements)) [
          | inr e ↦ (none, rw e refl)
          | inl e ↦
              elim (Bool-cases (is_too_far (distance_miles d.current_location l.origin) cfg)) [
                | inl n ↦ (none, rw (e, n) refl)
                | inr n ↦
                    let (t, s) = projected-ok d l r in
                    let (o, q) = arc_if_feasible-ok d l t in (o, rw (e, n, s) q)
              ]
        ]

  evaluate_loads-succeeds :
      (d : Driver W) (ls : List (Load W))
      → IsReady d
      → (arcs : List (CandidateArc W)) × (evaluate_loads equal_fold cfg d ls ≡ ok arcs)
  unfolding evaluate_loads
  evaluate_loads-succeeds d [] r = ([], refl)
  evaluate_loads-succeeds d (l ∷ ls) r =
      let (o, e) = evaluate_pair-ok d l r in
      let (arcs, q) = evaluate_loads-succeeds d ls r in (with_arc o arcs, rw (e, q) refl)

  -- The context is never done while a worker runs.
  abbrev pub Undisturbed : List (Driver W × Bool) → Type 0
  Undisturbed jobs = All (λ j. j.1 ≡ false) jobs

  work-succeeds :
      (ls : List (Load W)) (jobs : List (Driver W × Bool))
      → Undisturbed jobs
      → All IsReady (jobs_of jobs)
      → (arcs : List (CandidateArc W)) × (run_worker equal_fold cfg ls jobs ≡ ok arcs)
  unfolding run_worker
  work-succeeds ls [] _ _ = ([], refl)
  work-succeeds ls ((d, true) ∷ jobs) (u, us) _ = absurd (cc u)
  work-succeeds ls ((d, false) ∷ jobs) (u, us) (r, rs) =
      let (a, e) = evaluate_loads-succeeds d ls r in
      let (more, q) = work-succeeds ls jobs us rs in (a ++ more, rw (e, q) refl)

  All-split :
      (P : Driver W → Type 0) (xs ys : List (Driver W)) → All P (xs ++ ys) → All P xs × All P ys
  All-split P [] ys h = (tt, h)
  All-split P (x ∷ xs) ys (h, hs) = let (a, b) = All-split P xs ys hs in ((h, a), b)

  collect-succeeds :
      (ls : List (Load W)) (schedule : List (List (Driver W × Bool)))
      → All Undisturbed schedule
      → All IsReady (taken schedule)
      → (arcs : List (CandidateArc W)) × (collect equal_fold cfg ls schedule ≡ ok arcs)
  unfolding collect
  collect-succeeds ls [] _ _ = ([], refl)
  collect-succeeds ls (jobs ∷ workers) (u, us) r =
      let (r1, r2) = All-split IsReady (jobs_of jobs) (taken workers) r in
      let (a, e) = work-succeeds ls jobs u r1 in
      let (more, q) = collect-succeeds ls workers us r2 in (a ++ more, rw (e, q) refl)

  -- Where the policy of each driver is valid and his clocks keep to it, and the context is not done
  -- before the end, the filter succeeds, with whatever loads, and however the workers share out the
  -- drivers.
  pub filter_candidates_completes :
      (drivers : List (Driver W)) (ls : List (Load W)) (schedule : List (List (Driver W × Bool)))
      → Permᴰ (taken schedule) drivers
      → All Undisturbed schedule
      → All IsReady drivers
      → (arcs : List (CandidateArc W)) × (filter_candidates equal_fold drivers ls cfg schedule false
          ≡ ok arcs)
  unfolding filter_candidates
  filter_candidates_completes drivers ls schedule p u r =
      elim (Bool-cases ((length drivers == 0) || (length ls == 0))) [
        | inl e ↦ ([], rw e refl)
        | inr e ↦
            let (arcs, c) = collect-succeeds ls schedule u (All-perm IsReady (Permᴰ.symm p) r) in
            (sort_by arc_less arcs, rw (e, c) refl)
      ]
