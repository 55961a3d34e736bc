-- ===== src/Dispatch/Arcs/Pairs.antt =====
-- Which pairs of a driver and a load become arcs.
use project_mittens.Prelude.{
  ◌≡◌, ◌↔◌, refl, sym, ap, ◌∙◌, inl, inr, Bool, true, false, String, Option, none, some, List, [],
  ◌∷◌, Bool-cases, Has, All,
}
use project_mittens.Prelude.Result.{Result, ok, err, bind-ok}
use project_mittens.Float.{Float}
use project_mittens.Hos.Specs.{HosError}
use project_mittens.Hos.Trip.{TripFeasibilityResult, evaluate_trip_feasibility}
use project_mittens.Fleet.Resource.{Driver, Load, distance_miles}
use project_mittens.Fleet.Equipment.{can_handle}
use project_mittens.Fleet.Config.{FeasibilityConfig}
use project_mittens.Dispatch.Arcs.{
  CandidateArc, specs_of, clocks_or_new, trip_of, is_too_far, arc_of, arc_if_feasible,
  evaluate_pair, with_arc, evaluate_loads,
}

module _ {W : Type 0} ⦃f : Float W⦄ (equal_fold : String → String → Bool)
    (cfg : FeasibilityConfig W) where
  -- The projected trip of the pair, on the driver's clocks, or on new ones, under his policy, or
  -- under that of the configuration or of the United States.
  abbrev pub projected : Driver W → Load W → Result HosError TripFeasibilityResult
  projected d l =
      evaluate_trip_feasibility (trip_of d l cfg)
        (some (clocks_or_new (specs_of d cfg) d.available_epoch d.clocks)) (specs_of d cfg)

  -- The equipment can handle the load, the way to it is not too far, and the trip meets its windows.
  pub record IsArc (d : Driver W) (l : Load W) (a : CandidateArc W) : Type 0 where
    pub handles :
        can_handle equal_fold d.equipment l.required_equipment l.required_endorsements ≡ true
    pub near : is_too_far (distance_miles d.current_location l.origin) cfg ≡ false
    pub trip : TripFeasibilityResult
    pub simulated : projected d l ≡ ok trip
    pub in_time : trip.is_feasible ≡ true
    pub reported : a ≡ arc_of d l trip

  arc_if_feasible-some :
      (d : Driver W) (l : Load W) (a : CandidateArc W) (m : Result HosError TripFeasibilityResult)
      → arc_if_feasible d l m ≡ ok (some a)
      → (t : TripFeasibilityResult) × (m ≡ ok t) × (t.is_feasible ≡ true) × (a ≡ arc_of d l t)
  arc_if_feasible-some d l a (err e) h = absurd (cc h)
  arc_if_feasible-some d l a (ok t) h = elim (Bool-cases t.is_feasible) [
    | inl e ↦ (t, refl, e, cc (rw e at h))
    | inr e ↦ absurd (cc (rw e at h))
  ]

  pub evaluate_pair-IsArc :
      (d : Driver W) (l : Load W) (a : CandidateArc W)
      → evaluate_pair equal_fold d l cfg ≡ ok (some a)
      → IsArc d l a
  unfolding evaluate_pair
  evaluate_pair-IsArc d l a h =
      elim (Bool-cases
        (can_handle equal_fold d.equipment l.required_equipment l.required_endorsements)) [
          | inr e ↦ absurd (cc (rw e at h))
          | inl e ↦
              elim (Bool-cases (is_too_far (distance_miles d.current_location l.origin) cfg)) [
                | inl n ↦ absurd (cc (rw (e, n) at h))
                | inr n ↦
                    let (t, s, y, r) =
                      arc_if_feasible-some d l a (projected d l) (rw (e, n) at h) in
                    record {
                      handles = e;
                      near = n;
                      trip = t;
                      simulated = s;
                      in_time = y;
                      reported = r;
                    }
              ]
        ]

  pub IsArc-evaluate_pair :
      (d : Driver W) (l : Load W) (a : CandidateArc W)
      → IsArc d l a
      → evaluate_pair equal_fold d l cfg ≡ ok (some a)
  unfolding evaluate_pair
  IsArc-evaluate_pair d l a c = rw (c.handles, c.near, c.simulated, c.in_time, c.reported) refl

  -- One of the loads makes this arc with the driver.
  abbrev pub ArcOf : Driver W → List (Load W) → CandidateArc W → Type 0
  ArcOf d ls a = (l : Load W) × Has l ls × IsArc d l a

  -- What the first load adds to the arcs of the others.
  with_arc-Has :
      (d : Driver W) (l : Load W) (ls : List (Load W)) (a : CandidateArc W)
      (o : Option (CandidateArc W)) (arcs : List (CandidateArc W))
      → evaluate_pair equal_fold d l cfg ≡ ok o
      → Has a arcs ↔ ArcOf d ls a
      → Has a (with_arc o arcs) ↔ ArcOf d (l ∷ ls) a
  with_arc-Has d l ls a none arcs e (to, from) = (
    λ h. let (k, m, c) = to h in (k, inr m, c),
    λ h. elim h.1 [
      | inl q ↦ absurd (
          cc (
            sym e ∙ ap (λ k. evaluate_pair equal_fold d k cfg) q ∙ IsArc-evaluate_pair d h.0 a h.2))
      | inr m ↦ from (h.0, m, h.2)
    ],
  )
  with_arc-Has d l ls a (some b) arcs e (to, from) = (
    λ h. elim h [
      | inl q ↦ (l, inl refl, evaluate_pair-IsArc d l a (e ∙ ap (λ x. ok (some x)) q))
      | inr m ↦ let (k, n, c) = to m in (k, inr n, c)
    ],
    λ h. elim h.1 [
      | inl q ↦ inl (
          cc (
            sym e ∙ ap (λ k. evaluate_pair equal_fold d k cfg) q ∙ IsArc-evaluate_pair d h.0 a h.2))
      | inr m ↦ inr (from (h.0, m, h.2))
    ],
  )

  -- No pair fails.
  abbrev pub Sound : Driver W → List (Load W) → Type 0
  Sound d ls =
      All (λ l. (o : Option (CandidateArc W)) × (evaluate_pair equal_fold d l cfg ≡ ok o)) ls

  -- A loop over the loads that succeeds answers the arcs of the driver, and no pair has failed.
  pub evaluate_loads-ok :
      (d : Driver W) (ls : List (Load W)) (arcs : List (CandidateArc W))
      → evaluate_loads equal_fold cfg d ls ≡ ok arcs
      → Sound d ls × ((a : CandidateArc W) → Has a arcs ↔ ArcOf d ls a)
  unfolding evaluate_loads
  evaluate_loads-ok d [] arcs e =
      let none_made : [] ≡ arcs = cc e in
      (tt, λ a. rw (sym none_made) (λ h. absurd h, λ h. absurd h.1))
  evaluate_loads-ok d (l ∷ ls) arcs e =
      let (o, p, e1) = bind-ok (evaluate_pair equal_fold d l cfg) _ e in
      let (more, q, e2) = bind-ok (evaluate_loads equal_fold cfg d ls) _ e1 in
      let (sound, have) = evaluate_loads-ok d ls more q in
      let made : with_arc o more ≡ arcs = cc e2 in
      (((o, p), sound), λ a. rw (sym made) (with_arc-Has d l ls a o more p (have a)))
