-- ===== src/Dispatch/Arcs/Filtered.antt =====
-- `FilterCandidates`: when it succeeds, and with which arcs.
use mathlib.Core.List.{Permᴰ}
use mathlib.Core.List.Permᴰ
use project_mittens.Prelude.{
  ◌≡◌, ◌↔◌, ◌⊎◌, refl, sym, ap, ◌∙◌, inl, inr, Bool, true, ◌||◌, String, List, [], ◌∷◌, Bool-cases,
  Has, All, All-map, arith, length, ◌==◌,
}
use project_mittens.Prelude.Result.{ok, ok-injective, bind-ok}
use project_mittens.Prelude.Sorting.{sort_by, sort_by-Has}
use project_mittens.Prelude.Canonical.{
  Has-perm, All-perm, flat_map, flat_map-perm, Separated, sort_by-perm,
}
use project_mittens.Float.{Float}
use project_mittens.Fleet.Resource.{Driver, Load}
use project_mittens.Fleet.Config.{FeasibilityConfig}
use project_mittens.Dispatch.Arcs.{
  CandidateArc, evaluate_pair, evaluate_loads, collect, arc_less, filter_candidates,
}
use project_mittens.Dispatch.Arcs.Pairs.{IsArc, Sound, evaluate_loads-ok, IsArc-evaluate_pair}
use project_mittens.Dispatch.Arcs.Schedule.{
  taken, arcs_for, Evaluates, collect-ok, flat_map-Has, by_ids_asym, by_ids_trans, by_ids_total,
}

module _ {A : Type 0} where
  perm-nil : (xs : List A) → Permᴰ xs [] → xs ≡ []
  perm-nil [] p = refl
  perm-nil (x ∷ xs) p = absurd (Has-perm x p (inl refl))

  -- The elements of the list with one id are one.
  abbrev pub Identified : (A → String) → List A → Type 0
  Identified id xs = (x y : A) → Has x xs → Has y xs → id x ≡ id y → x ≡ y

  is_empty_pair :
      {B : Type 0} (xs : List A) (ys : List B)
      → ((length xs == 0) || (length ys == 0)) ≡ true
      → (xs ≡ []) ⊎ (ys ≡ [])
  is_empty_pair [] ys h = inl refl
  is_empty_pair (x ∷ xs) [] h = inr refl
  is_empty_pair (x ∷ xs) (y ∷ ys) h = absurd (ground arith)

module _ {W : Type 0} ⦃f : Float W⦄ (equal_fold : String → String → Bool)
    (cfg : FeasibilityConfig W) where
  -- Without loads there are no arcs.
  loadless : (ds : List (Driver W)) → flat_map (arcs_for equal_fold cfg []) ds ≡ []
  unfolding evaluate_loads
  loadless [] = refl
  loadless (d ∷ ds) = loadless ds

  loadless-Evaluates : (ds : List (Driver W)) → All (Evaluates equal_fold cfg []) ds
  unfolding evaluate_loads
  loadless-Evaluates [] = tt
  loadless-Evaluates (d ∷ ds) = (refl, loadless-Evaluates ds)

  -- The arcs that a schedule collects.
  abbrev collected : List (Load W) → List (List (Driver W × Bool)) → List (CandidateArc W)
  collected ls schedule = flat_map (arcs_for equal_fold cfg ls) (taken schedule)

  abbrev Collects : List (Load W) → List (List (Driver W × Bool)) → List (CandidateArc W) → Type 0
  Collects ls schedule arcs =
      All (Evaluates equal_fold cfg ls) (taken schedule)
      × (arcs ≡ sort_by (arc_less) (collected ls schedule))

  empty-Collects :
      (drivers : List (Driver W)) (ls : List (Load W)) (schedule : List (List (Driver W × Bool)))
      → Permᴰ (taken schedule) drivers
      → (drivers ≡ []) ⊎ (ls ≡ [])
      → Collects ls schedule []
  unfolding sort_by
  empty-Collects drivers ls schedule p (inl e) =
      rw (perm-nil (taken schedule) (rw e at p)) (tt, refl)
  empty-Collects drivers ls schedule p (inr e) =
      rw e (loadless-Evaluates (taken schedule), rw (loadless (taken schedule)) refl)

  filter_candidates-Collects :
      (drivers : List (Driver W)) (ls : List (Load W)) (schedule : List (List (Driver W × Bool)))
      (done : Bool) (arcs : List (CandidateArc W))
      → Permᴰ (taken schedule) drivers
      → filter_candidates equal_fold drivers ls cfg schedule done ≡ ok arcs
      → Collects ls schedule arcs
  unfolding filter_candidates
  filter_candidates-Collects drivers ls schedule done arcs p h =
      elim (Bool-cases ((length drivers == 0) || (length ls == 0))) [
        | inl e ↦
            let nothing : [] ≡ arcs = ok-injective _ _ (rw e at h) in
            rw (sym nothing) (empty-Collects drivers ls schedule p (is_empty_pair drivers ls e))
        | inr e ↦
            let (all, c, h2) = bind-ok (collect equal_fold cfg ls schedule) _ (rw e at h) in
            let (evaluated, same) = collect-ok equal_fold cfg ls schedule all c in
            elim (Bool-cases done) [
              | inl d ↦ absurd (cc (rw d at h2))
              | inr d ↦
                  (evaluated, sym (ok-injective _ _ (rw d at h2)) ∙ ap (sort_by arc_less) same)
            ]
      ]

  -- However the workers share out the drivers: a filter that succeeds has evaluated every pair of
  -- a driver and a load without an error, and its arcs are just those of the pairs in which the
  -- equipment can handle the load, the way to the pickup is not too far, and the projected trip
  -- meets its windows.
  pub filter_candidates_lem :
      (drivers : List (Driver W)) (ls : List (Load W)) (schedule : List (List (Driver W × Bool)))
      (done : Bool) (arcs : List (CandidateArc W))
      → Permᴰ (taken schedule) drivers
      → filter_candidates equal_fold drivers ls cfg schedule done ≡ ok arcs
      → All (λ d. Sound equal_fold cfg d ls) drivers
        × ((a : CandidateArc W)
            → Has a arcs ↔ (
                (d : Driver W) × (l : Load W) × Has d drivers
                × Has l ls
                × IsArc equal_fold cfg d l a))
  filter_candidates_lem drivers ls schedule done arcs p h =
      let (evaluated, sorted) = filter_candidates-Collects drivers ls schedule done arcs p h in
      (
        All-perm (λ d. Sound equal_fold cfg d ls) p
            (All-map (Evaluates equal_fold cfg ls) (λ d. Sound equal_fold cfg d ls)
              (λ d e. (evaluate_loads-ok equal_fold cfg d ls (arcs_for equal_fold cfg ls d) e).0)
              (taken schedule) evaluated),
        λ a.
            let (to, from) = flat_map-Has equal_fold cfg ls (taken schedule) a evaluated in
            let (sorted_to, sorted_from) = sort_by-Has arc_less a (collected ls schedule) in
            (
              λ k.
                  let (d, m, (l, n, c)) = to (sorted_to (rw sorted at k)) in
                  (d, l, Has-perm d p m, n, c),
              λ (d, l, m, n, c).
                  rw sorted (sorted_from (from (d, Has-perm d (Permᴰ.symm p) m, (l, n, c)))),
            ),
      )

  module _ (drivers : List (Driver W)) (ls : List (Load W))
      (one_driver : Identified (λ d. d.id) drivers) (one_load : Identified (λ l. l.id) ls) where
    IsArc-unique :
        (d e : Driver W) (l m : Load W) (a b : CandidateArc W)
        → d ≡ e
        → l ≡ m
        → IsArc equal_fold cfg d l a
        → IsArc equal_fold cfg e m b
        → a ≡ b
    IsArc-unique d e l m a b p q x y =
        let same = ap (λ d. evaluate_pair equal_fold d l cfg) p in
        let same2 = ap (λ l. evaluate_pair equal_fold e l cfg) q in
        cc (
          sym (IsArc-evaluate_pair equal_fold cfg d l a x)
          ∙ same
          ∙ same2
          ∙ IsArc-evaluate_pair equal_fold cfg e m b y)

    collected-Separated :
        (schedule : List (List (Driver W × Bool)))
        → Permᴰ (taken schedule) drivers
        → All (Evaluates equal_fold cfg ls) (taken schedule)
        → Separated arc_less (collected ls schedule)
    collected-Separated schedule p evaluated a b h k =
        let (d, m, (l, n, x)) = (flat_map-Has equal_fold cfg ls (taken schedule) a evaluated).0 h in
        let (e, o, (r, q, y)) = (flat_map-Has equal_fold cfg ls (taken schedule) b evaluated).0 k in
        elim (by_ids_total a.driver_id a.load_id b.driver_id b.load_id) [
          | inl less ↦ inl less
          | inr (inr more) ↦ inr (inr more)
          | inr (inl (i, j)) ↦ inr (
              inl (
                IsArc-unique d e l r a b
                  (one_driver d e (Has-perm d p m) (Has-perm e p o)
                    (sym (ap (λ a. a.driver_id) x.reported) ∙ i ∙ ap (λ a. a.driver_id) y.reported))
                  (one_load l r n q
                    (sym (ap (λ a. a.load_id) x.reported) ∙ j ∙ ap (λ a. a.load_id) y.reported))
                  x y))
        ]

    -- Where no two drivers share an id, and no two loads do, two runs that both succeed answer the
    -- same list, although the workers share out the drivers in another way, in another order and
    -- number, and send their results in another order.
    pub filter_candidates_deterministic :
        (schedule schedule' : List (List (Driver W × Bool))) (done done' : Bool)
        (arcs arcs' : List (CandidateArc W))
        → Permᴰ (taken schedule) drivers
        → Permᴰ (taken schedule') drivers
        → filter_candidates equal_fold drivers ls cfg schedule done ≡ ok arcs
        → filter_candidates equal_fold drivers ls cfg schedule' done' ≡ ok arcs'
        → arcs ≡ arcs'
    filter_candidates_deterministic schedule schedule' done done' arcs arcs' p q h k =
        let (evaluated, sorted) = filter_candidates-Collects drivers ls schedule done arcs p h in
        let (_, sorted') = filter_candidates-Collects drivers ls schedule' done' arcs' q k in
        sorted
        ∙ sort_by-perm arc_less (λ a b. by_ids_asym a.driver_id a.load_id b.driver_id b.load_id)
            (λ a b c.
              by_ids_trans a.driver_id a.load_id b.driver_id b.load_id c.driver_id c.load_id)
            (flat_map-perm (arcs_for equal_fold cfg ls) (Permᴰ.trans p (Permᴰ.symm q)))
            (collected-Separated schedule p evaluated)
        ∙ sym sorted'
