-- ===== src/Dispatch/Arcs/Schedule.antt =====
-- The filter over all workers: its result does not depend on who takes which driver.
use text.Mathlib.TextEquality.{eq_iff}
use project_mittens.Prelude.{
  ◌≡◌, ◌↔◌, ◌⊎◌, refl, sym, ap, ◌∙◌, inl, inr, Bool, true, false, String, List, [], ◌∷◌, ◌++◌, map,
  if◌then◌else◌, Bool-cases, Has, All, arith, append-Has, Has-append, All-append,
}
use project_mittens.Prelude.Dict.{str_eq}
use project_mittens.Prelude.Result.{Result, ok, err, ok-injective, bind-ok}
use project_mittens.Prelude.Sorting.{str_lt}
use project_mittens.Prelude.Texts.{str_lt_trans, str_lt_asym, str_lt_total}
use project_mittens.Prelude.Canonical.{flat_map, flat_map-append}
use project_mittens.Float.{Float}
use project_mittens.Fleet.Resource.{Driver, Load}
use project_mittens.Fleet.Config.{FeasibilityConfig}
use project_mittens.Dispatch.Arcs.{CandidateArc, FilterError, evaluate_loads, run_worker, collect}
use project_mittens.Dispatch.Arcs.Pairs.{ArcOf, evaluate_loads-ok}

-- The canonical order of arcs, on their two ids.
abbrev pub by_ids : String → String → String → String → Bool
by_ids d l e m = if str_eq d e then str_lt l m else str_lt d e

apart : (s t : String) → str_lt s t ≡ true → str_eq s t ≡ false
apart s t h = elim (Bool-cases (str_eq s t)) [
  | inr e ↦ e
  | inl e ↦
      let same = (eq_iff s t).0 e in
      absurd (
        cc
          (sym h ∙ ap (λ x. str_lt x t) same ∙ ap (λ x. str_lt t x) (sym same) ∙ str_lt_asym s t h))
]

pub by_ids_asym : (d l e m : String) → by_ids d l e m ≡ true → by_ids e m d l ≡ false
by_ids_asym d l e m h = ground (arith, eq_iff d e, eq_iff e d, str_lt_asym d e, str_lt_asym l m)

pub by_ids_trans :
    (d l e m g n : String) → by_ids d l e m ≡ true → by_ids e m g n ≡ true → by_ids d l g n ≡ true
by_ids_trans d l e m g n h k = ground (
  arith,
  eq_iff d e,
  eq_iff e g,
  eq_iff d g,
  str_lt_trans d e g,
  str_lt_trans l m n,
  str_lt_asym d e,
)

pub by_ids_total :
    (d l e m : String) → (by_ids d l e m ≡ true) ⊎ ((d ≡ e) × (l ≡ m)) ⊎ (by_ids e m d l ≡ true)
by_ids_total d l e m = elim (str_lt_total d e) [
  | inl h ↦ inl (rw (apart d e h) h)
  | inr (inr h) ↦ inr (inr (rw (apart e d h) h))
  | inr (inl q) ↦ elim (str_lt_total l m) [
    | inl h ↦ inl (rw ((eq_iff d e).1 q) h)
    | inr (inl r) ↦ inr (inl (q, r))
    | inr (inr h) ↦ inr (inr (rw ((eq_iff e d).1 (sym q)) h))
  ]
]

module _ {W : Type 0} where
  -- The drivers that the workers take.
  abbrev pub jobs_of : List (Driver W × Bool) → List (Driver W)
  jobs_of jobs = map (λ j. j.0) jobs

  abbrev pub taken : List (List (Driver W × Bool)) → List (Driver W)
  taken [] = []
  taken (jobs ∷ workers) = jobs_of jobs ++ taken workers

module _ {W : Type 0} ⦃f : Float W⦄ (equal_fold : String → String → Bool)
    (cfg : FeasibilityConfig W) (ls : List (Load W)) where
  abbrev pub or_none : Result FilterError (List (CandidateArc W)) → List (CandidateArc W)
  or_none (ok arcs) = arcs
  or_none (err e) = []

  abbrev pub arcs_for : Driver W → List (CandidateArc W)
  arcs_for d = or_none (evaluate_loads equal_fold cfg d ls)

  abbrev pub Evaluates : Driver W → Type 0
  Evaluates d = evaluate_loads equal_fold cfg d ls ≡ ok (arcs_for d)

  work-ok :
      (jobs : List (Driver W × Bool)) (arcs : List (CandidateArc W))
      → run_worker equal_fold cfg ls jobs ≡ ok arcs
      → All Evaluates (jobs_of jobs) × (arcs ≡ flat_map arcs_for (jobs_of jobs))
  unfolding run_worker
  work-ok [] arcs h = (tt, cc h)
  work-ok ((d, true) ∷ jobs) arcs h = absurd (cc h)
  work-ok ((d, false) ∷ jobs) arcs h =
      let (a, e, h1) = bind-ok (evaluate_loads equal_fold cfg d ls) _ h in
      let (more, e2, h2) = bind-ok (run_worker equal_fold cfg ls jobs) _ h1 in
      let (all, same) = work-ok jobs more e2 in
      (
        (rw e refl, all),
        sym (ok-injective _ _ h2)
            ∙ ap (λ x. x ++ more) (sym (ap or_none e))
            ∙ ap (λ x. arcs_for d ++ x) same,
      )

  pub collect-ok :
      (schedule : List (List (Driver W × Bool))) (arcs : List (CandidateArc W))
      → collect equal_fold cfg ls schedule ≡ ok arcs
      → All Evaluates (taken schedule) × (arcs ≡ flat_map arcs_for (taken schedule))
  unfolding collect
  collect-ok [] arcs h = (tt, cc h)
  collect-ok (jobs ∷ workers) arcs h =
      let (a, e, h1) = bind-ok (run_worker equal_fold cfg ls jobs) _ h in
      let (more, e2, h2) = bind-ok (collect equal_fold cfg ls workers) _ h1 in
      let (all, same) = work-ok jobs a e in
      let (all2, same2) = collect-ok workers more e2 in
      (
        All-append Evaluates (jobs_of jobs) (taken workers) all all2,
        sym (ok-injective _ _ h2)
            ∙ ap (λ x. x ++ more) same
            ∙ ap (λ x. flat_map arcs_for (jobs_of jobs) ++ x) same2
            ∙ sym (flat_map-append arcs_for (jobs_of jobs) (taken workers)),
      )

  pub flat_map-Has :
      (ds : List (Driver W)) (a : CandidateArc W)
      → All Evaluates ds
      → Has a (flat_map arcs_for ds) ↔ ((d : Driver W) × Has d ds × ArcOf equal_fold cfg d ls a)
  flat_map-Has [] a _ = (λ h. absurd h, λ h. absurd h.1)
  flat_map-Has (d ∷ ds) a (e, es) =
      let (_, have) = evaluate_loads-ok equal_fold cfg d ls (arcs_for d) e in
      let (to, from) = flat_map-Has ds a es in
      (
        λ h. elim (append-Has a (arcs_for d) (flat_map arcs_for ds) h) [
          | inl k ↦ (d, inl refl, (have a).0 k)
          | inr k ↦ let (x, m, c) = to k in (x, inr m, c)
        ],
        λ h.
            Has-append a (arcs_for d) (flat_map arcs_for ds)
              (elim h.1 [ inl q ↦ inl ((have a).1 (rw q h.2)) | inr m ↦ inr (from (h.0, m, h.2)) ]),
      )
