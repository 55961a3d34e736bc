-- ===== src/Fleet/Transition/Refusals.antt =====
-- `Transition` beside `ValidateFeasibility`: what each of them refuses.
use project_mittens.Prelude.{
  ◌≡◌, ◌↔◌, refl, sym, ap, ◌∙◌, inl, inr, Bool, true, Option, none, some, List, [], ◌∷◌, Bool-cases,
}
use project_mittens.Prelude.Result.{Result, ok, err}
use project_mittens.Prelude.Dict.{Dict, insert}
use project_mittens.Prelude.Seen.{seen}
use project_mittens.Float.{Float}
use project_mittens.Fleet.Resource.{
  ModelError, Driver, Load, DriverLoadMatch, ResourceState, is_idle, get_driver, get_load,
}
use project_mittens.Fleet.Action.{
  check_load, check_driver, or_else, validate_matches, validate_bids, validate_feasibility,
}
use project_mittens.Fleet.Transition.{load_exists, driver_exists, check_matches, transition}

abbrev pub error_of : {A : Type 0} → Result ModelError A → Option ModelError
error_of (ok a) = none
error_of (err e) = some e

or_else_nil : (o : Option ModelError) → or_else o none ≡ o
or_else_nil none = refl
or_else_nil (some e) = refl

module _ {W : Type 0} where
  load_exists-check_load :
      (o : Option (Load W)) (r : Result ModelError (Dict Bool))
      → check_load o (error_of r) ≡ error_of (load_exists o r)
  load_exists-check_load none r = refl
  load_exists-check_load (some l) r = refl

  driver_exists-check_driver :
      (o : Option (Driver W)) (r : Result ModelError (Dict Bool))
      → check_driver o (error_of r) ≡ error_of (driver_exists o r)
  driver_exists-check_driver none r = refl
  driver_exists-check_driver (some d) r = elim (Bool-cases (is_idle d)) [
    | inl e ↦ rw e refl
    | inr e ↦ rw e refl
  ]

  -- The two loops over the matches find the same first error.
  pub check_matches-validate_matches :
      (rs : ResourceState W) (sd sl : Dict Bool) (ms : List (DriverLoadMatch W))
      → validate_matches rs sd sl ms ≡ error_of (check_matches rs sd sl ms)
  unfolding validate_matches check_matches
  check_matches-validate_matches rs sd sl [] = refl
  check_matches-validate_matches rs sd sl (m ∷ ms) = elim (Bool-cases (seen m.driver_id sd)) [
    | inl s ↦ rw s refl
    | inr s ↦ elim (Bool-cases (seen m.load_id sl)) [
      | inl t ↦ rw (s, t) refl
      | inr t ↦
          rw (s, t)
            (ap
                (λ x.
                  check_driver (get_driver rs m.driver_id) (check_load (get_load rs m.load_id) x))
                (check_matches-validate_matches rs (insert m.driver_id true sd)
                  (insert m.load_id true sl) ms)
              ∙ ap (check_driver (get_driver rs m.driver_id)) (
                  load_exists-check_load (get_load rs m.load_id)
                    (check_matches rs (insert m.driver_id true sd) (insert m.load_id true sl) ms))
              ∙ driver_exists-check_driver (get_driver rs m.driver_id) (
                  load_exists (get_load rs m.load_id)
                    (check_matches rs (insert m.driver_id true sd) (insert m.load_id true sl) ms)))
    ]
  ]

module _ {W : Type 0} ⦃f : Float W⦄ where
  transition-error_of :
      (rs : ResourceState W) (ms : List (DriverLoadMatch W)) (new_loads : List (Load W))
      → error_of (transition rs ms new_loads) ≡ error_of (check_matches rs [] [] ms)
  unfolding transition
  transition-error_of rs ms new_loads = by_check (check_matches rs [] [] ms) refl
    where
      by_check :
          (o : Result ModelError (Dict Bool))
          → check_matches rs [] [] ms ≡ o
          → error_of (transition rs ms new_loads) ≡ error_of o
      by_check (ok s) e = rw (transition, e) refl
      by_check (err x) e = rw (transition, e) refl

  -- A transition fails exactly where the validator refuses the action that has these matches and no
  -- bids, and with the same kind of error.
  pub transition-validate_feasibility :
      (rs : ResourceState W) (ms : List (DriverLoadMatch W)) (new_loads : List (Load W))
      (e : ModelError)
      → (transition rs ms new_loads ≡ err e)
        ↔ (validate_feasibility (record { matches = ms; bids = [] }) (some rs) ≡ some e)
  unfolding validate_feasibility validate_bids
  transition-validate_feasibility rs ms new_loads e =
      let same =
        or_else_nil (validate_matches rs [] [] ms)
        ∙ check_matches-validate_matches rs [] [] ms
        ∙ sym (transition-error_of rs ms new_loads) in
      (λ h. same ∙ ap error_of h, λ h. by_result (transition rs ms new_loads) (sym same ∙ h))
    where
      by_result : (o : Result ModelError (ResourceState W)) → error_of o ≡ some e → o ≡ err e
      by_result (ok a) h = absurd (cc h)
      by_result (err x) h = cc h
