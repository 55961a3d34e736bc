-- ===== src/Fleet/Transition/Effect.antt =====
-- What a transition does to the drivers and loads.
use mathlib.Core.Path.{subst}
use project_mittens.Prelude.{
  ℕ, zero, suc, ◌≡◌, ◌↔◌, ◌⊎◌, refl, sym, ap, ◌∙◌, inl, inr, Bool, String, Option, none, some, List,
  [], ◌∷◌, ◌++◌, map, length, Has, append-Has, Has-append, Bool-cases,
}
use project_mittens.Prelude.Result.{Result, ok, err}
use project_mittens.Prelude.Dict.{Dict, lookup}
use project_mittens.Prelude.Keyed.{nth, put}
use project_mittens.Prelude.Sorting.{sort_by-Has, length-sort_by, str_lt, sort_by}
use project_mittens.Prelude.Seen.{seen}
use project_mittens.Float.{Float}
use project_mittens.Fleet.Resource.{
  ModelError, Driver, Load, DriverLoadMatch, ResourceState, new_resource_state,
}
use project_mittens.Fleet.Transition.Taken.{load_ids, check_matches-seen, unmatched-Has}
use project_mittens.Fleet.Transition.{
  check_matches, unmatched, dispatched, write_driver, index_or_0, dispatch_matches, carried_out,
  transition,
}

module _ {A : Type 0} {B : Type 0} (g : A → B) where
  map-Has : (b : B) (xs : List A) → Has b (map g xs) → (x : A) × Has x xs × (g x ≡ b)
  map-Has b [] h = absurd h
  map-Has b (x ∷ xs) (inl e) = (x, inl refl, e)
  map-Has b (x ∷ xs) (inr h) = let (y, k, e) = map-Has b xs h in (y, inr k, e)

  Has-map : (b : B) (x : A) (xs : List A) → Has x xs → g x ≡ b → Has b (map g xs)
  Has-map b x (y ∷ ys) (inl e) q = inl (ap g e ∙ q)
  Has-map b x (y ∷ ys) (inr h) q = inr (Has-map b x ys h q)
  Has-map b x [] h q = absurd h

module _ {W : Type 0} where
  abbrev pub ids : List (Driver W) → List String
  ids ds = map (λ d. d.id) ds

  put-ids :
      (xs : List (Driver W)) (i : ℕ) (d y : Driver W)
      → nth xs i ≡ some d
      → y.id ≡ d.id
      → ids (put xs i y) ≡ ids xs
  put-ids [] i d y e q = refl
  put-ids (x ∷ xs) zero d y e q =
      let same : x ≡ d = cc in ap (λ z. z ∷ ids xs) (q ∙ sym (ap (λ z. z.id) same))
  put-ids (x ∷ xs) (suc i) d y e q = ap (λ zs. x.id ∷ zs) (put-ids xs i d y e q)

module _ {W : Type 0} ⦃f : Float W⦄ where
  write_driver-ids :
      (m : DriverLoadMatch W) (i : ℕ) (o : Option (Driver W)) (load : Option (Load W))
      (xs : List (Driver W))
      → nth xs i ≡ o
      → ids (write_driver m i o load xs) ≡ ids xs
  unfolding dispatched
  write_driver-ids m i none load xs e = refl
  write_driver-ids m i (some d) none xs e = refl
  write_driver-ids m i (some d) (some load) xs e = put-ids xs i d (dispatched m load d) e refl

  dispatch_matches-ids :
      (rs : ResourceState W) (ms : List (DriverLoadMatch W)) (xs : List (Driver W))
      → ids (dispatch_matches rs ms xs) ≡ ids xs
  unfolding dispatch_matches
  dispatch_matches-ids rs [] xs = refl
  dispatch_matches-ids rs (m ∷ ms) xs =
      let i = index_or_0 (lookup m.driver_id rs.driver_index) in
      let load = nth rs.loads (index_or_0 (lookup m.load_id rs.load_index)) in
      dispatch_matches-ids rs ms (write_driver m i (nth xs i) load xs)
      ∙ write_driver-ids m i (nth xs i) load xs refl

  length-ids : (xs : List (Driver W)) → length (ids xs) ≡ length xs
  length-ids [] = refl
  length-ids (x ∷ xs) = ap suc (length-ids xs)

  -- The ids of sorted drivers are those of the drivers.
  sorted-ids :
      (xs : List (Driver W)) (i : String)
      → Has i (ids (sort_by (λ a b. str_lt a.id b.id) xs)) ↔ Has i (ids xs)
  sorted-ids xs i = (
    λ h.
        let (x, k, e) = map-Has (λ d. d.id) i (sort_by (λ a b. str_lt a.id b.id) xs) h in
        Has-map (λ d. d.id) i x xs ((sort_by-Has (λ a b. str_lt a.id b.id) x xs).0 k) e,
    λ h.
        let (x, k, e) = map-Has (λ d. d.id) i xs h in
        Has-map (λ d. d.id) i x (sort_by (λ a b. str_lt a.id b.id) xs)
          ((sort_by-Has (λ a b. str_lt a.id b.id) x xs).1 k) e,
  )

  -- What a transition leaves: as many drivers as before, under the same ids; and for loads just the
  -- new ones and those before that no match has taken.
  abbrev pub IsEffect :
      ResourceState W → List (DriverLoadMatch W) → List (Load W) → ResourceState W → Type 0
  IsEffect rs ms new_loads t =
      (length t.drivers ≡ length rs.drivers)
      × ((i : String) → Has i (ids t.drivers) ↔ Has i (ids rs.drivers))
      × ((l : Load W)
          → Has l t.loads ↔ (Has l new_loads ⊎ (Has l rs.loads × ¬ (Has l.id (load_ids ms)))))

  new-IsEffect :
      (rs : ResourceState W) (ms : List (DriverLoadMatch W)) (new_loads : List (Load W))
      (s : Dict Bool)
      → check_matches rs [] [] ms ≡ ok s
      → IsEffect rs ms new_loads (
          new_resource_state
            (dispatch_matches rs ms rs.drivers)
            (unmatched s rs.loads ++ new_loads))
  unfolding new_resource_state lookup
  new-IsEffect rs ms new_loads s e = (
    length-sort_by (λ a b. str_lt a.id b.id) (dispatch_matches rs ms rs.drivers)
        ∙ sym (length-ids (dispatch_matches rs ms rs.drivers))
        ∙ ap length (dispatch_matches-ids rs ms rs.drivers)
        ∙ length-ids rs.drivers,
    λ i.
        let (to, from) = sorted-ids (dispatch_matches rs ms rs.drivers) i in
        let same = dispatch_matches-ids rs ms rs.drivers in
        (λ h. subst (Has i) same (to h), λ h. from (subst (Has i) (sym same) h)),
    λ l.
        let all = unmatched s rs.loads ++ new_loads in
        let (to, from) = sort_by-Has (λ a b. str_lt a.id b.id) l all in
        let (u_to, u_from) = unmatched-Has s rs.loads l in
        let (s_to, s_from) = check_matches-seen rs [] [] s ms l.id e in
        (
          λ h. elim (append-Has l (unmatched s rs.loads) new_loads (to h)) [
            | inr n ↦ inl n
            | inl u ↦ let (old, free) = u_to u in inr (old, λ k. cc (sym free ∙ s_from (inr k)))
          ],
          λ h. from (
              Has-append l (unmatched s rs.loads) new_loads (elim h [
                | inl n ↦ inr n
                | inr (old, free) ↦ inl (
                    u_from (
                      old,
                      elim (Bool-cases (seen l.id s)) [
                        | inr q ↦ q
                        | inl q ↦ elim (s_to q) [ inl x ↦ absurd (cc x) | inr k ↦ absurd (free k) ]
                      ],
                    ))
              ])),
        ),
  )

  -- A transition that succeeds leaves as many drivers as before, under the same ids; the loads
  -- afterwards are just the new ones and those before whose ids are in no match.
  pub transition-IsEffect :
      (rs t : ResourceState W) (ms : List (DriverLoadMatch W)) (new_loads : List (Load W))
      → transition rs ms new_loads ≡ ok t
      → IsEffect rs ms new_loads t
  unfolding transition
  transition-IsEffect rs t ms new_loads = by_check (check_matches rs [] [] ms) refl
    where
      state-injective :
          (a b : ResourceState W)
          → ◌≡◌ {A = Result ModelError (ResourceState W)} (ok a) (ok b)
          → a ≡ b
      state-injective a b q = cc

      by_check :
          (o : Result ModelError (Dict Bool))
          → check_matches rs [] [] ms ≡ o
          → carried_out rs ms new_loads o ≡ ok t
          → IsEffect rs ms new_loads t
      by_check (err x) c e = absurd (cc e)
      by_check (ok s) c e =
          subst (IsEffect rs ms new_loads) (state-injective _ t e)
            (new-IsEffect rs ms new_loads s c)
