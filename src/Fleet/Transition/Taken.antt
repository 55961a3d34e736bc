-- ===== src/Fleet/Transition/Taken.antt =====
-- Which loads the matches of a transition take.
use text.Mathlib.TextEquality.{eq_iff}
use project_mittens.Prelude.{
  ◌≡◌, ◌↔◌, ◌⊎◌, refl, sym, ap, ◌∙◌, inl, inr, Bool, true, false, String, Option, none, some, List,
  [], ◌∷◌, map, Has, Bool-cases, if◌then◌else◌,
}
use project_mittens.Prelude.Result.{Result, ok, ok-injective}
use project_mittens.Prelude.Dict.{Dict, insert, str_eq}
use project_mittens.Prelude.Seen.{seen, seen-insert}
use project_mittens.Fleet.Resource.{
  ModelError, Driver, Load, DriverLoadMatch, ResourceState, is_idle, get_driver, get_load,
}
use project_mittens.Fleet.Transition.{load_exists, driver_exists, check_matches, unmatched}

insert-seen :
    (k j : String) (d : Dict Bool)
    → (seen j (insert k true d) ≡ true) ↔ ((seen j d ≡ true) ⊎ (k ≡ j))
insert-seen k j d = (
  λ h. elim (Bool-cases (str_eq k j)) [
    | inl e ↦ inr ((eq_iff k j).0 e)
    | inr e ↦ inl (rw e at (sym (seen-insert k j d) ∙ h))
  ],
  λ h. seen-insert k j d ∙ elim (Bool-cases (str_eq k j)) [
    | inl e ↦ rw e refl
    | inr e ↦ rw e (elim h [ inl s ↦ s | inr q ↦ absurd (cc (sym e ∙ (eq_iff k j).1 q)) ])
  ],
)

module _ {W : Type 0} where
  load_exists-ok :
      (o : Option (Load W)) (r : Result ModelError (Dict Bool)) (s : Dict Bool)
      → load_exists o r ≡ ok s
      → r ≡ ok s
  load_exists-ok none r s e = absurd (cc e)
  load_exists-ok (some l) r s e = e

  driver_exists-ok :
      (o : Option (Driver W)) (r : Result ModelError (Dict Bool)) (s : Dict Bool)
      → driver_exists o r ≡ ok s
      → r ≡ ok s
  driver_exists-ok none r s e = absurd (cc e)
  driver_exists-ok (some d) r s e = elim (Bool-cases (is_idle d)) [
    | inl i ↦ rw i at e
    | inr i ↦ absurd (cc (rw i at e))
  ]

  abbrev pub load_ids : List (DriverLoadMatch W) → List String
  load_ids ms = map (λ m. m.load_id) ms

  check_matches-ok :
      (rs : ResourceState W) (sd sl s : Dict Bool) (m : DriverLoadMatch W)
      (ms : List (DriverLoadMatch W))
      → check_matches rs sd sl (m ∷ ms) ≡ ok s
      → check_matches rs (insert m.driver_id true sd) (insert m.load_id true sl) ms ≡ ok s
  unfolding check_matches
  check_matches-ok rs sd sl s m ms e = elim (Bool-cases (seen m.driver_id sd)) [
    | inl d ↦ absurd (cc (rw d at e))
    | inr d ↦ elim (Bool-cases (seen m.load_id sl)) [
      | inl t ↦ absurd (cc (rw (d, t) at e))
      | inr t ↦
          load_exists-ok (get_load rs m.load_id) _ s
            (driver_exists-ok (get_driver rs m.driver_id) _ s (rw (d, t) at e))
    ]
  ]

  -- The loads that the first loop answers are those of the matches.
  pub check_matches-seen :
      (rs : ResourceState W) (sd sl s : Dict Bool) (ms : List (DriverLoadMatch W)) (j : String)
      → check_matches rs sd sl ms ≡ ok s
      → (seen j s ≡ true) ↔ ((seen j sl ≡ true) ⊎ Has j (load_ids ms))
  unfolding check_matches
  check_matches-seen rs sd sl s [] j e =
      let same = ok-injective sl s e in
      (
        λ h. inl (ap (seen j) same ∙ h),
        λ h. elim h [ inl k ↦ sym (ap (seen j) same) ∙ k | inr k ↦ absurd k ],
      )
  check_matches-seen rs sd sl s (m ∷ ms) j e =
      let (to, from) =
        check_matches-seen rs (insert m.driver_id true sd) (insert m.load_id true sl) s ms j
          (check_matches-ok rs sd sl s m ms e) in
      let (in_to, in_from) = insert-seen m.load_id j sl in
      (
        λ h. elim (to h) [
          | inl k ↦ elim (in_to k) [ inl a ↦ inl a | inr q ↦ inr (inl q) ]
          | inr k ↦ inr (inr k)
        ],
        λ h. from (elim h [
          | inl a ↦ inl (in_from (inl a))
          | inr (inl q) ↦ inl (in_from (inr q))
          | inr (inr k) ↦ inr k
        ]),
      )

  pub unmatched-Has :
      (s : Dict Bool) (ls : List (Load W)) (l : Load W)
      → Has l (unmatched s ls) ↔ (Has l ls × (seen l.id s ≡ false))
  unfolding unmatched
  unmatched-Has s [] l = (λ h. absurd h, λ h. h.0)
  unmatched-Has s (x ∷ xs) l = by_test (unmatched-Has s xs l) (Bool-cases (seen x.id s))
    where
      by_test :
          (Has l (unmatched s xs) ↔ (Has l xs × (seen l.id s ≡ false)))
          → (seen x.id s ≡ true) ⊎ (seen x.id s ≡ false)
          → Has l (if seen x.id s then unmatched s xs else x ∷ unmatched s xs)
            ↔ (((x ≡ l) ⊎ Has l xs) × (seen l.id s ≡ false))
      by_test (to, from) (inl t) = rw t (
        λ h. let (a, b) = to h in (inr a, b),
        λ h. elim h.0 [
          | inl q ↦ absurd (cc (sym t ∙ ap (λ y. seen y.id s) q ∙ h.1))
          | inr k ↦ from (k, h.1)
        ],
      )
      by_test (to, from) (inr t) = rw t (
        λ h. elim h [
          | inl q ↦ (inl q, sym (ap (λ y. seen y.id s) q) ∙ t)
          | inr k ↦ let (a, b) = to k in (inr a, b)
        ],
        λ h. elim h.0 [ inl q ↦ inl q | inr k ↦ inr (from (k, h.1)) ],
      )
