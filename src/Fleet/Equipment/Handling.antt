-- ===== src/Fleet/Equipment/Handling.antt =====
-- `CanHandle` as a condition on the equipment and the load.
use text.Mathlib.TextEquality.{eq_iff}
use project_mittens.Prelude.{
  ◌≡◌, ◌↔◌, ◌⊎◌, refl, sym, ap, ◌∙◌, inl, inr, Bool, true, false, not, String, List, [], ◌∷◌, All,
  Has, Bool-cases, arith, if◌then◌else◌,
}
use project_mittens.Fleet.Resource.{Equipment}
use project_mittens.Fleet.Equipment.{
  equip_dry_van, equip_reefer, equip_any, handles_type, any_equal, has_endorsement, has_all,
  can_handle,
}

-- No type is asked for, or any will do, or this one is asked for, or it is a reefer for dry freight.
abbrev pub Suits : Equipment → String → Type 0
Suits e required_type =
    (required_type ≡ "")
    ⊎ (required_type ≡ equip_any)
    ⊎ (e.type ≡ required_type)
    ⊎ ((required_type ≡ equip_dry_van) × (e.type ≡ equip_reefer))

handles_type-Suits :
    (e : Equipment) (required_type : String)
    → (handles_type e required_type ≡ true) ↔ Suits e required_type
unfolding handles_type
handles_type-Suits e r = (
  λ h. ground (
    arith,
    eq_iff r "",
    eq_iff r equip_any,
    eq_iff r equip_dry_van,
    eq_iff e.type equip_dry_van,
    eq_iff e.type equip_reefer,
    eq_iff e.type r,
  ),
  λ h. ground (
    arith,
    eq_iff r "",
    eq_iff r equip_any,
    eq_iff r equip_dry_van,
    eq_iff e.type equip_dry_van,
    eq_iff e.type equip_reefer,
    eq_iff e.type r,
  ),
)

module _ (equal_fold : String → String → Bool) where
  any_equal-Has :
      (ends : List String) (target : String)
      → (any_equal equal_fold ends target ≡ true)
        ↔ ((end : String) × Has end ends × (equal_fold end target ≡ true))
  unfolding any_equal
  any_equal-Has [] target = (λ h. absurd (cc h), λ h. absurd (h.1))
  any_equal-Has (x ∷ xs) target =
      let (to, from) = any_equal-Has xs target in by_test to from (Bool-cases (equal_fold x target))
    where
      by_test :
          (any_equal equal_fold xs target ≡ true
            → (end : String) × Has end xs × (equal_fold end target ≡ true))
          → ((end : String) × Has end xs × (equal_fold end target ≡ true)
              → any_equal equal_fold xs target ≡ true)
          → (equal_fold x target ≡ true) ⊎ (equal_fold x target ≡ false)
          → ((if equal_fold x target then true else any_equal equal_fold xs target) ≡ true)
            ↔ ((end : String) × Has end (x ∷ xs) × (equal_fold end target ≡ true))
      by_test to from (inl e) = rw e (λ h. (x, inl refl, e), λ h. refl)
      by_test to from (inr n) = rw n (
        λ h. let (y, k, q) = to h in (y, inr k, q),
        λ h. elim h.1 [
          | inl q ↦ absurd (cc (sym n ∙ ap (λ z. equal_fold z target) q ∙ h.2))
          | inr k ↦ from (h.0, k, h.2)
        ],
      )

  -- One of the equipment's endorsements is the one asked for.
  abbrev pub Endorsed : Equipment → String → Type 0
  Endorsed e target = (end : String) × Has end e.endorsements × (equal_fold end target ≡ true)

  has_all-Endorsed :
      (e : Equipment) (required : List String)
      → (has_all equal_fold e required ≡ true) ↔ All (Endorsed e) required
  unfolding has_all has_endorsement
  has_all-Endorsed e [] = (λ h. tt, λ h. refl)
  has_all-Endorsed e (r ∷ rs) =
      let (to, from) = has_all-Endorsed e rs in
      let (one_to, one_from) = any_equal-Has e.endorsements r in
      by_test to from one_to one_from (Bool-cases (any_equal equal_fold e.endorsements r))
    where
      by_test :
          (has_all equal_fold e rs ≡ true → All (Endorsed e) rs)
          → (All (Endorsed e) rs → has_all equal_fold e rs ≡ true)
          → (any_equal equal_fold e.endorsements r ≡ true → Endorsed e r)
          → (Endorsed e r → any_equal equal_fold e.endorsements r ≡ true)
          → (any_equal equal_fold e.endorsements r ≡ true)
            ⊎ (any_equal equal_fold e.endorsements r ≡ false)
          → ((if not (any_equal equal_fold e.endorsements r)
                then false
                else has_all equal_fold e rs)
              ≡ true)
            ↔ (Endorsed e r × All (Endorsed e) rs)
      by_test to from one_to one_from (inl q) = rw q (λ h. (one_to q, to h), λ h. from h.1)
      by_test to from one_to one_from (inr n) =
          rw n (λ h. absurd (cc h), λ h. absurd (cc (sym n ∙ one_from h.0)))

  -- Equipment can handle a load exactly when its type suits and it has each endorsement that is
  -- required. A type suits that is the required one, a reefer where a dry van is required, and
  -- every type where none or any is required.
  pub can_handle_lem :
      (e : Equipment) (required_type : String) (required : List String)
      → (can_handle equal_fold e required_type required ≡ true)
        ↔ (Suits e required_type × All (Endorsed e) required)
  unfolding can_handle
  can_handle_lem e r rs =
      let (to, from) = handles_type-Suits e r in
      let (all_to, all_from) = has_all-Endorsed e rs in
      by_test to from all_to all_from (Bool-cases (handles_type e r))
    where
      by_test :
          (handles_type e r ≡ true → Suits e r)
          → (Suits e r → handles_type e r ≡ true)
          → (has_all equal_fold e rs ≡ true → All (Endorsed e) rs)
          → (All (Endorsed e) rs → has_all equal_fold e rs ≡ true)
          → (handles_type e r ≡ true) ⊎ (handles_type e r ≡ false)
          → ((if handles_type e r then has_all equal_fold e rs else false) ≡ true)
            ↔ (Suits e r × All (Endorsed e) rs)
      by_test to from all_to all_from (inl q) = rw q (λ h. (to q, all_to h), λ h. all_from h.1)
      by_test to from all_to all_from (inr n) =
          rw n (λ h. absurd (cc h), λ h. absurd (cc (sym n ∙ from h.0)))
