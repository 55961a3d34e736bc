-- ===== src/Fleet/Resource/Lookup.antt =====
-- What a state that has been made from drivers and loads finds.
use project_mittens.Prelude.{◌≡◌, ◌≢◌, ◌⊎◌, inl, inr, String, none, some, List, All}
use project_mittens.Prelude.Keyed.{fetch-index}
use project_mittens.Prelude.Sorting.{str_lt, sort_by, sort_by-All}
use project_mittens.Fleet.Resource.{Driver, Load, new_resource_state, get_driver, get_load}

module _ {W : Type 0} where
  -- Asked for a driver, a new state has one with that id, or none of those that it was made from
  -- has it; and the same for a load.
  pub new_resource_state_lem :
      (drivers : List (Driver W)) (loads : List (Load W)) (id : String)
      → (((get_driver (new_resource_state drivers loads) id ≡ none) × All (λ d. d.id ≢ id) drivers)
          ⊎ ((d : Driver W) × (get_driver (new_resource_state drivers loads) id ≡ some d)
              × (d.id ≡ id)))
        × (((get_load (new_resource_state drivers loads) id ≡ none) × All (λ l. l.id ≢ id) loads)
            ⊎ ((l : Load W) × (get_load (new_resource_state drivers loads) id ≡ some l)
                × (l.id ≡ id)))
  unfolding get_driver get_load new_resource_state
  new_resource_state_lem drivers loads id = (
    elim (fetch-index (λ d. d.id) (sort_by (λ a b. str_lt a.id b.id) drivers) id) [
      | inl (e, a) ↦ inl (e, sort_by-All (λ a b. str_lt a.id b.id) (λ d. d.id ≢ id) drivers a)
      | inr (k, d, _, _, e, q) ↦ inr (d, e, q)
    ],
    elim (fetch-index (λ l. l.id) (sort_by (λ a b. str_lt a.id b.id) loads) id) [
      | inl (e, a) ↦ inl (e, sort_by-All (λ a b. str_lt a.id b.id) (λ l. l.id ≢ id) loads a)
      | inr (k, l, _, _, e, q) ↦ inr (l, e, q)
    ],
  )
