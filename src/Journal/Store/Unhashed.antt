-- ===== src/Journal/Store/Unhashed.antt =====
-- What the hashes of a run do not cover.
use mathlib.Core.Option
use project_mittens.Prelude.{
  ℕ, ◌≡◌, refl, not, String, Option, none, some, List, [], ◌∷◌, ap, map, if◌then◌else◌,
}
use project_mittens.Prelude.Int.{ℤ}
use project_mittens.Float.{Float}
use project_mittens.Journal.Record.{JournalRecord, Payload, compute_record_hash, verify_integrity}
use project_mittens.Journal.Store.{broken, links, verify_from, verify_records}

-- What of a record is not hashed.
pub record Unhashed : Type 0 where
  pub resource_state_bytes : List ℕ
  pub information_state_bytes : List ℕ
  pub belief_state_bytes : List ℕ
  pub action_bytes : List ℕ
  pub matched_count : ℤ
  pub evaluated_arcs_count : ℤ
  pub realized_observations_bytes : List ℕ
  pub next_resource_state_bytes : List ℕ
  pub next_information_state_bytes : List ℕ
  pub next_belief_state_bytes : List ℕ

module _ {W : Type 0} where
  -- A record with the bytes and counts that `g` gives it in place of its own.
  abbrev pub rewritten : (JournalRecord W → Unhashed) → JournalRecord W → JournalRecord W
  rewritten g r = record r {
    resource_state_bytes = (g r).resource_state_bytes;
    information_state_bytes = (g r).information_state_bytes;
    belief_state_bytes = (g r).belief_state_bytes;
    action_bytes = (g r).action_bytes;
    matched_count = (g r).matched_count;
    evaluated_arcs_count = (g r).evaluated_arcs_count;
    realized_observations_bytes = (g r).realized_observations_bytes;
    next_resource_state_bytes = (g r).next_resource_state_bytes;
    next_information_state_bytes = (g r).next_information_state_bytes;
    next_belief_state_bytes = (g r).next_belief_state_bytes;
  }

module _ {W : Type 0} ⦃f : Float W⦄ (digest : Payload W → String) where
  verify_from-rewritten :
      (g : JournalRecord W → Unhashed) (prev : Option (JournalRecord W)) (h : String)
      (rs : List (JournalRecord W))
      → verify_from digest (Option.map (rewritten g) prev) h (map (rewritten g) rs)
        ≡ verify_from digest prev h rs
  unfolding verify_from verify_integrity compute_record_hash
  verify_from-rewritten g prev h [] = refl
  verify_from-rewritten g none h (r ∷ rs) =
      ap
        (λ rest.
          if not (verify_integrity digest r)
          then broken r.decision_id
          else if not (links none r)
          then broken r.decision_id
          else rest)
        (verify_from-rewritten g (some r) r.record_hash rs)
  verify_from-rewritten g (some p) h (r ∷ rs) =
      ap
        (λ rest.
          if not (verify_integrity digest r)
          then broken r.decision_id
          else if not (links (some p) r)
          then broken r.decision_id
          else rest)
        (verify_from-rewritten g (some r) r.record_hash rs)

  -- No verdict depends on the snapshots of states, actions and observations or on the two counts:
  -- they can be replaced throughout a run, in each record by others of its own.
  pub verify_records-rewritten :
      (g : JournalRecord W → Unhashed) (rs : List (JournalRecord W))
      → verify_records digest (map (rewritten g) rs) ≡ verify_records digest rs
  unfolding verify_records
  verify_records-rewritten g [] = refl
  verify_records-rewritten g (r ∷ rs) = verify_from-rewritten g none "" (r ∷ rs)
