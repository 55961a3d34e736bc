-- ===== src/Journal/Store.antt =====
-- pkg/journal/store.go, `MemoryStore`. An append holds the mutex from its first read to its last
-- write, so that the store is a value and an append a function on it.
pub mod Chain
pub mod Appends
pub mod Verified
pub mod Evidence
pub mod Unhashed
use project_mittens.Prelude.{
  ℕ, Bool, true, false, not, ◌&&◌, String, Option, none, some, List, [], ◌∷◌, ◌++◌, if◌then◌else◌,
  last,
}
use project_mittens.Prelude.Result.{Result, ok, err}
use project_mittens.Prelude.Dict.{Dict, lookup, insert, or_nil, str_eq}
use project_mittens.Float.{Float}
use project_mittens.Journal.Record.{JournalRecord, Payload, genesis_prev_hash, verify_integrity}

pub data JournalError : Type 0 where
  record_not_found corrupted_chain duplicate_record : JournalError

pub record MemoryStore {ℓ} (W : Type ℓ) : Type ℓ where
  pub records_map : Dict (JournalRecord W)
  pub run_map : Dict (List (JournalRecord W))

-- What `VerifyRunChain` returns: an empty run, the hash of an intact one, or the first bad record.
pub data Verdict : Type 0 where
  empty_run : Verdict
  intact : String → Verdict
  broken : String → Verdict

module _ {ℓ} {W : Type ℓ} where
  abbrev pub new_memory_store : MemoryStore W
  new_memory_store = record { records_map = []; run_map = [] }

  abbrev pub is_some : Option (JournalRecord W) → Bool
  is_some none = false
  is_some (some r) = true

  abbrev pub exists? : String → MemoryStore W → Bool
  exists? id s = is_some (lookup id s.records_map)

  -- The link of a record to the one before it in its run.
  abbrev pub links : Option (JournalRecord W) → JournalRecord W → Bool
  links none r = str_eq r.prev_record_hash genesis_prev_hash
  links (some p) r = str_eq r.prev_record_hash p.record_hash

  -- `runMap[runID]`
  abbrev pub run_of : String → MemoryStore W → List (JournalRecord W)
  run_of run_id s = or_nil (lookup run_id s.run_map)

  -- The copy-on-write update.
  unfoldable pub commit : JournalRecord W → MemoryStore W → MemoryStore W
  commit r s = record {
    records_map = insert r.decision_id r s.records_map;
    run_map = insert r.run_id (run_of r.run_id s ++ (r ∷ [])) s.run_map;
  }

  abbrev pub found : Option (JournalRecord W) → Result JournalError (JournalRecord W)
  found none = err record_not_found
  found (some r) = ok r

  unfoldable pub get : MemoryStore W → String → Result JournalError (JournalRecord W)
  get s decision_id = found (lookup decision_id s.records_map)

  unfoldable pub list_by_run : MemoryStore W → String → List (JournalRecord W)
  list_by_run s run_id = run_of run_id s

  unfoldable pub last_record : MemoryStore W → String → Option (JournalRecord W)
  last_record s run_id = last (run_of run_id s)

  -- The records that `VerifyRunChain` falls back on, where it has no others.
  abbrev pub first_of : List (JournalRecord W) → List (JournalRecord W) → List (JournalRecord W)
  first_of [] others = others
  first_of (r ∷ rs) others = r ∷ rs

  unfoldable pub run_of_decision :
      MemoryStore W → Result JournalError (JournalRecord W) → List (JournalRecord W)
  run_of_decision s (ok r) = if str_eq r.run_id "" then [] else list_by_run s r.run_id
  run_of_decision s (err e) = []

  -- The records that `VerifyRunChain` reads: those of the run, or, where there are none, those of
  -- the run of the decision that is named so.
  unfoldable pub records_of : MemoryStore W → String → List (JournalRecord W)
  records_of s run_id = first_of (list_by_run s run_id) (run_of_decision s (get s run_id))

module _ {ℓ} {W : Type ℓ} ⦃f : Float W⦄ (digest : Payload W → String) where
  unfoldable pub append : MemoryStore W → JournalRecord W → Result JournalError (MemoryStore W)
  append s r =
      if not (verify_integrity digest r)
      then err corrupted_chain
      else if exists? r.decision_id s
      then err duplicate_record
      else if not (links (last (run_of r.run_id s)) r)
      then err corrupted_chain
      else ok (commit r s)

  -- The loop of `VerifyRunChain`, after the record `prev`.
  unfoldable pub verify_from : Option (JournalRecord W) → String → List (JournalRecord W) → Verdict
  verify_from prev hash [] = intact hash
  verify_from prev hash (r ∷ rs) =
      let rest = verify_from (some r) r.record_hash rs in
      if not (verify_integrity digest r)
      then broken r.decision_id
      else if not (links prev r)
      then broken r.decision_id
      else rest

  unfoldable pub verify_records : List (JournalRecord W) → Verdict
  unfolding verify_from
  verify_records [] = empty_run
  verify_records (r ∷ rs) = verify_from none "" (r ∷ rs)

  unfoldable pub verify_run_chain : MemoryStore W → String → Verdict
  unfolding verify_records records_of
  verify_run_chain s run_id = verify_records (records_of s run_id)
