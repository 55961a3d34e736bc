-- ===== src/Tests/JournalTests.antt =====
-- A journal of two records, with a digest that is no more than the chained ids.
use Prim.Native.String.{◌++◌ as joined}
use text.Mathlib.TextEquality.{eq_iff}
use mathlib.Core.Path.{subst}
use project_mittens.Prelude.{
  ℕ, ◌<◌, ◌≡◌, ◌≢◌, ◌⊎◌, refl, sym, ap, ◌∙◌, inl, inr, String, Option, none, some, List, [], ◌∷◌,
  All, arith, last, map, if◌then◌else◌,
}
use project_mittens.Prelude.Int.{pos}
use project_mittens.Prelude.Result.{ok}
use project_mittens.Prelude.Dict.{lookup, str_eq}
use project_mittens.Float.{whole}
use project_mittens.Journal.Record.{
  JournalRecord, Payload, payload, compute_record_hash, seal, verify_integrity, genesis_prev_hash,
}
use project_mittens.Journal.Store.{
  new_memory_store, append, commit, records_of, verify_records, verify_run_chain, empty_run, intact,
  broken, duplicate_record,
}
use project_mittens.Journal.Store.Chain.{IsChain, last_hash, FirstBad, verify_records_lem}
use project_mittens.Journal.Store.Appends.{Built, empty, appended, IsChained, IsIndexed, Built-lem}
use project_mittens.Journal.Store.Verified.{verify_run_chain-Built}
use project_mittens.Journal.Store.Evidence.{SameDecisions, verify_records-evidence}
use project_mittens.Journal.Store.Unhashed.{Unhashed, rewritten, verify_records-rewritten}
use project_mittens.Journal.File.{
  FileStore, journal, failed_writing, failed_syncing, write_fails, succeeds, append_to_file,
  load_from_file, max_line,
}
use project_mittens.Journal.File.Reload.{
  IsPersisted, append_to_file-IsPersisted, append_to_file-retry,
}

abbrev digest : Payload ℕ → String
digest p = joined (joined "#" p.decision_id) p.prev_record_hash

abbrev draft : String → String → JournalRecord ℕ
draft id prev = record {
  run_id = "run";
  epoch = pos 1;
  batch_seq = pos 1;
  decision_id = id;
  prev_record_hash = prev;
  record_hash = "";
  runtime_version = "";
  policy_name = "cfa";
  policy_param_hash = "p";
  initial_state_hash = "s0";
  resource_state_bytes = 1 ∷ [];
  information_state_bytes = [];
  belief_state_bytes = [];
  action_hash = "x";
  action_bytes = 2 ∷ [];
  matched_count = pos 3;
  evaluated_arcs_count = pos 9;
  total_net_contribution = 700;
  realized_observations_bytes = [];
  next_state_hash = "s1";
  next_resource_state_bytes = [];
  next_information_state_bytes = [];
  next_belief_state_bytes = [];
}

abbrev first : JournalRecord ℕ
first = record (draft "d1" genesis_prev_hash) {
  record_hash = joined "#d1" genesis_prev_hash;
  runtime_version = "v";
}

abbrev second : JournalRecord ℕ
second = record (draft "d2" first.record_hash) {
  record_hash = joined "#d2" first.record_hash;
  runtime_version = "v";
}

abbrev both : List (JournalRecord ℕ)
both = first ∷ second ∷ []

first_verifies : append digest new_memory_store first ≡ ok (commit first new_memory_store)
unfolding append verify_integrity compute_record_hash lookup
first_verifies = refl

both_verify : verify_records digest both ≡ intact second.record_hash
unfolding verify_records verify_integrity compute_record_hash
both_verify = refl

sealed_digest : compute_record_hash digest (seal digest (draft "d1" "")) ≢ ""
unfolding compute_record_hash seal
sealed_digest = ground (arith, eq_iff (joined "#d1" genesis_prev_hash) "")

verify_records_lem_example :
    ((both ≡ []) × (verify_records digest both ≡ empty_run))
    ⊎ ((both ≢ [])
        × IsChain digest none both
        × (verify_records digest both ≡ intact (last_hash "" both)))
    ⊎ ((id : String) × FirstBad digest none id both × (verify_records digest both ≡ broken id))
verify_records_lem_example = verify_records_lem digest both

first-Built : Built digest (commit first new_memory_store)
first-Built = appended first empty first_verifies

Built-lem_example :
    IsChained digest (commit first new_memory_store)
    × IsIndexed digest (commit first new_memory_store)
Built-lem_example = Built-lem digest (commit first new_memory_store) first-Built

verify_run_chain-Built_example :
    ((records_of (commit first new_memory_store) "run" ≡ [])
      × (verify_run_chain digest (commit first new_memory_store) "run" ≡ empty_run))
    ⊎ ((r : JournalRecord ℕ) × (last (records_of (commit first new_memory_store) "run") ≡ some r)
        × (verify_run_chain digest (commit first new_memory_store) "run" ≡ intact r.record_hash))
verify_run_chain-Built_example =
    verify_run_chain-Built digest (commit first new_memory_store) "run" first-Built

-- The records whose hashed values are those of one of the two.
abbrev Honest : JournalRecord ℕ → Type 0
Honest r = (payload r ≡ payload first) ⊎ (payload r ≡ payload second)

digests_differ : digest (payload first) ≢ digest (payload second)
unfolding payload
digests_differ =
    ground (arith, eq_iff (joined "#d1" genesis_prev_hash) (joined "#d2" first.record_hash))

Honest-collision_free :
    (r t : JournalRecord ℕ)
    → Honest r
    → Honest t
    → digest (payload r) ≡ digest (payload t)
    → payload r ≡ payload t
Honest-collision_free r t (inl p) (inl q) e = p ∙ sym q
Honest-collision_free r t (inr p) (inr q) e = p ∙ sym q
Honest-collision_free r t (inl p) (inr q) e =
    absurd (digests_differ (sym (ap digest p) ∙ e ∙ ap digest q))
Honest-collision_free r t (inr p) (inl q) e =
    absurd (digests_differ (sym (ap digest q) ∙ sym e ∙ ap digest p))

Honest-not_genesis : (r : JournalRecord ℕ) → Honest r → digest (payload r) ≢ genesis_prev_hash
unfolding payload
Honest-not_genesis r (inl p) e =
    let q = sym (ap digest p) ∙ e in
    ground (arith, eq_iff (joined "#d1" genesis_prev_hash) genesis_prev_hash)
Honest-not_genesis r (inr p) e =
    let q = sym (ap digest p) ∙ e in
    ground (arith, eq_iff (joined "#d2" first.record_hash) genesis_prev_hash)

-- The same run with other bytes, which are not the same in all records.
abbrev other_bytes : JournalRecord ℕ → Unhashed
other_bytes r = record {
  resource_state_bytes = if str_eq r.decision_id "d1" then 7 ∷ [] else 8 ∷ [];
  information_state_bytes = 1 ∷ [];
  belief_state_bytes = 2 ∷ [];
  action_bytes = [];
  matched_count = pos 0;
  evaluated_arcs_count = pos 0;
  realized_observations_bytes = [];
  next_resource_state_bytes = [];
  next_information_state_bytes = [];
  next_belief_state_bytes = [];
}

abbrev forged : List (JournalRecord ℕ)
forged = map (rewritten other_bytes) both

forged_verify : verify_records digest forged ≡ intact second.record_hash
forged_verify = verify_records-rewritten digest other_bytes both ∙ both_verify

verify_records-rewritten_example : verify_records digest forged ≡ verify_records digest both
verify_records-rewritten_example = verify_records-rewritten digest other_bytes both

both-Honest : All Honest both
both-Honest = (inl refl, (inr refl, tt))

forged-Honest : All Honest forged
unfolding payload
forged-Honest = (inl refl, (inr refl, tt))

verify_records-evidence_example : SameDecisions both forged
verify_records-evidence_example =
    verify_records-evidence digest Honest Honest-collision_free Honest-not_genesis both forged
      second.record_hash both-Honest forged-Honest both_verify forged_verify

abbrev marshal : JournalRecord ℕ → Option String
marshal r = some r.decision_id

abbrev unmarshal : String → Option (JournalRecord ℕ)
unmarshal line = if str_eq line "d1" then some first else none

abbrev no_file : FileStore ℕ
no_file = record { lines = []; mem = new_memory_store }

abbrev one_line : FileStore ℕ
one_line = record { lines = "d1" ∷ []; mem = commit first new_memory_store }

abbrev unwritten : FileStore ℕ
unwritten = record { lines = []; mem = commit first new_memory_store }

write_succeeds : append_to_file digest marshal succeeds no_file first ≡ (one_line, none)
unfolding append_to_file
write_succeeds = rw first_verifies refl

write_failed :
    append_to_file digest marshal write_fails no_file first ≡ (unwritten, some failed_writing)
unfolding append_to_file
write_failed = rw first_verifies refl

-- As many bytes as the one line of the file has.
abbrev bytes : String → ℕ
bytes line = 2

codec :
    (line : String)
    → marshal first ≡ some line
    → (bytes line < max_line) × (line ≢ "") × (unmarshal line ≡ some first)
codec line e =
    let same : "d1" ≡ line = cc in
    subst (λ x. (bytes x < max_line) × (x ≢ "") × (unmarshal x ≡ some first)) same
      (omega arith, λ q. ground (arith, eq_iff "d1" ""), refl)

no_file-IsPersisted : IsPersisted digest bytes marshal unmarshal no_file
unfolding load_from_file
no_file-IsPersisted = refl

append_to_file-IsPersisted_example : IsPersisted digest bytes marshal unmarshal one_line
append_to_file-IsPersisted_example =
    append_to_file-IsPersisted digest bytes marshal unmarshal succeeds no_file one_line first codec
      no_file-IsPersisted write_succeeds

append_to_file-retry_example :
    ((failed_writing ≡ failed_syncing) ⊎ (unwritten.lines ≡ no_file.lines))
    × (append_to_file digest marshal succeeds unwritten first
        ≡ (unwritten, some (journal duplicate_record)))
append_to_file-retry_example =
    append_to_file-retry digest marshal write_fails succeeds no_file unwritten first failed_writing
      write_failed refl
