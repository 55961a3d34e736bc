-- ===== src/Journal/Record.antt =====
-- pkg/journal/record.go. SHA-256 and the formatting of its input are a parameter: a function from
-- the values that are formatted to a text.
pub mod Coverage
use project_mittens.Prelude.{ℕ, Bool, not, ◌&&◌, String, List, if◌then◌else◌}
use project_mittens.Prelude.Int.{ℤ}
use project_mittens.Prelude.Dict.{str_eq}
use project_mittens.Float.{Float}

abbrev pub genesis_prev_hash : String
genesis_prev_hash = "0000000000000000000000000000000000000000000000000000000000000000"

abbrev pub current_runtime_version : String
current_runtime_version = "mittens-v1.2.0"

pub record JournalRecord {ℓ} (W : Type ℓ) : Type ℓ where
  pub run_id : String
  pub epoch : ℤ
  pub batch_seq : ℤ
  pub decision_id : String
  pub prev_record_hash : String
  pub record_hash : String
  pub runtime_version : String
  pub policy_name : String
  pub policy_param_hash : String
  pub initial_state_hash : String
  pub resource_state_bytes : List ℕ
  pub information_state_bytes : List ℕ
  pub belief_state_bytes : List ℕ
  pub action_hash : String
  pub action_bytes : List ℕ
  pub matched_count : ℤ
  pub evaluated_arcs_count : ℤ
  pub total_net_contribution : W
  pub realized_observations_bytes : List ℕ
  pub next_state_hash : String
  pub next_resource_state_bytes : List ℕ
  pub next_information_state_bytes : List ℕ
  pub next_belief_state_bytes : List ℕ

-- The arguments of the `Sprintf` in `ComputeRecordHash`.
pub record Payload {ℓ} (W : Type ℓ) : Type ℓ where
  pub prev_record_hash : String
  pub run_id : String
  pub epoch : ℤ
  pub batch_seq : ℤ
  pub decision_id : String
  pub runtime_version : String
  pub policy_name : String
  pub policy_param_hash : String
  pub initial_state_hash : String
  pub action_hash : String
  pub next_state_hash : String
  pub contrib : W

module _ {ℓ} {W : Type ℓ} ⦃f : Float W⦄ where
  -- A contribution below 1e-9 counts as 0, of either sign.
  unfoldable pub payload : JournalRecord W → Payload W
  payload r = record {
    prev_record_hash = r.prev_record_hash;
    run_id = r.run_id;
    epoch = r.epoch;
    batch_seq = r.batch_seq;
    decision_id = r.decision_id;
    runtime_version = r.runtime_version;
    policy_name = r.policy_name;
    policy_param_hash = r.policy_param_hash;
    initial_state_hash = r.initial_state_hash;
    action_hash = r.action_hash;
    next_state_hash = r.next_state_hash;
    contrib =
        if f.lt (f.abs r.total_net_contribution) (f.lit 1 9)
        then f.nought
        else r.total_net_contribution;
  }

module _ {ℓ} {W : Type ℓ} ⦃f : Float W⦄ (digest : Payload W → String) where
  unfoldable pub compute_record_hash : JournalRecord W → String
  unfolding payload
  compute_record_hash r = digest (payload r)

  unfoldable pub seal : JournalRecord W → JournalRecord W
  seal r =
      let r = record r {
        prev_record_hash =
            if str_eq r.prev_record_hash "" then genesis_prev_hash else r.prev_record_hash;
      } in
      let r = record r {
        runtime_version =
            if str_eq r.runtime_version "" then current_runtime_version else r.runtime_version;
      } in
      record r { record_hash = compute_record_hash r }

  unfoldable pub verify_integrity : JournalRecord W → Bool
  verify_integrity r = not (str_eq r.record_hash "") && str_eq r.record_hash (compute_record_hash r)
