-- ===== src/Journal/Record/Coverage.antt =====
-- What the hash of a record covers.
use text.Mathlib.TextEquality.{eq_iff}
use project_mittens.Prelude.{◌≡◌, ◌≢◌, true, not, ◌&&◌, String, arith}
use project_mittens.Prelude.Dict.{str_eq}
use project_mittens.Float.{Float}
use project_mittens.Journal.Record.{
  JournalRecord, Payload, payload, compute_record_hash, seal, verify_integrity,
}

check_self : (h : String) → h ≢ "" → not (str_eq h "") && str_eq h h ≡ true
check_self h n = ground (arith, eq_iff h "", eq_iff h h)

-- A sealed record passes its own check, if its digest is not the empty text.
pub seal-verify :
    {W : Type 0} ⦃f : Float W⦄ (digest : Payload W → String) (r : JournalRecord W)
    → compute_record_hash digest (seal digest r) ≢ ""
    → verify_integrity digest (seal digest r) ≡ true
unfolding verify_integrity seal compute_record_hash
seal-verify digest r n = check_self _ n

pub verify-digest :
    {W : Type 0} ⦃f : Float W⦄ (digest : Payload W → String) (r : JournalRecord W)
    → verify_integrity digest r ≡ true
    → r.record_hash ≡ digest (payload r)
unfolding verify_integrity compute_record_hash
verify-digest digest r h = ground (arith, eq_iff r.record_hash (digest (payload r)))
