-- ===== src/Journal/Store/Verified.antt =====
-- What `VerifyRunChain` answers on the stores that appends build.
use project_mittens.Prelude.{
  ◌≡◌, ◌⊎◌, refl, inl, inr, String, none, some, List, [], ◌∷◌, ◌∙◌, ap, last, Bool-cases,
}
use project_mittens.Prelude.Result.{Result, ok, err}
use project_mittens.Prelude.Dict.{str_eq}
use project_mittens.Float.{Float}
use project_mittens.Journal.Record.{JournalRecord, Payload}
use project_mittens.Journal.Store.{
  MemoryStore, JournalError, first_of, run_of_decision, empty_run, intact, get, list_by_run,
  records_of, verify_records, verify_run_chain,
}
use project_mittens.Journal.Store.Chain.{
  IsChain, last_hash, FirstBad-not-IsChain, verify_records_lem,
}
use project_mittens.Journal.Store.Appends.{Built, Built-lem, IsChained}

module _ {W : Type 0} where
  last_hash-last :
      (h : String) (r : JournalRecord W) (rs : List (JournalRecord W))
      → (x : JournalRecord W) × (last (r ∷ rs) ≡ some x) × (last_hash h (r ∷ rs) ≡ x.record_hash)
  last_hash-last h r [] = (r, refl, refl)
  last_hash-last h r (x ∷ rs) = last_hash-last r.record_hash x rs

module _ {W : Type 0} ⦃f : Float W⦄ (digest : Payload W → String) where
  first_of-IsChain :
      (rs others : List (JournalRecord W))
      → IsChain digest none rs
      → IsChain digest none others
      → IsChain digest none (first_of rs others)
  first_of-IsChain [] others c d = d
  first_of-IsChain (r ∷ rs) others c d = c

  run_of_decision-IsChain :
      (s : MemoryStore W)
      → IsChained digest s
      → (o : Result JournalError (JournalRecord W)) → IsChain digest none (run_of_decision s o)
  unfolding run_of_decision
  run_of_decision-IsChain s c (err e) = tt
  run_of_decision-IsChain s c (ok r) = elim (Bool-cases (str_eq r.run_id "")) [
    | inl e ↦ rw e tt
    | inr e ↦ rw e (c r.run_id)
  ]

  records_of-IsChain :
      (s : MemoryStore W) (run : String)
      → IsChained digest s
      → IsChain digest none (records_of s run)
  unfolding records_of
  records_of-IsChain s run c =
      first_of-IsChain (list_by_run s run) (run_of_decision s (get s run)) (c run)
        (run_of_decision-IsChain s c (get s run))

  -- In a store that appends built, a run is never found broken: asked for a run or a decision, the
  -- verifier finds no records, or answers with the hash of the last record of the run.
  pub verify_run_chain-Built :
      (s : MemoryStore W) (run : String)
      → Built digest s
      → ((records_of s run ≡ []) × (verify_run_chain digest s run ≡ empty_run))
        ⊎ ((r : JournalRecord W) × (last (records_of s run) ≡ some r)
            × (verify_run_chain digest s run ≡ intact r.record_hash))
  unfolding verify_run_chain
  verify_run_chain-Built s run b =
      by_verdict (records_of s run) (records_of-IsChain s run (Built-lem digest s b).0)
    where
      by_verdict :
          (rs : List (JournalRecord W))
          → IsChain digest none rs
          → ((rs ≡ []) × (verify_records digest rs ≡ empty_run))
            ⊎ ((r : JournalRecord W) × (last rs ≡ some r)
                × (verify_records digest rs ≡ intact r.record_hash))
      by_verdict [] c = elim (verify_records_lem digest []) [
        | inl e ↦ inl e
        | inr (inl x) ↦ absurd (x.0 refl)
        | inr (inr (id, x, _)) ↦ absurd x
      ]
      by_verdict (r ∷ rs) c = elim (verify_records_lem digest (r ∷ rs)) [
        | inl e ↦ inl e
        | inr (inl (_, _, e)) ↦
            let (x, l, h) = last_hash-last "" r rs in inr (x, l, e ∙ ap intact h)
        | inr (inr (id, x, _)) ↦ absurd (FirstBad-not-IsChain digest none id (r ∷ rs) x c)
      ]
