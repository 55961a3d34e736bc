-- ===== src/Journal/Store/Chain.antt =====
-- `VerifyRunChain`, and the hash chain of a run.
use project_mittens.Prelude.{
  ◌≡◌, ◌≢◌, ◌⊎◌, refl, inl, inr, true, String, Option, none, some, List, [], ◌∷◌, ◌++◌, ◌∙◌, ap,
  last, Bool-cases,
}
use project_mittens.Float.{Float}
use project_mittens.Journal.Record.{JournalRecord, Payload, verify_integrity}
use project_mittens.Journal.Store.{
  Verdict, empty_run, intact, broken, links, verify_from, verify_records,
}

module _ {W : Type 0} where
  -- The last record, or `prev`.
  abbrev pub last_or : Option (JournalRecord W) → List (JournalRecord W) → Option (JournalRecord W)
  last_or prev [] = prev
  last_or prev (r ∷ rs) = last_or (some r) rs

  pub last_or-none : (rs : List (JournalRecord W)) → last_or none rs ≡ last rs
  last_or-none [] = refl
  last_or-none (r ∷ rs) = go r rs
    where
      go : (r : JournalRecord W) (rs : List (JournalRecord W)) → last_or (some r) rs ≡ last (r ∷ rs)
      go r [] = refl
      go r (x ∷ rs) = go x rs

  -- The hash of the last record, or `h`.
  abbrev pub last_hash : String → List (JournalRecord W) → String
  last_hash h [] = h
  last_hash h (r ∷ rs) = last_hash r.record_hash rs

module _ {W : Type 0} ⦃f : Float W⦄ (digest : Payload W → String) where
  -- Every record passes its own check and holds the hash of the one before it; the first, which
  -- comes after `prev`, holds that one's.
  abbrev pub IsChain : Option (JournalRecord W) → List (JournalRecord W) → Type 0
  IsChain prev [] = Unit
  IsChain prev (r ∷ rs) =
      (verify_integrity digest r ≡ true) × (links prev r ≡ true) × IsChain (some r) rs

  -- `id` is that of the first record that fails its own check or does not link.
  abbrev pub FirstBad : Option (JournalRecord W) → String → List (JournalRecord W) → Type 0
  FirstBad prev id [] = ⊥
  FirstBad prev id (r ∷ rs) =
      ((r.decision_id ≡ id) × ¬ ((verify_integrity digest r ≡ true) × (links prev r ≡ true)))
      ⊎ ((verify_integrity digest r ≡ true) × (links prev r ≡ true) × FirstBad (some r) id rs)

  pub FirstBad-not-IsChain :
      (prev : Option (JournalRecord W)) (id : String) (rs : List (JournalRecord W))
      → FirstBad prev id rs
      → ¬ (IsChain prev rs)
  FirstBad-not-IsChain prev id [] b c = b
  FirstBad-not-IsChain prev id (r ∷ rs) (inl b) c = b.1 (c.0, c.1)
  FirstBad-not-IsChain prev id (r ∷ rs) (inr b) c = FirstBad-not-IsChain (some r) id rs b.2 c.2

  -- A verdict on records that come after `prev`.
  abbrev Judges : Option (JournalRecord W) → String → List (JournalRecord W) → Verdict → Type 0
  Judges prev h rs empty_run = ⊥
  Judges prev h rs (intact k) = IsChain prev rs × (k ≡ last_hash h rs)
  Judges prev h rs (broken id) = FirstBad prev id rs

  verify_from-Judges :
      (prev : Option (JournalRecord W)) (h : String) (rs : List (JournalRecord W))
      → Judges prev h rs (verify_from digest prev h rs)
  unfolding verify_from
  verify_from-Judges prev h [] = (tt, refl)
  verify_from-Judges prev h (r ∷ rs) = elim (Bool-cases (verify_integrity digest r)) [
    | inr e ↦ rw e (inl (refl, λ c. cc (c.0)))
    | inl e ↦ elim (Bool-cases (links prev r)) [
      | inr l ↦ rw (e, l) (inl (refl, λ c. cc (c.1)))
      | inl l ↦
          rw (e, l)
            (after (verify_from digest (some r) r.record_hash rs) e l
              (verify_from-Judges (some r) r.record_hash rs))
    ]
  ]
    where
      after :
          (v : Verdict)
          → verify_integrity digest r ≡ true
          → links prev r ≡ true
          → Judges (some r) r.record_hash rs v
          → Judges prev h (r ∷ rs) v
      after empty_run e l j = j
      after (intact k) e l (c, k') = ((e, l, c), k')
      after (broken id) e l n = inr (e, l, n)

  -- The verifier finds no records, or an intact chain whose last hash it returns, or the first
  -- record that is bad.
  pub verify_records_lem :
      (rs : List (JournalRecord W))
      → ((rs ≡ []) × (verify_records digest rs ≡ empty_run))
        ⊎ ((rs ≢ []) × IsChain none rs × (verify_records digest rs ≡ intact (last_hash "" rs)))
        ⊎ ((id : String) × FirstBad none id rs × (verify_records digest rs ≡ broken id))
  unfolding verify_records
  verify_records_lem [] = inl (refl, refl)
  verify_records_lem (r ∷ rs) =
      split (verify_from digest none "" (r ∷ rs)) refl (verify_from-Judges none "" (r ∷ rs))
    where
      split :
          (v : Verdict)
          → verify_from digest none "" (r ∷ rs) ≡ v
          → Judges none "" (r ∷ rs) v
          → ((r ∷ rs ≡ []) × (verify_from digest none "" (r ∷ rs) ≡ empty_run))
            ⊎ ((r ∷ rs ≢ [])
                × IsChain none (r ∷ rs)
                × (verify_from digest none "" (r ∷ rs) ≡ intact (last_hash "" (r ∷ rs))))
            ⊎ ((id : String) × FirstBad none id (r ∷ rs)
                × (verify_from digest none "" (r ∷ rs) ≡ broken id))
      split empty_run e j = absurd j
      split (intact k) e (c, k') = inr (inl (λ q. cc, c, e ∙ ap intact k'))
      split (broken id) e b = inr (inr (id, b, e))

  pub IsChain-append :
      (prev : Option (JournalRecord W)) (rs : List (JournalRecord W)) (r : JournalRecord W)
      → IsChain prev rs
      → verify_integrity digest r ≡ true
      → links (last_or prev rs) r ≡ true
      → IsChain prev (rs ++ (r ∷ []))
  IsChain-append prev [] r c v l = (v, l, tt)
  IsChain-append prev (x ∷ rs) r (a, b, c) v l = (a, b, IsChain-append (some x) rs r c v l)
