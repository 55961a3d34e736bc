-- ===== src/Journal/Store/Appends.antt =====
-- What an append does, and what holds of every store that appends have built.
use text.Mathlib.TextEquality.{eq_iff}
use text.Mathlib.TextPositions.{eq_refl}
use mathlib.Core.Path.{subst}
use project_mittens.Prelude.{
  ◌≡◌, ◌≢◌, ◌⊎◌, refl, sym, inl, inr, Bool, true, false, String, none, some, [], ◌∷◌, ◌++◌, ◌∙◌, ap,
  last, Bool-cases, Option-cases, if◌then◌else◌, All, All-append, All-map,
}
use project_mittens.Prelude.Result.{Result, ok, err}
use project_mittens.Prelude.Dict.{lookup, lookup-insert, str_eq}
use project_mittens.Float.{Float}
use project_mittens.Journal.Record.{JournalRecord, Payload, verify_integrity}
use project_mittens.Journal.Store.{
  MemoryStore, JournalError, found, last_record, corrupted_chain, duplicate_record,
  record_not_found, new_memory_store, links, run_of, commit, get, list_by_run, append,
}
use project_mittens.Journal.Store.Chain.{IsChain, IsChain-append, last_or-none}

module _ {W : Type 0} where
  pub list-commit :
      (s : MemoryStore W) (r : JournalRecord W) (run : String)
      → list_by_run (commit r s) run
        ≡ (if str_eq r.run_id run then list_by_run s run ++ (r ∷ []) else list_by_run s run)
  unfolding list_by_run commit
  list-commit s r run = elim (Bool-cases (str_eq r.run_id run)) [
    | inr e ↦ rw (lookup-insert r.run_id run (run_of r.run_id s ++ (r ∷ [])) s.run_map, e) refl
    | inl e ↦
        rw (lookup-insert r.run_id run (run_of r.run_id s ++ (r ∷ [])) s.run_map, e)
          (ap (λ x. run_of x s ++ (r ∷ [])) ((eq_iff r.run_id run).0 e))
  ]

  pub get-commit :
      (s : MemoryStore W) (r : JournalRecord W) (id : String)
      → get (commit r s) id ≡ (if str_eq r.decision_id id then ok r else get s id)
  unfolding get commit
  get-commit s r id =
      ap found (lookup-insert r.decision_id id r s.records_map) ∙ by_test (str_eq r.decision_id id)
    where
      by_test :
          (b : Bool)
          → found (if b then some r else lookup id s.records_map)
            ≡ (if b then ok r else found (lookup id s.records_map))
      by_test true = refl
      by_test false = refl

-- The stores that appends build.
module _ {W : Type 0} ⦃f : Float W⦄ (digest : Payload W → String) where
  pub data Built : MemoryStore W → Type 0 where
    empty : Built new_memory_store
    appended :
        {s t : MemoryStore W} (r : JournalRecord W) → Built s → append digest s r ≡ ok t → Built t

  -- Every run is a chain.
  abbrev pub IsChained : MemoryStore W → Type 0
  IsChained s = (run : String) → IsChain digest none (list_by_run s run)

  -- Every record of a run names the run and is found under its own id.
  abbrev pub IsIndexed : MemoryStore W → Type 0
  IsIndexed s =
      (run : String)
      → All (λ r. (r.run_id ≡ run) × (get s r.decision_id ≡ ok r)) (list_by_run s run)

  -- What an append that returns `o` has found, and done.
  abbrev pub Appended :
      MemoryStore W → JournalRecord W → Result JournalError (MemoryStore W) → Type 0
  Appended s r (err record_not_found) = ⊥
  Appended s r (err duplicate_record) =
      (verify_integrity digest r ≡ true) × (get s r.decision_id ≢ err record_not_found)
  Appended s r (err corrupted_chain) =
      (verify_integrity digest r ≡ false)
      ⊎ ((get s r.decision_id ≡ err record_not_found) × (links (last_record s r.run_id) r ≡ false))
  Appended s r (ok t) =
      (verify_integrity digest r ≡ true)
      × (get s r.decision_id ≡ err record_not_found)
      × (links (last_record s r.run_id) r ≡ true)
      × (t ≡ commit r s)

  -- The four outcomes of an append. A record that fails its own check, or that is new but does not
  -- hold the hash of the last record of its run, is a corrupted chain; one whose id is in use is a
  -- duplicate; any other is committed.
  pub append-Appended : (s : MemoryStore W) (r : JournalRecord W) → Appended s r (append digest s r)
  unfolding append get last_record
  append-Appended s r = elim (Bool-cases (verify_integrity digest r)) [
    | inr v ↦ rw v (inl v)
    | inl v ↦ elim (Option-cases (lookup r.decision_id s.records_map)) [
      | inr (x, e) ↦ rw (v, e) (v, λ q. cc (sym (ap found e) ∙ q))
      | inl e ↦ elim (Bool-cases (links (last (run_of r.run_id s)) r)) [
        | inr l ↦ rw (v, e, l) (inr (ap found e, l))
        | inl l ↦ rw (v, e, l) (v, ap found e, l, refl)
      ]
    ]
  ]

  -- A record that has been appended is a duplicate.
  pub append-twice :
      (s t : MemoryStore W) (r : JournalRecord W)
      → append digest s r ≡ ok t
      → append digest t r ≡ err duplicate_record
  unfolding append commit
  append-twice s t r e =
      let (v, _, _, q) = subst (Appended s r) e (append-Appended s r) in
      rw (q, v, lookup-insert r.decision_id r.decision_id r s.records_map, eq_refl r.decision_id)
        refl

  pub append-IsChained :
      (s t : MemoryStore W) (r : JournalRecord W)
      → IsChained s
      → append digest s r ≡ ok t
      → IsChained t
  unfolding last_record list_by_run
  append-IsChained s t r c e =
      let (v, _, l, q) = subst (Appended s r) e (append-Appended s r) in
      λ run. rw (q, list-commit s r run) (by_test run v l (Bool-cases (str_eq r.run_id run)))
    where
      by_test :
          (run : String)
          → verify_integrity digest r ≡ true
          → links (last_record s r.run_id) r ≡ true
          → (str_eq r.run_id run ≡ true) ⊎ (str_eq r.run_id run ≡ false)
          → IsChain digest none
              (if str_eq r.run_id run then list_by_run s run ++ (r ∷ []) else list_by_run s run)
      by_test run v l (inr n) = rw n (c run)
      by_test run v l (inl y) = rw y (
          IsChain-append digest none (list_by_run s run) r (c run) v (
            rw (last_or-none (list_by_run s run))
              (subst (λ x. links (last (list_by_run s x)) r ≡ true) ((eq_iff r.run_id run).0 y) l)))

  -- A record that is found under its id still is, when one is committed under an id not in use.
  get-commit-old :
      (s : MemoryStore W) (r x : JournalRecord W)
      → get s r.decision_id ≡ err record_not_found
      → get s x.decision_id ≡ ok x
      → get (commit r s) x.decision_id ≡ ok x
  get-commit-old s r x n g =
      get-commit s r x.decision_id ∙ by_test (Bool-cases (str_eq r.decision_id x.decision_id))
    where
      by_test :
          (str_eq r.decision_id x.decision_id ≡ true) ⊎ (str_eq r.decision_id x.decision_id ≡ false)
          → (if str_eq r.decision_id x.decision_id then ok r else get s x.decision_id) ≡ ok x
      by_test (inr e) = rw e g
      by_test (inl e) =
          let same = (eq_iff r.decision_id x.decision_id).0 e in
          absurd (cc (sym n ∙ ap (get s) same ∙ g))

  pub append-IsIndexed :
      (s t : MemoryStore W) (r : JournalRecord W)
      → IsIndexed s
      → append digest s r ≡ ok t
      → IsIndexed t
  append-IsIndexed s t r i e =
      let (_, n, _, q) = subst (Appended s r) e (append-Appended s r) in
      λ run. rw (q, list-commit s r run) (by_test run n (Bool-cases (str_eq r.run_id run)))
    where
      Found : String → JournalRecord W → Type 0
      Found run x = (x.run_id ≡ run) × (get (commit r s) x.decision_id ≡ ok x)

      old :
          (run : String)
          → get s r.decision_id ≡ err record_not_found
          → All (Found run) (list_by_run s run)
      old run n =
          All-map (λ x. (x.run_id ≡ run) × (get s x.decision_id ≡ ok x)) (Found run)
            (λ x (a, g). (a, get-commit-old s r x n g)) (list_by_run s run) (i run)

      by_test :
          (run : String)
          → get s r.decision_id ≡ err record_not_found
          → (str_eq r.run_id run ≡ true) ⊎ (str_eq r.run_id run ≡ false)
          → All
              (Found run)
              (if str_eq r.run_id run then list_by_run s run ++ (r ∷ []) else list_by_run s run)
      by_test run n (inr b) = rw b (old run n)
      by_test run n (inl b) = rw b (
          All-append (Found run) (list_by_run s run) (r ∷ []) (old run n) (
            (
              (eq_iff r.run_id run).0 b,
              get-commit s r r.decision_id ∙ rw (eq_refl r.decision_id) refl,
            ),
            tt,
          ))

  -- In a store that appends built, every run is a chain, and every record that is listed in a run
  -- names that run and is the one found under its id.
  pub Built-lem : (s : MemoryStore W) → Built s → IsChained s × IsIndexed s
  unfolding list_by_run lookup
  Built-lem s empty = (λ run. tt, λ run. tt)
  Built-lem s (appended {s = t} r b e) =
      let (c, i) = Built-lem t b in (append-IsChained t s r c e, append-IsIndexed t s r i e)
