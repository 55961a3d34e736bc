-- ===== src/Journal/Store/Evidence.antt =====
-- The last hash of a chain, and what the hashes of its records cover.
use mathlib.Core.Path.{subst, ap₂}
use text.Mathlib.TextEquality.{eq_iff}
use project_mittens.Prelude.{
  ◌≡◌, ◌≢◌, refl, sym, inl, inr, true, String, Option, none, some, List, [], ◌∷◌, ◌++◌, ◌∙◌, ap,
  map, All, if◌then◌else◌,
}
use project_mittens.Float.{Float}
use project_mittens.Journal.Record.{
  JournalRecord, Payload, payload, genesis_prev_hash, verify_integrity,
}
use project_mittens.Journal.Record.Coverage.{verify-digest}
use project_mittens.Journal.Store.{intact, links, verify_records}
use project_mittens.Journal.Store.Chain.{IsChain, last_hash, verify_records_lem}

-- The elements in reverse, before those of the second list.
module _ {ℓ} {A : Type ℓ} where
  abbrev rev_onto : List A → List A → List A
  rev_onto [] acc = acc
  rev_onto (x ∷ xs) acc = rev_onto xs (x ∷ acc)

  rev_onto-twice : (xs acc ys : List A) → rev_onto (rev_onto xs acc) ys ≡ rev_onto acc (xs ++ ys)
  rev_onto-twice [] acc ys = refl
  rev_onto-twice (x ∷ xs) acc ys = rev_onto-twice xs (x ∷ acc) ys

  append_nil : (xs : List A) → xs ++ [] ≡ xs
  append_nil [] = refl
  append_nil (x ∷ xs) = ap (λ r. x ∷ r) (append_nil xs)

  rev_onto-injective : (xs ys : List A) → rev_onto xs [] ≡ rev_onto ys [] → xs ≡ ys
  rev_onto-injective xs ys e =
      sym (append_nil xs)
      ∙ sym (rev_onto-twice xs [] [])
      ∙ ap (λ r. rev_onto r []) e
      ∙ rev_onto-twice ys [] []
      ∙ append_nil ys

module _ {ℓ κ} {A : Type ℓ} {B : Type κ} where
  rev_onto-map :
      (g : A → B) (xs acc : List A) → map g (rev_onto xs acc) ≡ rev_onto (map g xs) (map g acc)
  rev_onto-map g [] acc = refl
  rev_onto-map g (x ∷ xs) acc = rev_onto-map g xs (x ∷ acc)

module _ {W : Type 0} ⦃f : Float W⦄ where
  -- A contribution as it is hashed: 0 in place of one below 1e-9, of either sign.
  abbrev pub hashed_contribution : W → W
  hashed_contribution x = if f.lt (f.abs x) (f.lit 1 9) then f.nought else x

  -- The records have the same links, coordinates, pins and hashes of states and actions, and the
  -- same contribution as far as it is hashed.
  pub record IsSameDecision (r t : JournalRecord W) : Type 0 where
    pub prev_record_hash : r.prev_record_hash ≡ t.prev_record_hash
    pub run_id : r.run_id ≡ t.run_id
    pub epoch : r.epoch ≡ t.epoch
    pub batch_seq : r.batch_seq ≡ t.batch_seq
    pub decision_id : r.decision_id ≡ t.decision_id
    pub runtime_version : r.runtime_version ≡ t.runtime_version
    pub policy_name : r.policy_name ≡ t.policy_name
    pub policy_param_hash : r.policy_param_hash ≡ t.policy_param_hash
    pub initial_state_hash : r.initial_state_hash ≡ t.initial_state_hash
    pub action_hash : r.action_hash ≡ t.action_hash
    pub next_state_hash : r.next_state_hash ≡ t.next_state_hash
    pub contribution :
        hashed_contribution r.total_net_contribution ≡ hashed_contribution t.total_net_contribution

  -- The two runs have the same decisions, one after the other.
  abbrev pub SameDecisions : List (JournalRecord W) → List (JournalRecord W) → Type 0
  SameDecisions [] [] = Unit
  SameDecisions [] (t ∷ ts) = ⊥
  SameDecisions (r ∷ rs) [] = ⊥
  SameDecisions (r ∷ rs) (t ∷ ts) = IsSameDecision r t × SameDecisions rs ts

  payload-IsSameDecision : (r t : JournalRecord W) → payload r ≡ payload t → IsSameDecision r t
  unfolding payload
  payload-IsSameDecision r t e = record {
    prev_record_hash = ap (λ p. p.prev_record_hash) e;
    run_id = ap (λ p. p.run_id) e;
    epoch = ap (λ p. p.epoch) e;
    batch_seq = ap (λ p. p.batch_seq) e;
    decision_id = ap (λ p. p.decision_id) e;
    runtime_version = ap (λ p. p.runtime_version) e;
    policy_name = ap (λ p. p.policy_name) e;
    policy_param_hash = ap (λ p. p.policy_param_hash) e;
    initial_state_hash = ap (λ p. p.initial_state_hash) e;
    action_hash = ap (λ p. p.action_hash) e;
    next_state_hash = ap (λ p. p.next_state_hash) e;
    contribution = ap (λ p. p.contrib) e;
  }

  payloads-SameDecisions :
      (rs ts : List (JournalRecord W)) → map payload rs ≡ map payload ts → SameDecisions rs ts
  payloads-SameDecisions [] [] e = tt
  payloads-SameDecisions [] (t ∷ ts) e = absurd (cc e)
  payloads-SameDecisions (r ∷ rs) [] e = absurd (cc e)
  payloads-SameDecisions (r ∷ rs) (t ∷ ts) e =
      let head : payload r ≡ payload t = cc e in
      let rest : map payload rs ≡ map payload ts = cc e in
      (payload-IsSameDecision r t head, payloads-SameDecisions rs ts rest)

module _ {W : Type 0} where
  -- The hash that the record after `prev` has to hold.
  abbrev hash_of : Option (JournalRecord W) → String
  hash_of none = genesis_prev_hash
  hash_of (some r) = r.record_hash

  links-hash_of :
      (prev : Option (JournalRecord W)) (r : JournalRecord W)
      → links prev r ≡ true
      → r.prev_record_hash ≡ hash_of prev
  links-hash_of none r l = (eq_iff r.prev_record_hash genesis_prev_hash).0 l
  links-hash_of (some p) r l = (eq_iff r.prev_record_hash p.record_hash).0 l

module _ {W : Type 0} ⦃f : Float W⦄ (digest : Payload W → String) where
  -- The records of a chain that ends in the hash `h`, the last one first.
  abbrev Backed : List (JournalRecord W) → String → Type 0
  Backed [] h = h ≡ genesis_prev_hash
  Backed (r ∷ rs) h =
      (r.record_hash ≡ h) × (verify_integrity digest r ≡ true) × Backed rs r.prev_record_hash

  IsChain-Backed :
      (prev : Option (JournalRecord W)) (h : String) (rs done : List (JournalRecord W))
      → IsChain digest prev rs
      → Backed done (hash_of prev)
      → h ≡ hash_of prev
      → Backed (rev_onto rs done) (last_hash h rs)
  IsChain-Backed prev h [] done c b e = subst (Backed done) (sym e) b
  IsChain-Backed prev h (r ∷ rs) done (v, l, c) b e =
      IsChain-Backed (some r) r.record_hash rs (r ∷ done) c
        (refl, v, subst (Backed done) (sym (links-hash_of prev r l)) b) refl

module _ {W : Type 0} ⦃f : Float W⦄ (digest : Payload W → String) where
  intact-injective : (h k : String) → intact h ≡ intact k → h ≡ k
  intact-injective h k e = cc

  intact-Backed :
      (rs : List (JournalRecord W)) (h : String)
      → verify_records digest rs ≡ intact h
      → Backed digest (rev_onto rs []) h
  intact-Backed rs h e = elim (verify_records_lem digest rs) [
    | inl (_, d) ↦ absurd (cc (sym d ∙ e))
    | inr (inr (_, _, d)) ↦ absurd (cc (sym d ∙ e))
    | inr (inl (n, c, d)) ↦ from_chain rs n c (intact-injective (last_hash "" rs) h (sym d ∙ e))
  ]
    where
      from_chain :
          (rs : List (JournalRecord W))
          → rs ≢ []
          → IsChain digest none rs
          → last_hash "" rs ≡ h
          → Backed digest (rev_onto rs []) h
      from_chain [] n c q = absurd (n refl)
      from_chain (r ∷ rs) n c q =
          subst (Backed digest (rev_onto (r ∷ rs) [])) q
            (IsChain-Backed digest none genesis_prev_hash (r ∷ rs) [] c refl refl)

-- What the digest is good for, on the records of which `P` holds: no two of them that differ in
-- what is hashed have one digest, and none has the digest that stands before the first record.
module _ {W : Type 0} ⦃f : Float W⦄ (digest : Payload W → String) (P : JournalRecord W → Type 0)
    (collision_free : (r t : JournalRecord W)
      → P r
      → P t
      → digest (payload r) ≡ digest (payload t)
      → payload r ≡ payload t)
    (not_genesis : (r : JournalRecord W) → P r → digest (payload r) ≢ genesis_prev_hash) where
  hash-not-genesis :
      (r : JournalRecord W)
      → P r
      → verify_integrity digest r ≡ true
      → r.record_hash ≢ genesis_prev_hash
  hash-not-genesis r p v e = not_genesis r p (sym (verify-digest digest r v) ∙ e)

  Backed-unique :
      (rs ts : List (JournalRecord W)) (h : String)
      → All P rs
      → All P ts
      → Backed digest rs h
      → Backed digest ts h
      → map payload rs ≡ map payload ts
  unfolding payload
  Backed-unique [] [] h _ _ b c = refl
  Backed-unique [] (t ∷ ts) h _ (p, _) b (e, v, _) = absurd (hash-not-genesis t p v (e ∙ b))
  Backed-unique (r ∷ rs) [] h (p, _) _ (e, v, _) b = absurd (hash-not-genesis r p v (e ∙ b))
  Backed-unique (r ∷ rs) (t ∷ ts) h (p, ps) (q, qs) (e, v, b) (d, w, c) =
      let same =
        collision_free r t p q
          (sym (verify-digest digest r v) ∙ e ∙ sym d ∙ verify-digest digest t w) in
      ap₂ (λ x xs. x ∷ xs) same
        (Backed-unique rs ts t.prev_record_hash ps qs
          (subst (Backed digest rs) (ap (λ x. x.prev_record_hash) same) b) c)

  All-rev_onto : (rs acc : List (JournalRecord W)) → All P rs → All P acc → All P (rev_onto rs acc)
  All-rev_onto [] acc p q = q
  All-rev_onto (r ∷ rs) acc (p, ps) q = All-rev_onto rs (r ∷ acc) ps (p, q)

  -- Two runs that verify with one last hash have the same decisions, record by record: the same
  -- previous hash, run, epoch, sequence number, decision, version, policy, hashes of the initial
  -- state, the action and the next state, and contribution as far as it is hashed. Of the records of
  -- the two runs it is assumed that no two which differ in one of these have the same digest (that
  -- SHA-256 does not collide on them, and that the fields joined by `|` can be told apart), and that
  -- none has the digest that stands before the first record.
  pub verify_records-evidence :
      (rs ts : List (JournalRecord W)) (h : String)
      → All P rs
      → All P ts
      → verify_records digest rs ≡ intact h
      → verify_records digest ts ≡ intact h
      → SameDecisions rs ts
  verify_records-evidence rs ts h p q e d = payloads-SameDecisions rs ts (
      rev_onto-injective (map payload rs) (map payload ts) (
        sym (rev_onto-map payload rs [])
        ∙ Backed-unique (rev_onto rs []) (rev_onto ts []) h (All-rev_onto rs [] p tt)
            (All-rev_onto ts [] q tt) (intact-Backed digest rs h e) (intact-Backed digest ts h d)
        ∙ rev_onto-map payload ts []))
