-- ===== src/Dispatch/Matcher/Exact/Collects.antt =====
-- The matches give each driver one load and each load one driver.
use mathlib.Core.Path.{subst}
use project_mittens.Prelude.{
  ℕ, zero, suc, ◌+◌, ◌*◌, ◌<◌, ◌≡◌, ◌≢◌, refl, sym, ap, ◌∙◌, Bool, true, String, Option, none, some,
  List, [], ◌∷◌, ◌++◌, map, length, All, All-map, arith, if_cases, if◌then◌else◌,
}
use project_mittens.Prelude.Int.{ℤ, pos, negsuc}
use project_mittens.Prelude.Seen.{Distinct}
use project_mittens.Prelude.Keyed.{nth, length-put, nth-All}
use project_mittens.Prelude.Counts.{nth-some, nth-lt}
use project_mittens.Prelude.Result.{ok}
use project_mittens.Float.{Float}
use project_mittens.Fleet.Resource.{DriverLoadMatch}
use project_mittens.Numeric.Lap.Inverse.{Maps}
use project_mittens.Dispatch.Evaluations.{CandidateEvaluation}
use project_mittens.Dispatch.Matcher.Exact.{
  cell_at, Payouts, Collected, record_match, collect_cell, is_worthless, collect,
}
use project_mittens.Dispatch.Matcher.Exact.Shapes.{cell_at-All, IsPayoff, HasShape}

nth-Distinct :
    (xs : List String) (i j : ℕ) (x y : String)
    → Distinct xs
    → i ≢ j
    → nth xs i ≡ some x
    → nth xs j ≡ some y
    → x ≢ y
nth-Distinct [] i j x y _ _ e _ = absurd (cc e)
nth-Distinct (z ∷ zs) zero zero x y _ apart _ _ = absurd (apart refl)
nth-Distinct (z ∷ zs) zero (suc j) x y (n, _) _ e q =
    let same : z ≡ x = cc e in subst (λ w. w ≢ y) same (nth-All (λ w. z ≢ w) zs j y q n)
nth-Distinct (z ∷ zs) (suc i) zero x y (n, _) _ e q =
    let same : z ≡ y = cc q in λ r. nth-All (λ w. z ≢ w) zs i x e n (same ∙ sym r)
nth-Distinct (z ∷ zs) (suc i) (suc j) x y (_, d) apart e q =
    nth-Distinct zs i j x y d (λ r. apart (ap suc r)) e q

module _ {A : Type 0} where
  All-snoc {κ} : (P : A → Type κ) (xs : List A) (y : A) → All P xs → P y → All P (xs ++ y ∷ [])
  All-snoc P [] y _ p = (p, tt)
  All-snoc P (x ∷ xs) y (q, qs) p = (q, All-snoc P xs y qs p)

  All-key :
      (key : A → String) (P : String → Type 0) (xs : List A)
      → All (λ x. P (key x)) xs
      → All P (map key xs)
  All-key key P [] _ = tt
  All-key key P (x ∷ xs) (p, ps) = (p, All-key key P xs ps)

  key-All :
      (key : A → String) (P : String → Type 0) (xs : List A)
      → All P (map key xs)
      → All (λ x. P (key x)) xs
  key-All key P [] _ = tt
  key-All key P (x ∷ xs) (p, ps) = (p, key-All key P xs ps)

  Distinct-snoc :
      (key : A → String) (xs : List A) (y : A)
      → Distinct (map key xs)
      → All (λ x. key x ≢ key y) xs
      → Distinct (map key (xs ++ y ∷ []))
  Distinct-snoc key [] y _ _ = (tt, tt)
  Distinct-snoc key (x ∷ xs) y (n, d) (apart, rest) = (
    All-key key (λ k. key x ≢ k) (xs ++ y ∷ [])
        (All-snoc (λ z. key x ≢ key z) xs y (key-All key (λ k. key x ≢ k) xs n) apart),
    Distinct-snoc key xs y d rest,
  )

module _ {W : Type 0} ⦃f : Float W⦄ (driver_ids load_ids : List String)
    (columns rows : List ℤ) where
  -- The match is of a row before `r` with its column.
  pub record Placed (r : ℕ) (m : DriverLoadMatch W) : Type 0 where
    pub row : ℕ
    pub column : ℕ
    pub before : row < r
    pub paired : nth columns row ≡ some (pos column)
    pub driver_at : nth driver_ids row ≡ some m.driver_id
    pub load_at : nth load_ids column ≡ some m.load_id

  -- The matches of the rows before `r` are collected, of `n` evaluations.
  pub record IsCollected (n r : ℕ) (st : Collected W) : Type 0 where
    pub copies : length st.copied ≡ n
    pub placed : All (Placed r) st.matches
    pub drivers_distinct : Distinct (map (λ m. m.driver_id) st.matches)
    pub loads_distinct : Distinct (map (λ m. m.load_id) st.matches)

  later : (r : ℕ) (m : DriverLoadMatch W) → Placed r m → Placed (suc r) m
  later r m p = record {
    row = p.row;
    column = p.column;
    before = omega (arith, p.before);
    paired = p.paired;
    driver_at = p.driver_at;
    load_at = p.load_at;
  }

  passed-IsCollected : (n r : ℕ) (st : Collected W) → IsCollected n r st → IsCollected n (suc r) st
  passed-IsCollected n r st h = record {
    copies = h.copies;
    placed = All-map (Placed r) (Placed (suc r)) (later r) st.matches h.placed;
    drivers_distinct = h.drivers_distinct;
    loads_distinct = h.loads_distinct;
  }

  module _ (drivers_distinct : Distinct driver_ids) (loads_distinct : Distinct load_ids)
      (inverse : Maps columns rows) where
    record_match-IsCollected :
        (n r c idx : ℕ) (epoch : ℤ) (e : CandidateEvaluation W) (driver load : String) (score : W)
        → (st : Collected W) → nth columns r ≡ some (pos c)
        → nth driver_ids r ≡ some driver
        → nth load_ids c ≡ some load
        → IsCollected n r st
        → IsCollected n (suc r) (record_match epoch idx e driver load score st)
    record_match-IsCollected n r c idx epoch e driver load score st paired d l h = record {
      copies = length-put st.copied idx (record e { is_assigned = true }) ∙ h.copies;
      placed =
          All-snoc (Placed (suc r)) st.matches _
            (All-map (Placed r) (Placed (suc r)) (later r) st.matches h.placed)
            (record {
              row = r;
              column = c;
              before = omega arith;
              paired = paired;
              driver_at = d;
              load_at = l;
            });
      drivers_distinct =
          Distinct-snoc (λ m. m.driver_id) st.matches _ h.drivers_distinct
            (All-map (Placed r) (λ m. m.driver_id ≢ driver)
              (λ m p.
                nth-Distinct driver_ids p.row r m.driver_id driver drivers_distinct
                  (λ q. absurd (omega (arith, q, p.before))) p.driver_at d)
              st.matches h.placed);
      loads_distinct =
          Distinct-snoc (λ m. m.load_id) st.matches _ h.loads_distinct
            (All-map (Placed r) (λ m. m.load_id ≢ load)
              (λ m p.
                nth-Distinct load_ids p.column c m.load_id load loads_distinct
                  (λ q.
                    let same : r ≡ p.row = cc (
                      sym (inverse r c paired)
                      ∙ ap (nth rows) (sym q)
                      ∙ inverse p.row p.column p.paired) in
                    absurd (omega (arith, same, p.before)))
                  p.load_at l)
              st.matches h.placed);
    }

    collect_cell-IsCollected :
        (n r c : ℕ) (epoch : ℤ) (score : W) (cell : Option ℕ) (st : Collected W)
        → ((idx : ℕ) → cell ≡ some idx → idx < n)
        → r < length driver_ids
        → c < length load_ids
        → nth columns r ≡ some (pos c)
        → IsCollected n r st
        → (st' : Collected W) × (collect_cell epoch driver_ids load_ids r c score cell st ≡ ok st')
          × IsCollected n (suc r) st'
    unfolding collect_cell
    collect_cell-IsCollected n r c epoch score none st within in_d in_l paired h =
        (st, refl, passed-IsCollected n r st h)
    collect_cell-IsCollected n r c epoch score (some idx) st within in_d in_l paired h =
        let (e, q) = nth-some st.copied idx (omega (arith, within idx refl, h.copies)) in
        let (driver, d) = nth-some driver_ids r in_d in
        let (load, l) = nth-some load_ids c in_l in
        (
          record_match epoch idx e driver load score st,
          rw (q, d, l) refl,
          record_match-IsCollected n r c idx epoch e driver load score st paired d l h,
        )

    module _ (n : ℕ) (ps : Payouts W) (allow_negative : Bool) (epoch : ℤ)
        (payoff : IsPayoff (length driver_ids) (length load_ids) n ps)
        (same_rows : length columns ≡ length driver_ids)
        (in_columns : (i c : ℕ) → nth columns i ≡ some (pos c) → c < length load_ids) where
      collect-step :
          (r c : ℕ) (cs : List ℤ) (st st' : Collected W) (row : List W) (score : W)
          → nth ps.matrix r ≡ some row
          → nth row c ≡ some score
          → (if is_worthless allow_negative score
              then ok st
              else collect_cell epoch driver_ids load_ids r c score
                  (cell_at (r * length load_ids + c) ps.cells)
                  st)
            ≡ ok st'
          → collect allow_negative epoch driver_ids load_ids ps r (pos c ∷ cs) st
            ≡ collect allow_negative epoch driver_ids load_ids ps (suc r) cs st'
      unfolding collect
      collect-step r c cs st st' row score e q run = rw (e, q, run) refl

      pub collect-IsCollected :
          (r : ℕ) (cs : List ℤ) (st : Collected W)
          → ((i x : ℕ) → x ≡ r + i → nth cs i ≡ nth columns x)
          → IsCollected n r st
          → (st' : Collected W) × (collect allow_negative epoch driver_ids load_ids ps r cs st
              ≡ ok st')
            × IsCollected n (r + length cs) st'
      unfolding collect
      collect-IsCollected r [] st suffix h =
          (st, refl, subst (λ k. IsCollected n k st) (omega arith) h)
      collect-IsCollected r (negsuc b ∷ cs) st suffix h =
          let (st2, run, done) =
            collect-IsCollected (suc r) cs st (λ i x e. suffix (suc i) x (omega (arith, e)))
              (passed-IsCollected n r st h) in
          (st2, run, subst (λ k. IsCollected n k st2) (omega arith) done)
      collect-IsCollected r (pos c ∷ cs) st suffix h =
          let paired : nth columns r ≡ some (pos c) = sym (suffix 0 r (omega arith)) in
          let in_l = in_columns r c paired in
          let in_d : r < length driver_ids =
            omega (arith, nth-lt columns r (pos c) paired, same_rows) in
          let (row, e) = nth-some ps.matrix r (omega (arith, payoff.rows)) in
          let (score, q) = nth-some row c (
            omega
              (arith, (nth-All (HasShape (length load_ids)) ps.matrix r row e payoff.shape).0)) in
          let cell = cell_at (r * length load_ids + c) ps.cells in
          let (st1, here, one) =
            if_cases (λ m. (st' : Collected W) × (m ≡ ok st') × IsCollected n (suc r) st')
              (is_worthless allow_negative score) (ok st)
              (collect_cell epoch driver_ids load_ids r c score cell st)
              (λ _. (st, refl, passed-IsCollected n r st h))
              (λ _.
                collect_cell-IsCollected n r c epoch score cell st
                  (λ idx found.
                    cell_at-All (λ i. i < n) (r * length load_ids + c) idx ps.cells payoff.within
                      found)
                  in_d in_l paired h) in
          let (st2, run, done) =
            collect-IsCollected (suc r) cs st1 (λ i x z. suffix (suc i) x (omega (arith, z))) one in
          (
            st2,
            collect-step r c cs st st1 row score e q here ∙ run,
            subst (λ k. IsCollected n k st2) (omega arith) done,
          )
