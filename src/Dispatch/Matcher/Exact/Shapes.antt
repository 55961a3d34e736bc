-- ===== src/Dispatch/Matcher/Exact/Shapes.antt =====
-- The payout matrix has a row for each driver and a column for each load, and the solver takes it.
use mathlib.Core.Path.{subst}
use project_mittens.Prelude.{
  ℕ, suc, ◌+◌, ◌<◌, ◌≡◌, ◌⊎◌, refl, sym, ◌∙◌, Bool, true, not, ◌&&◌, some, List, [], ◌∷◌, length,
  All, arith, if_cases, ◌==◌,
}
use project_mittens.Prelude.Dict.{Dict}
use project_mittens.Prelude.Keyed.{nth, put, length-put, nth-All, All-put}
use project_mittens.Prelude.Counts.{nth-some}
use project_mittens.Prelude.Result.{ok}
use project_mittens.Float.{Float}
use project_mittens.Numeric.Lap.{LapAssignment, is_finite, check_values, check_rows, solve_lap}
use project_mittens.Numeric.Lap.Scans.{IsBounded}
use project_mittens.Numeric.Lap.Complete.{HasStall}
use project_mittens.Numeric.Lap.Solved.{IsAssignment, solve_lap-IsAssignment}
use project_mittens.Dispatch.Evaluations.{CandidateEvaluation}
use project_mittens.Dispatch.Matcher.Exact.{index_of, cell_at, Payouts, raise_cell, fill}

same_length : (k l : ℕ) → k ≡ l → (k == l) ≡ true
same_length k l e = ground arith

pub cell_at-All :
    (P : ℕ → Type 0) (k idx : ℕ) (cells : List (ℕ × ℕ))
    → All (λ c. P c.1) cells
    → cell_at k cells ≡ some idx
    → P idx
cell_at-All P k idx [] _ = λ e. absurd (cc e)
cell_at-All P k idx ((j, i) ∷ cells) (p, ps) =
    if_cases (λ m. m ≡ some idx → P idx) (j == k) (some i) (cell_at k cells)
      (λ _ e. subst P (cc e) p) (λ _ e. cell_at-All P k idx cells ps e)

module _ {W : Type 0} ⦃f : Float W⦄ where
  abbrev pub IsFinite : W → Type 0
  IsFinite x = is_finite x ≡ true

  abbrev pub HasShape : ℕ → List W → Type 0
  HasShape loads row = (length row ≡ loads) × All IsFinite row

  -- A row for each of `drivers`, a column for each of `loads`, and cells of `n` evaluations.
  pub record IsPayoff (drivers loads n : ℕ) (ps : Payouts W) : Type 0 where
    pub rows : length ps.matrix ≡ drivers
    pub shape : All (HasShape loads) ps.matrix
    pub within : All (λ c. c.1 < n) ps.cells

  raise_cell-IsPayoff :
      (drivers loads n i j idx : ℕ) (row : List W) (old score : W) (ps : Payouts W)
      → idx < n
      → HasShape loads row
      → IsFinite score
      → IsPayoff drivers loads n ps
      → IsPayoff drivers loads n (raise_cell loads i j row old idx score ps)
  raise_cell-IsPayoff drivers loads n i j idx row old score ps lt (len, fin) finite h =
      if_cases (IsPayoff drivers loads n) (f.lt old score) _ ps
        (λ _. record {
          rows = length-put ps.matrix i (put row j score) ∙ h.rows;
          shape =
              All-put (HasShape loads) ps.matrix i (put row j score)
                (length-put row j score ∙ len, All-put IsFinite row j score finite fin) h.shape;
          within = (lt, h.within);
        })
        (λ _. h)

  module _ (ds ls : Dict ℕ) (drivers loads : ℕ) where
    -- An evaluation that has a cell, and a finite score.
    abbrev pub HasCell : CandidateEvaluation W → Type 0
    HasCell e =
        (index_of e.driver_id ds < drivers)
        × (index_of e.load_id ls < loads)
        × IsFinite e.total_score

    fill-step :
        (idx : ℕ) (e : CandidateEvaluation W) (es : List (CandidateEvaluation W)) (ps : Payouts W)
        → (row : List W) (old : W) → nth ps.matrix (index_of e.driver_id ds) ≡ some row
        → nth row (index_of e.load_id ls) ≡ some old
        → fill ds ls loads idx (e ∷ es) ps
          ≡ fill ds ls loads (suc idx) es (
              raise_cell loads
                (index_of e.driver_id ds)
                (index_of e.load_id ls)
                row
                old
                idx
                e.total_score
                ps)
    unfolding fill
    fill-step idx e es ps row old q r = rw (q, r) refl

    pub fill-IsPayoff :
        (n idx : ℕ) (es : List (CandidateEvaluation W)) (ps : Payouts W)
        → idx + length es ≡ n
        → All HasCell es
        → IsPayoff drivers loads n ps
        → (qs : Payouts W) × (fill ds ls loads idx es ps ≡ ok qs) × IsPayoff drivers loads n qs
    unfolding fill
    fill-IsPayoff n idx [] ps len _ h = (ps, refl, h)
    fill-IsPayoff n idx (e ∷ es) ps len ((in_d, in_l, finite), rest) h =
        let (row, q) = nth-some ps.matrix (index_of e.driver_id ds) (omega (arith, h.rows)) in
        let shape = nth-All (HasShape loads) ps.matrix (index_of e.driver_id ds) row q h.shape in
        let (old, r) = nth-some row (index_of e.load_id ls) (omega (arith, shape.0)) in
        let (qs, run, done) =
          fill-IsPayoff n (suc idx) es
            (raise_cell loads (index_of e.driver_id ds) (index_of e.load_id ls) row old idx
              e.total_score ps)
            (omega arith) rest
            (raise_cell-IsPayoff drivers loads n (index_of e.driver_id ds) (index_of e.load_id ls)
              idx row old e.total_score ps (omega arith) shape finite h) in
        (qs, fill-step idx e es ps row old q r ∙ run, done)

  check_values-ok : (xs : List W) → All IsFinite xs → check_values xs ≡ ok tt
  unfolding check_values
  check_values-ok [] _ = refl
  check_values-ok (x ∷ xs) (p, ps) = rw p (check_values-ok xs ps)

  check_rows-ok :
      (loads : ℕ) (rows : List (List W)) → All (HasShape loads) rows → check_rows loads rows ≡ ok tt
  unfolding check_rows
  check_rows-ok loads [] _ = refl
  check_rows-ok loads (r ∷ rows) ((len, fin), rest) =
      rw (same_length (length r) loads len, check_values-ok r fin) (check_rows-ok loads rows rest)

  abbrev Solves : List (List W) → Bool → Bool → ℕ → Type 0
  Solves matrix maximize allow_negative loads =
      ((r : LapAssignment W) × (solve_lap matrix maximize allow_negative ≡ ok r)
        × IsAssignment matrix loads (not allow_negative && maximize) r)
      ⊎ HasStall matrix loads maximize

  pub solve_lap-HasShape :
      (laws : IsBounded f) (loads : ℕ) (matrix : List (List W)) (maximize allow_negative : Bool)
      → 0 < length matrix
      → 0 < loads
      → All (HasShape loads) matrix
      → ((r : LapAssignment W) × (solve_lap matrix maximize allow_negative ≡ ok r)
          × IsAssignment matrix loads (not allow_negative && maximize) r)
        ⊎ HasStall matrix loads maximize
  solve_lap-HasShape laws loads [] maximize allow_negative some_row some_column h =
      absurd (omega arith)
  solve_lap-HasShape laws loads (row ∷ rest) maximize allow_negative some_row some_column h =
      let len = h.0.0 in
      subst (Solves (row ∷ rest) maximize allow_negative) len (
        solve_lap-IsAssignment laws row rest maximize allow_negative
          (λ e. absurd (omega (arith, e, len)))
          (subst (λ k. check_rows k (row ∷ rest) ≡ ok tt) (sym len)
            (check_rows-ok loads (row ∷ rest) h)))
