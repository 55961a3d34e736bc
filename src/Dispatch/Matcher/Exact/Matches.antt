-- ===== src/Dispatch/Matcher/Exact/Matches.antt =====
-- Whichever matcher it is, it ends, and gives each driver one load and each load one driver.
use mathlib.Core.List.Permᴰ
use project_mittens.Prelude.{
  ℕ, ◌≡◌, ◌⊎◌, refl, sym, ap, ◌∙◌, inl, inr, Bool, true, String, List, [], ◌∷◌, map, length,
  length-replicate, All, All-Has, Has, arith,
}
use project_mittens.Prelude.Int.{ℤ}
use project_mittens.Prelude.Seen.{Distinct}
use project_mittens.Prelude.Canonical.{perm-sort_by, Distinct-perm}
use project_mittens.Prelude.Keyed.{nth}
use project_mittens.Prelude.Result.{ok}
use project_mittens.Float.{Float}
use project_mittens.Numeric.Lap.{LapAssignment, is_finite, solve_lap}
use project_mittens.Numeric.Lap.Scans.{IsBounded}
use project_mittens.Numeric.Lap.Complete.{All-replicate, HasStall}
use project_mittens.Dispatch.Evaluations.{CandidateEvaluation}
use project_mittens.Dispatch.Matcher.{
  MatchingAlgorithm, algorithm_exact_lap, algorithm_greedy, MatchingSolution, solve_greedy,
}
use project_mittens.Dispatch.Matcher.Greedy.{solve_greedy-IsGreedy}
use project_mittens.Dispatch.Matcher.Exact.{
  Payouts, Collected, canonical_ids, number_ids, infeasible_score_sentinel, by_driver, payouts,
  collect, solution_of, solve_exact, solve_matching,
}
use project_mittens.Dispatch.Matcher.Exact.Indexes.{index_of-canonical_ids, canonical_ids-Distinct}
use project_mittens.Dispatch.Matcher.Exact.Shapes.{
  IsFinite, HasShape, IsPayoff, fill-IsPayoff, solve_lap-HasShape,
}
use project_mittens.Dispatch.Matcher.Exact.Collects.{IsCollected, collect-IsCollected}

module _ {A : Type 0} where
  All-of {κ} : (P : A → Type κ) (xs : List A) → ((x : A) → Has x xs → P x) → All P xs
  All-of P [] g = tt
  All-of P (x ∷ xs) g = (g x (inl refl), All-of P xs (λ y h. g y (inr h)))

  Has-map : (key : A → String) (x : A) (xs : List A) → Has x xs → Has (key x) (map key xs)
  Has-map key x [] h = absurd h
  Has-map key x (y ∷ ys) (inl e) = inl (ap key e)
  Has-map key x (y ∷ ys) (inr h) = inr (Has-map key x ys h)

module _ {W : Type 0} where
  -- No driver and no load is in two matches.
  pub record IsMatching (s : MatchingSolution W) : Type 0 where
    pub drivers_distinct : Distinct (map (λ m. m.driver_id) s.matches)
    pub loads_distinct : Distinct (map (λ m. m.load_id) s.matches)

module _ {W : Type 0} ⦃f : Float W⦄ where
  abbrev HasScore : CandidateEvaluation W → Type 0
  HasScore e = IsFinite e.total_score

  abbrev drivers_of : List (CandidateEvaluation W) → List String
  drivers_of es = canonical_ids (map (λ e. e.driver_id) es)

  abbrev loads_of : List (CandidateEvaluation W) → List String
  loads_of es = canonical_ids (map (λ e. e.load_id) es)

  -- The solver gets stuck on the payouts of the candidates.
  abbrev pub IsStalled : List (CandidateEvaluation W) → Type 0
  IsStalled es =
      (ps : Payouts W) × (payouts (drivers_of es) (loads_of es) es ≡ ok ps)
      × HasStall ps.matrix (length (loads_of es)) true

module _ {W : Type 0} ⦃f : Float W⦄ (laws : IsBounded f)
    (sentinel : IsFinite {W = W} infeasible_score_sentinel) where
  payouts-IsPayoff :
      (es : List (CandidateEvaluation W))
      → All HasScore es
      → (ps : Payouts W) × (payouts (drivers_of es) (loads_of es) es ≡ ok ps)
        × IsPayoff (length (drivers_of es)) (length (loads_of es)) (length es) ps
  unfolding payouts
  payouts-IsPayoff es finite =
      fill-IsPayoff (number_ids (drivers_of es)) (number_ids (loads_of es)) (length (drivers_of es))
        (length (loads_of es)) (length es) 0 es _ (omega arith)
        (All-of _ es (λ e h. (
          index_of-canonical_ids e.driver_id _ (Has-map (λ e. e.driver_id) e es h),
          index_of-canonical_ids e.load_id _ (Has-map (λ e. e.load_id) e es h),
          All-Has HasScore es e finite h,
        )))
        (record {
          rows = length-replicate (length (drivers_of es)) _;
          shape = All-replicate (HasShape (length (loads_of es))) (length (drivers_of es)) _ (
            length-replicate (length (loads_of es)) infeasible_score_sentinel,
            All-replicate IsFinite (length (loads_of es)) infeasible_score_sentinel sentinel,
          );
          within = tt;
        })

  solution_of-IsMatching :
      (driver_ids load_ids : List String) (columns rows : List ℤ) (n r : ℕ) (x : LapAssignment W)
      → (st : Collected W) → IsCollected driver_ids load_ids columns rows n r st
      → IsMatching (solution_of driver_ids load_ids x st)
  solution_of-IsMatching driver_ids load_ids columns rows n r x st h =
      let p = perm-sort_by by_driver st.matches in
      record {
        drivers_distinct = Distinct-perm (Permᴰ.map (λ m. m.driver_id) p) h.drivers_distinct;
        loads_distinct = Distinct-perm (Permᴰ.map (λ m. m.load_id) p) h.loads_distinct;
      }

  abbrev start_of : List (CandidateEvaluation W) → Collected W
  start_of es = record { copied = es; matches = []; objective = f.nought; net = f.nought }

  solve_exact-run :
      (es : List (CandidateEvaluation W)) (epoch : ℤ) (allow_negative : Bool) (ps : Payouts W)
      → (x : LapAssignment W) (st : Collected W) → payouts (drivers_of es) (loads_of es) es ≡ ok ps
      → solve_lap ps.matrix true allow_negative ≡ ok x
      → collect allow_negative epoch (drivers_of es) (loads_of es) ps 0 x.row_to_col (start_of es)
        ≡ ok st
      → solve_exact es epoch allow_negative ≡ ok (solution_of (drivers_of es) (loads_of es) x st)
  unfolding solve_exact
  solve_exact-run es epoch allow_negative ps x st e q r = rw (e, q, r) refl

  solve_exact-IsMatching :
      (e : CandidateEvaluation W) (es : List (CandidateEvaluation W)) (epoch : ℤ)
      (allow_negative : Bool)
      → All HasScore (e ∷ es)
      → ((s : MatchingSolution W) × (solve_exact (e ∷ es) epoch allow_negative ≡ ok s)
          × IsMatching s)
        ⊎ IsStalled (e ∷ es)
  solve_exact-IsMatching e es epoch allow_negative finite =
      let all = e ∷ es in
      let (ps, run, payoff) = payouts-IsPayoff all finite in
      elim (solve_lap-HasShape laws (length (loads_of all)) ps.matrix true allow_negative
        (omega (
          arith,
          payoff.rows,
          index_of-canonical_ids e.driver_id (map (λ e. e.driver_id) all) (inl refl),
        ))
        (omega (arith, index_of-canonical_ids e.load_id (map (λ e. e.load_id) all) (inl refl)))
        payoff.shape) [
          | inr stall ↦ inr (ps, run, stall)
          | inl (x, solved, good) ↦
              let (st, collected, done) =
                collect-IsCollected (drivers_of all) (loads_of all) x.row_to_col x.col_to_row
                  (canonical_ids-Distinct (map (λ e. e.driver_id) all))
                  (canonical_ids-Distinct (map (λ e. e.load_id) all)) good.inverse.0 (length all) ps
                  allow_negative epoch payoff (good.in_rows ∙ payoff.rows) good.in_columns 0
                  x.row_to_col (start_of all)
                  (λ i y z. let same : y ≡ i = omega (arith, z) in ap (nth x.row_to_col) (sym same))
                  (record {
                    copies = refl;
                    placed = tt;
                    drivers_distinct = tt;
                    loads_distinct = tt;
                  }) in
              inl (
                solution_of (drivers_of all) (loads_of all) x st,
                solve_exact-run all epoch allow_negative ps x st run solved collected,
                solution_of-IsMatching (drivers_of all) (loads_of all) x.row_to_col x.col_to_row
                    (length all) _ x st done,
              )
        ]

  pub solve_matching-IsMatching :
      (algorithm : MatchingAlgorithm) (es : List (CandidateEvaluation W)) (epoch : ℤ)
      (allow_negative : Bool)
      → All (λ e. is_finite e.total_score ≡ true) es
      → ((s : MatchingSolution W) × (solve_matching algorithm es epoch allow_negative ≡ ok s)
          × IsMatching s)
        ⊎ ((algorithm ≡ algorithm_exact_lap) × IsStalled es)
  unfolding solve_matching
  solve_matching-IsMatching algorithm [] epoch allow_negative _ =
      inl (_, refl, record { drivers_distinct = tt; loads_distinct = tt })
  solve_matching-IsMatching algorithm_greedy (e ∷ es) epoch allow_negative _ =
      let g = solve_greedy-IsGreedy allow_negative epoch (e ∷ es) in
      inl (
        solve_greedy (e ∷ es) epoch allow_negative,
        refl,
        record { drivers_distinct = g.drivers_distinct; loads_distinct = g.loads_distinct },
      )
  solve_matching-IsMatching algorithm_exact_lap (e ∷ es) epoch allow_negative finite =
      elim (solve_exact-IsMatching e es epoch allow_negative finite) [
        | inl s ↦ inl s
        | inr stalled ↦ inr (refl, stalled)
      ]
