-- ===== src/Dispatch/Matcher/Exact.antt =====
-- internal/domain/policy/matcher.go: the exact matcher, over the assignment solver, and the choice
-- between the two. A panic is an error.
pub mod Indexes
pub mod Shapes
pub mod Collects
pub mod Matches
use project_mittens.Prelude.{
  ℕ, suc, ◌+◌, ◌*◌, Bool, true, false, not, ◌&&◌, String, Option, none, some, List, [], ◌∷◌, ◌++◌,
  map, length, replicate, if◌then◌else◌, ◌==◌,
}
use project_mittens.Prelude.Int.{ℤ, pos, negsuc}
use project_mittens.Prelude.Dict.{Dict, lookup, insert}
use project_mittens.Prelude.Sorting.{str_lt, sort_by}
use project_mittens.Prelude.Keyed.{nth, put, index_from}
use project_mittens.Prelude.Result.{Result, ok, err, ◌>>=◌}
use project_mittens.Float.{Float}
use project_mittens.Fleet.Resource.{DriverLoadMatch}
use project_mittens.Numeric.Lap.{LapError, LapAssignment, in_bounds, solve_lap}
use project_mittens.Dispatch.Evaluations.{CandidateEvaluation}
use project_mittens.Dispatch.Matcher.{
  MatchingAlgorithm, algorithm_exact_lap, algorithm_greedy, MatchingSolution, no_matches, match_of,
  solve_greedy,
}

-- A missing key reads as 0.
abbrev pub or_zero : Option ℕ → ℕ
or_zero none = 0
or_zero (some i) = i

abbrev pub index_of : String → Dict ℕ → ℕ
index_of id d = or_zero (lookup id d)

abbrev pub add_ids : List String → Dict Bool → Dict Bool
add_ids [] d = d
add_ids (id ∷ ids) d = add_ids ids (insert id true d)

-- The distinct ids, in their order as texts.
unfoldable pub canonical_ids : List String → List String
canonical_ids ids = sort_by str_lt (map (λ e. e.0) (add_ids ids []))

-- The index of each id.
abbrev pub number_ids : List String → Dict ℕ
number_ids ids = index_from (λ id. id) 0 ids []

-- `evalIndexMap`, the last write first.
abbrev pub cell_at : ℕ → List (ℕ × ℕ) → Option ℕ
cell_at k [] = none
cell_at k ((j, idx) ∷ cells) = if j == k then some idx else cell_at k cells

-- The payout matrix, and which evaluation each of its cells is of.
pub record Payouts (W : Type 0) : Type 0 where
  pub matrix : List (List W)
  pub cells : List (ℕ × ℕ)

pub record Collected (W : Type 0) : Type 0 where
  pub copied : List (CandidateEvaluation W)
  pub matches : List (DriverLoadMatch W)
  pub objective : W
  pub net : W

module _ {W : Type 0} ⦃f : Float W⦄ where
  abbrev pub infeasible_score_sentinel : W
  infeasible_score_sentinel = f.neg (f.lit 1000000000 0)

  abbrev pub raise_cell : ℕ → ℕ → ℕ → List W → W → ℕ → W → Payouts W → Payouts W
  raise_cell loads i j row old idx score ps =
      if f.lt old score
      then record {
        matrix = put ps.matrix i (put row j score);
        cells = (i * loads + j, idx) ∷ ps.cells;
      }
      else ps

  -- The loop over the evaluations from index `idx` on.
  unfoldable pub fill :
      Dict ℕ
      → Dict ℕ
      → ℕ
      → ℕ
      → List (CandidateEvaluation W)
      → Payouts W
      → Result LapError (Payouts W)
  fill drivers columns loads idx [] ps = ok ps
  fill drivers columns loads idx (e ∷ es) ps =
      let i = index_of e.driver_id drivers in
      let j = index_of e.load_id columns in
      in_bounds (nth ps.matrix i) >>= λ row. in_bounds (nth row j) >>= λ old.
      fill drivers columns loads (suc idx) es (raise_cell loads i j row old idx e.total_score ps)

  abbrev pub record_match :
      ℤ → ℕ → CandidateEvaluation W → String → String → W → Collected W → Collected W
  record_match epoch idx e driver load score st = record {
    copied = put st.copied idx (record e { is_assigned = true });
    matches =
        st.matches
        ++ record {
          driver_id = driver;
          load_id = load;
          dispatch_epoch = epoch;
          estimated_contribution = e.cost_breakdown.net_contribution;
        }
          ∷ [];
    objective = f.add st.objective score;
    net = f.add st.net e.cost_breakdown.net_contribution;
  }

  -- Row `r` with column `c`, where `cell` is the evaluation they stand for.
  unfoldable pub collect_cell :
      ℤ
      → List String
      → List String
      → ℕ
      → ℕ
      → W
      → Option ℕ
      → Collected W
      → Result LapError (Collected W)
  collect_cell epoch driver_ids load_ids r c score none st = ok st
  collect_cell epoch driver_ids load_ids r c score (some idx) st =
      in_bounds (nth st.copied idx) >>= λ e. in_bounds (nth driver_ids r) >>= λ driver.
      in_bounds (nth load_ids c) >>= λ load. ok (record_match epoch idx e driver load score st)

  abbrev pub is_worthless : Bool → W → Bool
  is_worthless allow_negative score =
      if f.le score (f.add infeasible_score_sentinel (f.lit 1 0))
      then true
      else not allow_negative && f.le score f.nought

  -- The loop over the rows from `r` on, with their columns.
  unfoldable pub collect :
      Bool
      → ℤ
      → List String
      → List String
      → Payouts W
      → ℕ
      → List ℤ
      → Collected W
      → Result LapError (Collected W)
  unfolding collect_cell
  collect allow_negative epoch driver_ids load_ids ps r [] st = ok st
  collect allow_negative epoch driver_ids load_ids ps r (negsuc _ ∷ cs) st =
      collect allow_negative epoch driver_ids load_ids ps (suc r) cs st
  collect allow_negative epoch driver_ids load_ids ps r (pos c ∷ cs) st =
      in_bounds (nth ps.matrix r) >>= λ row. in_bounds (nth row c) >>= λ score.
      (if is_worthless allow_negative score
        then ok st
        else collect_cell epoch driver_ids load_ids r c score
            (cell_at (r * length load_ids + c) ps.cells) st)
      >>= λ st'. collect allow_negative epoch driver_ids load_ids ps (suc r) cs st'

  -- The dual values by id, as far as there are some.
  abbrev pub dual_values : List String → List W → Dict W → Dict W
  dual_values [] duals d = d
  dual_values (id ∷ ids) [] d = d
  dual_values (id ∷ ids) (x ∷ duals) d = dual_values ids duals (insert id x d)

  abbrev pub by_driver : DriverLoadMatch W → DriverLoadMatch W → Bool
  by_driver a b = str_lt a.driver_id b.driver_id

  unfoldable pub payouts :
      List String → List String → List (CandidateEvaluation W) → Result LapError (Payouts W)
  unfolding fill
  payouts driver_ids load_ids evals =
      fill (number_ids driver_ids) (number_ids load_ids) (length load_ids) 0 evals (record {
        matrix =
            replicate (length driver_ids) (replicate (length load_ids) infeasible_score_sentinel);
        cells = [];
      })

  abbrev pub solution_of :
      List String → List String → LapAssignment W → Collected W → MatchingSolution W
  solution_of driver_ids load_ids a st = record {
    matches = sort_by by_driver st.matches;
    evaluations = st.copied;
    total_objective = st.objective;
    total_net_contribution = st.net;
    driver_dual_values = dual_values driver_ids a.row_duals [];
    load_dual_values = dual_values load_ids a.col_duals [];
  }

  unfoldable pub solve_exact :
      List (CandidateEvaluation W) → ℤ → Bool → Result LapError (MatchingSolution W)
  unfolding canonical_ids payouts collect
  solve_exact evals epoch allow_negative =
      let driver_ids = canonical_ids (map (λ e. e.driver_id) evals) in
      let load_ids = canonical_ids (map (λ e. e.load_id) evals) in
      payouts driver_ids load_ids evals >>= λ ps. solve_lap ps.matrix true allow_negative >>= λ a.
      collect allow_negative epoch driver_ids load_ids ps 0 a.row_to_col
        (record { copied = evals; matches = []; objective = f.nought; net = f.nought })
      >>= λ st. ok (solution_of driver_ids load_ids a st)

  -- Which matcher does it is the choice of the instance.
  unfoldable pub solve_matching :
      MatchingAlgorithm
      → List (CandidateEvaluation W)
      → ℤ
      → Bool
      → Result LapError (MatchingSolution W)
  unfolding solve_exact
  solve_matching algorithm [] epoch allow_negative = ok (no_matches f.nought f.nought)
  solve_matching algorithm_greedy (e ∷ es) epoch allow_negative =
      ok (solve_greedy (e ∷ es) epoch allow_negative)
  solve_matching algorithm_exact_lap (e ∷ es) epoch allow_negative =
      solve_exact (e ∷ es) epoch allow_negative
