-- ===== src/Numeric/Lap.antt =====
-- pkg/math/lap.go: the successive shortest paths. The arrays `v`, `p`, `way`, `minv` and `used` have
-- one length and are one list of columns; the cost matrix is a function of its two indexes, 0 where
-- the code leaves the zero value. A read out of range is an error, as is a loop out of fuel.
pub mod Scans
pub mod Searches
pub mod Rounds
pub mod Flips
pub mod Rows
pub mod Matched
pub mod Complete
pub mod Inverse
pub mod Pruned
pub mod Solved
use project_mittens.Prelude.{
  ℕ, zero, suc, ◌+◌, ◌-◌, Bool, true, false, not, ◌&&◌, ◌||◌, Option, none, some, List, [], ◌∷◌,
  map, if◌then◌else◌, length, replicate, tail, ◌==◌, ltb, leb,
}
use project_mittens.Prelude.Int.{ℤ, pos, negsuc}
use project_mittens.Prelude.Keyed.{nth, put}
use project_mittens.Prelude.Result.{Result, ok, err, ◌>>=◌}
use project_mittens.Float.{Float}

pub data LapError : Type 0 where
  empty_matrix dimension_mismatch non_finite index_out_of_range out_of_fuel : LapError

pub record LapAssignment (W : Type 0) : Type 0 where
  pub row_to_col : List ℤ
  pub col_to_row : List ℤ
  pub total_weight : W
  pub match_count : ℕ
  pub row_duals : List W
  pub col_duals : List W

-- The entries of the five arrays at one index.
pub record Column (W : Type 0) : Type 0 where
  pub v : W
  pub p : ℕ
  pub way : ℕ
  pub minv : W
  pub used : Bool

-- The smallest `minv` so far, and where it is.
pub record Best (W : Type 0) : Type 0 where
  pub delta : W
  pub j1 : ℕ

-- The potentials and columns between two rounds, and the column that the path has reached.
pub record Search (W : Type 0) : Type 0 where
  pub u : List W
  pub columns : List (Column W)
  pub j0 : ℕ

abbrev pub in_bounds {ℓ} : {A : Type ℓ} → Option A → Result LapError A
in_bounds none = err index_out_of_range
in_bounds (some a) = ok a

-- The two vectors of the result.
pub record Pairs : Type 0 where
  pub rows : List ℤ
  pub cols : List ℤ

-- `rowToCol[r] = c; colToRow[c] = r`
abbrev pub pair : ℕ → ℕ → Pairs → Pairs
pair r c ps = record { rows = put ps.rows r (pos c); cols = put ps.cols c (pos r) }

-- What the filter of negative pairs has kept and counted.
pub record Tally (W : Type 0) : Type 0 where
  pub kept_rows : List ℤ
  pub kept_cols : List ℤ
  pub weight : W
  pub count : ℕ

module _ {W : Type 0} where
  abbrev pub with_row : ℤ → Tally W → Tally W
  with_row c t = record t { kept_rows = c ∷ t.kept_rows }

  abbrev pub mark_used : Column W → Column W
  mark_used c = record c { used = true }

  abbrev pub set_p : ℕ → Column W → Column W
  set_p i c = record c { p = i }

  -- `p[j0] = i`
  abbrev pub write_p : List (Column W) → ℕ → ℕ → Result LapError (List (Column W))
  write_p columns j0 i = in_bounds (nth columns j0) >>= λ c. ok (put columns j0 (set_p i c))

  -- The loop that flips the path back from `j0`.
  unfoldable pub flip_path : ℕ → List (Column W) → ℕ → Result LapError (List (Column W))
  flip_path zero columns j0 = err out_of_fuel
  flip_path (suc fuel) columns j0 = in_bounds (nth columns j0) >>= λ c0.
      in_bounds (nth columns c0.way) >>= λ c1. write_p columns j0 c1.p >>= λ flipped.
      (let rest = flip_path fuel flipped c0.way in if c0.way == 0 then ok flipped else rest)

  -- The extraction from column `j` on, where the matched side has `limit` lines.
  unfoldable pub extract : Bool → ℕ → ℕ → List (Column W) → Pairs → Pairs
  extract transposed limit j [] ps = ps
  extract transposed limit j (c ∷ cs) ps = extract transposed limit (suc j) cs (
      if ltb 0 c.p && leb c.p limit
      then if transposed then pair (j - 1) (c.p - 1) ps else pair (c.p - 1) (j - 1) ps
      else ps)

module _ {W : Type 0} ⦃f : Float W⦄ where
  abbrev pub is_finite : W → Bool
  is_finite x = not (f.is_nan x || f.is_inf x)

  unfoldable pub check_values : List W → Result LapError (Unit {0})
  check_values [] = ok tt
  check_values (x ∷ xs) = let rest = check_values xs in if is_finite x then rest else err non_finite

  unfoldable pub check_rows : ℕ → List (List W) → Result LapError (Unit {0})
  unfolding check_values
  check_rows cols [] = ok tt
  check_rows cols (r ∷ rs) =
      if length r == cols
      then (check_values r >>= λ _. check_rows cols rs)
      else err dimension_mismatch

  abbrev pub or_nought : Option W → W
  or_nought none = f.nought
  or_nought (some x) = x

  abbrev pub entry_of : Option (List W) → ℕ → W
  entry_of none c = f.nought
  entry_of (some row) c = or_nought (nth row c)

  abbrev pub entry : List (List W) → ℕ → ℕ → W
  entry matrix r c = entry_of (nth matrix r) c

  -- `cost[i][j]`
  unfoldable pub cost_at : List (List W) → Bool → Bool → ℕ → ℕ → W
  cost_at matrix maximize transposed zero j = f.nought
  cost_at matrix maximize transposed (suc i) zero = f.nought
  cost_at matrix maximize transposed (suc i) (suc j) =
      let raw = if transposed then entry matrix j i else entry matrix i j in
      if maximize then f.neg raw else raw

  abbrev pub relax : W → ℕ → Column W → Column W
  relax cur j0 c = if f.lt cur c.minv then record c { minv = cur; way = j0 } else c

  -- Column `j` in the scan from `j0`, whose row has the costs `cost` and the potential `ui`.
  abbrev pub visit : (ℕ → W) → W → ℕ → ℕ → Column W → Column W
  visit cost ui j0 j c = if not c.used then relax (f.sub (f.sub (cost j) ui) c.v) j0 c else c

  abbrev pub better : ℕ → Column W → Best W → Best W
  better j c best =
      if not c.used
      then if f.lt c.minv best.delta then record { delta = c.minv; j1 = j } else best
      else best

  -- The loop over the columns from `j` on.
  unfoldable pub scan : (ℕ → W) → W → ℕ → ℕ → Best W → List (Column W) → Best W × List (Column W)
  scan cost ui j0 j best [] = (best, [])
  scan cost ui j0 j best (c ∷ cs) =
      let c' = visit cost ui j0 j c in
      let (found, rest) = scan cost ui j0 (suc j) (better j c' best) cs in (found, c' ∷ rest)

  -- The scan leaves column 0 out.
  unfoldable pub scan_columns : (ℕ → W) → W → ℕ → List (Column W) → Best W × List (Column W)
  unfolding scan
  scan_columns cost ui j0 [] = (record { delta = f.inf; j1 = 0 }, [])
  scan_columns cost ui j0 (c ∷ cs) =
      let (found, rest) = scan cost ui j0 1 (record { delta = f.inf; j1 = 0 }) cs in
      (found, c ∷ rest)

  abbrev pub add_potential : W → Column W → List W → Result LapError (List W)
  add_potential delta c us =
      if c.used then (in_bounds (nth us c.p) >>= λ x. ok (put us c.p (f.add x delta))) else ok us

  abbrev pub lower : W → Column W → Column W
  lower delta c =
      if c.used then record c { v = f.sub c.v delta } else record c { minv = f.sub c.minv delta }

  -- The loop that moves the potentials by `delta`.
  unfoldable pub shift : W → List W → List (Column W) → Result LapError (List W × List (Column W))
  shift delta us [] = ok (us, [])
  shift delta us (c ∷ cs) = add_potential delta c us >>= λ us'.
      shift delta us' cs >>= λ (us'', cs'). ok (us'', lower delta c ∷ cs')

  -- One round of the search.
  unfoldable pub search_round : (ℕ → ℕ → W) → Search W → Result LapError (Search W)
  unfolding scan_columns shift
  search_round cost s = in_bounds (nth s.columns s.j0) >>= λ c0. in_bounds (nth s.u c0.p) >>= λ ui.
      (let (found, scanned) =
          scan_columns (cost c0.p) ui s.j0 (put s.columns s.j0 (mark_used c0)) in
        shift found.delta s.u scanned >>= λ (us, columns).
        ok (record { u = us; columns = columns; j0 = found.j1 }))

  -- The rounds, up to a column without a row.
  unfoldable pub search : ℕ → (ℕ → ℕ → W) → Search W → Result LapError (Search W)
  unfolding search_round
  search zero cost s = err out_of_fuel
  search (suc fuel) cost s = search_round cost s >>= λ s'. in_bounds (nth s'.columns s'.j0) >>= λ c.
      (let rest = search fuel cost s' in if c.p == 0 then ok s' else rest)

  abbrev pub reset : Column W → Column W
  reset c = record c { minv = f.inf; used = false }

  -- `p[0] = i`, `minv` and `used` afresh.
  abbrev pub begin_row : ℕ → List (Column W) → List (Column W)
  begin_row i [] = []
  begin_row i (c ∷ cs) = set_p i (reset c) ∷ map reset cs

  -- One row is added to the matching.
  unfoldable pub insert_row :
      (ℕ → ℕ → W) → ℕ → List W × List (Column W) → Result LapError (List W × List (Column W))
  unfolding search flip_path
  insert_row cost i (us, columns) =
      let fuel = suc (length columns) in
      search fuel cost (record { u = us; columns = begin_row i columns; j0 = 0 }) >>= λ s.
      flip_path fuel s.columns s.j0 >>= λ flipped. ok (s.u, flipped)

  -- The rows from `i` on, `k` of them.
  unfoldable pub insert_rows :
      (ℕ → ℕ → W) → ℕ → ℕ → List W × List (Column W) → Result LapError (List W × List (Column W))
  unfolding insert_row
  insert_rows cost i zero st = ok st
  insert_rows cost i (suc k) st = insert_row cost i st >>= λ st'. insert_rows cost (suc i) k st'

  abbrev pub fresh_column : Column W
  fresh_column = record { v = f.nought; p = 0; way = 0; minv = f.nought; used = false }

  -- The filter from row `r` on.
  unfoldable pub prune : List (List W) → Bool → ℕ → List ℤ → List ℤ → W → ℕ → Tally W
  prune matrix drops r [] cols total n = record {
    kept_rows = [];
    kept_cols = cols;
    weight = total;
    count = n;
  }
  prune matrix drops r (negsuc c ∷ rest) cols total n =
      with_row (negsuc c) (prune matrix drops (suc r) rest cols total n)
  prune matrix drops r (pos c ∷ rest) cols total n =
      let dropped = prune matrix drops (suc r) rest (put cols c (negsuc 0)) total n in
      let kept = prune matrix drops (suc r) rest cols (f.add total (entry matrix r c)) (suc n) in
      if drops && f.lt (entry matrix r c) f.nought
      then with_row (negsuc 0) dropped
      else with_row (pos c) kept

  abbrev pub signed : Bool → W → W
  signed maximize x = if maximize then f.neg x else x

  -- The results, from the potentials and the columns.
  unfoldable pub assemble :
      List (List W) → ℕ → Bool → Bool → List W × List (Column W) → LapAssignment W
  unfolding extract prune
  assemble matrix cols maximize allow_negative (u, columns) =
      let transposed = ltb cols (length matrix) in
      let ps =
        extract transposed (if transposed then cols else length matrix) 1 (tail columns) (record {
          rows = replicate (length matrix) (negsuc 0);
          cols = replicate cols (negsuc 0);
        }) in
      let t = prune matrix (not allow_negative && maximize) 0 ps.rows ps.cols f.nought 0 in
      let us = map (signed maximize) (tail u) in
      let vs = map (λ c. signed maximize c.v) (tail columns) in
      record {
        row_to_col = t.kept_rows;
        col_to_row = t.kept_cols;
        total_weight = t.weight;
        match_count = t.count;
        row_duals = if transposed then vs else us;
        col_duals = if transposed then us else vs;
      }

  -- The matching of a matrix with so many columns, which has been checked.
  unfoldable pub match_rows : List (List W) → ℕ → Bool → Result LapError (List W × List (Column W))
  unfolding insert_rows
  match_rows matrix cols maximize =
      let transposed = ltb cols (length matrix) in
      let n = if transposed then cols else length matrix in
      let m = if transposed then length matrix else cols in
      insert_rows (cost_at matrix maximize transposed) 1 n
        (replicate (suc n) f.nought, replicate (suc m) fresh_column)

  unfoldable pub solve_lap : List (List W) → Bool → Bool → Result LapError (LapAssignment W)
  unfolding match_rows assemble check_rows
  solve_lap [] maximize allow_negative = err empty_matrix
  solve_lap (row ∷ rest) maximize allow_negative =
      if length row == 0
      then err empty_matrix
      else (check_rows (length row) (row ∷ rest) >>= λ _.
          match_rows (row ∷ rest) (length row) maximize >>= λ st.
          ok (assemble (row ∷ rest) (length row) maximize allow_negative st))
