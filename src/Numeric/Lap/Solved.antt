-- ===== src/Numeric/Lap/Solved.antt =====
-- What `SolveLAP` gives.
use mathlib.Core.Path.{subst}
use project_mittens.Prelude.{
  ℕ, zero, suc, ◌<◌, ◌∙◌, ◌≡◌, ◌≢◌, ◌⊎◌, refl, sym, Bool, true, false, not, ◌&&◌, some, List, [],
  ◌∷◌, length, length-replicate, tail, replicate, All, inl, inr, arith, if◌then◌else◌, Bool-cases,
  ltb, leb, ◌==◌,
}
use project_mittens.Prelude.Int.{pos, negsuc}
use project_mittens.Prelude.Keyed.{nth}
use project_mittens.Prelude.Counts.{nth-lt}
use project_mittens.Prelude.Result.{ok}
use project_mittens.Float.{Float}
use project_mittens.Numeric.Lap.{
  Column, LapAssignment, Pairs, extract, entry, assemble, check_rows, solve_lap,
}
use project_mittens.Numeric.Lap.Scans.{IsBounded}
use project_mittens.Numeric.Lap.Searches.{InRange}
use project_mittens.Numeric.Lap.Matched.{IsMatched}
use project_mittens.Numeric.Lap.Complete.{lesser, greater, HasStall, match_rows-IsMatched}
use project_mittens.Numeric.Lap.Inverse.{
  filled, IsInverse, IsExtracting, extract-IsExtracting, extract-swap,
}
use project_mittens.Numeric.Lap.Pruned.{prune-IsPruned}

nth-idle : (k i c : ℕ) → nth (replicate k (negsuc 0)) i ≢ some (pos c)
nth-idle zero i c e = absurd (cc e)
nth-idle (suc k) zero c e = absurd (cc e)
nth-idle (suc k) (suc i) c e = nth-idle k i c e

filled-idle : (k : ℕ) → filled (replicate k (negsuc 0)) ≡ 0
filled-idle zero = refl
filled-idle (suc k) = filled-idle k

All-tail {ℓ κ} : {A : Type ℓ} (P : A → Type κ) (xs : List A) → All P xs → All P (tail xs)
All-tail P [] h = h
All-tail P (x ∷ xs) (p, ps) = ps

length-tail {ℓ} : {A : Type ℓ} (xs : List A) (m : ℕ) → length xs ≡ suc m → length (tail xs) ≡ m
length-tail [] m e = absurd (omega (arith, e))
length-tail (x ∷ xs) m e = omega (arith, e)

not_empty : (k : ℕ) → k ≢ 0 → (k == 0) ≡ false
not_empty k h = ground arith

abbrev idle : ℕ → ℕ → Pairs
idle k w = record { rows = replicate k (negsuc 0); cols = replicate w (negsuc 0) }

-- The vectors have their lengths, match as many lines as there are pairs, and are each other's
-- inverse.
record ArePaired (total k w : ℕ) (ps : Pairs) : Type 0 where
  inverse : IsInverse ps.rows ps.cols
  rows_filled : filled ps.rows ≡ total
  row_count : length ps.rows ≡ k
  col_count : length ps.cols ≡ w

module _ {W : Type 0} ⦃f : Float W⦄ where
  -- What is promised of a result for the matrix.
  pub record IsAssignment (matrix : List (List W)) (cols : ℕ) (drops : Bool) (r : LapAssignment W)
      : Type 0 where
    pub inverse : IsInverse r.row_to_col r.col_to_row
    pub in_rows : length r.row_to_col ≡ length matrix
    pub in_columns : (i c : ℕ) → nth r.row_to_col i ≡ some (pos c) → c < cols
    pub counted : r.match_count ≡ filled r.row_to_col
    pub full : drops ≡ false → r.match_count ≡ lesser matrix cols
    pub gains :
        (i c : ℕ)
        → drops ≡ true
        → nth r.row_to_col i ≡ some (pos c)
        → f.lt (entry matrix i c) f.nought ≡ false

module _ {W : Type 0} ⦃f : Float W⦄ (laws : IsBounded f) where
  idle-IsExtracting :
      (n m : ℕ) (us : List W) (cs : List (Column W))
      → IsMatched laws n m n us cs
      → IsExtracting n n 1 (tail cs) (idle n m)
  idle-IsExtracting n m us cs h =
      let len = length-tail cs m h.width in
      record {
        inverse = (λ r c e. absurd (nth-idle n r c e), λ r c e. absurd (nth-idle m r c e));
        cols_unset = λ k c _. nth-idle m k c;
        rows_unset = λ x c _. nth-idle n x c;
        once = λ x pos_x. elim (Bool-cases (leb x n)) [
          | inl q ↦ let o = h.one x pos_x (ground arith) in omega arith
          | inr q ↦ let o = h.no_more x (ground arith) in omega arith
        ];
        row_count = length-replicate n (negsuc 0);
        col_count = omega (arith, length-replicate m (negsuc 0), len);
        rows_filled = omega (arith, filled-idle n, len, h.free);
        cols_filled = omega (arith, filled-idle m, len, h.free);
        small = All-tail (InRange laws n) cs h.in_range;
      }

  extract-ArePaired :
      (b : Bool) (k w : ℕ) (us : List W) (cs : List (Column W))
      → IsMatched laws (if b then w else k) (if b then k else w) (if b then w else k) us cs
      → ArePaired (if b then w else k) k w (extract b (if b then w else k) 1 (tail cs) (idle k w))
  extract-ArePaired true k w us cs h =
      let done =
        extract-IsExtracting w w 1 (tail cs) (idle w k) (omega arith)
          (idle-IsExtracting w k us cs h) in
      subst (ArePaired w k w) (sym (extract-swap w 1 (tail cs) (idle k w))) (record {
        inverse = (done.inverse.1, done.inverse.0);
        rows_filled = omega (arith, done.cols_filled);
        row_count = omega (arith, done.col_count, length-tail cs k h.width);
        col_count = done.row_count;
      })
  extract-ArePaired false k w us cs h =
      let done =
        extract-IsExtracting k k 1 (tail cs) (idle k w) (omega arith)
          (idle-IsExtracting k w us cs h) in
      record {
        inverse = done.inverse;
        rows_filled = omega (arith, done.rows_filled);
        row_count = done.row_count;
        col_count = omega (arith, done.col_count, length-tail cs w h.width);
      }

  assemble-IsAssignment :
      (matrix : List (List W)) (cols : ℕ) (maximize allow_negative : Bool) (us : List W)
      → (cs : List (Column W))
      → IsMatched laws (lesser matrix cols) (greater matrix cols) (lesser matrix cols) us cs
      → IsAssignment matrix cols
          (not allow_negative && maximize)
          (assemble matrix cols maximize allow_negative (us, cs))
  unfolding assemble
  assemble-IsAssignment matrix cols maximize allow_negative us cs h =
      let paired = extract-ArePaired (ltb cols (length matrix)) (length matrix) cols us cs h in
      let drops = not allow_negative && maximize in
      let k =
        prune-IsPruned matrix drops 0 _ _ f.nought 0
          (λ i c x e q. let same : x ≡ i = omega (arith, e) in rw same (paired.inverse.0 i c q))
          (λ i c x e q.
            paired.inverse.1 c i (let same : x ≡ i = omega (arith, e) in rw (sym same) q)) in
      record {
        inverse = (λ r c q. k.forth r c r (omega arith) q, λ c r q. k.back r c r (omega arith) q);
        counted = omega (arith, k.counted);
        full = λ off. omega (arith, k.counted, k.whole off, paired.rows_filled);
        in_rows = k.same_length ∙ paired.row_count;
        in_columns = λ i c q. omega (
          arith,
          nth-lt _ c (pos i) (k.fewer c i (k.forth i c i (omega arith) q)),
          paired.col_count,
        );
        gains = λ i c d q. k.gains i c i (omega arith) d q;
      }

  pub solve_lap-IsAssignment :
      (row : List W) (rest : List (List W)) (maximize allow_negative : Bool)
      → length row ≢ 0
      → check_rows (length row) (row ∷ rest) ≡ ok tt
      → ((r : LapAssignment W) × (solve_lap (row ∷ rest) maximize allow_negative ≡ ok r)
          × IsAssignment (row ∷ rest) (length row) (not allow_negative && maximize) r)
        ⊎ HasStall (row ∷ rest) (length row) maximize
  unfolding solve_lap
  solve_lap-IsAssignment row rest maximize allow_negative wide checked =
      elim (match_rows-IsMatched laws (row ∷ rest) (length row) maximize) [
        | inr stall ↦ inr stall
        | inl (us, cs, run, h) ↦ inl (
          assemble (row ∷ rest) (length row) maximize allow_negative (us, cs),
          rw (not_empty (length row) wide, checked, run) refl,
          assemble-IsAssignment (row ∷ rest) (length row) maximize allow_negative us cs h,
        )
      ]
