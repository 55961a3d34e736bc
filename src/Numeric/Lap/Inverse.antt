-- ===== src/Numeric/Lap/Inverse.antt =====
-- The extraction gives two vectors that are each other's inverse.
use mathlib.Core.Path.{subst}
use native.Mathlib.Decide.{ℕ_discrete}
use project_mittens.Prelude.{
  ℕ, zero, suc, ◌+◌, ◌-◌, ◌<◌, ◌≤◌, ◌≡◌, ◌≢◌, refl, sym, ap, ◌∙◌, Bool, true, false, some, List, [],
  ◌∷◌, length, All, arith, if◌then◌else◌, if_cases, ltb, leb, ◌&&◌,
}
use project_mittens.Prelude.Int.{ℤ, pos, negsuc}
use project_mittens.Prelude.Keyed.{nth, put, length-put, nth-put_same, nth-put_other}
use project_mittens.Prelude.Counts.{occurs, nth-some}
use project_mittens.Numeric.Lap.{Column, Pairs, pair, extract}
use project_mittens.Numeric.Lap.Scans.{rows_of}

-- How many lines are matched.
abbrev pub filled : List ℤ → ℕ
filled [] = 0
filled (pos c ∷ xs) = suc (filled xs)
filled (negsuc c ∷ xs) = filled xs

-- What `xs` matches with a line, `ys` matches with it.
abbrev pub Maps : List ℤ → List ℤ → Type 0
Maps xs ys = (r c : ℕ) → nth xs r ≡ some (pos c) → nth ys c ≡ some (pos r)

abbrev pub IsInverse : List ℤ → List ℤ → Type 0
IsInverse xs ys = Maps xs ys × Maps ys xs

filled-put :
    (xs : List ℤ) (i r : ℕ)
    → i < length xs
    → ((c : ℕ) → nth xs i ≢ some (pos c))
    → filled (put xs i (pos r)) ≡ suc (filled xs)
filled-put [] i r h u = absurd (omega arith)
filled-put (pos c ∷ xs) zero r h u = absurd (u c refl)
filled-put (negsuc c ∷ xs) zero r h u = refl
filled-put (pos c ∷ xs) (suc i) r h u = ap suc (filled-put xs i r (omega arith) u)
filled-put (negsuc c ∷ xs) (suc i) r h u = filled-put xs i r (omega arith) u

Maps-put :
    (xs ys : List ℤ) (r c : ℕ)
    → r < length xs
    → c < length ys
    → ((k : ℕ) → nth ys c ≢ some (pos k))
    → Maps xs ys
    → Maps (put xs r (pos c)) (put ys c (pos r))
Maps-put xs ys r c in_x in_y unset h r' c' e =
    let (x, ex) = nth-some xs r in_x in
    let (y, ey) = nth-some ys c in_y in
    elim (ℕ_discrete r r') [
      | yes same ↦
          let here : nth (put xs r (pos c)) r' ≡ some (pos c) =
            ap (nth (put xs r (pos c))) (sym same) ∙ nth-put_same xs r x (pos c) ex in
          let col : c ≡ c' = cc (sym here ∙ e) in
          ap (nth (put ys c (pos r))) (sym col)
          ∙ nth-put_same ys c y (pos r) ey
          ∙ ap (λ k. some (pos k)) same
      | no apart ↦
          let was = h r' c' (sym (nth-put_other xs r r' (pos c) apart) ∙ e) in
          nth-put_other ys c c' (pos r) (λ q. absurd (unset r' (ap (nth ys) q ∙ was))) ∙ was
    ]

abbrev swap : Pairs → Pairs
swap ps = record { rows = ps.cols; cols = ps.rows }

swap-if : (b : Bool) (x y : Pairs) → swap (if b then x else y) ≡ (if b then swap x else swap y)
swap-if true x y = refl
swap-if false x y = refl

module _ {W : Type 0} (limit : ℕ) where
  -- With rows and columns exchanged, the extraction is the same.
  pub extract-swap :
      (j : ℕ) (cs : List (Column W)) (ps : Pairs)
      → extract true limit j cs ps ≡ swap (extract false limit j cs (swap ps))
  unfolding extract
  extract-swap j [] ps = refl
  extract-swap j (c ∷ cs) ps =
      extract-swap (suc j) cs _
      ∙ ap (λ x. swap (extract false limit (suc j) cs x))
          (swap-if (ltb 0 c.p && leb c.p limit) (pair (j - 1) (c.p - 1) ps) ps)

  -- The columns from `j` on are still to be extracted; `total` pairs there are in all.
  pub record IsExtracting (total j : ℕ) (cs : List (Column W)) (ps : Pairs) : Type 0 where
    pub inverse : IsInverse ps.rows ps.cols
    pub cols_unset : (k c : ℕ) → j ≤ suc k → nth ps.cols k ≢ some (pos c)
    pub rows_unset : (x c : ℕ) → 0 < occurs (suc x) (rows_of cs) → nth ps.rows x ≢ some (pos c)
    pub once : (x : ℕ) → 0 < x → occurs x (rows_of cs) ≤ 1
    pub row_count : length ps.rows ≡ limit
    pub col_count : length ps.cols + 1 ≡ j + length cs
    pub rows_filled : filled ps.rows + length cs ≡ total + occurs 0 (rows_of cs)
    pub cols_filled : filled ps.cols + length cs ≡ total + occurs 0 (rows_of cs)
    pub small : All (λ c. c.p ≤ limit) cs

  pair-IsExtracting :
      (total j : ℕ) (c : Column W) (cs : List (Column W)) (ps : Pairs)
      → 0 < j
      → 0 < c.p
      → IsExtracting total j (c ∷ cs) ps
      → IsExtracting total (suc j) cs (pair (c.p - 1) (j - 1) ps)
  pair-IsExtracting total j c cs ps pos_j pos_p h =
      let (le, small) = h.small in
      let in_r : c.p - 1 < length ps.rows = omega (arith, h.row_count) in
      let in_c : j - 1 < length ps.cols = omega (arith, h.col_count) in
      let row_free : (k : ℕ) → nth ps.rows (c.p - 1) ≢ some (pos k) = λ k.
        h.rows_unset (c.p - 1) k (let same : suc (c.p - 1) ≡ c.p = omega arith in ground arith) in
      let col_free : (k : ℕ) → nth ps.cols (j - 1) ≢ some (pos k) =
        λ k. h.cols_unset (j - 1) k (omega arith) in
      record {
        inverse = (
          Maps-put ps.rows ps.cols (c.p - 1) (j - 1) in_r in_c col_free h.inverse.0,
          Maps-put ps.cols ps.rows (j - 1) (c.p - 1) in_c in_r row_free h.inverse.1,
        );
        cols_unset = λ k d le.
            rw (nth-put_other ps.cols (j - 1) k (pos (c.p - 1)) (λ q. absurd (omega (arith, q))))
              (h.cols_unset k d (omega arith));
        rows_unset = λ x d more.
            rw
              (nth-put_other ps.rows (c.p - 1) x (pos (j - 1)) (λ q.
                let o = h.once (suc x) (omega arith) in
                let same : suc x ≡ c.p = omega (arith, q) in absurd (ground arith)))
              (h.rows_unset x d (omega arith));
        once = λ x pos_x. omega (arith, h.once x pos_x);
        row_count = length-put ps.rows (c.p - 1) (pos (j - 1)) ∙ h.row_count;
        col_count = omega (arith, length-put ps.cols (j - 1) (pos (c.p - 1)), h.col_count);
        rows_filled =
            let k = filled-put ps.rows (c.p - 1) (j - 1) in_r row_free in
            let g = h.rows_filled in ground arith;
        cols_filled =
            let k = filled-put ps.cols (j - 1) (c.p - 1) in_c col_free in
            let g = h.cols_filled in ground arith;
        small = small;
      }

  skip-IsExtracting :
      (total j : ℕ) (c : Column W) (cs : List (Column W)) (ps : Pairs)
      → c.p ≡ 0
      → IsExtracting total j (c ∷ cs) ps
      → IsExtracting total (suc j) cs ps
  skip-IsExtracting total j c cs ps z h = record {
    inverse = h.inverse;
    cols_unset = λ k d le. h.cols_unset k d (omega arith);
    rows_unset = λ x d more. h.rows_unset x d (omega arith);
    once = λ x pos_x. omega (arith, h.once x pos_x);
    row_count = h.row_count;
    col_count = omega (arith, h.col_count);
    rows_filled = let g = h.rows_filled in ground arith;
    cols_filled = let g = h.cols_filled in ground arith;
    small = h.small.1;
  }

  pub extract-IsExtracting :
      (total j : ℕ) (cs : List (Column W)) (ps : Pairs)
      → 0 < j
      → IsExtracting total j cs ps
      → IsExtracting total (j + length cs) [] (extract false limit j cs ps)
  unfolding extract
  extract-IsExtracting total j [] ps pos_j h =
      subst (λ k. IsExtracting total k [] ps) (omega arith) h
  extract-IsExtracting total j (c ∷ cs) ps pos_j h =
      subst (λ k. IsExtracting total k [] (extract false limit j (c ∷ cs) ps)) (omega arith)
        (extract-IsExtracting total (suc j) cs _ (omega arith) (
          if_cases (IsExtracting total (suc j) cs) (ltb 0 c.p && leb c.p limit) _ ps
            (λ q. pair-IsExtracting total j c cs ps pos_j (ground arith) h)
            (λ q. let le = h.small.0 in skip-IsExtracting total j c cs ps (ground arith) h)))
