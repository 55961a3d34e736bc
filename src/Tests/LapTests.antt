-- ===== src/Tests/LapTests.antt =====
-- Matrices of payouts.
use project_mittens.Prelude.{ℕ, ◌≡◌, ◌⊎◌, refl, true, false, List, [], ◌∷◌}
use project_mittens.Prelude.Int.{pos, negsuc, ◌+ℤ◌}
use project_mittens.Prelude.Result.{Result, err, ok}
use project_mittens.Numeric.Lap.{LapError, LapAssignment, cost_at, check_rows, solve_lap}
use project_mittens.Numeric.Lap.Scans.{IsTop, IsBounded}
use project_mittens.Numeric.Lap.Complete.{HasStall}
use project_mittens.Numeric.Lap.Solved.{IsAssignment, solve_lap-IsAssignment}
use project_mittens.Tests.Exact.{Exact, infinite, fin, exact, plus, minus}

abbrev n : ℕ → Exact
n k = fin (pos k)

-- The best pair of all, 9, is given up for 8 + 7.
abbrev square : List (List Exact)
square = (n 9 ∷ n 8 ∷ []) ∷ (n 7 ∷ n 1 ∷ []) ∷ []

solved :
    solve_lap square true false
    ≡ ok (record {
      row_to_col = pos 1 ∷ pos 0 ∷ [];
      col_to_row = pos 1 ∷ pos 0 ∷ [];
      total_weight = n 15;
      match_count = 2;
      row_duals = n 8 ∷ n 6 ∷ [];
      col_duals = n 1 ∷ n 0 ∷ [];
    })
unfolding solve_lap cost_at ◌+ℤ◌
solved = refl

bounded_kept : (x y : Exact) → IsTop x → IsTop (plus x (minus y))
bounded_kept infinite y h = h
bounded_kept (fin a) y h = absurd (cc (h infinite))

pub bounded : IsBounded exact
bounded = record { top = λ y. refl; kept = bounded_kept }

square_checked : check_rows 2 square ≡ ok tt
unfolding check_rows
square_checked = refl

solve_lap-IsAssignment_example :
    ((r : LapAssignment Exact) × (solve_lap square true false ≡ ok r)
      × IsAssignment square 2 true r)
    ⊎ HasStall square 2 true
solve_lap-IsAssignment_example =
    solve_lap-IsAssignment bounded (n 9 ∷ n 8 ∷ []) ((n 7 ∷ n 1 ∷ []) ∷ []) true false
      (λ e. absurd (cc e)) square_checked

-- More rows than columns: the last row stays idle.
abbrev tall : List (List Exact)
tall = (n 9 ∷ n 8 ∷ []) ∷ (n 7 ∷ n 1 ∷ []) ∷ (n 5 ∷ n 6 ∷ []) ∷ []

solved_tall :
    solve_lap tall true false
    ≡ ok (record {
      row_to_col = pos 1 ∷ pos 0 ∷ negsuc 0 ∷ [];
      col_to_row = pos 1 ∷ pos 0 ∷ [];
      total_weight = n 15;
      match_count = 2;
      row_duals = n 2 ∷ n 0 ∷ n 0 ∷ [];
      col_duals = n 7 ∷ n 6 ∷ [];
    })
unfolding solve_lap cost_at ◌+ℤ◌
solved_tall = refl

-- A pair that loses money is dropped.
losing :
    solve_lap ((fin (negsuc 4) ∷ []) ∷ []) true false
    ≡ ok (record {
      row_to_col = negsuc 0 ∷ [];
      col_to_row = negsuc 0 ∷ [];
      total_weight = n 0;
      match_count = 0;
      row_duals = fin (negsuc 4) ∷ [];
      col_duals = n 0 ∷ [];
    })
unfolding solve_lap cost_at ◌+ℤ◌
losing = refl

-- The pair of -1, which is dropped, has decided against that of 10.
abbrev weight : Result LapError (LapAssignment Exact) → Exact
weight (err _) = infinite
weight (ok r) = r.total_weight

spoiled :
    weight (solve_lap ((n 10 ∷ n 1 ∷ []) ∷ (fin (negsuc 0) ∷ fin (negsuc 99) ∷ []) ∷ []) true false)
    ≡ n 1
unfolding solve_lap cost_at ◌+ℤ◌
spoiled = refl
