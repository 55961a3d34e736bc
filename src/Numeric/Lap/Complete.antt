-- ===== src/Numeric/Lap/Complete.antt =====
-- All the rows are added, within the fuel and with no index out of range, unless a search is stuck.
use mathlib.Core.Path.{subst}
use project_mittens.Prelude.{
  ℕ, zero, suc, ◌+◌, ◌<◌, ◌≡◌, ◌⊎◌, inl, inr, refl, Bool, List, length, length-replicate, replicate,
  All, arith, ltb, if◌then◌else◌,
}
use project_mittens.Prelude.Counts.{occurs}
use project_mittens.Prelude.Result.{ok}
use project_mittens.Float.{Float}
use project_mittens.Numeric.Lap.{Column, insert_row, insert_rows, fresh_column, cost_at, match_rows}
use project_mittens.Numeric.Lap.Scans.{IsBounded, rows_of}
use project_mittens.Numeric.Lap.Searches.{InRange}
use project_mittens.Numeric.Lap.Matched.{IsMatched, Stalls, later, insert_row-Adds}

pub All-replicate {ℓ κ} :
    {A : Type ℓ} → (P : A → Type κ) (k : ℕ) (x : A) → P x → All P (replicate k x)
All-replicate P zero x p = tt
All-replicate P (suc k) x p = (p, All-replicate P k x p)

module _ {W : Type 0} (c : Column W) (rowless : c.p ≡ 0) where
  occurs-fresh_zero : (k : ℕ) → occurs 0 (rows_of (replicate k c)) ≡ k
  occurs-fresh_zero zero = refl
  occurs-fresh_zero (suc k) = let rest = occurs-fresh_zero k in ground arith

  occurs-fresh_row : (x k : ℕ) → 0 < x → occurs x (rows_of (replicate k c)) ≡ 0
  occurs-fresh_row x zero h = refl
  occurs-fresh_row x (suc k) h = let rest = occurs-fresh_row x k h in ground arith

module _ {W : Type 0} where
  -- How many rows and columns the loops work on.
  abbrev pub lesser : List (List W) → ℕ → ℕ
  lesser rows cols = if ltb cols (length rows) then cols else length rows

  abbrev pub greater : List (List W) → ℕ → ℕ
  greater rows cols = if ltb cols (length rows) then length rows else cols

module _ {W : Type 0} ⦃f : Float W⦄ (laws : IsBounded f) where
  fresh-IsMatched :
      (n m : ℕ) → IsMatched laws n m 0 (replicate (suc n) f.nought) (replicate (suc m) fresh_column)
  fresh-IsMatched n m = record {
    potential = length-replicate (suc n) f.nought;
    in_range = All-replicate (InRange laws n) (suc m) fresh_column (omega arith);
    width = length-replicate (suc m) fresh_column;
    one = λ x pos_x le. absurd (omega arith);
    no_more = λ x lt. occurs-fresh_row fresh_column refl x m lt;
    free = omega (arith, occurs-fresh_zero fresh_column refl m);
  }

  module _ (n : ℕ) (cost : ℕ → ℕ → W) where
    -- All rows are added, or a search gets stuck.
    abbrev AddsAll : ℕ → ℕ → ℕ → List W × List (Column W) → Type 0
    AddsAll m i k st =
        ((us : List W) × (cs : List (Column W)) × (insert_rows cost (suc i) k st ≡ ok (us, cs))
          × IsMatched laws n m n us cs)
        ⊎ Stalls cost (suc i) k st

    AddsAll-step :
        (m i k : ℕ) (st st1 : List W × List (Column W))
        → insert_row cost (suc i) st ≡ ok st1
        → AddsAll m (suc i) k st1
        → AddsAll m i (suc k) st
    unfolding insert_rows
    AddsAll-step m i k st st1 e (inl (us, cs, run, h)) = inl (us, cs, rw (e, run) refl, h)
    AddsAll-step m i k st st1 e (inr stalls) = inr (later (suc i) k st st1 e stalls)

    insert_rows-AddsAll :
        (k m i : ℕ) (us : List W) (cs : List (Column W))
        → i + k ≡ n
        → IsMatched laws n m i us cs
        → AddsAll m i k (us, cs)
    unfolding insert_rows
    insert_rows-AddsAll zero m i us cs rows h =
        inl (us, cs, refl, subst (λ j. IsMatched laws n m j us cs) (omega arith) h)
    insert_rows-AddsAll (suc k) m i us cs rows h =
        elim (insert_row-Adds laws n cost m i us cs (omega arith) h) [
          | inr stalls ↦ inr (stalls k)
          | inl (us1, cs1, e, h1) ↦
              AddsAll-step m i k (us, cs) (us1, cs1) e
                (insert_rows-AddsAll k m (suc i) us1 cs1 (omega arith) h1)
        ]

module _ {W : Type 0} ⦃f : Float W⦄ where
  -- While the rows of the matrix are matched, the lesser side first, a search gets stuck.
  abbrev pub HasStall : List (List W) → ℕ → Bool → Type 0
  HasStall rows cols maximize =
      Stalls (cost_at rows maximize (ltb cols (length rows))) 1 (lesser rows cols) (
        replicate (suc (lesser rows cols)) f.nought,
        replicate (suc (greater rows cols)) fresh_column,
      )

pub match_rows-IsMatched :
    {W : Type 0} ⦃f : Float W⦄ (laws : IsBounded f) (rows : List (List W)) (cols : ℕ)
    (maximize : Bool)
    → ((us : List W) × (cs : List (Column W)) × (match_rows rows cols maximize ≡ ok (us, cs))
        × IsMatched laws (lesser rows cols) (greater rows cols) (lesser rows cols) us cs)
      ⊎ HasStall rows cols maximize
unfolding match_rows
match_rows-IsMatched laws rows cols maximize =
    insert_rows-AddsAll laws (lesser rows cols) (cost_at rows maximize (ltb cols (length rows)))
      (lesser rows cols) (greater rows cols) 0 _ _ (omega arith)
      (fresh-IsMatched laws (lesser rows cols) (greater rows cols))
