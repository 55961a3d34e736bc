-- ===== src/Tests/Small.antt =====
-- Numbers that overflow as floats do: the whole ones from -9 to 9, both infinities and NaN.
use project_mittens.Prelude.{
  ◌/◌, ◌^◌, ◌≡◌, refl, Bool, true, false, [], ◌∷◌, if◌then◌else◌, not, ◌||◌,
}
use project_mittens.Prelude.Int.{ℤ, pos, negsuc, ◌+ℤ◌, neg_of, ltb_ℤ}
use project_mittens.Prelude.Result.{err}
use project_mittens.Float.{Float}
use project_mittens.Numeric.Lap.{out_of_fuel, cost_at, solve_lap}
use project_mittens.Numeric.Lap.Scans.{IsTop, IsBounded}

data Small : Type 0 where
  nan below above : Small
  fin : ℤ → Small

abbrev clamp : ℤ → Small
clamp a = if ltb_ℤ (pos 9) a then above else if ltb_ℤ a (negsuc 8) then below else fin a

abbrev plus : Small → Small → Small
plus nan y = nan
plus below nan = nan
plus below above = nan
plus below below = below
plus below (fin b) = below
plus above nan = nan
plus above below = nan
plus above above = above
plus above (fin b) = above
plus (fin a) nan = nan
plus (fin a) below = below
plus (fin a) above = above
plus (fin a) (fin b) = clamp (a +ℤ b)

abbrev minus : Small → Small
minus nan = nan
minus below = above
minus above = below
minus (fin a) = fin (neg_of a)

abbrev less : Small → Small → Bool
less nan y = false
less below nan = false
less below below = false
less below above = true
less below (fin b) = true
less above y = false
less (fin a) nan = false
less (fin a) below = false
less (fin a) above = true
less (fin a) (fin b) = ltb_ℤ a b

abbrev same : Small → Small → Bool
same nan y = false
same below nan = false
same below y = not (less y below || less below y)
same above nan = false
same above y = not (less y above || less above y)
same (fin a) nan = false
same (fin a) y = not (less y (fin a) || less (fin a) y)

abbrev is_infinite : Small → Bool
is_infinite nan = false
is_infinite below = true
is_infinite above = true
is_infinite (fin a) = false

abbrev is_number : Small → Bool
is_number nan = false
is_number below = true
is_number above = true
is_number (fin a) = true

instance abbrev small : Float Small
small = record {
  nought = fin (pos 0);
  lit = λ n k. clamp (pos (n / 10 ^ k));
  add = plus;
  sub = λ a b. plus a (minus b);
  abs = λ a. if less a (fin (pos 0)) then minus a else a;
  neg = minus;
  inf = above;
  mul = λ a b. a;
  div = λ a b. a;
  of_int = clamp;
  ceil = λ a. pos 0;
  le = λ a b. less a b || same a b;
  lt = less;
  eq = same;
  larger = λ a b. if less a b then b else a;
  sin = λ a. a;
  cos = λ a. a;
  sqrt = λ a. a;
  atan2 = λ a b. a;
  pi = fin (pos 3);
  fixed = λ k a. "0";
  is_nan = λ a. not (is_number a);
  is_inf = is_infinite;
}

kept : (x y : Small) → IsTop x → IsTop (plus x (minus y))
kept nan y h = h
kept below y h = absurd (cc (h above))
kept (fin a) y h = absurd (cc (h above))
kept above nan h = λ _. refl
kept above below h = h
kept above above h = λ _. refl
kept above (fin b) h = h

bounded : IsBounded small
bounded = record { top = λ y. refl; kept = kept }

-- Both rows are nearest to one column, and the way to the other overflows.
stalled :
    solve_lap
      ((fin (negsuc 8) ∷ fin (pos 9) ∷ []) ∷ (fin (negsuc 8) ∷ fin (pos 9) ∷ []) ∷ [])
      false
      true
    ≡ err out_of_fuel
unfolding solve_lap cost_at ◌+ℤ◌
stalled = refl
