-- ===== src/Tests/Exact.antt =====
-- Whole numbers and an infinity instead of floats: an instance in which no sum overflows.
use project_mittens.Prelude.{◌/◌, ◌^◌, Bool, true, false, if◌then◌else◌, not}
use project_mittens.Prelude.Int.{ℤ, pos, ◌+ℤ◌, neg_of, ltb_ℤ}
use project_mittens.Float.{Float}

pub data Exact : Type 0 where
  infinite : Exact
  fin : ℤ → Exact

abbrev pub plus : Exact → Exact → Exact
plus infinite y = infinite
plus (fin a) infinite = infinite
plus (fin a) (fin b) = fin (a +ℤ b)

abbrev pub minus : Exact → Exact
minus infinite = infinite
minus (fin a) = fin (neg_of a)

abbrev pub less : Exact → Exact → Bool
less infinite y = false
less (fin a) infinite = true
less (fin a) (fin b) = ltb_ℤ a b

instance abbrev pub exact : Float Exact
exact = record {
  nought = fin (pos 0);
  lit = λ n k. fin (pos (n / 10 ^ k));
  add = plus;
  sub = λ a b. plus a (minus b);
  abs = λ a. if less a (fin (pos 0)) then minus a else a;
  neg = minus;
  inf = infinite;
  mul = λ a b. a;
  div = λ a b. a;
  of_int = fin;
  ceil = λ a. pos 0;
  le = λ a b. not (less b a);
  lt = less;
  eq = λ a b. not (less a b);
  larger = λ a b. if less a b then b else a;
  sin = λ a. a;
  cos = λ a. a;
  sqrt = λ a. a;
  atan2 = λ a b. a;
  pi = fin (pos 3);
  fixed = λ k a. "0";
  is_nan = λ a. false;
  is_inf = λ a. not (less a infinite);
}
