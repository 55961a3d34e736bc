-- ===== src/Float.antt =====
-- What the program does with a `float64`, as an interface: the language's arithmetic and the
-- functions of its `math` package. No law is assumed here; a theorem that needs one takes it as
-- a hypothesis.
use project_mittens.Prelude.{ℕ, String, Bool, ◌+◌, ◌*◌, ◌/◌, ◌-◌, ◌^◌, false, max, ◌==◌, leb, ltb}
use project_mittens.Prelude.Int.{ℤ, pos, pos_part}

pub record Float {ℓ} (W : Type ℓ) : Type ℓ where
  pub nought : W
  -- the literal `n` * 10^-k, as in 1e-9 or 0.35
  pub lit : ℕ → ℕ → W
  pub add : W → W → W
  pub sub : W → W → W
  pub abs : W → W
  pub neg : W → W
  -- `math.Inf(1)`
  pub inf : W
  pub mul : W → W → W
  pub div : W → W → W
  -- `float64(n)`
  pub of_int : ℤ → W
  -- `int(math.Ceil(x))`
  pub ceil : W → ℤ
  pub le : W → W → Bool
  pub lt : W → W → Bool
  pub eq : W → W → Bool
  -- the built-in `max`
  pub larger : W → W → W
  pub sin : W → W
  pub cos : W → W
  pub sqrt : W → W
  pub atan2 : W → W → W
  pub pi : W
  -- `fmt.Sprintf("%.kf", x)`
  pub fixed : ℕ → W → String
  pub is_nan : W → Bool
  -- `math.IsInf(x, 0)`
  pub is_inf : W → Bool

-- Whole numbers instead of floats: an instance at which examples run.
instance abbrev pub whole : Float ℕ
whole = record {
  nought = 0;
  lit = λ n k. n / 10 ^ k;
  add = λ a b. a + b;
  sub = λ a b. a - b;
  abs = λ a. a;
  neg = λ a. 0;
  inf = 2 ^ 62;
  mul = λ a b. a * b;
  div = λ a b. a / b;
  of_int = pos_part;
  ceil = pos;
  le = leb;
  lt = ltb;
  eq = λ a b. a == b;
  larger = max;
  sin = λ a. a;
  cos = λ a. 1;
  sqrt = λ a. a;
  atan2 = λ a b. a;
  pi = 3;
  fixed = λ k a. "0";
  is_nan = λ a. false;
  is_inf = λ a. false;
}
