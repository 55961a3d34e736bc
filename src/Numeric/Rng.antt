-- ===== src/Numeric/Rng.antt =====
-- pkg/math/rng.go: the SplitMix64 generator. A `uint64` is a number that is kept below 2^64, and a
-- method answers its value with the generator as it leaves it.
pub mod Bounds
pub mod Period
pub mod Permutation
use Prim.Native.Nat.{bit_xor, bit_and}
use project_mittens.Prelude.{
  ℕ, zero, suc, ◌+◌, ◌*◌, ◌/◌, ◌%◌, ◌^◌, Bool, true, false, ◌||◌, Option, none, some, List, [], ◌∷◌,
  if◌then◌else◌, ◌==◌,
}
use project_mittens.Prelude.Int.{ℤ, pos, negsuc}
use project_mittens.Prelude.Keyed.{nth, put}
use project_mittens.Prelude.Result.{Result, ok, err, ◌>>=◌}
use project_mittens.Float.{Float}

pub record Rng : Type 0 where
  pub state : ℕ

-- What the generator panics with. The last is the language's own panic.
pub data RngPanic : Type 0 where
  non_positive_bound negative_length invalid_probability index_out_of_range : RngPanic

abbrev pub word : ℕ
word = 2 ^ 64

abbrev pub half_word : ℕ
half_word = 2 ^ 32

-- The constant of the Weyl sequence.
abbrev pub golden : ℕ
golden = 0x9e3779b97f4a7c15

unfoldable pub new_rng : ℕ → Rng
new_rng seed = record { state = seed }

-- The two multiplications and three shifts that `NextUint64` and `Split` have in common.
unfoldable pub mix : ℕ → ℕ
mix z0 =
    let z1 = (bit_xor z0 (z0 / 2 ^ 30) * 0xbf58476d1ce4e5b9) % word in
    let z2 = (bit_xor z1 (z1 / 2 ^ 27) * 0x94d049bb133111eb) % word in bit_xor z2 (z2 / 2 ^ 31)

unfoldable pub next_uint64 : Rng → ℕ × Rng
unfolding mix
next_uint64 r = let state = (r.state + golden) % word in (mix state, record { state = state })

unfoldable pub uint64 : Rng → ℕ × Rng
unfolding next_uint64
uint64 r = next_uint64 r

-- Lemire's reduction of the word `x` to a bound.
abbrev pub reduce : ℕ → ℕ → ℕ
reduce x n = (((x / half_word) * n) % word) / half_word

unfoldable pub intn : Rng → ℤ → Result RngPanic (ℕ × Rng)
unfolding next_uint64
intn r (negsuc n) = err non_positive_bound
intn r (pos zero) = err non_positive_bound
intn r (pos (suc n)) = let (x, r') = next_uint64 r in ok (reduce x (suc n), r')

module _ {W : Type 0} ⦃f : Float W⦄ where
  unfoldable pub float64 : Rng → W × Rng
  unfolding next_uint64
  float64 r =
      let (x, r') = next_uint64 r in
      (f.div (f.of_int (pos (x / 2 ^ 11))) (f.of_int (pos (2 ^ 53))), r')

  unfoldable pub bernoulli : Rng → W → Result RngPanic (Bool × Rng)
  unfolding float64
  bernoulli r p =
      if f.lt p f.nought || f.lt (f.lit 1 0) p || f.is_nan p
      then err invalid_probability
      else if f.eq p f.nought
      then ok (false, r)
      else if f.eq p (f.lit 1 0)
      then ok (true, r)
      else let (x, r') = float64 r in ok (f.lt x p, r')

  unfoldable pub rademacher : Rng → W × Rng
  unfolding next_uint64
  rademacher r =
      let (x, r') = next_uint64 r in (if bit_and x 1 == 1 then f.lit 1 0 else f.neg (f.lit 1 0), r')

-- `result[i], result[j] = result[j], result[i]`
abbrev pub swap_read : List ℕ → ℕ → ℕ → Option ℕ → Option ℕ → Option (List ℕ)
swap_read xs i j (some x) (some y) = some (put (put xs i y) j x)
swap_read xs i j (some x) none = none
swap_read xs i j none y = none

unfoldable pub swap : List ℕ → ℕ → ℕ → Option (List ℕ)
swap xs i j = swap_read xs i j (nth xs i) (nth xs j)

abbrev pub in_range : Option (List ℕ) → Result RngPanic (List ℕ)
in_range none = err index_out_of_range
in_range (some xs) = ok xs

-- The loop from position `i` down to 1.
unfoldable pub shuffle : ℕ → List ℕ → Rng → Result RngPanic (List ℕ × Rng)
unfolding intn swap
shuffle zero xs r = ok (xs, r)
shuffle (suc i) xs r =
    intn r (pos (suc i + 1)) >>= λ (j, r'). in_range (swap xs (suc i) j) >>= λ ys. shuffle i ys r'

-- The numbers from `k` on, `n` of them.
unfoldable pub numbers : ℕ → ℕ → List ℕ
numbers k zero = []
numbers k (suc n) = k ∷ numbers (suc k) n

unfoldable pub perm : Rng → ℤ → Result RngPanic (List ℕ × Rng)
unfolding shuffle numbers
perm r (negsuc n) = err negative_length
perm r (pos zero) = ok ([], r)
perm r (pos (suc n)) = shuffle n (numbers 0 (suc n)) r

unfoldable pub split : Rng → ℕ → ℕ → ℕ → Rng × Rng
unfolding next_uint64 new_rng
split r epoch branch_id goroutine_id =
    let (x, r') = next_uint64 r in
    let coordinates =
      bit_xor
        (bit_xor (bit_xor x ((epoch * 0x517cc1b727220a95) % word))
          ((branch_id * 0x6c62272e07bb0142) % word))
        ((goroutine_id * 0x9e3779b97f4a7c15) % word) in
    (new_rng (mix coordinates), r')

unfoldable pub clone_rng : Rng → Rng
clone_rng r = record { state = r.state }
