-- ===== src/Numeric/Rng/Bounds.antt =====
-- The generator keeps to its word size, and a reduced word to its bound.
use Prim.Native.Nat.{bit_xor, bit_xor-bitwise, digits, differ}
use project_mittens.Prelude.{
  ℕ, zero, suc, ◌*◌, ◌/◌, ◌%◌, ◌^◌, ◌≤◌, ◌<◌, ◌≡◌, refl, arith, ◌⊎◌, inl, inr, true,
}
use project_mittens.Prelude.Int.{ℤ, pos, negsuc, ◌≤ℤ◌, ltb_ℤ}
use project_mittens.Prelude.Result.{ok, err}
use project_mittens.Numeric.Rng.{
  non_positive_bound, Rng, word, half_word, mix, next_uint64, reduce, intn,
}

differ-lt : (a b : ℕ) → a < 2 → b < 2 → differ a b < 2
differ-lt zero b p q = q
differ-lt (suc a) zero p q = p
differ-lt (suc zero) (suc zero) p q = omega arith
differ-lt (suc zero) (suc (suc b)) p q = absurd (omega arith)
differ-lt (suc (suc a)) (suc b) p q = absurd (omega arith)

-- A word of `w` bits, combined with another, stays one.
digits-lt : (w n a b : ℕ) → a < 2 ^ w → b < 2 ^ w → digits (λ c. c) differ n a b < 2 ^ w
digits-lt w zero a b p q = q
digits-lt w (suc n) zero b p q = q
digits-lt zero (suc n) (suc a) b p q = absurd (omega arith)
digits-lt (suc w) (suc n) (suc a) b p q = omega (
  arith,
  digits-lt w n (suc a / 2) (b / 2) (omega arith) (omega arith),
  differ-lt (suc a % 2) (b % 2) (omega arith) (omega arith),
)

bit_xor-lt : (a b : ℕ) → a < word → b < word → bit_xor a b < word
bit_xor-lt a b p q = rw (bit_xor-bitwise a b) (digits-lt 64 a a b p q)

mix-lt : (z : ℕ) → z < word → mix z < word
unfolding mix
mix-lt z h = bit_xor-lt _ _ (omega arith) (omega arith)

-- From every state
next_uint64-lt : (r : Rng) → ((next_uint64 r).0 < word) × ((next_uint64 r).1.state < word)
unfolding next_uint64
next_uint64-lt r = (mix-lt _ (omega arith), omega arith)

mul_le : (a b n : ℕ) → a ≤ b → a * n ≤ b * n
mul_le a b n h = grind arith

-- a word reduced to a bound
reduce-lt : (x n : ℕ) → x < word → 0 < n → (reduce x n < n) × (reduce x n < half_word)
reduce-lt x n h p =
    let product = mul_le (x / half_word) 4294967295 n (omega arith) in (omega arith, omega arith)

-- `Intn` panics just on a bound that is not positive. Otherwise its result is below the bound, from
-- whatever state the generator is in, although the product of a large bound with the high half of
-- the word wraps around; and it is below 2^32, however large the bound is.
pub intn_bounds :
    (r : Rng) (n : ℤ)
    → ((n ≤ℤ pos 0) × (intn r n ≡ err non_positive_bound))
      ⊎ ((x : ℕ) × (intn r n ≡ ok (x, (next_uint64 r).1))
          × (ltb_ℤ (pos x) n ≡ true)
          × (x < half_word)
          × ((next_uint64 r).1.state < word))
unfolding intn
intn_bounds r (negsuc n) = inl (omega arith, refl)
intn_bounds r (pos zero) = inl (omega arith, refl)
intn_bounds r (pos (suc n)) =
    let (x, s) = next_uint64-lt r in
    let (b, c) = reduce-lt (next_uint64 r).0 (suc n) x (omega arith) in
    inr (reduce (next_uint64 r).0 (suc n), refl, ground arith, c, s)
