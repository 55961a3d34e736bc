-- ===== src/Tests/NumericTests.antt =====
-- The generator of random numbers from a seed.
use project_mittens.Prelude.{
  ℕ, ◌%◌, ◌<◌, ◌≡◌, ◌↔◌, ◌⊎◌, refl, List, length, if◌then◌else◌, ltb, arith, true,
}
use project_mittens.Prelude.Int.{pos, ◌≤ℤ◌, ltb_ℤ}
use project_mittens.Prelude.Result.{ok, err}
use project_mittens.Numeric.Rng.{Rng, word, half_word, next_uint64, intn, perm, non_positive_bound}
use project_mittens.Numeric.Rng.Bounds.{intn_bounds}
use project_mittens.Numeric.Rng.Period.{draws, draws_period}
use project_mittens.Prelude.Counts.{occurs}
use project_mittens.Numeric.Rng.Permutation.{perm_lem}

abbrev seeded : Rng
seeded = record { state = 42 }

-- The first draw from the seed 42.
first_draw : (next_uint64 seeded).0 ≡ 13679457532755275413
unfolding next_uint64
first_draw = refl

-- A bound of 2^40, above which the product wraps around.
intn_bounds_example :
    ((pos 1_099_511_627_776 ≤ℤ pos 0)
      × (intn seeded (pos 1_099_511_627_776) ≡ err non_positive_bound))
    ⊎ ((x : ℕ) × (intn seeded (pos 1_099_511_627_776) ≡ ok (x, (next_uint64 seeded).1))
        × (ltb_ℤ (pos x) (pos 1_099_511_627_776) ≡ true)
        × (x < half_word)
        × ((next_uint64 seeded).1.state < word))
intn_bounds_example = intn_bounds seeded (pos 1_099_511_627_776)

draws_period_example : (draws 5 seeded ≡ seeded) ↔ (5 % word ≡ 0)
draws_period_example = draws_period seeded 5 (omega arith)

perm_lem_example :
    (ys : List ℕ) × (r' : Rng) × (perm seeded (pos 5) ≡ ok (ys, r'))
    × (length ys ≡ 5)
    × ((a : ℕ) → occurs a ys ≡ (if ltb a 5 then 1 else 0))
perm_lem_example = perm_lem seeded 5
