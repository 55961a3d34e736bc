-- ===== src/Numeric/Rng/Permutation.antt =====
-- `Perm` answers a permutation.
use project_mittens.Prelude.{
  ℕ, zero, suc, ◌+◌, ◌<◌, ◌≡◌, refl, ap, ◌∙◌, arith, some, List, [], length, if◌then◌else◌, ltb,
  ◌&&◌, leb, inl, inr,
}
use project_mittens.Prelude.Int.{pos}
use project_mittens.Prelude.Counts.{occurs, nth-some, nth-put, occurs-put}
use project_mittens.Prelude.Keyed.{put, length-put}
use project_mittens.Prelude.Result.{ok}
use project_mittens.Numeric.Rng.{Rng, next_uint64, swap, shuffle, numbers, perm}
use project_mittens.Numeric.Rng.Bounds.{intn_bounds}

-- An exchange of two positions in range succeeds, and keeps what is in the list.
abbrev Shuffled : List ℕ → List ℕ → Type 0
Shuffled xs ys = (length ys ≡ length xs) × ((a : ℕ) → occurs a ys ≡ occurs a xs)

swap-Shuffled :
    (xs : List ℕ) (i j : ℕ)
    → i < length xs
    → j < length xs
    → (ys : List ℕ) × (swap xs i j ≡ some ys) × Shuffled xs ys
unfolding swap
swap-Shuffled xs i j p q =
    let (x, hx) = nth-some xs i p in
    let (y, hy) = nth-some xs j q in
    (
      put (put xs i y) j x,
      rw (hx, hy) refl,
      (
        length-put (put xs i y) j x ∙ length-put xs i y,
        λ a. omega (
          arith,
          occurs-put a (put xs i y) j y x (nth-put xs i j y hy),
          occurs-put a xs i x y hx,
        ),
      ),
    )

shuffle-Shuffled :
    (i : ℕ) (xs : List ℕ) (r : Rng)
    → i < length xs
    → (ys : List ℕ) × (r' : Rng) × (shuffle i xs r ≡ ok (ys, r')) × Shuffled xs ys
unfolding shuffle
shuffle-Shuffled zero xs r h = (xs, r, refl, (refl, λ a. refl))
shuffle-Shuffled (suc i) xs r h = elim (intn_bounds r (pos (suc i + 1))) [
  | inl (neg, _) ↦ absurd (omega arith)
  | inr (j, e, below, _, _) ↦
      let (ys, s, (l, o)) = swap-Shuffled xs (suc i) j h (ground arith) in
      let (zs, r', t, (m, n)) = shuffle-Shuffled i ys (next_uint64 r).1 (omega arith) in
      (zs, r', rw (e, s) t, (m ∙ l, λ a. n a ∙ o a))
]

length-numbers : (k n : ℕ) → length (numbers k n) ≡ n
unfolding numbers
length-numbers k zero = refl
length-numbers k (suc n) = ap suc (length-numbers (suc k) n)

-- Each number of the range is there once, and no other.
occurs-numbers : (k n a : ℕ) → occurs a (numbers k n) ≡ (if leb k a && ltb a (k + n) then 1 else 0)
unfolding numbers
occurs-numbers k zero a = ground arith
occurs-numbers k (suc n) a = ground (arith, occurs-numbers (suc k) n a)

-- `Perm` of a length that is not negative never panics, the exchange of two positions included,
-- and answers a list of that length in which each number below it stands once, and no other number.
pub perm_lem :
    (r : Rng) (n : ℕ)
    → (ys : List ℕ) × (r' : Rng) × (perm r (pos n) ≡ ok (ys, r'))
      × (length ys ≡ n)
      × ((a : ℕ) → occurs a ys ≡ (if ltb a n then 1 else 0))
unfolding perm
perm_lem r zero = ([], r, refl, refl, λ a. ground arith)
perm_lem r (suc n) =
    let (ys, r', e, (l, o)) =
      shuffle-Shuffled n (numbers 0 (suc n)) r (omega (arith, length-numbers 0 (suc n))) in
    (ys, r', e, l ∙ length-numbers 0 (suc n), λ a. o a ∙ ground (arith, occurs-numbers 0 (suc n) a))
