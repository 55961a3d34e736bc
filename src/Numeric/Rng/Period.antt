-- ===== src/Numeric/Rng/Period.antt =====
-- The generator runs through all of its states.
use project_mittens.Prelude.{ℕ, zero, suc, ◌+◌, ◌*◌, ◌%◌, ◌<◌, ◌≡◌, ◌↔◌, sym, ap, ◌∙◌, arith}
use project_mittens.Numeric.Rng.{Rng, word, golden, next_uint64}

-- The generator after `k` draws.
unfoldable pub draws : ℕ → Rng → Rng
unfolding next_uint64
draws zero r = r
draws (suc k) r = (next_uint64 (draws k r)).1

draws-state : (k : ℕ) (r : Rng) → r.state < word → (draws k r).state ≡ (r.state + k * golden) % word
unfolding draws
draws-state zero r h = omega arith
draws-state (suc k) r h = omega (arith, draws-state k r h)

-- A multiple of the odd constant is a multiple of 2^64 just if its factor is.
golden_cycle : (s k : ℕ) → s < word → (s + k * golden) % word ≡ s → k % word ≡ 0
golden_cycle s k h e = omega arith

-- The generator is back in a state just after each 2^64 draws, whichever state it starts in: until
-- then no state comes twice.
pub draws_period : (r : Rng) (k : ℕ) → r.state < word → (draws k r ≡ r) ↔ (k % word ≡ 0)
draws_period r k h = (
  λ e. golden_cycle r.state k h (sym (draws-state k r h) ∙ ap (λ q. q.state) e),
  λ e. ap (λ s. record { state = s }) (draws-state k r h ∙ omega arith),
)
