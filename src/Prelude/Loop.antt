-- ===== src/Prelude/Loop.antt =====
-- `for rem > 0 { ... }` over a counter and a state, on fuel, with its rule for total correctness.
use Prim.Native.Nat.{ℕ, zero, suc, ◌<◌}
use native.Mathlib.Omega.{arith}
use project_mittens.Prelude.Result.{Result, ok, err, Yields}

-- The counter and the state after one round.
pub record Round {ℓ} (S : Type ℓ) : Type ℓ where
  pub rem : ℕ
  pub state : S

module _ {ℓ} {E : Type 0} {S : Type ℓ} where
  -- `stuck` is the model's own error for a loop that has used up its fuel.
  pub while_pos : E → (ℕ → S → Result E (Round S)) → ℕ → ℕ → S → Result E S
  while_pos stuck body fuel zero s = ok s
  while_pos stuck body zero (suc r) s = err stuck
  while_pos stuck body (suc fuel) (suc r) s = elim (body (suc r) s) [
    | ok t ↦ while_pos stuck body fuel t.rem t.state
    | err e ↦ err e
  ]

  -- If each round keeps `P` and lowers the measure, or fails with an error in `Q`, then so does the
  -- loop, and it never gets stuck.
  module _ {κ} (stuck : E) (body : ℕ → S → Result E (Round S)) (Q : E → Type κ) (P : ℕ → S → Type κ)
      (measure : ℕ → S → ℕ) where
    abbrev Next : ℕ → S → Round S → Type κ
    Next r s t = P t.rem t.state × (measure t.rem t.state < measure r s)

    next :
        (fuel r : ℕ) (s : S) (m : Result E (Round S))
        → Yields Q (Next (suc r) s) m
        → measure (suc r) s < suc fuel
        → ((r' : ℕ) (s' : S)
            → measure r' s' < fuel
            → P r' s'
            → Yields Q (P zero) (while_pos stuck body fuel r' s'))
        → Yields Q
            (P zero)
            (elim m [ ok t ↦ while_pos stuck body fuel t.rem t.state | err e ↦ err e ])
    next fuel r s (ok t) h m k = k t.rem t.state (omega arith) h.0
    next fuel r s (err e) h m k = h

    pub while_pos-Yields :
        ((r : ℕ) (s : S) → P (suc r) s → Yields Q (Next (suc r) s) (body (suc r) s))
        → (fuel r : ℕ) (s : S) → measure r s < fuel
        → P r s
        → Yields Q (P zero) (while_pos stuck body fuel r s)
    unfolding while_pos
    while_pos-Yields keep fuel zero s m p = p
    while_pos-Yields keep zero (suc r) s m p = absurd (omega arith)
    while_pos-Yields keep (suc fuel) (suc r) s m p =
        next fuel r s (body (suc r) s) (keep r s p) m (while_pos-Yields keep fuel)
