-- ===== src/Numeric/Lap/Flips.antt =====
-- The path is flipped back to column 0, which gives the row that was added a column.
use mathlib.Core.Path.{subst}
use native.Mathlib.Decide.{ℕ_discrete}
use project_mittens.Prelude.{
  ℕ, zero, suc, ◌+◌, ◌≤◌, ◌≡◌, ◌≢◌, ◌⊎◌, refl, sym, ap, ◌∙◌, inl, inr, true, false, some, List, [],
  ◌∷◌, length, All, Has, arith, Bool-cases, ◌==◌,
}
use project_mittens.Prelude.Keyed.{
  nth, put, length-put, nth-All, All-put, nth-put_same, nth-put_other,
}
use project_mittens.Prelude.Counts.{hit, occurs, occurs-put}
use project_mittens.Prelude.Result.{ok}
use project_mittens.Numeric.Lap.{Column, set_p, flip_path}
use project_mittens.Numeric.Lap.Scans.{rows_of}
use project_mittens.Numeric.Lap.Searches.{Linked}

==-zero : (w : ℕ) → (w == 0) ≡ true → w ≡ 0
==-zero w h = ground arith

module _ {W : Type 0} where
  pub nth-rows_of :
      (cs : List (Column W)) (j : ℕ) (c : Column W)
      → nth cs j ≡ some c
      → nth (rows_of cs) j ≡ some c.p
  nth-rows_of [] j c e = absurd (cc e)
  nth-rows_of (b ∷ cs) zero c e = let same : b ≡ c = cc e in ap (λ c. some c.p) same
  nth-rows_of (b ∷ cs) (suc j) c e = nth-rows_of cs j c e

  rows_of-put :
      (cs : List (Column W)) (j i : ℕ) (c : Column W)
      → rows_of (put cs j (set_p i c)) ≡ put (rows_of cs) j i
  rows_of-put [] j i c = refl
  rows_of-put (b ∷ cs) zero i c = refl
  rows_of-put (b ∷ cs) (suc j) i c = ap (λ ps. b.p ∷ ps) (rows_of-put cs j i c)

  -- A column after `p[j] = i`.
  nth-set_p :
      (cs : List (Column W)) (j i o : ℕ) (c b : Column W)
      → nth cs j ≡ some c
      → nth cs o ≡ some b
      → (d : Column W) × (nth (put cs j (set_p i c)) o ≡ some d)
        × (d.way ≡ b.way)
        × ((d.p ≡ i) ⊎ (d.p ≡ b.p))
  nth-set_p cs j i o c b e q = elim (ℕ_discrete o j) [
    | yes same ↦
        let both : c ≡ b = cc (sym e ∙ ap (nth cs) (sym same) ∙ q) in
        (
          set_p i c,
          ap (nth (put cs j (set_p i c))) same ∙ nth-put_same cs j c (set_p i c) e,
          ap (λ c. c.way) both,
          inl refl,
        )
    | no apart ↦ (b, nth-put_other cs j o (set_p i c) (λ z. apart (sym z)) ∙ q, refl, inr refl)
  ]

  Linked-set_p :
      (cs : List (Column W)) (j i k : ℕ) (c : Column W) (os : List ℕ)
      → nth cs j ≡ some c
      → Linked cs k os
      → Linked (put cs j (set_p i c)) k os
  Linked-set_p cs j i k c [] e l = l
  Linked-set_p cs j i k c (o ∷ os) e ((b, q, h), l) =
      let (d, n, way, _) = nth-set_p cs j i k c b e q in
      ((d, n, subst (λ w. Has w (o ∷ os)) (sym way) h), Linked-set_p cs j i o c os e l)

  -- The way back from a column that it leads through.
  Linked-suffix :
      (cs : List (Column W)) (w o : ℕ) (os : List ℕ)
      → Has w (o ∷ os)
      → Linked cs o os
      → (r : List ℕ) × Linked cs w r × (length r ≤ length os)
  Linked-suffix cs w o os (inl e) l = (os, subst (λ x. Linked cs x os) e l, omega arith)
  Linked-suffix cs w o [] (inr h) l = absurd h
  Linked-suffix cs w o (x ∷ os) (inr h) (_, l) =
      let (r, k, b) = Linked-suffix cs w x os h l in (r, k, omega arith)

  -- A way back from a column other than 0 leads on.
  nonempty :
      (w : ℕ) (r : List ℕ) (cs : List (Column W))
      → Linked cs w r
      → (w == 0) ≡ false
      → (o : ℕ) × (os : List ℕ) × (r ≡ o ∷ os)
  nonempty w [] cs l h = absurd (ground arith)
  nonempty w (o ∷ os) cs l h = (o, os, refl)

  column_at :
      (cs : List (Column W)) (z : Column W) (w : ℕ) (r : List ℕ)
      → nth cs 0 ≡ some z
      → Linked cs w r
      → (c : Column W) × (nth cs w ≡ some c)
  column_at cs z w [] e l = (z, ap (nth cs) l ∙ e)
  column_at cs z w (o ∷ r) e ((c, q, _), _) = (c, q)

  flip_stop :
      (fuel : ℕ) (cs : List (Column W)) (j : ℕ) (c c1 : Column W)
      → nth cs j ≡ some c
      → nth cs c.way ≡ some c1
      → (c.way == 0) ≡ true
      → flip_path (suc fuel) cs j ≡ ok (put cs j (set_p c1.p c))
  unfolding flip_path
  flip_stop fuel cs j c c1 e e1 q = rw (e, e1, q) refl

  flip_on :
      (fuel : ℕ) (cs : List (Column W)) (j : ℕ) (c c1 : Column W)
      → nth cs j ≡ some c
      → nth cs c.way ≡ some c1
      → (c.way == 0) ≡ false
      → flip_path (suc fuel) cs j ≡ flip_path fuel (put cs j (set_p c1.p c)) c.way
  unfolding flip_path
  flip_on fuel cs j c c1 e e1 q = rw (e, e1, q) refl

  module _ {κ} (P : Column W → Type κ) (set : (c d : Column W) → P c → P d → P (set_p d.p c)) where
    -- The columns `ds` have the rows of `cs`, with that of column 0 for that of `c`.
    pub record IsFlipped (cs : List (Column W)) (c z : Column W) (ds : List (Column W))
        : Type κ where
      pub counts : (a : ℕ) → occurs a (rows_of ds) + hit a c.p ≡ occurs a (rows_of cs) + hit a z.p
      pub first : nth ds 0 ≡ some z
      pub length_same : length ds ≡ length cs
      pub kept : All P ds

    last_flip :
        (cs : List (Column W)) (j : ℕ) (c c1 z : Column W)
        → nth cs j ≡ some c
        → c1 ≡ z
        → nth (put cs j (set_p c1.p c)) 0 ≡ some z
        → All P (put cs j (set_p c1.p c))
        → IsFlipped cs c z (put cs j (set_p c1.p c))
    last_flip cs j c c1 z e q first all = record {
      counts = λ a. rw (rows_of-put cs j c1.p c) (
          occurs-put a (rows_of cs) j c.p c1.p (nth-rows_of cs j c e)
          ∙ ap (λ c. occurs a (rows_of cs) + hit a c.p) q);
      first = first;
      length_same = length-put cs j (set_p c1.p c);
      kept = all;
    }

    next_flip :
        (cs : List (Column W)) (j : ℕ) (c c1 d z : Column W) (ds : List (Column W))
        → nth cs j ≡ some c
        → d.p ≡ c1.p
        → IsFlipped (put cs j (set_p c1.p c)) d z ds
        → IsFlipped cs c z ds
    next_flip cs j c c1 d z ds e q h = record {
      counts = λ a. omega (
        arith,
        h.counts a,
        ap (hit a) q,
        ap (occurs a) (rows_of-put cs j c1.p c),
        occurs-put a (rows_of cs) j c.p c1.p (nth-rows_of cs j c e),
      );
      first = h.first;
      length_same = h.length_same ∙ length-put cs j (set_p c1.p c);
      kept = h.kept;
    }

    pub flip_path-IsFlipped :
        (fuel : ℕ) (cs : List (Column W)) (j o : ℕ) (os : List ℕ) (c z : Column W)
        → nth cs j ≡ some c
        → Linked cs j (o ∷ os)
        → j ≢ 0
        → nth cs 0 ≡ some z
        → length (o ∷ os) ≤ fuel
        → All P cs
        → (ds : List (Column W)) × (flip_path fuel cs j ≡ ok ds) × IsFlipped cs c z ds
    flip_path-IsFlipped zero cs j o os c z e l away first enough all = absurd (omega arith)
    flip_path-IsFlipped (suc fuel) cs j o os c z e ((b, q, h), l) away first enough all =
        let same : b ≡ c = cc (sym q ∙ e) in
        let back = subst (λ x. Has x (o ∷ os)) (ap (λ b. b.way) same) h in
        let (r, lr, shorter) = Linked-suffix cs c.way o os back l in
        let (c1, e1) = column_at cs z c.way r first lr in
        let flipped = put cs j (set_p c1.p c) in
        let all2 =
          All-put P cs j (set_p c1.p c)
            (set c c1 (nth-All P cs j c e all) (nth-All P cs c.way c1 e1 all)) all in
        let first2 = nth-put_other cs j 0 (set_p c1.p c) away ∙ first in
        elim (Bool-cases (c.way == 0)) [
          | inl stop ↦ (
            flipped,
            flip_stop fuel cs j c c1 e e1 stop,
            last_flip cs j c c1 z e (cc (sym e1 ∙ ap (nth cs) (==-zero c.way stop) ∙ first)) first2
                all2,
          )
          | inr on ↦
              let (o2, r2, split) = nonempty c.way r cs lr on in
              let (d, n, _, place) = nth-set_p cs j c1.p c.way c c1 e e1 in
              let more =
                Linked-set_p cs j c1.p c.way c (o2 ∷ r2) e (subst (Linked cs c.way) split lr) in
              let (ds, run, done) =
                flip_path-IsFlipped fuel flipped c.way o2 r2 d z n more
                  (λ q. absurd (cc (sym on ∙ ap (λ w. w == 0) q))) first2
                  (omega (arith, ap length split)) all2 in
              (
                ds,
                flip_on fuel cs j c c1 e e1 on ∙ run,
                next_flip cs j c c1 d z ds e (elim place [ inl x ↦ x | inr x ↦ x ]) done,
              )
        ]
