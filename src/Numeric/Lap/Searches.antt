-- ===== src/Numeric/Lap/Searches.antt =====
-- The search for a column without a row ends, and remembers the way back.
use project_mittens.Prelude.{
  ℕ, zero, suc, ◌+◌, ◌≤◌, ◌≡◌, ◌⊎◌, refl, sym, ap, ◌∙◌, inl, inr, true, false, some, List, [], ◌∷◌,
  length, map, All, Has, arith, if_cases,
}
use mathlib.Core.Path.{subst, ap₂}
use native.Mathlib.Decide.{ℕ_discrete}
use project_mittens.Prelude.Keyed.{nth, put, length-put, nth-put_same, nth-put_other}
use project_mittens.Prelude.Counts.{nth-some}
use project_mittens.Prelude.Result.{ok}
use project_mittens.Float.{Float}
use project_mittens.Numeric.Lap.{Column, mark_used, lower, add_potential, shift}
use project_mittens.Numeric.Lap.Scans.{IsBounded, Keeps, Kept, rows_of, unused, IsReady}

module _ {W : Type 0} where
  abbrev pub ways_of : List (Column W) → List ℕ
  ways_of cs = map (λ c. c.way) cs

  pub nth-ways_of :
      (cs ds : List (Column W)) (i : ℕ) (c d : Column W)
      → ways_of ds ≡ ways_of cs
      → nth cs i ≡ some c
      → nth ds i ≡ some d
      → d.way ≡ c.way
  nth-ways_of [] ds i c d _ e _ = absurd (cc e)
  nth-ways_of (b ∷ cs) [] i c d _ _ q = absurd (cc q)
  nth-ways_of (b ∷ cs) (x ∷ ds) zero c d w e q =
      let head : x.way ≡ b.way = cc w in
      let first : b ≡ c = cc e in
      let second : x ≡ d = cc q in sym (ap (λ c. c.way) second) ∙ head ∙ ap (λ c. c.way) first
  nth-ways_of (b ∷ cs) (x ∷ ds) (suc i) c d w e q =
      let rest : ways_of ds ≡ ways_of cs = cc w in nth-ways_of cs ds i c d rest e q

module _ {W : Type 0} ⦃f : Float W⦄ (laws : IsBounded f) (n : ℕ) where
  -- The potentials of the rows 0 to `n`.
  abbrev pub IsPotential : List W → Type 0
  IsPotential us = length us ≡ suc n

  abbrev pub InRange : Column W → Type 0
  InRange c = c.p ≤ n

  add_potential-IsPotential :
      (delta : W) (c : Column W) (us : List W)
      → InRange c
      → IsPotential us
      → (us' : List W) × (add_potential delta c us ≡ ok us') × IsPotential us'
  add_potential-IsPotential delta c us r h =
      let (x, e) = nth-some us c.p (omega (arith, h)) in
      if_cases (λ m. (us' : List W) × (m ≡ ok us') × IsPotential us') c.used _ (ok us)
        (λ _. (put us c.p (f.add x delta), rw e refl, length-put us c.p (f.add x delta) ∙ h))
        (λ _. (us, refl, h))

  abbrev Lowered : List ℕ → Column W → Column W → Type 0
  Lowered os c d = Keeps c d × IsReady os d × (d.way ≡ c.way)

  lower-Lowered :
      (os : List ℕ) (delta : W) (c : Column W) → IsReady os c → Lowered os c (lower delta c)
  lower-Lowered os delta c r =
      if_cases (Lowered os c) c.used _ _
        (λ u.
          (record { p = refl; used = refl; way = λ _. refl }, λ q. absurd (cc (sym u ∙ q)), refl))
        (λ u. (
          record { p = refl; used = refl; way = λ _. refl },
          λ q. elim (r q) [ inl t ↦ inl (laws.kept c.minv delta t) | inr h ↦ inr h ],
          refl,
        ))

  pub shift-lem :
      (os : List ℕ) (delta : W) (us : List W) (cs : List (Column W))
      → IsPotential us
      → All InRange cs
      → All (IsReady os) cs
      → (us' : List W) × (ds : List (Column W)) × (shift delta us cs ≡ ok (us', ds))
        × IsPotential us'
        × Kept cs ds
        × All (IsReady os) ds
        × (ways_of ds ≡ ways_of cs)
  unfolding shift
  shift-lem os delta us [] h _ _ = (us, [], refl, h, tt, tt, refl)
  shift-lem os delta us (c ∷ cs) h (b, bs) (r, rs) =
      let (us1, e1, h1) = add_potential-IsPotential delta c us b h in
      let (us2, ds, e2, h2, k, rs2, w2) = shift-lem os delta us1 cs h1 bs rs in
      let (k1, r1, w1) = lower-Lowered os delta c r in
      (
        us2,
        lower delta c ∷ ds,
        rw (e1, e2) refl,
        h2,
        (k1, k),
        (r1, rs2),
        ap₂ (λ x xs. x ∷ xs) w1 w2,
      )

-- The way back from column `j` leads through `os` to column 0.
module _ {W : Type 0} where
  abbrev pub Linked : List (Column W) → ℕ → List ℕ → Type 0
  Linked cs j [] = j ≡ 0
  Linked cs j (o ∷ os) =
      ((c : Column W) × (nth cs j ≡ some c) × Has c.way (o ∷ os)) × Linked cs o os

  -- The column is there, and marked.
  abbrev pub IsMarked : List (Column W) → ℕ → Type 0
  IsMarked cs o = (c : Column W) × (nth cs o ≡ some c) × (c.used ≡ true)

  -- The ways back from the columns `os` and the marks on them are kept.
  abbrev pub Stays : List (Column W) → List (Column W) → ℕ → Type 0
  Stays cs ds o = (c d : Column W) × (nth cs o ≡ some c) × (nth ds o ≡ some d) × (d.way ≡ c.way)

  pub Linked-Stays :
      (cs ds : List (Column W)) (j : ℕ) (os : List ℕ)
      → Stays cs ds j
      → All (Stays cs ds) os
      → Linked cs j os
      → Linked ds j os
  Linked-Stays cs ds j [] s _ l = l
  Linked-Stays cs ds j (o ∷ os) (c, d, e, q, w) (t, ts) ((b, n, h), l) =
      let same : c ≡ b = cc (sym e ∙ n) in
      (
        (d, q, subst (λ x. Has x (o ∷ os)) (sym (w ∙ ap (λ c. c.way) same)) h),
        Linked-Stays cs ds o os t ts l,
      )

  pub unused-mark :
      (cs : List (Column W)) (j : ℕ) (c : Column W)
      → nth cs j ≡ some c
      → c.used ≡ false
      → unused (put cs j (mark_used c)) + 1 ≡ unused cs
  unused-mark [] j c e u = absurd (cc e)
  unused-mark (b ∷ cs) zero c e u =
      let same : b ≡ c = cc e in rw (ap (λ c. c.used) same ∙ u) (omega arith)
  unused-mark (b ∷ cs) (suc j) c e u = omega (arith, unused-mark cs j c e u)

  pub rows_of-mark :
      (cs : List (Column W)) (j : ℕ) (c : Column W)
      → nth cs j ≡ some c
      → rows_of (put cs j (mark_used c)) ≡ rows_of cs
  rows_of-mark [] j c e = refl
  rows_of-mark (b ∷ cs) zero c e = let same : b ≡ c = cc e in rw (sym same) refl
  rows_of-mark (b ∷ cs) (suc j) c e = ap (λ ps. b.p ∷ ps) (rows_of-mark cs j c e)

  -- A column after the mark on column `j`.
  pub nth-mark :
      (cs : List (Column W)) (j o : ℕ) (c b : Column W)
      → nth cs j ≡ some c
      → nth cs o ≡ some b
      → (d : Column W) × (nth (put cs j (mark_used c)) o ≡ some d)
        × (d.way ≡ b.way)
        × (d.p ≡ b.p)
        × (((o ≡ j) × (d.used ≡ true)) ⊎ (d.used ≡ b.used))
  nth-mark cs j o c b e q = elim (ℕ_discrete o j) [
    | yes same ↦
        let both : c ≡ b = cc (sym e ∙ ap (nth cs) (sym same) ∙ q) in
        (
          mark_used c,
          ap (nth (put cs j (mark_used c))) same ∙ nth-put_same cs j c (mark_used c) e,
          ap (λ c. c.way) both,
          ap (λ c. c.p) both,
          inl (same, refl),
        )
    | no apart ↦
        (b, nth-put_other cs j o (mark_used c) (λ z. apart (sym z)) ∙ q, refl, refl, inr refl)
  ]
