-- ===== src/Numeric/Lap/Pruned.antt =====
-- The filter keeps the vectors each other's inverse, and no pair that loses.
use native.Mathlib.Decide.{ℕ_discrete}
use project_mittens.Prelude.{
  ℕ, zero, suc, ◌+◌, ◌<◌, ◌≡◌, ◌≢◌, refl, sym, ap, ◌∙◌, Bool, true, false, some, List, [], ◌∷◌,
  length, arith, if_cases, ◌&&◌,
}
use project_mittens.Prelude.Int.{ℤ, pos, negsuc}
use project_mittens.Prelude.Keyed.{nth, put, nth-put_same, nth-put_other}
use project_mittens.Float.{Float}
use project_mittens.Numeric.Lap.{Tally, with_row, entry, prune}
use project_mittens.Numeric.Lap.Inverse.{filled}

and_left : (a b : Bool) → (a && b) ≡ true → a ≡ true
and_left true b e = refl
and_left false b e = e

and_right : (a b : Bool) → (a && b) ≡ false → a ≡ true → b ≡ false
and_right true b e q = e
and_right false b e q = absurd (cc q)

-- `rows` are the rows from `r` on.
abbrev pub Forth : ℕ → List ℤ → List ℤ → Type 0
Forth r rows cols = (i c x : ℕ) → x ≡ r + i → nth rows i ≡ some (pos c) → nth cols c ≡ some (pos x)

abbrev pub Back : ℕ → List ℤ → List ℤ → Type 0
Back r rows cols = (i c x : ℕ) → x ≡ r + i → nth cols c ≡ some (pos x) → nth rows i ≡ some (pos c)

-- A column whose row is dropped.
cleared :
    (cols : List ℤ) (c d x y : ℕ)
    → nth cols c ≡ some (pos y)
    → nth (put cols c (negsuc 0)) d ≡ some (pos x)
    → (c ≢ d) × (nth cols d ≡ some (pos x))
cleared cols c d x y e q = elim (ℕ_discrete c d) [
  | yes same ↦ absurd (
      cc (
        sym (nth-put_same cols c (pos y) (negsuc 0) e) ∙ ap (nth (put cols c (negsuc 0))) same ∙ q))
  | no apart ↦ (apart, sym (nth-put_other cols c d (negsuc 0) apart) ∙ q)
]

others :
    (cols : List ℤ) (c d x y : ℕ)
    → nth cols c ≡ some (pos y)
    → x ≢ y
    → nth cols d ≡ some (pos x)
    → nth (put cols c (negsuc 0)) d ≡ some (pos x)
others cols c d x y e away q = elim (ℕ_discrete c d) [
  | yes same ↦ let both : x ≡ y = cc (sym q ∙ ap (nth cols) (sym same) ∙ e) in absurd (away both)
  | no apart ↦ nth-put_other cols c d (negsuc 0) apart ∙ q
]

module _ {W : Type 0} ⦃f : Float W⦄ (matrix : List (List W)) (drops : Bool) where
  pub record IsPruned (r : ℕ) (rows cols : List ℤ) (n : ℕ) (t : Tally W) : Type 0 where
    pub forth : Forth r t.kept_rows t.kept_cols
    pub back : Back r t.kept_rows t.kept_cols
    pub below : (c x : ℕ) → x < r → nth cols c ≡ some (pos x) → nth t.kept_cols c ≡ some (pos x)
    pub fewer : (c x : ℕ) → nth t.kept_cols c ≡ some (pos x) → nth cols c ≡ some (pos x)
    pub counted : t.count ≡ n + filled t.kept_rows
    pub same_length : length t.kept_rows ≡ length rows
    pub whole : drops ≡ false → filled t.kept_rows ≡ filled rows
    pub gains :
        (i c x : ℕ)
        → x ≡ r + i
        → drops ≡ true
        → nth t.kept_rows i ≡ some (pos c)
        → f.lt (entry matrix x c) f.nought ≡ false

  idle_row :
      (r n : ℕ) (b : ℕ) (rest cols : List ℤ) (t : Tally W)
      → Forth r (negsuc b ∷ rest) cols
      → Back r (negsuc b ∷ rest) cols
      → IsPruned (suc r) rest cols n t
      → IsPruned r (negsuc b ∷ rest) cols n (with_row (negsuc b) t)
  idle_row r n b rest cols t fo ba h = record {
    forth = elim [
      | zero ↦ λ c x e q. absurd (cc q)
      | suc i ↦ λ c x e q. h.forth i c x (omega (arith, e)) q
    ];
    back = elim [
      | zero ↦ λ c x e q. let q0 = ba 0 c x e (h.fewer c x q) in absurd (cc q0)
      | suc i ↦ λ c x e q. h.back i c x (omega (arith, e)) q
    ];
    below = λ c x lt q. h.below c x (omega arith) q;
    fewer = h.fewer;
    counted = h.counted;
    same_length = ap suc h.same_length;
    whole = h.whole;
    gains = elim [
      | zero ↦ λ c x e d q. absurd (cc q)
      | suc i ↦ λ c x e d q. h.gains i c x (omega (arith, e)) d q
    ];
  }

  dropped_row :
      (r n : ℕ) (b : ℕ) (rest cols : List ℤ) (t : Tally W)
      → drops ≡ true
      → Forth r (pos b ∷ rest) cols
      → Back r (pos b ∷ rest) cols
      → IsPruned (suc r) rest (put cols b (negsuc 0)) n t
      → IsPruned r (pos b ∷ rest) cols n (with_row (negsuc 0) t)
  dropped_row r n b rest cols t on fo ba h =
      let here : nth cols b ≡ some (pos r) = fo 0 b r (omega arith) refl in
      record {
        forth = elim [
          | zero ↦ λ c x e q. absurd (cc q)
          | suc i ↦ λ c x e q. h.forth i c x (omega (arith, e)) q
        ];
        back = elim [
          | zero ↦ λ c x e q.
              let (apart, was) = cleared cols b c x r here (h.fewer c x q) in
              let q0 = ba 0 c x e was in absurd (apart (cc q0))
          | suc i ↦ λ c x e q. h.back i c x (omega (arith, e)) q
        ];
        below = λ c x lt q.
            h.below c x (omega arith) (others cols b c x r here (λ e. absurd (omega (arith, e))) q);
        fewer = λ c x q. (cleared cols b c x r here (h.fewer c x q)).1;
        counted = h.counted;
        same_length = ap suc h.same_length;
        whole = λ off. absurd (cc (sym on ∙ off));
        gains = elim [
          | zero ↦ λ c x e d q. absurd (cc q)
          | suc i ↦ λ c x e d q. h.gains i c x (omega (arith, e)) d q
        ];
      }

  kept_row :
      (r n : ℕ) (b : ℕ) (rest cols : List ℤ) (t : Tally W)
      → (drops ≡ true → f.lt (entry matrix r b) f.nought ≡ false)
      → Forth r (pos b ∷ rest) cols
      → Back r (pos b ∷ rest) cols
      → IsPruned (suc r) rest cols (suc n) t
      → IsPruned r (pos b ∷ rest) cols n (with_row (pos b) t)
  kept_row r n b rest cols t good fo ba h = record {
    forth = elim [
      | zero ↦ λ c x e q. h.below c x (omega (arith, e)) (fo 0 c x e q)
      | suc i ↦ λ c x e q. h.forth i c x (omega (arith, e)) q
    ];
    back = elim [
      | zero ↦ λ c x e q. ba 0 c x e (h.fewer c x q)
      | suc i ↦ λ c x e q. h.back i c x (omega (arith, e)) q
    ];
    below = λ c x lt q. h.below c x (omega arith) q;
    fewer = h.fewer;
    counted = omega (arith, h.counted);
    same_length = ap suc h.same_length;
    whole = λ off. ap suc (h.whole off);
    gains = elim [
      | zero ↦ λ c x e d q.
          let same : b ≡ c = cc q in
          let first : x ≡ r = omega (arith, e) in rw (sym same, first) (good d)
      | suc i ↦ λ c x e d q. h.gains i c x (omega (arith, e)) d q
    ];
  }

  pub prune-IsPruned :
      (r : ℕ) (rows cols : List ℤ) (total : W) (n : ℕ)
      → Forth r rows cols
      → Back r rows cols
      → IsPruned r rows cols n (prune matrix drops r rows cols total n)
  unfolding prune
  prune-IsPruned r [] cols total n fo ba = record {
    forth = fo;
    back = ba;
    below = λ c x lt q. q;
    fewer = λ c x q. q;
    counted = omega arith;
    same_length = refl;
    whole = λ off. refl;
    gains = λ i c x e d q. absurd (cc q);
  }
  prune-IsPruned r (negsuc b ∷ rest) cols total n fo ba = idle_row r n b rest cols _ fo ba (
      prune-IsPruned (suc r) rest cols total n (λ i c x e q. fo (suc i) c x (omega (arith, e)) q)
        (λ i c x e q. ba (suc i) c x (omega (arith, e)) q))
  prune-IsPruned r (pos b ∷ rest) cols total n fo ba =
      let here : nth cols b ≡ some (pos r) = fo 0 b r (omega arith) refl in
      if_cases (IsPruned r (pos b ∷ rest) cols n) (drops && f.lt (entry matrix r b) f.nought) _ _
        (λ q. dropped_row r n b rest cols _ (and_left drops _ q) fo ba (
          prune-IsPruned (suc r) rest (put cols b (negsuc 0)) total n
            (λ i c x e q.
              others cols b c x r here (λ z. absurd (omega (arith, e, z)))
                (fo (suc i) c x (omega (arith, e)) q))
            (λ i c x e q. ba (suc i) c x (omega (arith, e)) (cleared cols b c x r here q).1)))
        (λ q. kept_row r n b rest cols _ (and_right drops _ q) fo ba (
          prune-IsPruned (suc r) rest cols (f.add total (entry matrix r b)) (suc n)
            (λ i c x e q. fo (suc i) c x (omega (arith, e)) q)
            (λ i c x e q. ba (suc i) c x (omega (arith, e)) q)))
