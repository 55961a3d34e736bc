-- ===== src/Numeric/Lap/Matched.antt =====
-- Each row that is added gets one column of its own, and the others keep theirs.
use project_mittens.Prelude.{
  ℕ, zero, suc, ◌+◌, ◌<◌, ◌≤◌, ◌≡◌, ◌⊎◌, refl, ap, ◌∙◌, inl, inr, some, List, [], ◌∷◌, map, length,
  tail, All, arith, Bool-cases, ◌==◌,
}
use project_mittens.Prelude.Keyed.{nth}
use project_mittens.Prelude.Counts.{hit, occurs}
use project_mittens.Prelude.Result.{ok}
use project_mittens.Float.{Float}
use project_mittens.Numeric.Lap.{
  Column, Search, set_p, reset, begin_row, search, flip_path, insert_row,
}
use project_mittens.Numeric.Lap.Scans.{IsBounded, rows_of, unused, IsReady}
use project_mittens.Numeric.Lap.Searches.{IsPotential, InRange}
use project_mittens.Numeric.Lap.Rounds.{IsSearching, IsStuck}
use project_mittens.Numeric.Lap.Rows.{Reaches, IsFound, search-Finds}
use project_mittens.Numeric.Lap.Flips.{IsFlipped, flip_path-IsFlipped}

hit-suc : (i : ℕ) → hit 0 (suc i) ≡ 0
hit-suc i = ground arith

module _ {W : Type 0} where
  rows_of-nth :
      (cs : List (Column W)) (j i : ℕ)
      → nth (rows_of cs) j ≡ some i
      → (c : Column W) × (nth cs j ≡ some c) × (c.p ≡ i)
  rows_of-nth [] j i e = absurd (cc e)
  rows_of-nth (b ∷ cs) zero i e = let same : b.p ≡ i = cc e in (b, refl, same)
  rows_of-nth (b ∷ cs) (suc j) i e = rows_of-nth cs j i e

  unused_le : (cs : List (Column W)) → unused cs ≤ length cs
  unused_le [] = omega arith
  unused_le (c ∷ cs) = elim (Bool-cases c.used) [
    | inl e ↦ rw e (omega (arith, unused_le cs))
    | inr e ↦ rw e (omega (arith, unused_le cs))
  ]

  occurs-tail :
      (a : ℕ) (cs : List (Column W)) (z : Column W)
      → nth cs 0 ≡ some z
      → occurs a (rows_of cs) ≡ hit a z.p + occurs a (rows_of (tail cs))
  occurs-tail a [] z e = absurd (cc e)
  occurs-tail a (b ∷ cs) z e =
      let same : b ≡ z = cc e in ap (λ b. hit a b.p + occurs a (rows_of cs)) same

-- `begin_row` keeps what does not depend on the marks.
module _ {W : Type 0} ⦃f : Float W⦄ where
  rows_of-reset : (cs : List (Column W)) → rows_of (map reset cs) ≡ rows_of cs
  rows_of-reset [] = refl
  rows_of-reset (c ∷ cs) = ap (λ ps. c.p ∷ ps) (rows_of-reset cs)

  length-reset : (cs : List (Column W)) → length (map reset cs) ≡ length cs
  length-reset [] = refl
  length-reset (c ∷ cs) = ap suc (length-reset cs)

  All-reset {κ} :
      (P Q : Column W → Type κ)
      → ((c : Column W) → P c → Q (reset c))
      → (cs : List (Column W)) → All P cs
      → All Q (map reset cs)
  All-reset P Q g [] _ = tt
  All-reset P Q g (c ∷ cs) (p, ps) = (g c p, All-reset P Q g cs ps)

module _ {W : Type 0} ⦃f : Float W⦄ (cost : ℕ → ℕ → W) where
  -- While the rows from one on are added, so many of them, a search gets stuck.
  pub data Stalls : ℕ → ℕ → List W × List (Column W) → Type 0 where
    now :
        (i k : ℕ) (us : List W) (cs : List (Column W)) (s : Search W)
        → Reaches cost (record { u = us; columns = begin_row i cs; j0 = 0 }) s
        → IsStuck cost s
        → Stalls i (suc k) (us, cs)
    later :
        (i k : ℕ) (st st' : List W × List (Column W))
        → insert_row cost i st ≡ ok st'
        → Stalls (suc i) k st'
        → Stalls i (suc k) st

module _ {W : Type 0} ⦃f : Float W⦄ (laws : IsBounded f) (n : ℕ) where
  -- The rows 1 to `i` have one column each among the `m` columns, and the others have none.
  pub record IsMatched (m i : ℕ) (us : List W) (cs : List (Column W)) : Type 0 where
    pub potential : IsPotential laws n us
    pub in_range : All (InRange laws n) cs
    pub width : length cs ≡ suc m
    pub one : (x : ℕ) → 0 < x → x ≤ i → occurs x (rows_of (tail cs)) ≡ 1
    pub no_more : (x : ℕ) → i < x → occurs x (rows_of (tail cs)) ≡ 0
    pub free : occurs 0 (rows_of (tail cs)) + i ≡ m

  begin_row-IsSearching :
      (i : ℕ) (us : List W) (z : Column W) (cs : List (Column W))
      → IsPotential laws n us
      → All (InRange laws n) (z ∷ cs)
      → i ≤ n
      → IsSearching laws n [] (record { u = us; columns = begin_row i (z ∷ cs); j0 = 0 })
  begin_row-IsSearching i us z cs pot (_, range) small = record {
    potential = pot;
    in_range = (small, All-reset (InRange laws n) (InRange laws n) (λ c r. r) cs range);
    ready = (
      λ _. inl laws.top,
      All-reset (InRange laws n) (IsReady []) (λ c r _. inl laws.top) cs range,
    );
    here = set_p i (reset z);
    at = refl;
    fresh = refl;
    start = inl refl;
    linked = refl;
    marked = tt;
  }

  module _ (cost : ℕ → ℕ → W) where
    insert_row-run :
        (i : ℕ) (us : List W) (cs : List (Column W)) (t : Search W) (ds : List (Column W))
        → search (suc (length cs)) cost (record { u = us; columns = begin_row i cs; j0 = 0 }) ≡ ok t
        → flip_path (suc (length cs)) t.columns t.j0 ≡ ok ds
        → insert_row cost i (us, cs) ≡ ok (t.u, ds)
    unfolding insert_row
    insert_row-run i us cs t ds e q = rw (e, q) refl

    flipped-IsMatched :
        (m i : ℕ) (us : List W) (z : Column W) (cs : List (Column W)) (t : Search W)
        → (found : IsFound laws n 0
            (record { u = us; columns = begin_row (suc i) (z ∷ cs); j0 = 0 })
            t)
        → (z2 : Column W) → nth t.columns 0 ≡ some z2
        → z2.p ≡ suc i
        → IsMatched m i us (z ∷ cs)
        → (ds : List (Column W))
        → IsFlipped (InRange laws n) (λ c d s r. r) t.columns found.searching.here z2 ds
        → IsMatched m (suc i) t.u ds
    flipped-IsMatched m i us z cs t found z2 e2 p2 h ds flip =
        let counts : (x : ℕ)
            → occurs x (rows_of (tail ds)) + hit x 0 ≡ occurs x (rows_of cs) + hit x (suc i) =
          λ x. omega (
            arith,
            flip.counts x,
            ap (hit x) found.free,
            ap (hit x) p2,
            occurs-tail x ds z2 flip.first,
            ap (occurs x) found.rows_kept,
            ap (occurs x) (rows_of-reset cs),
          ) in
        record {
          potential = found.searching.potential;
          in_range = flip.kept;
          width = flip.length_same ∙ found.length_kept ∙ ap suc (length-reset cs) ∙ h.width;
          one = λ x pos_x le.
              let k = counts x in
              elim (Bool-cases (x == suc i)) [
                | inl e ↦ let g = h.no_more x (ground arith) in ground arith
                | inr e ↦ let g = h.one x pos_x (ground arith) in ground arith
              ];
          no_more = λ x lt. let k = counts x in let g = h.no_more x (omega arith) in ground arith;
          free = omega (arith, counts 0, hit-suc i, h.free);
        }

    -- The row gets a column, or the search for it gets stuck.
    abbrev pub Adds : ℕ → ℕ → List W × List (Column W) → Type 0
    Adds m i st =
        ((us : List W) × (cs : List (Column W)) × (insert_row cost (suc i) st ≡ ok (us, cs))
          × IsMatched m (suc i) us cs)
        ⊎ ((k : ℕ) → Stalls cost (suc i) (suc k) st)

    pub insert_row-Adds :
        (m i : ℕ) (us : List W) (cs : List (Column W))
        → i < n
        → IsMatched m i us cs
        → Adds m i (us, cs)
    insert_row-Adds m i us [] rows h = absurd (omega (arith, h.width))
    insert_row-Adds m i us (z ∷ cs) rows h =
        let begun = begin_row-IsSearching (suc i) us z cs h.potential h.in_range rows in
        let start : Search W = record { u = us; columns = begin_row (suc i) (z ∷ cs); j0 = 0 } in
        let few = unused_le (begin_row (suc i) (z ∷ cs)) in
        elim (search-Finds laws n cost (suc (length (z ∷ cs))) [] start begun
          (omega (arith, few, length-reset cs))) [
            | inr (t, path, stuck) ↦ inr (λ k. now (suc i) k us (z ∷ cs) t path stuck)
            | inl (t, run, found) ↦
                let (z2, e2, p2) =
                  rows_of-nth t.columns 0 (suc i) (ap (λ ps. nth ps 0) found.rows_kept) in
                let (ds, flips, flip) =
                  flip_path-IsFlipped (InRange laws n) (λ c d s r. r) (suc (length (z ∷ cs)))
                    t.columns t.j0 found.last found.visited found.searching.here z2
                    found.searching.at found.searching.linked found.away e2
                    (omega (arith, found.steps, few, length-reset cs)) found.searching.in_range in
                inl (
                  t.u,
                  ds,
                  insert_row-run (suc i) us (z ∷ cs) t ds run flips,
                  flipped-IsMatched m i us z cs t found z2 e2 p2 h ds flip,
                )
          ]
