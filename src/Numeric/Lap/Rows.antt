-- ===== src/Numeric/Lap/Rows.antt =====
-- The search for a column without a row ends.
use project_mittens.Prelude.{
  ℕ, zero, suc, ◌+◌, ◌≤◌, ◌≡◌, ◌≢◌, ◌⊎◌, refl, ◌∙◌, inl, inr, true, false, some, List, ◌∷◌, length,
  arith, Bool-cases, ◌==◌,
}
use project_mittens.Prelude.Keyed.{nth}
use project_mittens.Prelude.Result.{ok}
use project_mittens.Float.{Float}
use project_mittens.Numeric.Lap.{Column, Search, search_round, search}
use project_mittens.Numeric.Lap.Scans.{IsBounded, rows_of, unused}
use project_mittens.Numeric.Lap.Rounds.{IsSearching, IsAdvanced, IsStuck, search_round-IsAdvanced}

==-zero : (w : ℕ) → (w == 0) ≡ true → w ≡ 0
==-zero w h = ground arith

module _ {W : Type 0} ⦃f : Float W⦄ (cost : ℕ → ℕ → W) where
  -- Rounds of the search lead from one state to another.
  pub data Reaches : Search W → Search W → Type 0 where
    here : (s : Search W) → Reaches s s
    round : (s t r : Search W) → search_round cost s ≡ ok t → Reaches t r → Reaches s r

module _ {W : Type 0} ⦃f : Float W⦄ (laws : IsBounded f) (n : ℕ) where
  -- The search from `s` on has come to a column without a row.
  pub record IsFound (count : ℕ) (s t : Search W) : Type 0 where
    pub visited : List ℕ
    pub last : ℕ
    pub searching : IsSearching laws n (last ∷ visited) t
    pub away : t.j0 ≢ 0
    pub free : searching.here.p ≡ 0
    pub rows_kept : rows_of t.columns ≡ rows_of s.columns
    pub length_kept : length t.columns ≡ length s.columns
    pub steps : suc (length visited) + unused t.columns ≡ count + unused s.columns

  module _ (cost : ℕ → ℕ → W) where
    search_stop :
        (fuel : ℕ) (s t : Search W) (c : Column W)
        → search_round cost s ≡ ok t
        → nth t.columns t.j0 ≡ some c
        → (c.p == 0) ≡ true
        → search (suc fuel) cost s ≡ ok t
    unfolding search
    search_stop fuel s t c e q z = rw (e, q, z) refl

    search_on :
        (fuel : ℕ) (s t : Search W) (c : Column W)
        → search_round cost s ≡ ok t
        → nth t.columns t.j0 ≡ some c
        → (c.p == 0) ≡ false
        → search (suc fuel) cost s ≡ search fuel cost t
    unfolding search
    search_on fuel s t c e q z = rw (e, q, z) refl

    -- The search comes to a column without a row, or is stuck on the way.
    abbrev pub Finds : ℕ → ℕ → Search W → Type 0
    Finds fuel count s =
        ((t : Search W) × (search fuel cost s ≡ ok t) × IsFound count s t)
        ⊎ ((t : Search W) × Reaches cost s t × IsStuck cost t)

    Finds-round :
        (fuel : ℕ) (os : List ℕ) (s t : Search W)
        → search_round cost s ≡ ok t
        → (adv : IsAdvanced laws n os s t) → (adv.searching.here.p == 0) ≡ false
        → Finds fuel (length (s.j0 ∷ os)) t
        → Finds (suc fuel) (length os) s
    Finds-round fuel os s t e adv z (inr (r, path, stuck)) = inr (r, round s t r e path, stuck)
    Finds-round fuel os s t e adv z (inl (r, run, found)) = inl (
      r,
      search_on fuel s t adv.searching.here e adv.searching.at z ∙ run,
      record {
        visited = found.visited;
        last = found.last;
        searching = found.searching;
        away = found.away;
        free = found.free;
        rows_kept = found.rows_kept ∙ adv.rows_kept;
        length_kept = found.length_kept ∙ adv.length_kept;
        steps = omega (arith, found.steps, adv.fewer);
      },
    )

    pub search-Finds :
        (fuel : ℕ) (os : List ℕ) (s : Search W) (h : IsSearching laws n os s)
        → unused s.columns ≤ fuel
        → Finds fuel (length os) s
    search-Finds zero os s h enough = elim (search_round-IsAdvanced laws n os s h cost) [
      | inl (t, e, adv) ↦ absurd (omega (arith, adv.fewer))
      | inr stuck ↦ inr (s, here s, stuck)
    ]
    search-Finds (suc fuel) os s h enough = elim (search_round-IsAdvanced laws n os s h cost) [
      | inr stuck ↦ inr (s, here s, stuck)
      | inl (t, e, adv) ↦
          let k = adv.searching in
          elim (Bool-cases (k.here.p == 0)) [
            | inl z ↦ inl (
              t,
              search_stop fuel s t k.here e k.at z,
              record {
                visited = os;
                last = s.j0;
                searching = k;
                away = adv.away;
                free = ==-zero k.here.p z;
                rows_kept = adv.rows_kept;
                length_kept = adv.length_kept;
                steps = omega (arith, adv.fewer);
              },
            )
            | inr z ↦
                Finds-round fuel os s t e adv z
                  (search-Finds fuel (s.j0 ∷ os) t k (omega (arith, adv.fewer)))
          ]
    ]
