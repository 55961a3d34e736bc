-- ===== src/Numeric/Lap/Rounds.antt =====
-- One round of the search.
use mathlib.Core.Path.{subst}
use project_mittens.Prelude.{
  ℕ, ◌+◌, ◌≡◌, ◌≢◌, ◌⊎◌, refl, sym, ◌∙◌, inl, inr, false, some, List, ◌∷◌, length, tail, All,
  All-map, Has, arith,
}
use project_mittens.Prelude.Keyed.{nth, put, length-put, nth-All, All-put, nth-put_same}
use project_mittens.Prelude.Counts.{nth-some}
use project_mittens.Prelude.Result.{ok}
use project_mittens.Float.{Float}
use project_mittens.Numeric.Lap.{Column, Search, mark_used, scan_columns, search_round}
use project_mittens.Numeric.Lap.Scans.{
  IsBounded, Kept, Kept-All, Kept-trans, nth-Kept, rows_of, rows_of-Kept, length-Kept, unused,
  unused-Kept, IsReady, NoneBelow, scan_columns-lem,
}
use project_mittens.Numeric.Lap.Searches.{
  IsPotential, InRange, shift-lem, Linked, IsMarked, Stays, Linked-Stays, unused-mark, rows_of-mark,
  nth-mark, nth-ways_of,
}

module _ {W : Type 0} ⦃f : Float W⦄ where
  -- From where the search is, no column that is not marked is below infinity.
  pub record IsStuck (cost : ℕ → ℕ → W) (s : Search W) : Type 0 where
    pub here : Column W
    pub at : nth s.columns s.j0 ≡ some here
    pub potential : W
    pub has_potential : nth s.u here.p ≡ some potential
    pub none_below :
        NoneBelow (cost here.p) potential f.inf 1 (tail (put s.columns s.j0 (mark_used here)))

module _ {W : Type 0} ⦃f : Float W⦄ (laws : IsBounded f) (n : ℕ) where
  -- The search has marked the columns `os`, the last one first, and has come to a column that is
  -- not marked, from which the way back leads through them to column 0.
  pub record IsSearching (os : List ℕ) (s : Search W) : Type 0 where
    pub potential : IsPotential laws n s.u
    pub in_range : All (InRange laws n) s.columns
    pub ready : All (IsReady os) s.columns
    pub here : Column W
    pub at : nth s.columns s.j0 ≡ some here
    pub fresh : here.used ≡ false
    pub start : (s.j0 ≡ 0) ⊎ IsMarked s.columns 0
    pub linked : Linked s.columns s.j0 os
    pub marked : All (IsMarked s.columns) os

  -- What a round leaves.
  pub record IsAdvanced (os : List ℕ) (s t : Search W) : Type 0 where
    pub searching : IsSearching (s.j0 ∷ os) t
    pub away : t.j0 ≢ 0
    pub rows_kept : rows_of t.columns ≡ rows_of s.columns
    pub length_kept : length t.columns ≡ length s.columns
    pub fewer : unused t.columns + 1 ≡ unused s.columns

  module _ (os : List ℕ) (s : Search W) (h : IsSearching os s) where
    abbrev marked_columns : List (Column W)
    marked_columns = put s.columns s.j0 (mark_used h.here)

    mark-IsMarked : (o : ℕ) → IsMarked s.columns o → IsMarked marked_columns o
    mark-IsMarked o (b, e, u) =
        let (d, q, _, _, w) = nth-mark s.columns s.j0 o h.here b h.at e in
        (d, q, elim w [ inl (_, x) ↦ x | inr x ↦ x ∙ u ])

    here-IsMarked : IsMarked marked_columns s.j0
    here-IsMarked =
        let (d, q, _, _, w) = nth-mark s.columns s.j0 s.j0 h.here h.here h.at h.at in
        (mark_used h.here, nth-put_same s.columns s.j0 h.here (mark_used h.here) h.at, refl)

    start-IsMarked : IsMarked marked_columns 0
    start-IsMarked = elim h.start [
      | inl e ↦ subst (IsMarked marked_columns) e here-IsMarked
      | inr m ↦ mark-IsMarked 0 m
    ]

    marked-IsReady : All (IsReady (s.j0 ∷ os)) marked_columns
    marked-IsReady =
        All-put (IsReady (s.j0 ∷ os)) s.columns s.j0 (mark_used h.here) (λ q. absurd (cc q))
          (All-map (IsReady os) (IsReady (s.j0 ∷ os))
            (λ c r u. elim (r u) [ inl e ↦ inl e | inr m ↦ inr (inr m) ]) s.columns h.ready)

    marked-in_range : All (InRange laws n) marked_columns
    marked-in_range =
        All-put (InRange laws n) s.columns s.j0 (mark_used h.here)
          (nth-All (InRange laws n) s.columns s.j0 h.here h.at h.in_range) h.in_range

    -- From the marked columns on, a round keeps the marks and the ways back from them.
    round-IsMarked :
        (es : List (Column W))
        → Kept marked_columns es
        → (o : ℕ) → IsMarked s.columns o
        → IsMarked es o
    round-IsMarked es k o m =
        let (d, q, u) = mark-IsMarked o m in
        let (d2, q2, keeps) = nth-Kept marked_columns es o d k q in (d2, q2, keeps.used ∙ u)

    round-Stays :
        (es : List (Column W))
        → Kept marked_columns es
        → (o : ℕ) → IsMarked s.columns o
        → Stays s.columns es o
    round-Stays es k o (b, e, u) =
        let (d, q, way, _, w) = nth-mark s.columns s.j0 o h.here b h.at e in
        let (d2, q2, keeps) = nth-Kept marked_columns es o d k q in
        (b, d2, e, q2, keeps.way (elim w [ inl (_, x) ↦ x | inr x ↦ x ∙ u ]) ∙ way)

    j0-Stays : (es : List (Column W)) → Kept marked_columns es → Stays s.columns es s.j0
    j0-Stays es k =
        let q = nth-put_same s.columns s.j0 h.here (mark_used h.here) h.at in
        let (d2, q2, keeps) = nth-Kept marked_columns es s.j0 (mark_used h.here) k q in
        (h.here, d2, h.at, q2, keeps.way refl)

    round-IsAdvanced :
        (us : List W) (es : List (Column W)) (j1 : ℕ) (d : Column W)
        → Kept marked_columns es
        → IsPotential laws n us
        → All (IsReady (s.j0 ∷ os)) es
        → nth es j1 ≡ some d
        → d.used ≡ false
        → Has d.way (s.j0 ∷ os)
        → j1 ≢ 0
        → IsAdvanced os s (record { u = us; columns = es; j0 = j1 })
    round-IsAdvanced us es j1 d k pot r e u w away =
        let (m, me, mu) = here-IsMarked in
        let (m2, me2, mkeeps) = nth-Kept marked_columns es s.j0 m k me in
        let (z, ze, zu) = start-IsMarked in
        let (z2, ze2, zkeeps) = nth-Kept marked_columns es 0 z k ze in
        record {
          searching = record {
            potential = pot;
            in_range =
                Kept-All _ _ (λ c d keeps b. rw keeps.p b) marked_columns es k marked-in_range;
            ready = r;
            here = d;
            at = e;
            fresh = u;
            start = inr (z2, ze2, zkeeps.used ∙ zu);
            linked = (
              (d, e, w),
              Linked-Stays s.columns es s.j0 os (j0-Stays es k)
                  (All-map (IsMarked s.columns) (Stays s.columns es) (round-Stays es k) os h.marked)
                  h.linked,
            );
            marked = (
              (m2, me2, mkeeps.used ∙ mu),
              All-map (IsMarked s.columns) (IsMarked es) (round-IsMarked es k) os h.marked,
            );
          };
          away = away;
          rows_kept = rows_of-Kept marked_columns es k ∙ rows_of-mark s.columns s.j0 h.here h.at;
          length_kept =
              length-Kept marked_columns es k ∙ length-put s.columns s.j0 (mark_used h.here);
          fewer = omega (
            arith,
            unused-Kept marked_columns es k,
            unused-mark s.columns s.j0 h.here h.at h.fresh,
          );
        }

    -- A round marks the column, and comes to another one that is not marked, or the search is stuck.
    pub search_round-IsAdvanced :
        (cost : ℕ → ℕ → W)
        → ((t : Search W) × (search_round cost s ≡ ok t) × IsAdvanced os s t) ⊎ IsStuck cost s
    unfolding search_round
    search_round-IsAdvanced cost =
        let row_le = nth-All (InRange laws n) s.columns s.j0 h.here h.at h.in_range in
        let (ui, eu) = nth-some s.u h.here.p (omega (arith, h.potential)) in
        let (z, ze, zu) = start-IsMarked in
        let (k1, r1, choice) =
          scan_columns-lem (cost h.here.p) ui s.j0 (s.j0 ∷ os) (inl refl) marked_columns z
            marked-IsReady ze zu in
        let ds = (scan_columns (cost h.here.p) ui s.j0 marked_columns).1 in
        let best = (scan_columns (cost h.here.p) ui s.j0 marked_columns).0 in
        elim choice [
          | inl stuck ↦ inr (record {
            here = h.here;
            at = h.at;
            potential = ui;
            has_potential = eu;
            none_below = stuck;
          })
          | inr (d, e, u, w, away) ↦
              let range =
                Kept-All (InRange laws n) (InRange laws n) (λ c d keeps b. rw keeps.p b)
                  marked_columns ds k1 marked-in_range in
              let (us, es, q, pot, k2, r2, w2) =
                shift-lem laws n (s.j0 ∷ os) best.delta s.u ds h.potential range r1 in
              let (d2, e2, keeps) = nth-Kept ds es best.j1 d k2 e in
              inl (
                record { u = us; columns = es; j0 = best.j1 },
                rw (h.at, eu, q) refl,
                round-IsAdvanced us es best.j1 d2 (Kept-trans marked_columns ds es k1 k2) pot r2 e2
                    (keeps.used ∙ u)
                    (subst (λ x. Has x (s.j0 ∷ os)) (sym (nth-ways_of ds es best.j1 d d2 w2 e e2))
                      w)
                    away,
              )
        ]
