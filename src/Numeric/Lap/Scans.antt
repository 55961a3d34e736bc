-- ===== src/Numeric/Lap/Scans.antt =====
-- What one round of the search leaves of the columns.
use mathlib.Core.Path.{subst}
use project_mittens.Prelude.{
  tail, false, ℕ, zero, suc, ◌+◌, ◌≡◌, ◌≢◌, ◌⊎◌, refl, sym, ap, ◌∙◌, inl, inr, Bool, true, false,
  not, some, List, [], ◌∷◌, map, length, All, Has, arith, if◌then◌else◌, Bool-cases,
}
use project_mittens.Prelude.Keyed.{nth}
use project_mittens.Float.{Float}
use project_mittens.Numeric.Lap.{Column, Best, relax, visit, better, scan, scan_columns}

module _ {W : Type 0} ⦃f : Float W⦄ where
  -- The number is below none: of floats, this holds of plus infinity and NaN.
  abbrev pub IsTop : W → Type 0
  IsTop x = (y : W) → f.lt x y ≡ false

-- What the solver relies on of the numbers, as IEEE 754 has it for all floats: plus infinity is
-- below none, and what is below none still is once something is subtracted.
pub record IsBounded {W : Type 0} (f : Float W) : Type 0 where
  pub top : IsTop ⦃f = f⦄ f.inf
  pub kept : (x y : W) → IsTop ⦃f = f⦄ x → IsTop ⦃f = f⦄ (f.sub x y)

ap_suc : (k : ℕ) → 1 + k ≡ suc k
ap_suc k = omega arith

module _ {A : Type 0} where
  unless : (b : Bool) (x y : A) → b ≡ true → (if not b then x else y) ≡ y
  unless true x y e = refl
  unless false x y e = absurd (cc e)

  unless_not : (b : Bool) (x y : A) → b ≡ false → (if not b then x else y) ≡ x
  unless_not true x y e = absurd (cc e)
  unless_not false x y e = refl

module _ {W : Type 0} where
  -- The row and the mark of a column are kept, and the way back from one that is marked.
  pub record Keeps (c d : Column W) : Type 0 where
    pub p : d.p ≡ c.p
    pub used : d.used ≡ c.used
    pub way : c.used ≡ true → d.way ≡ c.way

  abbrev pub Kept : List (Column W) → List (Column W) → Type 0
  Kept [] [] = Unit
  Kept [] (d ∷ ds) = ⊥
  Kept (c ∷ cs) [] = ⊥
  Kept (c ∷ cs) (d ∷ ds) = Keeps c d × Kept cs ds

  pub Kept-trans : (cs ds es : List (Column W)) → Kept cs ds → Kept ds es → Kept cs es
  Kept-trans [] [] [] h k = tt
  Kept-trans [] [] (e ∷ es) h k = absurd k
  Kept-trans [] (d ∷ ds) es h k = absurd h
  Kept-trans (c ∷ cs) [] es h k = absurd h
  Kept-trans (c ∷ cs) (d ∷ ds) [] h k = absurd k
  Kept-trans (c ∷ cs) (d ∷ ds) (e ∷ es) (h, hs) (k, ks) = (
    record { p = k.p ∙ h.p; used = k.used ∙ h.used; way = λ u. k.way (h.used ∙ u) ∙ h.way u },
    Kept-trans cs ds es hs ks,
  )

  pub nth-Kept :
      (cs ds : List (Column W)) (i : ℕ) (c : Column W)
      → Kept cs ds
      → nth cs i ≡ some c
      → (d : Column W) × (nth ds i ≡ some d) × Keeps c d
  nth-Kept [] ds i c h e = absurd (cc e)
  nth-Kept (b ∷ cs) [] i c h e = absurd h
  nth-Kept (b ∷ cs) (d ∷ ds) zero c (h, hs) e =
      let same : b ≡ c = cc e in (d, refl, rw (sym same) h)
  nth-Kept (b ∷ cs) (d ∷ ds) (suc i) c (h, hs) e = nth-Kept cs ds i c hs e

  abbrev pub rows_of : List (Column W) → List ℕ
  rows_of cs = map (λ c. c.p) cs

  pub rows_of-Kept : (cs ds : List (Column W)) → Kept cs ds → rows_of ds ≡ rows_of cs
  rows_of-Kept [] [] h = refl
  rows_of-Kept [] (d ∷ ds) h = absurd h
  rows_of-Kept (c ∷ cs) [] h = absurd h
  rows_of-Kept (c ∷ cs) (d ∷ ds) (h, hs) = rw (h.p, rows_of-Kept cs ds hs) refl

  pub length-Kept : (cs ds : List (Column W)) → Kept cs ds → length ds ≡ length cs
  length-Kept [] [] h = refl
  length-Kept [] (d ∷ ds) h = absurd h
  length-Kept (c ∷ cs) [] h = absurd h
  length-Kept (c ∷ cs) (d ∷ ds) (h, hs) = ap suc (length-Kept cs ds hs)

  pub Kept-All {κ} :
      (P Q : Column W → Type κ)
      → ((c d : Column W) → Keeps c d → P c → Q d)
      → (cs ds : List (Column W)) → Kept cs ds
      → All P cs
      → All Q ds
  Kept-All P Q g [] [] h _ = tt
  Kept-All P Q g [] (d ∷ ds) h _ = absurd h
  Kept-All P Q g (c ∷ cs) [] h _ = absurd h
  Kept-All P Q g (c ∷ cs) (d ∷ ds) (h, hs) (p, ps) = (g c d h p, Kept-All P Q g cs ds hs ps)

  -- How many columns are not marked.
  abbrev pub unused : List (Column W) → ℕ
  unused [] = 0
  unused (c ∷ cs) = (if c.used then 0 else 1) + unused cs

  pub unused-Kept : (cs ds : List (Column W)) → Kept cs ds → unused ds ≡ unused cs
  unused-Kept [] [] h = refl
  unused-Kept [] (d ∷ ds) h = absurd h
  unused-Kept (c ∷ cs) [] h = absurd h
  unused-Kept (c ∷ cs) (d ∷ ds) (h, hs) = rw (h.used, unused-Kept cs ds hs) refl

module _ {W : Type 0} ⦃f : Float W⦄ where
  -- A column that is not marked cannot be chosen yet, or is reached by way of one of `os`.
  abbrev pub IsReady : List ℕ → Column W → Type 0
  IsReady os c = c.used ≡ false → IsTop c.minv ⊎ Has c.way os

  -- The distance to column `j` by which a scan leaves it: the old one, or that by way of the column
  -- from which the scan is, if it is less.
  abbrev pub tentative : (ℕ → W) → W → ℕ → Column W → W
  tentative cost ui j c =
      let cur = f.sub (f.sub (cost j) ui) c.v in if f.lt cur c.minv then cur else c.minv

  -- None of the columns from `j` on that are not marked comes below `delta`.
  abbrev pub NoneBelow : (ℕ → W) → W → W → ℕ → List (Column W) → Type 0
  NoneBelow cost ui delta j [] = Unit
  NoneBelow cost ui delta j (c ∷ cs) =
      ((c.used ≡ true) ⊎ (f.lt (tentative cost ui j c) delta ≡ false))
      × NoneBelow cost ui delta (suc j) cs

  unchanged : (c : Column W) → Keeps c c
  unchanged c = record { p = refl; used = refl; way = λ _. refl }

  module _ (cost : ℕ → W) (ui : W) (j0 : ℕ) (os : List ℕ) (here : Has j0 os) where
    -- What a scan makes of one column.
    record IsVisited (j : ℕ) (c d : Column W) : Type 0 where
      keeps : Keeps c d
      ready : IsReady os d
      nearer : c.used ≡ false → d.minv ≡ tentative cost ui j c

    visit-IsVisited : (j : ℕ) (c : Column W) → IsReady os c → IsVisited j c (visit cost ui j0 j c)
    visit-IsVisited j c r =
        let cur = f.sub (f.sub (cost j) ui) c.v in
        elim (Bool-cases c.used) [
          | inl e ↦
              subst (IsVisited j c) (sym (unless c.used (relax cur j0 c) c e))
                (record { keeps = unchanged c; ready = r; nearer = λ q. absurd (cc (sym e ∙ q)) })
          | inr e ↦
              subst (IsVisited j c) (sym (unless_not c.used (relax cur j0 c) c e))
                (relaxed j c cur refl e r)
        ]
      where
        relaxed :
            (j : ℕ) (c : Column W) (cur : W)
            → f.sub (f.sub (cost j) ui) c.v ≡ cur
            → c.used ≡ false
            → IsReady os c
            → IsVisited j c (relax cur j0 c)
        relaxed j c cur q u r = elim (Bool-cases (f.lt cur c.minv)) [
          | inl e ↦ rw e (record {
            keeps = record { p = refl; used = refl; way = λ w. absurd (cc (sym u ∙ w)) };
            ready = λ _. inr here;
            nearer = λ _. rw q (rw e refl);
          })
          | inr e ↦ rw e (record { keeps = unchanged c; ready = r; nearer = λ _. rw q (rw e refl) })
        ]

    -- The column that is chosen, of those from `j` on: it is not marked, and reached.
    abbrev pub Chosen : ℕ → ℕ → List (Column W) → Type 0
    Chosen j1 j ds =
        (k : ℕ) × (d : Column W) × (j1 ≡ j + k)
        × (nth ds k ≡ some d)
        × (d.used ≡ false)
        × Has d.way os

    abbrev pub Found : ℕ → Best W → Best W → List (Column W) → List (Column W) → Type 0
    Found j old best cs ds = ((best ≡ old) × NoneBelow cost ui old.delta j cs) ⊎ Chosen best.j1 j ds

    pub record IsScanned (j : ℕ) (old : Best W) (cs : List (Column W)) (best : Best W)
        (ds : List (Column W)) : Type 0 where
      pub kept : Kept cs ds
      pub ready : All (IsReady os) ds
      pub found : Found j old best cs ds

    Chosen-later :
        (j1 j : ℕ) (d : Column W) (ds : List (Column W))
        → Chosen j1 (suc j) ds
        → Chosen j1 j (d ∷ ds)
    Chosen-later j1 j d ds (k, c, q, n, u, h) = (suc k, c, q ∙ omega arith, n, u, h)

    reached :
        (d : Column W) (x : W) → IsReady os d → d.used ≡ false → f.lt d.minv x ≡ true → Has d.way os
    reached d x r u l = elim (r u) [ inl t ↦ absurd (cc (sym l ∙ t x)) | inr h ↦ h ]

    found_first :
        (j : ℕ) (old best : Best W) (c d : Column W) (cs ds : List (Column W))
        → IsVisited j c d
        → Found (suc j) (better j d old) best cs ds
        → Found j old best (c ∷ cs) (d ∷ ds)
    found_first j old best c d cs ds v h = elim (Bool-cases d.used) [
      | inl e ↦ elim (rw e at h) [
        | inl (q, n) ↦ inl (q, (inl (sym v.keeps.used ∙ e), n))
        | inr k ↦ inr (Chosen-later best.j1 j d ds k)
      ]
      | inr e ↦
          let same : d.minv ≡ tentative cost ui j c = v.nearer (sym v.keeps.used ∙ e) in
          elim (Bool-cases (f.lt d.minv old.delta)) [
            | inl l ↦ elim (rw (e, l) at h) [
              | inl (q, _) ↦
                  inr
                    (0, d, ap (λ b. b.j1) q ∙ omega arith, refl, e, reached d old.delta v.ready e l)
              | inr k ↦ inr (Chosen-later best.j1 j d ds k)
            ]
            | inr l ↦ elim (rw (e, l) at h) [
              | inl (q, n) ↦ inl (q, (inr (subst (λ x. f.lt x old.delta ≡ false) same l), n))
              | inr k ↦ inr (Chosen-later best.j1 j d ds k)
            ]
          ]
    ]

    pub scan-IsScanned :
        (j : ℕ) (old : Best W) (cs : List (Column W))
        → All (IsReady os) cs
        → IsScanned j old cs (scan cost ui j0 j old cs).0 (scan cost ui j0 j old cs).1
    unfolding scan
    scan-IsScanned j old [] _ = record { kept = tt; ready = tt; found = inl (refl, tt) }
    scan-IsScanned j old (c ∷ cs) (r, rs) =
        let d = visit cost ui j0 j c in
        let v = visit-IsVisited j c r in
        let rest = scan-IsScanned (suc j) (better j d old) cs rs in
        record {
          kept = (v.keeps, rest.kept);
          ready = (v.ready, rest.ready);
          found = found_first j old _ c d cs _ v rest.found;
        }

    -- The scan of all columns, of which the first is marked, chooses one, or there is none below
    -- infinity.
    pub scan_columns-lem :
        (cs : List (Column W)) (c0 : Column W)
        → All (IsReady os) cs
        → nth cs 0 ≡ some c0
        → c0.used ≡ true
        → Kept cs (scan_columns cost ui j0 cs).1
          × All (IsReady os) (scan_columns cost ui j0 cs).1
          × (NoneBelow cost ui f.inf 1 (tail cs)
              ⊎ ((d : Column W) × (nth
                      (scan_columns cost ui j0 cs).1
                      (scan_columns cost ui j0 cs).0.j1
                    ≡ some d)
                  × (d.used ≡ false)
                  × Has d.way os
                  × ((scan_columns cost ui j0 cs).0.j1 ≢ 0)))
    unfolding scan_columns
    scan_columns-lem [] c0 _ e _ = absurd (cc e)
    scan_columns-lem (b ∷ cs) c0 (r, rs) e u =
        let none_yet : Best W = record { delta = f.inf; j1 = 0 } in
        let s = scan-IsScanned 1 none_yet cs rs in
        let same : b ≡ c0 = cc e in
        (
          (unchanged b, s.kept),
          (r, s.ready),
          elim s.found [
            | inl (_, n) ↦ inl n
            | inr (k, d, q, n, w, h) ↦
                let place = q ∙ ap_suc k in
                inr (d, rw place n, w, h, λ z. absurd (omega (arith, place, z)))
          ],
        )
