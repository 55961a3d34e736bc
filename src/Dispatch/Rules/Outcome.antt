-- ===== src/Dispatch/Rules/Outcome.antt =====
-- What an evaluation answers, by the rules that are matched and their values.
use Prim.Native.String.{◌++◌ as joined}
use Prim.Native.Char.{Char}
use text.Mathlib.TextLemmas.{cons-append}
use text.Mathlib.TextEquality.{eq_iff}
use mathlib.Core.List.{append_assoc, append-nil}
use project_mittens.Prelude.{
  ℕ, ◌≡◌, ◌≢◌, ◌⊎◌, refl, sym, ap, ◌∙◌, inl, inr, Bool, true, false, ◌||◌, String, Option, none,
  some, List, [], ◌∷◌, ◌++◌, map, if◌then◌else◌, ◌==◌, arith, Bool-cases,
}
use project_mittens.Prelude.Dict.{str_eq}
use project_mittens.Prelude.Result.{Result, ok, err, ◌>>=◌}
use project_mittens.Float.{Float}
use project_mittens.Dispatch.Rules.{
  ModificationTarget, bonus, infeasible, loaded_rate, empty_rate, empty_to_home, fixed_cost,
  max_deadhead, unknown_target, Operation, op_add, op_multiply, op_override, op_ban,
  unknown_operation, Rule, RuleEvaluationResult, Context, Cel, RuleError, CompiledRule,
  adjust_bonus, adjust_rate, reason_of, new_rule_evaluation_result, adjust_target, ban, apply_rule,
  triggered, apply_if, evaluate_rules, evaluate,
}

abbrev rank : ModificationTarget → ℕ
rank bonus = 0
rank infeasible = 1
rank loaded_rate = 2
rank empty_rate = 3
rank empty_to_home = 4
rank fixed_cost = 5
rank max_deadhead = 6
rank (unknown_target s) = 7

-- The two are the same target.
abbrev pub aims : ModificationTarget → ModificationTarget → Bool
aims s t = rank s == rank t

abbrev is_ban : Operation → Bool
is_ban op_ban = true
is_ban op_add = false
is_ban op_multiply = false
is_ban op_override = false
is_ban (unknown_operation s) = false

module _ {W : Type 0} where
  -- The rule makes an arc infeasible.
  abbrev pub forbids : Rule W → Bool
  forbids r = aims infeasible r.target || is_ban r.operation

joined-ne : (c : Char) (s t : String) → joined (String.◌∷◌ c s) t ≢ ""
joined-ne c s t h = absurd (cc (sym (cons-append c s t) ∙ h))

-- A rule that is matched, with its value.
abbrev pub Hit : Type 0 → Type 0
Hit W = Rule W × W

module _ {W : Type 0} ⦃f : Float W⦄ where
  abbrev pub with_hit : Rule W → Option W → List (Hit W) → List (Hit W)
  with_hit r none hs = hs
  with_hit r (some v) hs = (r, v) ∷ hs

  -- One parameter, under the adjustments of the rules that aim at it, in their order.
  abbrev pub settled : (Operation → W → W → W) → ModificationTarget → W → List (Hit W) → W
  settled adjust t x [] = x
  settled adjust t x ((r, v) ∷ hs) =
      settled adjust t (if aims t r.target then adjust r.operation v x else x) hs

  abbrev pub adjust_limit : Operation → W → W → W
  adjust_limit op v x = if f.lt f.nought v then v else x

  abbrev pub any_forbids : List (Hit W) → Bool
  any_forbids [] = false
  any_forbids ((r, v) ∷ hs) = forbids r || any_forbids hs

  -- The parameters of a result that started from `old`, after the rules `hs`.
  pub record IsSettled (old : RuleEvaluationResult W) (hs : List (Hit W))
      (res : RuleEvaluationResult W) : Type 0 where
    pub matched : res.matched_rule_ids ≡ old.matched_rule_ids ++ map (λ h. h.0.id) hs
    pub bonuses : res.bonus ≡ settled adjust_bonus bonus old.bonus hs
    pub loaded :
        res.loaded_rate_multiplier ≡ settled adjust_rate loaded_rate old.loaded_rate_multiplier hs
    pub empty :
        res.empty_rate_multiplier ≡ settled adjust_rate empty_rate old.empty_rate_multiplier hs
    pub home :
        res.empty_to_home_multiplier
        ≡ settled adjust_rate empty_to_home old.empty_to_home_multiplier hs
    pub fixed :
        res.fixed_cost_multiplier ≡ settled adjust_rate fixed_cost old.fixed_cost_multiplier hs
    pub limit :
        res.max_deadhead_override ≡ settled adjust_limit max_deadhead old.max_deadhead_override hs
    pub forbidden : res.is_infeasible ≡ old.is_infeasible || any_forbids hs

  -- What the parameters of a result are, once `adjust_target` has seen one rule.
  record IsAimed (t : ModificationTarget) (r : Rule W) (v : W) (old res : RuleEvaluationResult W)
      : Type 0 where
    matched : res.matched_rule_ids ≡ old.matched_rule_ids
    bonuses : res.bonus ≡ (if aims bonus t then adjust_bonus r.operation v old.bonus else old.bonus)
    loaded : res.loaded_rate_multiplier ≡ (
        if aims loaded_rate t
        then adjust_rate r.operation v old.loaded_rate_multiplier
        else old.loaded_rate_multiplier)
    empty : res.empty_rate_multiplier ≡ (
        if aims empty_rate t
        then adjust_rate r.operation v old.empty_rate_multiplier
        else old.empty_rate_multiplier)
    home : res.empty_to_home_multiplier ≡ (
        if aims empty_to_home t
        then adjust_rate r.operation v old.empty_to_home_multiplier
        else old.empty_to_home_multiplier)
    fixed : res.fixed_cost_multiplier ≡ (
        if aims fixed_cost t
        then adjust_rate r.operation v old.fixed_cost_multiplier
        else old.fixed_cost_multiplier)
    limit : res.max_deadhead_override ≡ (
        if aims max_deadhead t
        then adjust_limit r.operation v old.max_deadhead_override
        else old.max_deadhead_override)
    forbidden : res.is_infeasible ≡ (old.is_infeasible || aims infeasible t)

  adjust_target-IsAimed :
      (t : ModificationTarget) (r : Rule W) (v : W) (old : RuleEvaluationResult W)
      → IsAimed t r v old (adjust_target t r v old)
  unfolding adjust_target
  adjust_target-IsAimed infeasible r v old = record {
    matched = refl;
    bonuses = refl;
    loaded = refl;
    empty = refl;
    home = refl;
    fixed = refl;
    limit = refl;
    forbidden = ground arith;
  }
  adjust_target-IsAimed _ r v old = record {
    matched = refl;
    bonuses = refl;
    loaded = refl;
    empty = refl;
    home = refl;
    fixed = refl;
    limit = refl;
    forbidden = ground arith;
  }

  -- A ban changes the verdict and the reason alone.
  record IsBanned (o : Operation) (old res : RuleEvaluationResult W) : Type 0 where
    matched : res.matched_rule_ids ≡ old.matched_rule_ids
    bonuses : res.bonus ≡ old.bonus
    loaded : res.loaded_rate_multiplier ≡ old.loaded_rate_multiplier
    empty : res.empty_rate_multiplier ≡ old.empty_rate_multiplier
    home : res.empty_to_home_multiplier ≡ old.empty_to_home_multiplier
    fixed : res.fixed_cost_multiplier ≡ old.fixed_cost_multiplier
    limit : res.max_deadhead_override ≡ old.max_deadhead_override
    forbidden : res.is_infeasible ≡ (old.is_infeasible || is_ban o)

  ban-IsBanned :
      (o : Operation) (r : Rule W) (old : RuleEvaluationResult W) → IsBanned o old (ban o r old)
  unfolding ban
  ban-IsBanned op_ban r old = record {
    matched = refl;
    bonuses = refl;
    loaded = refl;
    empty = refl;
    home = refl;
    fixed = refl;
    limit = refl;
    forbidden = ground arith;
  }
  ban-IsBanned _ r old = record {
    matched = refl;
    bonuses = refl;
    loaded = refl;
    empty = refl;
    home = refl;
    fixed = refl;
    limit = refl;
    forbidden = ground arith;
  }

  apply_rule-IsSettled :
      (r : Rule W) (v : W) (old : RuleEvaluationResult W)
      → IsSettled old ((r, v) ∷ []) (apply_rule r v old)
  unfolding apply_rule
  apply_rule-IsSettled r v old =
      let noted = record old { matched_rule_ids = old.matched_rule_ids ++ (r.id ∷ []) } in
      let a = adjust_target-IsAimed r.target r v noted in
      let b = ban-IsBanned r.operation r (adjust_target r.target r v noted) in
      record {
        matched = b.matched ∙ a.matched;
        bonuses = b.bonuses ∙ a.bonuses;
        loaded = b.loaded ∙ a.loaded;
        empty = b.empty ∙ a.empty;
        home = b.home ∙ a.home;
        fixed = b.fixed ∙ a.fixed;
        limit = b.limit ∙ a.limit;
        forbidden = ground (arith, b.forbidden, a.forbidden);
      }

  IsSettled_cons :
      (h : Hit W) (hs : List (Hit W)) (old mid res : RuleEvaluationResult W)
      → IsSettled old (h ∷ []) mid
      → IsSettled mid hs res
      → IsSettled old (h ∷ hs) res
  IsSettled_cons h hs old mid res a b = record {
    matched =
        b.matched
        ∙ ap (λ ids. ids ++ map (λ h. h.0.id) hs) a.matched
        ∙ append_assoc old.matched_rule_ids (h.0.id ∷ []) (map (λ h. h.0.id) hs);
    bonuses = b.bonuses ∙ ap (λ x. settled adjust_bonus bonus x hs) a.bonuses;
    loaded = b.loaded ∙ ap (λ x. settled adjust_rate loaded_rate x hs) a.loaded;
    empty = b.empty ∙ ap (λ x. settled adjust_rate empty_rate x hs) a.empty;
    home = b.home ∙ ap (λ x. settled adjust_rate empty_to_home x hs) a.home;
    fixed = b.fixed ∙ ap (λ x. settled adjust_rate fixed_cost x hs) a.fixed;
    limit = b.limit ∙ ap (λ x. settled adjust_limit max_deadhead x hs) a.limit;
    forbidden = ground (arith, b.forbidden, a.forbidden);
  }

  -- A result that forbids the arc says why.
  abbrev pub Explained : RuleEvaluationResult W → Type 0
  Explained res = res.is_infeasible ≡ true → res.infeasibility_reason ≢ ""

  reason_of-ne : (r : Rule W) → reason_of r ≢ ""
  reason_of-ne r h = elim (Bool-cases (str_eq r.message "")) [
    | inl e ↦ joined-ne _ _ r.id (rw e at h)
    | inr e ↦ absurd (cc (sym e ∙ (eq_iff r.message "").1 (rw e at h)))
  ]

  adjust_target-Explained :
      (t : ModificationTarget) (r : Rule W) (v : W) (old : RuleEvaluationResult W)
      → Explained old
      → Explained (adjust_target t r v old)
  unfolding adjust_target
  adjust_target-Explained infeasible r v old h = λ _. reason_of-ne r
  adjust_target-Explained _ r v old h = h

  ban-Explained :
      (o : Operation) (r : Rule W) (old : RuleEvaluationResult W)
      → Explained old
      → Explained (ban o r old)
  unfolding ban
  ban-Explained op_ban r old h = λ _. elim (Bool-cases (str_eq old.infeasibility_reason "")) [
    | inl e ↦ rw e (λ q. joined-ne _ _ r.id q)
    | inr e ↦ rw e (λ q. absurd (cc (sym e ∙ (eq_iff old.infeasibility_reason "").1 q)))
  ]
  ban-Explained _ r old h = h

  apply_rule-Explained :
      (r : Rule W) (v : W) (old : RuleEvaluationResult W)
      → Explained old
      → Explained (apply_rule r v old)
  unfolding apply_rule
  apply_rule-Explained r v old h =
      let noted = record old { matched_rule_ids = old.matched_rule_ids ++ (r.id ∷ []) } in
      ban-Explained r.operation r (adjust_target r.target r v noted)
        (adjust_target-Explained r.target r v noted h)

  module _ {Ast Program : Type 0} (cel : Cel W Ast Program) (ctx : Context W) where
    -- The rules, none of which fails, and those of them that are matched.
    pub data Fired : List (CompiledRule W Program) → List (Hit W) → Type 0 where
      end : Fired [] []
      miss :
          {cr : CompiledRule W Program} {rules : List (CompiledRule W Program)} {hs : List (Hit W)}
          → triggered cel cr ctx ≡ ok none
          → Fired rules hs
          → Fired (cr ∷ rules) hs
      hit :
          {cr : CompiledRule W Program} {v : W} {rules : List (CompiledRule W Program)}
          {hs : List (Hit W)}
          → triggered cel cr ctx ≡ ok (some v)
          → Fired rules hs
          → Fired (cr ∷ rules) ((cr.rule, v) ∷ hs)

    -- The rules before the first that fails, and its error.
    abbrev pub FailsAt : RuleError → List (CompiledRule W Program) → Type 0
    FailsAt e [] = ⊥
    FailsAt e (cr ∷ rules) =
        (triggered cel cr ctx ≡ err e)
        ⊎ ((x : Option W) × (triggered cel cr ctx ≡ ok x) × FailsAt e rules)

    abbrev pub Evaluated :
        List (CompiledRule W Program)
        → RuleEvaluationResult W
        → Result RuleError (RuleEvaluationResult W)
        → Type 0
    Evaluated rules old (ok res) =
        (hs : List (Hit W)) × Fired rules hs × IsSettled old hs res × Explained res
    Evaluated rules old (err e) = FailsAt e rules

    missed :
        (cr : CompiledRule W Program) (rules : List (CompiledRule W Program))
        (old : RuleEvaluationResult W)
        → triggered cel cr ctx ≡ ok none
        → (m : Result RuleError (RuleEvaluationResult W)) → Evaluated rules old m
        → Evaluated (cr ∷ rules) old m
    missed cr rules old t (ok res) (hs, f, s, x) = (hs, miss t f, s, x)
    missed cr rules old t (err e) h = inr (none, t, h)

    fired :
        (cr : CompiledRule W Program) (rules : List (CompiledRule W Program))
        (old : RuleEvaluationResult W) (v : W)
        → triggered cel cr ctx ≡ ok (some v)
        → (m : Result RuleError (RuleEvaluationResult W))
        → Evaluated rules (apply_rule cr.rule v old) m
        → Evaluated (cr ∷ rules) old m
    fired cr rules old v t (ok res) (hs, f, s, x) = (
      (cr.rule, v) ∷ hs,
      hit t f,
      IsSettled_cons (cr.rule, v) hs old (apply_rule cr.rule v old) res
          (apply_rule-IsSettled cr.rule v old) s,
      x,
    )
    fired cr rules old v t (err e) h = inr (some v, t, h)

    start : (old : RuleEvaluationResult W) → IsSettled old [] old
    start old = record {
      matched = sym (append-nil old.matched_rule_ids);
      bonuses = refl;
      loaded = refl;
      empty = refl;
      home = refl;
      fixed = refl;
      limit = refl;
      forbidden = ground arith;
    }

    evaluate_rules-Evaluated :
        (rules : List (CompiledRule W Program)) (old : RuleEvaluationResult W)
        → Explained old
        → Evaluated rules old (evaluate_rules cel ctx old rules)
    unfolding evaluate_rules
    evaluate_rules-Evaluated [] old h = ([], end, start old, h)
    evaluate_rules-Evaluated (cr ∷ rules) old h =
        go rules (evaluate_rules-Evaluated rules) (triggered cel cr ctx) refl
      where
        go :
            (rules : List (CompiledRule W Program))
            → ((old : RuleEvaluationResult W)
                → Explained old
                → Evaluated rules old (evaluate_rules cel ctx old rules))
            → (m : Result RuleError (Option W)) → triggered cel cr ctx ≡ m
            → Evaluated
                (cr ∷ rules)
                old
                (m >>= λ v. evaluate_rules cel ctx (apply_if cr.rule v old) rules)
        go rules rest (err e) t = inl t
        go rules rest (ok none) t =
            missed cr rules old t (evaluate_rules cel ctx old rules) (rest old h)
        go rules rest (ok (some v)) t =
            fired cr rules old v t (evaluate_rules cel ctx (apply_rule cr.rule v old) rules)
              (rest (apply_rule cr.rule v old) (apply_rule-Explained cr.rule v old h))

    -- The evaluation answers an error just where some rule fails, after others that do not: that
    -- of the first such rule. Otherwise its result lists the rules that are matched, in their order;
    -- each parameter is what the rules aimed at it make of its neutral value, in their order, with
    -- their values, and no other rule touches it; the arc is infeasible just if one of them forbids
    -- it, by its target or by a ban, and then the reason is not empty.
    pub evaluate_lem :
        (rules : List (CompiledRule W Program))
        → Evaluated rules new_rule_evaluation_result (evaluate cel (some rules) ctx)
    unfolding evaluate new_rule_evaluation_result
    evaluate_lem rules =
        evaluate_rules-Evaluated rules new_rule_evaluation_result (λ h. absurd (cc h))
