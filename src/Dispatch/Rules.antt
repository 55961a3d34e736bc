-- ===== src/Dispatch/Rules.antt =====
-- internal/domain/rules: the rules registry. The compiler and the evaluator of CEL are parameters;
-- the messages that are logged are left out.
pub mod Outcome
use Prim.Native.String.{◌++◌ as joined}
use project_mittens.Prelude.{
  ℕ, Bool, true, false, not, ◌&&◌, ◌||◌, String, Option, none, some, List, [], ◌∷◌, ◌++◌,
  if◌then◌else◌, length,
}
use project_mittens.Prelude.Int.{ℤ}
use project_mittens.Prelude.Dict.{Dict, str_eq}
use project_mittens.Prelude.Result.{Result, ok, err, ◌>>=◌}
use project_mittens.Float.{Float}
use project_mittens.Fleet.Resource.{Driver, Load}

-- The last constructor stands for a text that is none of the program's constants.
pub data ModificationTarget : Type 0 where
  bonus infeasible loaded_rate empty_rate empty_to_home fixed_cost max_deadhead : ModificationTarget
  unknown_target : String → ModificationTarget

pub data Operation : Type 0 where
  op_add op_multiply op_override op_ban : Operation
  unknown_operation : String → Operation

pub record Rule (W : Type 0) : Type 0 where
  pub id : String
  pub name : String
  pub target : ModificationTarget
  pub operation : Operation
  pub condition_cel : String
  pub value_cel : String
  pub static_value : W
  pub message : String

pub record RuleEvaluationResult (W : Type 0) : Type 0 where
  pub bonus : W
  pub loaded_rate_multiplier : W
  pub empty_rate_multiplier : W
  pub empty_to_home_multiplier : W
  pub fixed_cost_multiplier : W
  pub max_deadhead_override : W
  pub is_infeasible : Bool
  pub infeasibility_reason : String
  pub matched_rule_ids : List String

-- What a field of the evaluation context holds.
pub data Field (W : Type 0) : Type 0 where
  text : String → Field W
  number : W → Field W
  epoch : ℤ → Field W
  texts : List String → Field W

abbrev pub Context : Type 0 → Type 0
Context W = Dict (Dict (Field W))

module _ {W : Type 0} ⦃f : Float W⦄ where
  unfoldable pub new_rule_evaluation_result : RuleEvaluationResult W
  new_rule_evaluation_result = record {
    bonus = f.nought;
    loaded_rate_multiplier = f.lit 1 0;
    empty_rate_multiplier = f.lit 1 0;
    empty_to_home_multiplier = f.lit 1 0;
    fixed_cost_multiplier = f.lit 1 0;
    max_deadhead_override = f.nought;
    is_infeasible = false;
    infeasibility_reason = "";
    matched_rule_ids = [];
  }

  unfoldable pub build_evaluation_context : Driver W → Load W → W → W → Context W
  build_evaluation_context d l deadhead_miles loaded_miles =
      (
        "driver",
        ("id", text d.id)
            ∷ ("equipment_type", text d.equipment.type)
            ∷ ("current_location_id", text d.current_location.node_id)
            ∷ ("current_lat", number d.current_location.lat)
            ∷ ("current_lon", number d.current_location.lon)
            ∷ ("available_epoch", epoch d.available_epoch)
            ∷ ("drive_hours_remaining", number d.drive_hours_remaining)
            ∷ ("duty_hours_remaining", number d.duty_hours_remaining)
            ∷ ("endorsements", texts d.equipment.endorsements)
            ∷ [],
      )
      ∷ (
        "load",
        ("id", text l.id)
            ∷ ("origin_id", text l.origin.node_id)
            ∷ ("origin_lat", number l.origin.lat)
            ∷ ("origin_lon", number l.origin.lon)
            ∷ ("destination_id", text l.destination.node_id)
            ∷ ("destination_lat", number l.destination.lat)
            ∷ ("destination_lon", number l.destination.lon)
            ∷ ("required_equipment", text l.required_equipment)
            ∷ ("required_endorsements", texts l.required_endorsements)
            ∷ ("revenue", number l.revenue)
            ∷ ("pickup_earliest_epoch", epoch l.pickup_earliest_epoch)
            ∷ ("pickup_latest_epoch", epoch l.pickup_latest_epoch)
            ∷ ("delivery_earliest_epoch", epoch l.delivery_earliest_epoch)
            ∷ ("delivery_latest_epoch", epoch l.delivery_latest_epoch)
            ∷ [],
      )
      ∷ (
        "arc",
        ("deadhead_miles", number deadhead_miles)
            ∷ ("loaded_miles", number loaded_miles)
            ∷ ("total_miles", number (f.add deadhead_miles loaded_miles))
            ∷ [],
      )
      ∷ []

-- What CEL says of an expression, and the values that it evaluates to.
pub data CelType : Type 0 where
  bool_type double_type int_type dyn_type string_type other_type : CelType

pub data CelValue (W : Type 0) : Type 0 where
  bool_value : Bool → CelValue W
  double_value : W → CelValue W
  int_value : ℤ → CelValue W
  other_value : CelValue W

-- google/cel-go; `none` is an error.
pub record Cel (W Ast Program : Type 0) : Type 0 where
  pub environment : Bool
  pub compile : String → Option Ast
  pub output_type : Ast → CelType
  pub program : Ast → Option Program
  pub eval : Program → Context W → Option (CelValue W)

-- Each error but the first names its rule.
pub data RuleError : Type 0 where
  environment_failed : RuleError
  empty_condition compile_condition_failed condition_not_bool program_failed : String → RuleError
  compile_value_failed value_not_numeric value_program_failed : String → RuleError
  condition_failed not_boolean value_failed unsupported_value : String → RuleError

pub record CompiledRule (W Program : Type 0) : Type 0 where
  pub rule : Rule W
  pub condition_program : Program
  pub value_program : Option Program

-- A value, or the error in its place.
abbrev pub or_error {ℓ} : {A : Type ℓ} → RuleError → Option A → Result RuleError A
or_error e none = err e
or_error e (some a) = ok a

abbrev pub require : Bool → RuleError → Result RuleError (Unit {0})
require true e = ok tt
require false e = err e

abbrev pub is_bool : CelType → Bool
is_bool bool_type = true
is_bool double_type = false
is_bool int_type = false
is_bool dyn_type = false
is_bool string_type = false
is_bool other_type = false

abbrev pub is_value_type : CelType → Bool
is_value_type bool_type = false
is_value_type double_type = true
is_value_type int_type = true
is_value_type dyn_type = true
is_value_type string_type = true
is_value_type other_type = false

module _ {W Ast Program : Type 0} (cel : Cel W Ast Program) where
  unfoldable pub compile_value : Rule W → Result RuleError (Option Program)
  compile_value r =
      if str_eq r.value_cel ""
      then ok none
      else or_error (compile_value_failed r.id) (cel.compile r.value_cel) >>= λ ast.
          require (is_value_type (cel.output_type ast)) (value_not_numeric r.id) >>= λ _.
          or_error (value_program_failed r.id) (cel.program ast) >>= λ p. ok (some p)

  unfoldable pub compile_rule : Rule W → Result RuleError (CompiledRule W Program)
  unfolding compile_value
  compile_rule r = require (not (str_eq r.condition_cel "")) (empty_condition r.id) >>= λ _.
      or_error (compile_condition_failed r.id) (cel.compile r.condition_cel) >>= λ ast.
      require (is_bool (cel.output_type ast)) (condition_not_bool r.id) >>= λ _.
      or_error (program_failed r.id) (cel.program ast) >>= λ p.
      compile_value r >>= λ v. ok (record { rule = r; condition_program = p; value_program = v })

  unfoldable pub compile_rules : List (Rule W) → Result RuleError (List (CompiledRule W Program))
  unfolding compile_rule
  compile_rules [] = ok []
  compile_rules (r ∷ rs) = compile_rule r >>= λ c. compile_rules rs >>= λ cs. ok (c ∷ cs)

  unfoldable pub new_rule_registry :
      List (Rule W) → Result RuleError (List (CompiledRule W Program))
  unfolding compile_rules
  new_rule_registry rules = require cel.environment environment_failed >>= λ _. compile_rules rules

  -- A nil registry has no rules.
  unfoldable pub rule_count : Option (List (CompiledRule W Program)) → ℕ
  rule_count none = 0
  rule_count (some rules) = length rules

module _ {W : Type 0} where
  abbrev pub as_bool : String → CelValue W → Result RuleError Bool
  as_bool id (bool_value b) = ok b
  as_bool id (double_value x) = err (not_boolean id)
  as_bool id (int_value n) = err (not_boolean id)
  as_bool id other_value = err (not_boolean id)

module _ {W : Type 0} ⦃f : Float W⦄ where
  abbrev pub as_number : String → CelValue W → Result RuleError W
  as_number id (double_value x) = ok x
  as_number id (int_value n) = ok (f.of_int n)
  as_number id (bool_value b) = err (unsupported_value id)
  as_number id other_value = err (unsupported_value id)

  -- `switch cr.Rule.Operation` for the bonus, and for a multiplier.
  abbrev pub adjust_bonus : Operation → W → W → W
  adjust_bonus op_add v x = f.add x v
  adjust_bonus op_override v x = v
  adjust_bonus op_multiply v x = x
  adjust_bonus op_ban v x = x
  adjust_bonus (unknown_operation s) v x = x

  abbrev pub adjust_rate : Operation → W → W → W
  adjust_rate op_multiply v x = f.mul x v
  adjust_rate op_override v x = v
  adjust_rate op_add v x = x
  adjust_rate op_ban v x = x
  adjust_rate (unknown_operation s) v x = x

  abbrev pub reason_of : Rule W → String
  reason_of r = if not (str_eq r.message "") then r.message else joined "infeasible by rule " r.id

  -- `switch cr.Rule.Target`
  unfoldable pub adjust_target :
      ModificationTarget → Rule W → W → RuleEvaluationResult W → RuleEvaluationResult W
  adjust_target bonus r v res = record res { bonus = adjust_bonus r.operation v res.bonus }
  adjust_target infeasible r v res = record res {
    is_infeasible = true;
    infeasibility_reason = reason_of r;
  }
  adjust_target loaded_rate r v res = record res {
    loaded_rate_multiplier = adjust_rate r.operation v res.loaded_rate_multiplier;
  }
  adjust_target empty_rate r v res = record res {
    empty_rate_multiplier = adjust_rate r.operation v res.empty_rate_multiplier;
  }
  adjust_target empty_to_home r v res = record res {
    empty_to_home_multiplier = adjust_rate r.operation v res.empty_to_home_multiplier;
  }
  adjust_target fixed_cost r v res = record res {
    fixed_cost_multiplier = adjust_rate r.operation v res.fixed_cost_multiplier;
  }
  adjust_target max_deadhead r v res = record res {
    max_deadhead_override = if f.lt f.nought v then v else res.max_deadhead_override;
  }
  adjust_target (unknown_target s) r v res = res

  unfoldable pub ban : Operation → Rule W → RuleEvaluationResult W → RuleEvaluationResult W
  ban op_ban r res = record res {
    is_infeasible = true;
    infeasibility_reason =
        if str_eq res.infeasibility_reason ""
        then joined "banned by rule " r.id
        else res.infeasibility_reason;
  }
  ban op_add r res = res
  ban op_multiply r res = res
  ban op_override r res = res
  ban (unknown_operation s) r res = res

  -- What a rule that is matched does with the result.
  unfoldable pub apply_rule : Rule W → W → RuleEvaluationResult W → RuleEvaluationResult W
  unfolding adjust_target ban
  apply_rule r v res = ban r.operation r (
      adjust_target r.target r v
        (record res { matched_rule_ids = res.matched_rule_ids ++ (r.id ∷ []) }))

  abbrev pub apply_if : Rule W → Option W → RuleEvaluationResult W → RuleEvaluationResult W
  apply_if r none res = res
  apply_if r (some v) res = apply_rule r v res

  module _ {Ast Program : Type 0} (cel : Cel W Ast Program) where
    unfoldable pub condition_holds : CompiledRule W Program → Context W → Result RuleError Bool
    condition_holds cr ctx =
        or_error (condition_failed cr.rule.id) (cel.eval cr.condition_program ctx)
        >>= as_bool cr.rule.id

    abbrev value_or_static : Rule W → Context W → Option Program → Result RuleError W
    value_or_static r ctx none = ok r.static_value
    value_or_static r ctx (some p) =
        or_error (value_failed r.id) (cel.eval p ctx) >>= as_number r.id

    unfoldable pub value : CompiledRule W Program → Context W → Result RuleError W
    value cr ctx = value_or_static cr.rule ctx cr.value_program

    -- The value of a rule that is matched; `none` is a rule that is not.
    unfoldable pub triggered : CompiledRule W Program → Context W → Result RuleError (Option W)
    unfolding condition_holds value
    triggered cr ctx =
        condition_holds cr ctx >>= λ m. if m then (value cr ctx >>= λ v. ok (some v)) else ok none

    -- The loop over the rules.
    unfoldable pub evaluate_rules :
        Context W
        → RuleEvaluationResult W
        → List (CompiledRule W Program)
        → Result RuleError (RuleEvaluationResult W)
    unfolding triggered
    evaluate_rules ctx res [] = ok res
    evaluate_rules ctx res (cr ∷ rules) =
        triggered cr ctx >>= λ v. evaluate_rules ctx (apply_if cr.rule v res) rules

    unfoldable pub evaluate :
        Option (List (CompiledRule W Program))
        → Context W
        → Result RuleError (RuleEvaluationResult W)
    unfolding evaluate_rules
    evaluate none ctx = ok new_rule_evaluation_result
    evaluate (some rules) ctx = evaluate_rules ctx new_rule_evaluation_result rules
