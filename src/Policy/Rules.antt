-- ===== src/Policy/Rules.antt =====
-- The seven rule families, core/crates/aaf-policy/src/rules. The regular expressions of the PII and
-- injection rules are matched by a third-party crate: their tests are parameters.
mod Boundary
unfoldable pub use Boundary.{boundary_evaluate, tenant_check}
use agentic_application_fram.Base.{
  ℕ, ◌+◌, ◌%◌, ◌^◌, String, Option, none, some, Bool, true, false, not, ◌&&◌, ◌||◌, List, [], ◌∷◌,
  ltb, str_eq, any, trim, is_empty, if◌then◌else◌,
}
use agentic_application_fram.Float.{Float, zero_float, max_float}
use agentic_application_fram.Contracts.Capability.{SideEffect, is_write_class, CapabilityContract}
use agentic_application_fram.Contracts.Policy.{
  RuleKind, scope_check, side_effect_gate, budget_control, pii_guard, injection_guard,
  composition_safety, PolicySeverity, warning, error, PolicyViolation,
}
use agentic_application_fram.Policy.Context.{
  PolicyContext, Rule, PolicyHook, pre_plan, pre_step, post_step, pre_artifact,
}

abbrev pub or_else : Option String → Option String → Option String
or_else none b = b
or_else (some a) b = some a

pub record Regexes : Type 0 where
  pub email : String → Bool
  pub jp_phone : String → Bool
  pub credit_card : String → Bool
  pub injections : List (String → Bool)

module _ (F : Float) where
  -- `ctx.side_effect.or_else(|| ctx.capability.map(|c| c.side_effect))`
  unfoldable pub effect_of : PolicyContext F → Option SideEffect
  effect_of ctx = elim ctx.side_effect [
    | some se ↦ some se
    | none ↦ elim ctx.capability [ none ↦ none | some c ↦ some c.side_effect ]
  ]

  scope_violation : PolicyContext F → CapabilityContract F → Option PolicyViolation
  scope_violation ctx cap =
      let required = trim cap.required_scope in
      if is_empty required
      then none
      else if any (λ s. str_eq s required) ctx.requester.scopes
      then none
      else some (record { rule_id = "scope-check"; kind = scope_check; severity = error })

  unfoldable pub scope_evaluate : PolicyContext F → Option PolicyViolation
  unfolding scope_violation
  scope_evaluate ctx = elim ctx.capability [ none ↦ none | some cap ↦ scope_violation ctx cap ]

  abbrev pub auto_approves : PolicyContext F → Bool
  auto_approves ctx = any (λ s. str_eq s "auto-approve") ctx.requester.scopes

  gate_violation : PolicyContext F → SideEffect → Option PolicyViolation
  gate_violation ctx se =
      if not (is_write_class se)
      then none
      else if auto_approves ctx
      then none
      else some
          (record { rule_id = "side-effect-gate"; kind = side_effect_gate; severity = warning })

  unfoldable pub side_effect_evaluate : PolicyContext F → Option PolicyViolation
  unfolding effect_of gate_violation
  side_effect_evaluate ctx = elim (effect_of ctx) [ none ↦ none | some se ↦ gate_violation ctx se ]

  budget_violation : PolicySeverity → PolicyViolation
  budget_violation severity = record {
    rule_id = "budget-control";
    kind = budget_control;
    severity = severity;
  }

  -- `warn_at_pct` is the field of `BudgetControl`.
  unfoldable pub budget_evaluate : F.Carrier → PolicyContext F → Option PolicyViolation
  unfolding budget_violation
  budget_evaluate warn_at_pct ctx =
      let total = ctx.intent.budget.max_cost_usd in
      let remaining = ctx.remaining_budget.max_cost_usd in
      let pct = F.div (max_float F (F.sub total remaining) (zero_float F)) total in
      if F.le total (zero_float F)
      then none
      else if F.le remaining (zero_float F)
      then some (budget_violation error)
      else if F.le warn_at_pct pct
      then some (budget_violation warning)
      else none

  abbrev pub default_warn_pct : F.Carrier
  default_warn_pct = F.ratio 80 100

  composition_violation : ℕ → PolicyContext F → SideEffect → Option PolicyViolation
  composition_violation max_combined_writes ctx se =
      if not (is_write_class se)
      then none
      else if ltb max_combined_writes ((ctx.composed_writes + 1) % 2 ^ 32)
      then some
          (record { rule_id = "composition-safety"; kind = composition_safety; severity = warning })
      else none

  unfoldable pub composition_evaluate : ℕ → PolicyContext F → Option PolicyViolation
  unfolding effect_of composition_violation
  composition_evaluate max_combined_writes ctx = elim (effect_of ctx) [
    | none ↦ none
    | some se ↦ composition_violation max_combined_writes ctx se
  ]

  abbrev pub default_max_combined_writes : ℕ
  default_max_combined_writes = 3

  module _ (re : Regexes) where
    pii_violation : String → Option PolicyViolation
    pii_violation text =
        if re.email text || re.jp_phone text || re.credit_card text
        then some (record { rule_id = "pii-guard"; kind = pii_guard; severity = error })
        else none

    unfoldable pub pii_evaluate : PolicyContext F → Option PolicyViolation
    unfolding pii_violation
    pii_evaluate ctx = elim (or_else ctx.output ctx.payload) [
      | none ↦ none
      | some text ↦ pii_violation text
    ]

    injection_violation : String → Option PolicyViolation
    injection_violation text =
        if any (λ (matches : String → Bool). matches text) re.injections
        then some (record { rule_id = "injection-guard"; kind = injection_guard; severity = error })
        else none

    unfoldable pub injection_evaluate : PolicyContext F → Option PolicyViolation
    unfolding injection_violation
    injection_evaluate ctx = elim ctx.payload [ none ↦ none | some text ↦ injection_violation text ]

  -- The rules with their ids and hooks; the rest fire at every hook.
  abbrev pub scope_rule : Rule F
  scope_rule = record { id = "scope-check"; applicable_hooks = none; evaluate = scope_evaluate }

  abbrev pub side_effect_rule : Rule F
  side_effect_rule = record {
    id = "side-effect-gate";
    applicable_hooks = none;
    evaluate = side_effect_evaluate;
  }

  abbrev pub budget_rule : F.Carrier → Rule F
  budget_rule warn_at_pct = record {
    id = "budget-control";
    applicable_hooks = none;
    evaluate = budget_evaluate warn_at_pct;
  }

  abbrev pub composition_rule : ℕ → Rule F
  composition_rule max_combined_writes = record {
    id = "composition-safety";
    applicable_hooks = none;
    evaluate = composition_evaluate max_combined_writes;
  }

  abbrev pub boundary_rule : Rule F
  boundary_rule = record {
    id = "tenant-boundary";
    applicable_hooks = none;
    evaluate = boundary_evaluate F;
  }

  abbrev pub pii_rule : Regexes → Rule F
  pii_rule re = record {
    id = "pii-guard";
    applicable_hooks = some (post_step ∷ pre_artifact ∷ []);
    evaluate = pii_evaluate re;
  }

  abbrev pub injection_rule : Regexes → Rule F
  injection_rule re = record {
    id = "injection-guard";
    applicable_hooks = some (pre_plan ∷ pre_step ∷ []);
    evaluate = injection_evaluate re;
  }
