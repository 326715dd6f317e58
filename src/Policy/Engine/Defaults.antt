-- ===== src/Policy/Engine/Defaults.antt =====
-- The engine of core/crates/aaf-policy/src/engine.rs with its default rules, at every hook.
use agentic_application_fram.Base.{
  ◌≡◌, ◌⊎◌, inl, inr, String, some, true, false, arith, str_eq, any, trim, is_empty,
}
use agentic_application_fram.Float.{Float, zero_float}
use agentic_application_fram.Contracts.Capability.{SideEffect, is_write_class, CapabilityContract}
use agentic_application_fram.Contracts.Policy.{is_allowed}
use agentic_application_fram.Policy.Context.{PolicyHook, PolicyContext}
use agentic_application_fram.Policy.Rules.{
  Regexes, effect_of, auto_approves, scope_evaluate, side_effect_evaluate, budget_evaluate,
  boundary_evaluate, scope_rule, side_effect_rule, budget_rule, boundary_rule, default_warn_pct,
}
use agentic_application_fram.Policy.Engine.{applies, evaluate, with_default_rules}
use agentic_application_fram.Policy.Engine.Decision.{
  strictness, raises, blocks, gates, strictness-evaluate,
}

module _ (F : Float) (re : Regexes) (hook : PolicyHook) (ctx : PolicyContext F) where
  gate_raises :
      (se : SideEffect)
      → effect_of F ctx ≡ some se
      → is_write_class se ≡ true
      → auto_approves F ctx ≡ false
      → raises F hook ctx gates (side_effect_rule F) ≡ true
  unfolding raises applies side_effect_evaluate
  gate_raises se e w a = ground arith

  -- A write, delete, send or payment is never allowed by the default engine, at any hook, unless the
  -- requester carries the auto-approve scope: the decision is a denial or asks for approval.
  pub writes_need_approval :
      (se : SideEffect)
      → effect_of F ctx ≡ some se
      → is_write_class se ≡ true
      → auto_approves F ctx ≡ false
      → is_allowed (evaluate F (with_default_rules F re) hook ctx) ≡ false
  unfolding with_default_rules any is_allowed
  writes_need_approval se e w a =
      ground (arith, gate_raises se e w a, strictness-evaluate F hook ctx (with_default_rules F re))

  -- The active tenant is not the requester's.
  pub record ForeignTenant : Type 0 where
    pub active : String
    pub own : String
    pub is_active : ctx.tenant ≡ some active
    pub is_own : ctx.requester.tenant ≡ some own
    pub differ : str_eq active own ≡ false

  -- There was a cost budget, and nothing of it is left.
  pub record BudgetSpent : Type 0 where
    pub had : F.le ctx.intent.budget.max_cost_usd (zero_float F) ≡ false
    pub spent : F.le ctx.remaining_budget.max_cost_usd (zero_float F) ≡ true

  -- The capability requires a scope that the requester lacks.
  pub record ScopeMissing : Type 0 where
    pub capability : CapabilityContract F
    pub invoked : ctx.capability ≡ some capability
    pub required : is_empty (trim capability.required_scope) ≡ false
    pub missing : any (λ s. str_eq s (trim capability.required_scope)) ctx.requester.scopes ≡ false

  tenant_raises : ForeignTenant → raises F hook ctx blocks (boundary_rule F) ≡ true
  unfolding raises applies boundary_evaluate
  tenant_raises h = ground arith

  budget_raises : BudgetSpent → raises F hook ctx blocks (budget_rule F (default_warn_pct F)) ≡ true
  unfolding raises applies budget_evaluate
  budget_raises h = ground arith

  scope_raises : ScopeMissing → raises F hook ctx blocks (scope_rule F) ≡ true
  unfolding raises applies scope_evaluate
  scope_raises h = ground arith

  abbrev pub Forbidden : Type 0
  Forbidden = ForeignTenant ⊎ BudgetSpent ⊎ ScopeMissing

  -- The default engine denies at every hook a request of a foreign tenant, a request whose cost
  -- budget is spent, and the use of a capability whose required scope the requester lacks.
  pub defaults_deny : Forbidden → strictness (evaluate F (with_default_rules F re) hook ctx) ≡ 3
  unfolding with_default_rules any
  defaults_deny (inl h) =
      ground (arith, tenant_raises h, strictness-evaluate F hook ctx (with_default_rules F re))
  defaults_deny (inr (inl h)) =
      ground (arith, budget_raises h, strictness-evaluate F hook ctx (with_default_rules F re))
  defaults_deny (inr (inr h)) =
      ground (arith, scope_raises h, strictness-evaluate F hook ctx (with_default_rules F re))
