-- ===== src/Policy/Engine.antt =====
-- core/crates/aaf-policy/src/engine.rs: the rules together. The proofs are in the children.
pub mod Decision
pub mod Defaults
use agentic_application_fram.Base.{
  ℕ, Option, none, some, Bool, true, false, List, [], ◌∷◌, ◌++◌, ltb, leb, ◌==◌, any, if◌then◌else◌,
}
use agentic_application_fram.Float.{Float}
use agentic_application_fram.Contracts.Policy.{
  PolicySeverity, info, error, fatal, rank, RuleKind, side_effect_gate, PolicyViolation,
  PolicyDecision, allow, allow_with_warnings, require_approval, deny,
}
use agentic_application_fram.Policy.Context.{
  PolicyHook, pre_plan, pre_step, post_step, pre_artifact, PolicyContext, Rule,
}
use agentic_application_fram.Policy.Rules.{
  Regexes, scope_rule, side_effect_rule, budget_rule, default_warn_pct, pii_rule, injection_rule,
  composition_rule, default_max_combined_writes, boundary_rule,
}

abbrev hook_number : PolicyHook → ℕ
hook_number pre_plan = 0
hook_number pre_step = 1
hook_number post_step = 2
hook_number pre_artifact = 3

-- Whether the rule is not skipped at the hook.
unfoldable pub applies : PolicyHook → Option (List PolicyHook) → Bool
applies hook none = true
applies hook (some hooks) = any (λ h. hook_number h == hook_number hook) hooks

abbrev pub push : Option PolicyViolation → List PolicyViolation → List PolicyViolation
push none rest = rest
push (some v) rest = v ∷ rest

abbrev pub larger : PolicySeverity → PolicySeverity → PolicySeverity
larger a b = if leb (rank a) (rank b) then b else a

-- `iter().map(..).max().unwrap_or(Info)`
unfoldable pub max_severity : List PolicyViolation → PolicySeverity
max_severity [] = info
max_severity (v ∷ []) = v.severity
max_severity (v ∷ w ∷ vs) = larger v.severity (max_severity (w ∷ vs))

abbrev pub is_blocking : PolicySeverity → Bool
is_blocking error = true
is_blocking fatal = true
is_blocking _ = false

abbrev pub is_gate : RuleKind → Bool
is_gate side_effect_gate = true
is_gate _ = false

-- The decision on the violations that the loop has found.
unfoldable pub decide : List PolicyViolation → PolicyDecision
unfolding max_severity
decide [] = allow
decide (v ∷ vs) =
    if is_blocking (max_severity (v ∷ vs))
    then deny (v ∷ vs)
    else if any (λ (x : PolicyViolation). is_gate x.kind) (v ∷ vs)
    then require_approval (v ∷ vs)
    else allow_with_warnings (v ∷ vs)

module _ (F : Float) where
  abbrev pub PolicyEngine : Type 0
  PolicyEngine = List (Rule F)

  abbrev pub empty : PolicyEngine
  empty = []

  -- `warn_at_pct` and `max_combined_writes` have their defaults.
  unfoldable pub with_default_rules : Regexes → PolicyEngine
  with_default_rules re =
      scope_rule F
      ∷ side_effect_rule F
      ∷ budget_rule F (default_warn_pct F)
      ∷ pii_rule F re
      ∷ injection_rule F re
      ∷ composition_rule F (default_max_combined_writes F)
      ∷ boundary_rule F
      ∷ []

  abbrev pub add_rule : Rule F → PolicyEngine → PolicyEngine
  add_rule rule engine = engine ++ rule ∷ []

  -- The loop over the rules.
  unfoldable pub collect : PolicyHook → PolicyContext F → PolicyEngine → List PolicyViolation
  unfolding applies
  collect hook ctx [] = []
  collect hook ctx (rule ∷ rules) =
      let rest = collect hook ctx rules in
      let pushed = push (rule.evaluate ctx) rest in
      if applies hook rule.applicable_hooks then pushed else rest

  unfoldable pub evaluate : PolicyEngine → PolicyHook → PolicyContext F → PolicyDecision
  unfolding collect decide
  evaluate engine hook ctx = decide (collect hook ctx engine)
