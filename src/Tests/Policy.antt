-- ===== src/Tests/Policy.antt =====
-- Runs of core/crates/aaf-policy: the default engine on a refund and on a foreign tenant.
use agentic_application_fram.Base.{
  arith, retain, ◌≡◌, refl, inl, none, some, true, false, List, [], ◌∷◌, any, if◌then◌else◌,
}
use agentic_application_fram.Contracts.Capability.{SideEffect}
use agentic_application_fram.Contracts.Policy.{
  PolicyViolation, warning, error, side_effect_gate, boundary_enforcement, is_allowed,
}
use agentic_application_fram.Policy.Context.{pre_plan, pre_step, PolicyContext}
use agentic_application_fram.Policy.Approval.{
  opening, resolving, Call, perform_all, replay, state_of, perform_all-refines-replay,
}
use agentic_application_fram.Contracts.Trust.{level2}
use agentic_application_fram.Policy.Scope.{
  Scope, bytes, same, strip_prefix, strip_suffix, scope_matches, autonomy_ceiling, before,
  insert_sorted, collect, after_intent, compute_effective_scopes,
}
use agentic_application_fram.Policy.Scope.Effective.{Effective, compute_effective_scopes-literal}
use agentic_application_fram.Policy.Rules.{Regexes, effect_of}
use agentic_application_fram.Policy.Engine.{PolicyEngine, with_default_rules, evaluate}
use agentic_application_fram.Policy.Engine.Decision.{
  blocks, gates, strictness, raises, strictness-evaluate,
}
use agentic_application_fram.Policy.Engine.Defaults.{writes_need_approval, defaults_deny}
use agentic_application_fram.Tests.Samples.{thousandths, sample_budget, alice, sample_intent}

abbrev no_matches : Regexes
no_matches = record {
  email = λ s. false;
  jp_phone = λ s. false;
  credit_card = λ s. false;
  injections = [];
}

abbrev refund : PolicyContext thousandths
refund = record {
  intent = sample_intent;
  capability = none;
  requester = alice;
  payload = some "refund order 17";
  output = none;
  side_effect = some SideEffect.payment;
  remaining_budget = sample_budget;
  tenant = some "acme";
  composed_writes = 0;
  ontology_class_lookup = none;
}

abbrev two_violations : List PolicyViolation
two_violations =
    record { rule_id = "side-effect-gate"; kind = side_effect_gate; severity = warning }
    ∷ record { rule_id = "boundary"; kind = boundary_enforcement; severity = error }
    ∷ []

abbrev engine : PolicyEngine thousandths
engine = with_default_rules thousandths no_matches

strictness-evaluate_example : strictness (evaluate thousandths engine pre_step refund) ≡ (
    if any (raises thousandths pre_step refund blocks) engine
    then 3
    else if any (raises thousandths pre_step refund gates) engine
    then 2
    else if any (raises thousandths pre_step refund (λ v. true)) engine
    then 1
    else 0)
strictness-evaluate_example = strictness-evaluate thousandths pre_step refund engine

writes_need_approval_example : is_allowed (evaluate thousandths engine pre_step refund) ≡ false
unfolding effect_of any
writes_need_approval_example =
    writes_need_approval thousandths no_matches pre_step refund SideEffect.payment refl refl refl

abbrev foreign : PolicyContext thousandths
foreign = record refund { tenant = some "rival" }

defaults_deny_example : strictness (evaluate thousandths engine pre_plan foreign) ≡ 3
defaults_deny_example = defaults_deny thousandths no_matches pre_plan foreign (
    inl (record { active = "rival"; own = "acme"; is_active = refl; is_own = refl; differ = refl }))

abbrev review_calls : List Call
review_calls =
    opening 10 "int-1" "a refund" []
    ∷ resolving 20 "appr-int-1" false
    ∷ resolving 30 "appr-int-1" true
    ∷ []

perform_all-refines-replay_example :
    state_of "appr-int-1" (perform_all review_calls [])
    ≡ replay "appr-int-1" review_calls (state_of "appr-int-1" [])
perform_all-refines-replay_example = perform_all-refines-replay "appr-int-1" review_calls []

abbrev user_scopes : List Scope
user_scopes = bytes "orders:*" ∷ bytes "stock:read" ∷ []

abbrev intent_scopes : List Scope
intent_scopes = bytes "orders:read" ∷ bytes "orders:write" ∷ []

compute_effective_scopes-literal_example :
    any (λ c. same c (bytes "*:read")) (autonomy_ceiling level2) ≡ true
unfolding compute_effective_scopes after_intent collect insert_sorted before same any retain
    scope_matches strip_prefix strip_suffix autonomy_ceiling
compute_effective_scopes-literal_example =
    compute_effective_scopes-literal (bytes "*" ∷ []) (bytes "*:read" ∷ []) level2 (bytes "*:read")
      (ground arith) refl
