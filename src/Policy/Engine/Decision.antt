-- ===== src/Policy/Engine/Decision.antt =====
-- The decision of an engine of core/crates/aaf-policy/src/engine.rs by the violations of its rules.
use agentic_application_fram.Base.{
  ℕ, ◌≤◌, ◌≡◌, refl, none, some, Bool, true, false, ◌||◌, ◌&&◌, List, [], ◌∷◌, ◌++◌, arith, any,
  if◌then◌else◌,
}
use agentic_application_fram.Float.{Float}
use agentic_application_fram.Contracts.Policy.{
  PolicyViolation, PolicyDecision, allow, allow_with_warnings, require_approval, deny,
}
use agentic_application_fram.Policy.Context.{PolicyHook, PolicyContext, Rule}
use agentic_application_fram.Policy.Engine.{
  applies, max_severity, is_blocking, is_gate, decide, PolicyEngine, add_rule, collect, evaluate,
}

abbrev pub blocks : PolicyViolation → Bool
blocks v = is_blocking v.severity

abbrev pub gates : PolicyViolation → Bool
gates v = is_gate v.kind

abbrev pub is_none_found : List PolicyViolation → Bool
is_none_found [] = true
is_none_found (_ ∷ _) = false

-- The documented ladder.
pub ladder : List PolicyViolation → PolicyDecision
ladder vs =
    if is_none_found vs
    then allow
    else if any blocks vs
    then deny vs
    else if any gates vs
    then require_approval vs
    else allow_with_warnings vs

max_severity-is_blocking :
    (vs : List PolicyViolation) → is_blocking (max_severity vs) ≡ any blocks vs
unfolding max_severity any
max_severity-is_blocking [] = refl
max_severity-is_blocking (v ∷ []) = ground arith
max_severity-is_blocking (v ∷ w ∷ vs) = ground (arith, max_severity-is_blocking (w ∷ vs))

-- The decision is the documented ladder over the violations of the rules that apply at the hook:
-- none allows, any Error or Fatal denies, any violation of the side-effect gate asks for approval,
-- and the rest allow with warnings.
pub decide-eq-ladder : (vs : List PolicyViolation) → decide vs ≡ ladder vs
unfolding decide ladder
decide-eq-ladder [] = refl
decide-eq-ladder (v ∷ vs) = ground (arith, max_severity-is_blocking (v ∷ vs))

-- How strict a decision is.
abbrev pub strictness : PolicyDecision → ℕ
strictness allow = 0
strictness (allow_with_warnings _) = 1
strictness (require_approval _) = 2
strictness (deny _) = 3

any-push_last {ℓ} :
    {A : Type ℓ} (p : A → Bool) (xs : List A) (x : A) → any p (xs ++ x ∷ []) ≡ (any p xs || p x)
unfolding any
any-push_last p [] x = ground arith
any-push_last p (y ∷ xs) x = ground (arith, any-push_last p xs x)

strictness-decide :
    (vs : List PolicyViolation)
    → strictness (decide vs) ≡ (
        if any blocks vs
        then 3
        else if any gates vs
        then 2
        else if any (λ v. true) vs
        then 1
        else 0)
unfolding any ladder
strictness-decide [] = rw (decide-eq-ladder []) (ground arith)
strictness-decide (v ∷ vs) = rw (decide-eq-ladder (v ∷ vs)) (ground arith)

module _ (F : Float) (hook : PolicyHook) (ctx : PolicyContext F) where
  -- The rule applies at the hook and finds a violation of this kind.
  unfoldable pub raises : (PolicyViolation → Bool) → Rule F → Bool
  raises p rule =
      applies hook rule.applicable_hooks && elim (rule.evaluate ctx) [ none ↦ false | some v ↦ p v ]

  any-collect :
      (p : PolicyViolation → Bool) (engine : PolicyEngine F)
      → any p (collect F hook ctx engine) ≡ any (raises p) engine
  unfolding collect any raises
  any-collect p [] = refl
  any-collect p (rule ∷ engine) = ground (arith, any-collect p engine)

  -- The strictness of a decision depends only on which violations some rule of the engine raises at
  -- the hook: 3 (deny) for an Error or a Fatal, else 2 (approval)
  -- for the side-effect gate, else 1 (warnings) for any, else 0 (allow).
  pub strictness-evaluate :
      (engine : PolicyEngine F)
      → strictness (evaluate F engine hook ctx) ≡ (
          if any (raises blocks) engine
          then 3
          else if any (raises gates) engine
          then 2
          else if any (raises (λ v. true)) engine
          then 1
          else 0)
  unfolding evaluate
  strictness-evaluate engine =
      rw (← any-collect blocks engine, ← any-collect gates engine, ← any-collect (λ v. true) engine)
        (strictness-decide (collect F hook ctx engine))

  -- One more rule never makes the decision less strict.
  pub add_rule-stricter :
      (rule : Rule F) (engine : PolicyEngine F)
      → strictness (evaluate F engine hook ctx)
        ≤ strictness (evaluate F (add_rule F rule engine) hook ctx)
  add_rule-stricter rule engine = ground (
    arith,
    strictness-evaluate engine,
    strictness-evaluate (add_rule F rule engine),
    any-push_last (raises blocks) engine rule,
    any-push_last (raises gates) engine rule,
    any-push_last (raises (λ v. true)) engine rule,
  )
