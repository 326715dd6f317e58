-- ===== src/Contracts/Policy.antt =====
-- core/crates/aaf-contracts/src/policy.rs: violations and decisions.
use agentic_application_fram.Base.{ℕ, String, List, Bool, true, false}

pub data PolicySeverity : Type 0 where
  info warning error fatal : PolicySeverity

-- The derived order of the severities, by rank.
abbrev pub rank : PolicySeverity → ℕ
rank info = 0
rank warning = 1
rank error = 2
rank fatal = 3

pub data RuleKind : Type 0 where
  scope_check side_effect_gate budget_control pii_guard injection_guard : RuleKind
  composition_safety boundary_enforcement : RuleKind

-- The text of a message is not modelled: nothing reads it.
pub record PolicyViolation : Type 0 where
  pub rule_id : String
  pub kind : RuleKind
  pub severity : PolicySeverity

pub data PolicyDecision : Type 0 where
  allow : PolicyDecision
  allow_with_warnings require_approval deny : List PolicyViolation → PolicyDecision

unfoldable pub is_allowed : PolicyDecision → Bool
is_allowed allow = true
is_allowed (allow_with_warnings _) = true
is_allowed (require_approval _) = false
is_allowed (deny _) = false
