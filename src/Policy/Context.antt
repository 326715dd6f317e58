-- ===== src/Policy/Context.antt =====
-- core/crates/aaf-policy/src/context.rs, the hooks of engine.rs and the rule interface of
-- rules/mod.rs.
use agentic_application_fram.Base.{ℕ, String, Option, List}
use agentic_application_fram.Float.{Float}
use agentic_application_fram.Contracts.Capability.{SideEffect, CapabilityContract}
use agentic_application_fram.Contracts.Intent.{Requester, BudgetContract, IntentEnvelope}
use agentic_application_fram.Contracts.Policy.{PolicyViolation}

pub data EntityClass : Type 0 where
  public internal pii : EntityClass
  regulated : String → EntityClass

unfoldable pub level : EntityClass → ℕ
level public = 0
level internal = 1
level pii = 2
level (regulated _) = 3

pub data PolicyHook : Type 0 where
  pre_plan pre_step post_step pre_artifact : PolicyHook

module _ (F : Float) where
  pub record PolicyContext : Type 0 where
    pub intent : IntentEnvelope F
    pub capability : Option (CapabilityContract F)
    pub requester : Requester
    pub payload : Option String
    pub output : Option String
    pub side_effect : Option SideEffect
    pub remaining_budget : BudgetContract F
    pub tenant : Option String
    pub composed_writes : ℕ  -- u32
    pub ontology_class_lookup : Option (String → Option EntityClass)

  pub record Rule : Type 0 where
    pub id : String
    pub applicable_hooks : Option (List PolicyHook)
    pub evaluate : PolicyContext → Option PolicyViolation
