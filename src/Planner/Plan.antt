-- ===== src/Planner/Plan.antt =====
-- core/crates/aaf-planner/src/plan.rs, bounds.rs and router.rs: the shape of a plan, its bounds, and
-- the choice of a communication pattern.
use agentic_application_fram.Base.{
  ℕ, ◌%◌, ◌^◌, ◌≤◌, ◌≡◌, String, Option, none, some, Bool, false, List, length, ltb, leb, arith,
  if◌then◌else◌,
}
use agentic_application_fram.Float.{Float}
use agentic_application_fram.Contracts.Intent.{
  IntentEnvelope, IntentType, transactional_intent, analytical_intent, delegation_intent,
  planning_intent, governance_intent,
}

pub data PlannedStepKind : Type 0 where
  deterministic agent approval fork : PlannedStepKind

pub record PlannedStep : Type 0 where
  pub step_id : ℕ  -- u32
  pub kind : PlannedStepKind
  pub capability : String
  pub input_mapping : String
  pub output_id : String

pub record ExecutionPlan : Type 0 where
  pub intent_id : String
  pub steps : List PlannedStep

pub data CommunicationPattern : Type 0 where
  fast_path agent_assisted full_agentic agentic_choreography : CommunicationPattern

module _ (F : Float) where
  pub record BoundedAutonomy : Type 0 where
    pub max_steps : ℕ  -- u32
    pub max_depth : ℕ  -- u32
    pub max_cost_usd : F.Carrier
    pub max_latency_ms : ℕ  -- u64

  abbrev pub default_bounds : BoundedAutonomy
  default_bounds = record {
    max_steps = 10;
    max_depth = 5;
    max_cost_usd = F.ratio 1 1;
    max_latency_ms = 300000;
  }

  pub data BoundsViolation : Type 0 where
    too_many_steps : ℕ → ℕ → BoundsViolation
    depth_exceeded : ℕ → ℕ → BoundsViolation
    budget_exceeded : F.Carrier → F.Carrier → BoundsViolation
    latency_exceeded : ℕ → ℕ → BoundsViolation

  -- `BoundedAutonomy::validate`; `none` is `Ok(())`.
  unfoldable pub validate :
      BoundedAutonomy → IntentEnvelope F → ExecutionPlan → Option BoundsViolation
  validate b i p =
      if ltb b.max_steps (length p.steps % 2 ^ 32)
      then some (too_many_steps (length p.steps % 2 ^ 32) b.max_steps)
      else if ltb b.max_depth i.depth
      then some (depth_exceeded i.depth b.max_depth)
      else if F.lt b.max_cost_usd i.budget.max_cost_usd
      then some (budget_exceeded i.budget.max_cost_usd b.max_cost_usd)
      else if ltb b.max_latency_ms i.budget.max_latency_ms
      then some (latency_exceeded i.budget.max_latency_ms b.max_latency_ms)
      else none

  -- What an accepted plan keeps to.
  pub record InBounds (b : BoundedAutonomy) (i : IntentEnvelope F) (p : ExecutionPlan)
      : Type 0 where
    pub steps : length p.steps % 2 ^ 32 ≤ b.max_steps
    pub depth : i.depth ≤ b.max_depth
    pub cost : F.lt b.max_cost_usd i.budget.max_cost_usd ≡ false
    pub latency : i.budget.max_latency_ms ≤ b.max_latency_ms

  pub validate-InBounds :
      (b : BoundedAutonomy) (i : IntentEnvelope F) (p : ExecutionPlan)
      → validate b i p ≡ none
      → InBounds b i p
  unfolding validate
  validate-InBounds b i p h = record {
    steps = ground arith;
    depth = ground arith;
    cost = ground arith;
    latency = ground arith;
  }

  -- `Router::classify`
  unfoldable pub classify_type : IntentType → ℕ → CommunicationPattern
  classify_type delegation_intent n = agentic_choreography
  classify_type analytical_intent n = if leb n 1 then agent_assisted else full_agentic
  classify_type transactional_intent n = if leb n 1 then agent_assisted else full_agentic
  classify_type planning_intent n = full_agentic
  classify_type governance_intent n = full_agentic

  unfoldable pub classify : IntentEnvelope F → Bool → ℕ → CommunicationPattern
  unfolding classify_type
  classify i fast_path_matched capability_count =
      if fast_path_matched then fast_path else classify_type i.intent_type capability_count
