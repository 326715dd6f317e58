-- ===== src/Runtime/Node.antt =====
-- core/crates/aaf-runtime/src/node/mod.rs, error.rs and compensation.rs. A node acts on a world `W`,
-- which stands for all that it may read and change. An output is kept as its serialised text.
pub mod Rollback
use agentic_application_fram.Base.{ℕ, String, Option, List, [], ◌∷◌, Assoc, insert}
use agentic_application_fram.Float.{Float}
use agentic_application_fram.Contracts.Capability.{SideEffect}
use agentic_application_fram.Contracts.Intent.{IntentEnvelope}
use agentic_application_fram.Contracts.Policy.{PolicyViolation}

pub data NodeKind : Type 0 where
  deterministic agent approval fork event_wait : NodeKind

-- `format!("{:?}", kind)`
abbrev pub kind_name : NodeKind → String
kind_name deterministic = "Deterministic"
kind_name agent = "Agent"
kind_name approval = "Approval"
kind_name fork = "Fork"
kind_name event_wait = "EventWait"

-- `other` stands for the errors that the executor only passes on: a step timeout, a budget, graph
-- or storage error.
pub data RuntimeError : Type 0 where
  policy_violation : List PolicyViolation → RuntimeError
  compensation_failed : String → RuntimeError → RuntimeError
  node_failure : String → RuntimeError
  revoked : String → RuntimeError
  other : String → RuntimeError

module _ (F : Float) where
  pub record NodeOutput : Type 0 where
    pub contents : String
    pub tokens : ℕ  -- u64
    pub cost_usd : F.Carrier
    pub duration_ms : ℕ  -- u64
    pub model : Option String

  pub data NodeResult : Type 0 where
    ok : NodeOutput → NodeResult
    err : RuntimeError → NodeResult

  module _ (W : Type 0) where
    pub record Node : Type 0 where
      pub id : String
      pub kind : NodeKind
      pub side_effect : SideEffect
      pub run : IntentEnvelope F → Assoc NodeOutput → W → NodeResult × W

    -- `CompensationChain`. The vector is kept with its last element first.
    abbrev pub CompensationChain : Type 0
    CompensationChain = List (String × Node)

    abbrev pub push : String → Node → CompensationChain → CompensationChain
    push for_step compensator chain = (for_step, compensator) ∷ chain

    -- `Result<Vec<NodeOutput>, RuntimeError>`
    pub data Compensated : Type 0 where
      all : List NodeOutput → Compensated
      failed : RuntimeError → Compensated

    -- What `rollback` does with the result of one compensator; `rest` is the rest of the loop.
    after_compensator :
        (Assoc NodeOutput → List NodeOutput → W → CompensationChain × Compensated × W)
        → CompensationChain
        → String
        → Assoc NodeOutput
        → List NodeOutput
        → NodeResult
        → W
        → CompensationChain × Compensated × W
    after_compensator rest chain id prior outs (ok o) w = rest (insert id o prior) (o ∷ outs) w
    after_compensator rest chain id prior outs (err e) w =
        (chain, failed (compensation_failed id e), w)

    -- The `while let` loop: the chain that is left, the result and the world. `out` is kept with its
    -- last element first.
    pub rollback_from :
        IntentEnvelope F
        → CompensationChain
        → Assoc NodeOutput
        → List NodeOutput
        → W
        → CompensationChain × Compensated × W
    unfolding after_compensator
    rollback_from intent [] prior outs w = ([], all outs, w)
    rollback_from intent ((id, comp) ∷ chain) prior outs w =
        let (r, w') = comp.run intent prior w in
        after_compensator (rollback_from intent chain) chain id prior outs r w'

    unfoldable pub rollback :
        IntentEnvelope F → CompensationChain → W → CompensationChain × Compensated × W
    unfolding rollback_from
    rollback intent chain w = rollback_from intent chain [] [] w
