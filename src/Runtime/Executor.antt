-- ===== src/Runtime/Executor.antt =====
-- core/crates/aaf-runtime/src/executor.rs: the run of a validated graph.
pub mod Shadow
pub mod Loop
pub mod Completed
pub mod Validated
use Prim.Native.String.{◌++◌ as str_append}
use agentic_application_fram.Base.{
  ℕ, ◌+◌, ◌-◌, ◌/◌, ◌%◌, ◌^◌, String, Option, none, some, Bool, true, false, ◌&&◌, List, [], ◌∷◌,
  ◌++◌, min, starts_with, Assoc, lookup, insert, if◌then◌else◌,
}
use agentic_application_fram.Float.{Float, zero_float}
use agentic_application_fram.Contracts.Capability.{SideEffect, is_write_class}
use agentic_application_fram.Contracts.Intent.{IntentEnvelope, BudgetContract}
use agentic_application_fram.Contracts.Policy.{
  PolicyDecision, allow, allow_with_warnings, require_approval, deny,
}
use agentic_application_fram.Policy.Context.{
  PolicyHook, pre_plan, pre_step, post_step, pre_artifact, PolicyContext,
}
use agentic_application_fram.Policy.Engine.{PolicyEngine, evaluate}
use agentic_application_fram.Runtime.Budget.{BudgetTrackerError, BudgetState, charge, remaining}
use agentic_application_fram.Runtime.Graph.{Graph}
use agentic_application_fram.Runtime.Node.{
  NodeKind, kind_name, RuntimeError, policy_violation, node_failure, revoked, NodeOutput,
  NodeResult, ok, err, Node, CompensationChain, push, Compensated, all, failed, rollback,
}

pub data TraceStatus : Type 0 where
  completed_trace partial_trace failed_trace : TraceStatus

module _ (F : Float) (W : Type 0) where
  pub data ExecutionOutcome : Type 0 where
    completed : Assoc (NodeOutput F) → ℕ → ExecutionOutcome
    partial : Assoc (NodeOutput F) → ℕ → BudgetTrackerError F → ExecutionOutcome
    pending_approval : Assoc (NodeOutput F) → ℕ → PolicyDecision → ExecutionOutcome
    rolled_back : ℕ → String → List String → ExecutionOutcome

  -- `Result<ExecutionOutcome, RuntimeError>`
  pub data Exit : Type 0 where
    returned : ExecutionOutcome → Exit
    raised : RuntimeError → Exit

  pub record Observation : Type 0 where
    pub trace_id : String
    pub node_id : String
    pub step : ℕ
    pub reasoning : String
    pub outcome_tokens : ℕ  -- u32
    pub cost_usd : F.Carrier
    pub duration_ms : ℕ
    pub tokens_in : ℕ
    pub tokens_out : ℕ
    pub model : Option String

  -- The executor, with the trait objects that it calls: the recorder, whose calls fail with a
  -- message, the revocation registry, the clock and the texts that are formatted.
  pub record GraphExecutor : Type 0 where
    pub policy : PolicyEngine F
    pub shadow : Bool
    pub open_trace : String → String → W → Option String × W
    pub close_trace : String → TraceStatus → W → Option String × W
    pub record_observation : Observation → W → Option String × W
    pub revoked_did : Option (String → W → Bool × W)
    pub elapsed_ms : W → W → ℕ
    pub marker : String → SideEffect → String
    pub display : RuntimeError → String

  -- The variables of the loop, the budget tracker and the world.
  pub record RunState : Type 0 where
    pub outputs : Assoc (NodeOutput F)
    pub step : ℕ  -- u32
    pub composed_writes : ℕ  -- u32
    pub chain : CompensationChain F W
    pub targets : List String
    pub budget : BudgetState F
    pub world : W

  module _ (x : GraphExecutor) (intent : IntentEnvelope F) where
    unfoldable pub context :
        Option String → Option String → Option SideEffect → RunState → PolicyContext F
    context payload output side_effect s = record {
      intent = intent;
      capability = none;
      requester = intent.requester;
      payload = payload;
      output = output;
      side_effect = side_effect;
      remaining_budget = remaining F s.budget;
      tenant = intent.requester.tenant;
      composed_writes = s.composed_writes;
      ontology_class_lookup = none;
    }

    -- How a call of the recorder that failed ends the run: `map_err(..)?`.
    unfoldable pub or_fail : Option String → Exit → Exit
    or_fail none e = e
    or_fail (some message) e = raised (node_failure message)

    -- `self.close_trace(..).await?; return e`
    unfoldable pub closing : TraceStatus → Exit → RunState → Exit × RunState
    closing status e s =
        let (problem, w) = x.close_trace intent.trace_id status s.world in
        (or_fail problem e, record s { world = w })

    -- The `match` on a decision: `reviewed` are the outputs that a reviewer gets, `next` goes on.
    unfoldable pub gate :
        PolicyDecision
        → Assoc (NodeOutput F)
        → (RunState → Exit × RunState)
        → RunState
        → Exit × RunState
    gate allow reviewed next s = next s
    gate (allow_with_warnings _) reviewed next s = next s
    gate (require_approval vs) reviewed next s =
        closing partial_trace (returned (pending_approval reviewed s.step (require_approval vs))) s
    gate (deny vs) reviewed next s = closing failed_trace (raised (policy_violation vs)) s

    -- `self.rollback(..)`: the compensated steps, or the error of a compensator.
    after_rollback : RuntimeError → Compensated F W → RunState → Exit × RunState
    after_rollback e (failed ce) s = (raised ce, s)
    after_rollback e (all _) s =
        closing failed_trace
          (elim s.targets [
            | [] ↦ raised e
            | t ∷ ts ↦ returned (rolled_back s.step (x.display e) (t ∷ ts))
          ])
          s

    -- A node that fails: roll back what was done, close the trace and surface the failure.
    pub on_node_error : RuntimeError → RunState → Exit × RunState
    on_node_error e s =
        let (chain, result, w) = rollback F W intent s.chain s.world in
        let s' = record s { chain = chain; world = w } in
        elim s.chain [ [] ↦ closing failed_trace (raised e) s | _ ∷ _ ↦ after_rollback e result s' ]

    -- The end of the loop's body: a write-class step queues its compensator, if it has one.
    unfoldable pub queue : String → Option (Node F W) → RunState → RunState
    queue id none s = s
    queue id (some comp) s = record s {
      chain = push F W id comp s.chain;
      targets = s.targets ++ id ∷ [];
    }

    unfoldable pub finish_step :
        Assoc (Node F W) → String → SideEffect → NodeOutput F → RunState → RunState
    finish_step comps id effect output s =
        let counted = record s { composed_writes = (s.composed_writes + 1) % 2 ^ 32 } in
        let s' = (if is_write_class effect then queue id (lookup id comps) counted else s) in
        record s' { outputs = insert id output s'.outputs }

    -- The constant fields are left out: the agent, the decision, the confidence and the outcome.
    abbrev pub observation : String → NodeKind → NodeOutput F → RunState → Observation
    observation id kind output s = record {
      trace_id = intent.trace_id;
      node_id = id;
      step = s.step;
      reasoning = str_append "ran node " (str_append id (str_append " of kind " (kind_name kind)));
      outcome_tokens = min output.tokens (2 ^ 32 - 1);
      cost_usd = output.cost_usd;
      duration_ms = output.duration_ms;
      tokens_in = output.tokens / 2;
      tokens_out = output.tokens - output.tokens / 2;
      model = output.model;
    }

    abbrev pub Continue : Type 0
    Continue = RunState → Exit × RunState

    -- A recorder that fails ends the run with the trace still open.
    unfoldable pub or_stop : Option String → Continue → Continue
    or_stop none next s = next s
    or_stop (some message) next s = (raised (node_failure message), s)

    unfoldable pub record_step :
        Assoc (Node F W) → String → NodeKind → SideEffect → NodeOutput F → Continue → Continue
    record_step comps id kind effect output next s =
        let (problem, w) = x.record_observation (observation id kind output s) s.world in
        or_stop problem (λ s'. next (finish_step comps id effect output s'))
          (record s { world = w })

    -- Hook 3, after the charge.
    unfoldable pub post_check :
        Assoc (Node F W) → String → NodeKind → SideEffect → NodeOutput F → Continue → Continue
    post_check comps id kind effect output next s =
        gate (evaluate F x.policy post_step (context none (some output.contents) (some effect) s))
          (insert id output s.outputs) (record_step comps id kind effect output next) s

    -- The result of the charge.
    unfoldable pub or_partial : Option (BudgetTrackerError F) → Continue → Continue
    or_partial none next s = next s
    or_partial (some e) next s =
        closing partial_trace (returned (partial s.outputs (s.step - 1) e)) s

    unfoldable pub charge_step :
        Assoc (Node F W) → String → NodeKind → SideEffect → NodeOutput F → ℕ → Continue → Continue
    charge_step comps id kind effect output elapsed next s =
        let (budget, problem) = charge F output.tokens output.cost_usd elapsed s.budget in
        or_partial problem (post_check comps id kind effect output next)
          (record s { budget = budget })

    abbrev pub shadow_output : String → SideEffect → NodeOutput F
    shadow_output id side_effect = record {
      contents = x.marker id side_effect;
      tokens = 0;
      cost_usd = zero_float F;
      duration_ms = 0;
      model = none;
    }

    -- The result of a node that was run, with the world before it.
    unfoldable pub on_result :
        Assoc (Node F W) → String → NodeKind → SideEffect → W → NodeResult F → Continue → Continue
    on_result comps id kind effect before (ok output) next s =
        charge_step comps id kind effect output (x.elapsed_ms before s.world) next s
    on_result comps id kind effect before (err e) next s = on_node_error e s

    unfoldable pub run_node : Assoc (Node F W) → String → Node F W → Continue → Continue
    run_node comps id node next s =
        let (r, w) = node.run intent s.outputs s.world in
        let real =
          on_result comps id node.kind node.side_effect s.world r next (record s { world = w }) in
        let marked =
          charge_step comps id node.kind node.side_effect (shadow_output id node.side_effect)
            (x.elapsed_ms s.world s.world) next s in
        if x.shadow && is_write_class node.side_effect then marked else real

    -- Hook 2.
    unfoldable pub check_step : SideEffect → Continue → Continue
    check_step effect next s =
        gate (evaluate F x.policy pre_step (context (some intent.goal) none (some effect) s))
          s.outputs next s

    unfoldable pub on_node : Assoc (Node F W) → String → Option (Node F W) → Continue → Continue
    on_node comps id none next s = (raised (node_failure "missing node"), s)
    on_node comps id (some node) next s =
        check_step node.side_effect (run_node comps id node next) s

    -- After the loop: hook 4 and the close of the trace.
    unfoldable pub finish : Continue
    finish s =
        gate (evaluate F x.policy pre_artifact (context none none none s)) s.outputs
          (λ t. closing completed_trace (returned (completed t.outputs t.step)) t) s

    unfoldable pub run_nodes : Graph (Node F W) → List String → Continue
    run_nodes g [] s = finish s
    run_nodes g (id ∷ ids) s =
        on_node g.compensators id (lookup id g.nodes) (run_nodes g ids)
          (record s { step = (s.step + 1) % 2 ^ 32 })

    -- Hook 1, whose decision is taken before the trace is opened, and the loop.
    unfoldable pub start : Continue → Continue
    start loop s =
        let decision = evaluate F x.policy pre_plan (context (some intent.goal) none none s) in
        let (problem, w) = x.open_trace intent.trace_id intent.intent_id s.world in
        or_stop problem (gate decision [] loop) (record s { world = w })

    unfoldable pub initial_state : BudgetState F → W → RunState
    initial_state budget w = record {
      outputs = [];
      step = 0;
      composed_writes = 0;
      chain = [];
      targets = [];
      budget = budget;
      world = w;
    }

    pub or_revoked : Bool → Continue → Continue
    or_revoked false next s = next s
    or_revoked true next s = (raised (revoked intent.requester.user_id), s)

    -- Hook 0 comes before all else.
    unfoldable pub check_revoked : Option (String → W → Bool × W) → Continue → Continue
    check_revoked none next s = next s
    check_revoked (some is_revoked) next s =
        let candidate = intent.requester.user_id in
        let (answer, w) = is_revoked candidate s.world in
        let asked = or_revoked answer next (record s { world = w }) in
        if starts_with "did:aaf:" candidate then asked else next s

    unfoldable pub run : Graph (Node F W) → BudgetState F → W → Exit × RunState
    run g budget w =
        check_revoked x.revoked_did (start (run_nodes g g.order)) (initial_state budget w)
