-- ===== src/Runtime/Executor/Loop.antt =====
-- Rules for the facts of a completed run of core/crates/aaf-runtime/src/executor.rs, one for each
-- handler.
use agentic_application_fram.Base.{
  ℕ, ◌≡◌, refl, String, Option, none, some, Bool, true, false, ◌&&◌, List, [], ◌∷◌, Assoc,
  if◌then◌else◌,
}
use agentic_application_fram.Float.{Float}
use agentic_application_fram.Contracts.Capability.{SideEffect, is_write_class}
use agentic_application_fram.Contracts.Intent.{IntentEnvelope}
use agentic_application_fram.Contracts.Policy.{
  PolicyDecision, allow, allow_with_warnings, require_approval, deny,
}
use agentic_application_fram.Runtime.Budget.{BudgetState, BudgetTrackerError, charge, exhausted}
use agentic_application_fram.Runtime.Node.{
  NodeKind, Node, RuntimeError, NodeOutput, NodeResult, ok, err, Compensated, all, failed, rollback,
}
use agentic_application_fram.Runtime.Executor.{
  TraceStatus, completed_trace, failed_trace, completed, partial, pending_approval, rolled_back,
  Exit, returned, raised, GraphExecutor, RunState, Continue, or_fail, closing, gate, after_rollback,
  on_node_error, finish_step, or_stop, record_step, post_check, or_partial, charge_step, on_result,
  shadow_output, run_node, check_step, on_node, finish,
}

module _ (F : Float) (W : Type 0) (Facts : RunState F W → Type 0) where
  -- A completed run returns the outputs and the steps of its last state, of which the facts hold.
  abbrev pub Post : Exit F W → RunState F W → Type 0
  Post (returned (completed outputs steps)) s = (outputs ≡ s.outputs) × (steps ≡ s.step) × Facts s
  Post (returned (partial _ _ _)) s = Unit
  Post (returned (pending_approval _ _ _)) s = Unit
  Post (returned (rolled_back _ _ _)) s = Unit
  Post (raised _) s = Unit

  abbrev IsQuiet : Exit F W → Type 0
  IsQuiet (returned (completed _ _)) = ⊥
  IsQuiet (returned (partial _ _ _)) = Unit
  IsQuiet (returned (pending_approval _ _ _)) = Unit
  IsQuiet (returned (rolled_back _ _ _)) = Unit
  IsQuiet (raised _) = Unit

  IsQuiet-Post : (e : Exit F W) (s : RunState F W) → IsQuiet e → Post e s
  IsQuiet-Post (returned (completed _ _)) s h = absurd h
  IsQuiet-Post (returned (partial _ _ _)) s h = tt
  IsQuiet-Post (returned (pending_approval _ _ _)) s h = tt
  IsQuiet-Post (returned (rolled_back _ _ _)) s h = tt
  IsQuiet-Post (raised _) s h = tt

  module _ (x : GraphExecutor F W) (intent : IntentEnvelope F) where
    pub record Holds (p : Exit F W × RunState F W) : Type 0 where
      pub at : Post p.0 p.1

    or_fail-IsQuiet :
        (problem : Option String) (e : Exit F W)
        → IsQuiet e
        → IsQuiet (or_fail F W x intent problem e)
    unfolding or_fail
    or_fail-IsQuiet none e h = h
    or_fail-IsQuiet (some _) e h = tt

    closing-Holds :
        (status : TraceStatus) (e : Exit F W) (s : RunState F W)
        → IsQuiet e
        → Holds (closing F W x intent status e s)
    unfolding closing
    closing-Holds status e s h = record {
      at = IsQuiet-Post _ _ (or_fail-IsQuiet (x.close_trace intent.trace_id status s.world).0 e h);
    }

    pub gate-Holds :
        (d : PolicyDecision) (reviewed : Assoc (NodeOutput F)) (next : Continue F W x intent)
        (s : RunState F W)
        → Holds (next s)
        → Holds (gate F W x intent d reviewed next s)
    unfolding gate
    gate-Holds allow reviewed next s h = h
    gate-Holds (allow_with_warnings _) reviewed next s h = h
    gate-Holds (require_approval vs) reviewed next s h = closing-Holds _ _ s tt
    gate-Holds (deny vs) reviewed next s h = closing-Holds _ _ s tt

    pub or_stop-Holds :
        (problem : Option String) (next : Continue F W x intent) (s : RunState F W)
        → Holds (next s)
        → Holds (or_stop F W x intent problem next s)
    unfolding or_stop
    or_stop-Holds none next s h = h
    or_stop-Holds (some _) next s h = record { at = tt }

    after_rollback-Holds :
        (e : RuntimeError) (c : Compensated F W) (s : RunState F W)
        → Holds (after_rollback F W x intent e c s)
    unfolding after_rollback
    after_rollback-Holds e (failed ce) s = record { at = tt }
    after_rollback-Holds e (all outs) s = closing-Holds _ _ s (quiet s.targets)
      where
        quiet :
            (ts : List String)
            → IsQuiet (elim ts [
              | [] ↦ raised e
              | t ∷ ts ↦ returned (rolled_back s.step (x.display e) (t ∷ ts))
            ])
        quiet [] = tt
        quiet (t ∷ ts) = tt

    on_node_error-Holds :
        (e : RuntimeError) (s : RunState F W) → Holds (on_node_error F W x intent e s)
    unfolding on_node_error
    on_node_error-Holds e s = by_chain s.chain
      where
        by_chain :
            (chain : List (String × Node F W))
            → Holds (elim chain [
              | [] ↦ closing F W x intent failed_trace (raised e) s
              | _ ∷ _ ↦
                  after_rollback F W x intent e (rollback F W intent s.chain s.world).1 (record s {
                    chain = (rollback F W intent s.chain s.world).0;
                    world = (rollback F W intent s.chain s.world).2;
                  })
            ])
        by_chain [] = closing-Holds _ (raised e) s tt
        by_chain (_ ∷ _) = after_rollback-Holds e _ _

    -- What the loop has to show of its rest, for one step: it ends well from every state in which
    -- the step is finished within the budget.
    abbrev pub Resumes : Assoc (Node F W) → String → Continue F W x intent → RunState F W → Type 0
    Resumes comps id next s =
        (effect : SideEffect) (output : NodeOutput F) (budget : BudgetState F) (w : W)
        → exhausted F budget ≡ none
        → Holds (
            next (
              finish_step F W x intent comps id effect output
                (record s { budget = budget; world = w })))

    module _ (comps : Assoc (Node F W)) (id : String) (next : Continue F W x intent)
        (s : RunState F W) (resumes : Resumes comps id next s) where
      post_check-Holds :
          (kind : NodeKind) (effect : SideEffect) (output : NodeOutput F) (budget : BudgetState F)
          (w : W)
          → exhausted F budget ≡ none
          → Holds (
              post_check F W x intent comps id kind effect output next
                (record s { budget = budget; world = w }))
      unfolding post_check record_step
      post_check-Holds kind effect output budget w fits =
          gate-Holds _ _ _ _ (or_stop-Holds _ _ _ (resumes effect output budget _ fits))

      or_partial-Holds :
          (kind : NodeKind) (effect : SideEffect) (output : NodeOutput F)
          (problem : Option (BudgetTrackerError F)) (budget : BudgetState F) (w : W)
          → exhausted F budget ≡ problem
          → Holds (
              or_partial F W x intent problem
                (post_check F W x intent comps id kind effect output next)
                (record s { budget = budget; world = w }))
      unfolding or_partial
      or_partial-Holds kind effect output none budget w fits =
          post_check-Holds kind effect output budget w fits
      or_partial-Holds kind effect output (some e) budget w fits = closing-Holds _ _ _ tt

      charge_step-Holds :
          (kind : NodeKind) (effect : SideEffect) (output : NodeOutput F) (elapsed : ℕ) (w : W)
          → Holds (
              charge_step F W x intent comps id kind effect output elapsed next
                (record s { world = w }))
      unfolding charge_step charge
      charge_step-Holds kind effect output elapsed w =
          or_partial-Holds kind effect output _ _ w refl

      on_result-Holds :
          (kind : NodeKind) (effect : SideEffect) (before : W) (r : NodeResult F) (w : W)
          → Holds
              (on_result F W x intent comps id kind effect before r next (record s { world = w }))
      unfolding on_result
      on_result-Holds kind effect before (ok output) w = charge_step-Holds kind effect output _ w
      on_result-Holds kind effect before (err e) w = on_node_error-Holds e _

      run_node-Holds : (node : Node F W) → Holds (run_node F W x intent comps id node next s)
      unfolding run_node
      run_node-Holds node = by_mode (x.shadow && is_write_class node.side_effect)
        where
          by_mode :
              (b : Bool)
              → Holds (
                  if b
                  then charge_step F W x intent comps id node.kind node.side_effect
                      (shadow_output F W x intent id node.side_effect)
                      (x.elapsed_ms s.world s.world)
                      next
                      s
                  else on_result F W x intent comps id node.kind node.side_effect s.world
                      (node.run intent s.outputs s.world).0
                      next
                      (record s { world = (node.run intent s.outputs s.world).1 }))
          by_mode true = charge_step-Holds node.kind node.side_effect _ _ s.world
          by_mode false = on_result-Holds node.kind node.side_effect s.world _ _

      pub on_node-Holds :
          (node : Option (Node F W)) → Holds (on_node F W x intent comps id node next s)
      unfolding on_node check_step
      on_node-Holds none = record { at = tt }
      on_node-Holds (some node) = gate-Holds _ _ _ s (run_node-Holds node)

    closed-Post :
        (problem : Option String) (s : RunState F W)
        → Facts s
        → Post (or_fail F W x intent problem (returned (completed s.outputs s.step))) s
    unfolding or_fail
    closed-Post none s h = (refl, refl, h)
    closed-Post (some _) s h = tt

    pub finish-Holds :
        (s : RunState F W)
        → ((w : W) → Facts (record s { world = w }))
        → Holds (finish F W x intent s)
    unfolding finish
    finish-Holds s h = gate-Holds _ _ _ s (
        unfold closing in
        record {
          at =
              closed-Post (x.close_trace intent.trace_id completed_trace s.world).0
                (record s { world = (x.close_trace intent.trace_id completed_trace s.world).1 })
                (h _);
        })
