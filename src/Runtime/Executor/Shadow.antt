-- ===== src/Runtime/Executor/Shadow.antt =====
-- The shadow mode of core/crates/aaf-runtime/src/executor.rs.
use mathlib.Core.Path.{fun_ext}
use agentic_application_fram.Base.{
  ◌+◌, ◌%◌, ◌^◌, ◌≡◌, refl, ap, ◌∙◌, String, Option, none, some, true, false, List, [], ◌∷◌, Assoc,
  arith, lookup, Bool-cases, inl, inr,
}
use agentic_application_fram.Float.{Float}
use agentic_application_fram.Contracts.Capability.{is_write_class}
use agentic_application_fram.Contracts.Intent.{IntentEnvelope}
use agentic_application_fram.Runtime.Budget.{BudgetState}
use agentic_application_fram.Runtime.Node.{Node}
use agentic_application_fram.Runtime.Executor.{
  GraphExecutor, RunState, Continue, run_node, check_step, on_node, run_nodes, check_revoked, start,
  initial_state, run,
}
use agentic_application_fram.Runtime.Graph.{Graph}

module _ (F : Float) (W : Type 0) where
  -- Two nodes of one kind and side effect that do the same, unless that side effect is a write.
  pub record SameButWrites (n m : Node F W) : Type 0 where
    pub kind : n.kind ≡ m.kind
    pub effect : n.side_effect ≡ m.side_effect
    pub behaviour : is_write_class n.side_effect ≡ false → n.run ≡ m.run

  abbrev pub Agree : Option (Node F W) → Option (Node F W) → Type 0
  Agree none none = Unit
  Agree (some n) (some m) = SameButWrites n m
  Agree none (some _) = ⊥
  Agree (some _) none = ⊥

  module _ (x : GraphExecutor F W) (intent : IntentEnvelope F) (shadowing : x.shadow ≡ true) where
    run_node-SameButWrites :
        (comps : Assoc (Node F W)) (id : String) (n m : Node F W) (next : Continue F W x intent)
        (s : RunState F W)
        → SameButWrites n m
        → run_node F W x intent comps id n next s ≡ run_node F W x intent comps id m next s
    unfolding run_node
    run_node-SameButWrites comps id n m next s h =
        elim (Bool-cases (is_write_class n.side_effect)) [
          | inl e ↦ ground (arith, h.effect, h.kind)
          | inr e ↦ ground (arith, h.effect, h.kind, h.behaviour e)
        ]

    on_node-Agree :
        (comps : Assoc (Node F W)) (id : String) (n m : Option (Node F W))
        (next : Continue F W x intent) (s : RunState F W)
        → Agree n m
        → on_node F W x intent comps id n next s ≡ on_node F W x intent comps id m next s
    unfolding on_node
    on_node-Agree comps id none none next s h = refl
    on_node-Agree comps id none (some m) next s h = absurd h
    on_node-Agree comps id (some n) none next s h = absurd h
    on_node-Agree comps id (some n) (some m) next s h =
        ap (λ effect. check_step F W x intent effect (run_node F W x intent comps id n next) s)
          h.effect
        ∙ ap (λ body. check_step F W x intent m.side_effect body s)
            (fun_ext λ s'. run_node-SameButWrites comps id n m next s' h)

    module _ (g : Graph (Node F W)) (others : Assoc (Node F W))
        (agree : (id : String) → Agree (lookup id g.nodes) (lookup id others)) where
      run_nodes-Agree :
          (ids : List String) (s : RunState F W)
          → run_nodes F W x intent g ids s
            ≡ run_nodes F W x intent (record g { nodes = others }) ids s
      unfolding run_nodes
      run_nodes-Agree [] s = refl
      run_nodes-Agree (id ∷ ids) s =
          on_node-Agree g.compensators id (lookup id g.nodes) (lookup id others)
            (run_nodes F W x intent g ids) _ (agree id)
          ∙ ap
              (λ next.
                on_node F W x intent g.compensators id (lookup id others) next
                  (record s { step = (s.step + 1) % 2 ^ 32 }))
              (fun_ext λ s'. run_nodes-Agree ids s')

      -- In shadow mode a run has the same outcome and leaves the same state, budget and world when the
      -- nodes of its graph are replaced by nodes of the same ids, kinds and side effects, of which those that
      -- write, delete, send or pay do something else. The order and the compensators stay.
      pub shadow_ignores_writes :
          (budget : BudgetState F) (w : W)
          → run F W x intent g budget w ≡ run F W x intent (record g { nodes = others }) budget w
      unfolding run
      shadow_ignores_writes budget w =
          ap
            (λ loop.
              check_revoked F W x intent x.revoked_did (start F W x intent loop)
                (initial_state F W x intent budget w))
            (fun_ext λ s. run_nodes-Agree g.order s)
