-- ===== src/Runtime/Executor/Completed.antt =====
-- Completed runs of core/crates/aaf-runtime/src/executor.rs.
use mathlib.Core.Path.{subst}
use mathlib.Core.List.{append_assoc, append-nil}
use agentic_application_fram.Base.{
  ℕ, ◌+◌, ◌%◌, ◌^◌, ◌<◌, ◌≡◌, inl, inr, refl, sym, ap, ◌∙◌, String, Option, none, some, Bool, true,
  false, List, [], ◌∷◌, ◌++◌, Assoc, arith, lookup, insert, lookup-insert, if◌then◌else◌,
  Bool-cases, starts_with, length, length-append, All, All-append, All-weaken, str_eq, eq_refl,
}
use agentic_application_fram.Float.{Float}
use agentic_application_fram.Contracts.Capability.{SideEffect, is_write_class}
use agentic_application_fram.Contracts.Intent.{IntentEnvelope}
use agentic_application_fram.Runtime.Budget.{BudgetState, exhausted}
use agentic_application_fram.Runtime.Node.{Node, NodeOutput}
use agentic_application_fram.Runtime.Executor.{
  completed, returned, GraphExecutor, RunState, Continue, queue, finish_step, run_nodes, or_revoked,
  check_revoked, start, initial_state, run,
}
use agentic_application_fram.Runtime.Graph.{Graph}
use agentic_application_fram.Runtime.Executor.Loop.{
  Post, Holds, gate-Holds, or_stop-Holds, on_node-Holds, finish-Holds,
}

module _ (F : Float) (W : Type 0) where
  -- The node has an output.
  abbrev pub Stored : Assoc (NodeOutput F) → String → Type 0
  Stored outputs id = (output : NodeOutput F) × (lookup id outputs ≡ some output)

  Stored-insert :
      (id j : String) (output : NodeOutput F) (outputs : Assoc (NodeOutput F))
      → Stored outputs j
      → Stored (insert id output outputs) j
  Stored-insert id j output outputs (o, e) = elim (Bool-cases (str_eq id j)) [
    | inl same ↦ (output, ground (arith, lookup-insert id j output outputs))
    | inr other ↦ (o, ground (arith, lookup-insert id j output outputs))
  ]

  insert-Stored :
      (id : String) (output : NodeOutput F) (outputs : Assoc (NodeOutput F))
      → Stored (insert id output outputs) id
  insert-Stored id output outputs =
      (output, ground (arith, lookup-insert id id output outputs, eq_refl id))

  module _ (x : GraphExecutor F W) (intent : IntentEnvelope F) (g : Graph (Node F W)) where
    -- Every node of the order has an output, the counter counts them all and the budget is kept.
    abbrev pub Facts : RunState F W → Type 0
    Facts s =
        (s.step ≡ length g.order) × All (Stored s.outputs) g.order × (exhausted F s.budget ≡ none)

    -- The state after the nodes of a first part of the order.
    record After (done : List String) (s : RunState F W) : Type 0 where
      counted : s.step ≡ length done
      stored : All (Stored s.outputs) done
      within : exhausted F s.budget ≡ none

    -- The parts of a state that queueing a compensator leaves alone.
    record SameParts (s t : RunState F W) : Type 0 where
      outputs : t.outputs ≡ s.outputs
      step : t.step ≡ s.step
      budget : t.budget ≡ s.budget

    queue-SameParts :
        (id : String) (comp : Option (Node F W)) (s : RunState F W) (n : ℕ)
        → SameParts s (queue F W x intent id comp (record s { composed_writes = n }))
    unfolding queue
    queue-SameParts id none s n = record { outputs = refl; step = refl; budget = refl }
    queue-SameParts id (some _) s n = record { outputs = refl; step = refl; budget = refl }

    if-SameParts :
        (b : Bool) (s t u : RunState F W)
        → SameParts s t
        → SameParts s u
        → SameParts s (if b then t else u)
    if-SameParts true s t u h k = h
    if-SameParts false s t u h k = k

    insert-After :
        (done : List String) (id : String) (output : NodeOutput F) (s t : RunState F W)
        → SameParts s t
        → s.step ≡ length (done ++ id ∷ [])
        → All (Stored s.outputs) done
        → exhausted F s.budget ≡ none
        → After (done ++ id ∷ []) (record t { outputs = insert id output t.outputs })
    insert-After done id output s t same counted stored within = record {
      counted = same.step ∙ counted;
      stored = rw same.outputs (
          All-append (Stored (insert id output s.outputs)) done (id ∷ [])
            (All-weaken (Stored s.outputs) (Stored (insert id output s.outputs)) done
              (λ j. Stored-insert id j output s.outputs) stored)
            (insert-Stored id output s.outputs, tt));
      within = rw same.budget within;
    }

    finish_step-After :
        (done : List String) (id : String) (effect : SideEffect) (output : NodeOutput F)
        (s : RunState F W)
        → s.step ≡ length (done ++ id ∷ [])
        → All (Stored s.outputs) done
        → exhausted F s.budget ≡ none
        → After (done ++ id ∷ []) (finish_step F W x intent g.compensators id effect output s)
    unfolding finish_step
    finish_step-After done id effect output s = insert-After done id output s _ (
        if-SameParts (is_write_class effect) s _ s
          (queue-SameParts id (lookup id g.compensators) s _)
          (record { outputs = refl; step = refl; budget = refl }))

    run_nodes-Holds :
        (ids done : List String) (s : RunState F W)
        → done ++ ids ≡ g.order
        → length g.order < 2 ^ 32
        → After done s
        → Holds F W Facts x intent (run_nodes F W x intent g ids s)
    unfolding run_nodes
    run_nodes-Holds [] done s split bound h =
        finish-Holds F W Facts x intent s (λ w. all_done (sym (append-nil done) ∙ split))
      where
        all_done :
            done ≡ g.order
            → (s.step ≡ length g.order)
              × All (Stored s.outputs) g.order
              × (exhausted F s.budget ≡ none)
        all_done whole =
            (h.counted ∙ ap length whole, subst (All (Stored s.outputs)) whole h.stored, h.within)
    run_nodes-Holds (id ∷ ids) done s split bound h =
        on_node-Holds F W Facts x intent g.compensators id (run_nodes F W x intent g ids) _
          (λ effect output budget w within.
            run_nodes-Holds ids (done ++ id ∷ []) _ (append_assoc done (id ∷ []) ids ∙ split) bound
              (finish_step-After done id effect output _ next_step h.stored within))
          (lookup id g.nodes)
      where
        next_step : (s.step + 1) % 2 ^ 32 ≡ length (done ++ id ∷ [])
        next_step = grind (
          arith,
          length-append done (id ∷ []),
          length-append done (id ∷ ids),
          h.counted,
          ap length split,
          bound,
        )

    or_revoked-Holds :
        (answer : Bool) (next : Continue F W x intent) (s : RunState F W)
        → Holds F W Facts x intent (next s)
        → Holds F W Facts x intent (or_revoked F W x intent answer next s)
    unfolding or_revoked
    or_revoked-Holds true next s h = record { at = tt }
    or_revoked-Holds false next s h = h

    check_revoked-Holds :
        (asks : Option (String → W → Bool × W)) (next : Continue F W x intent) (s : RunState F W)
        → ((w : W) → Holds F W Facts x intent (next (record s { world = w })))
        → Holds F W Facts x intent (check_revoked F W x intent asks next s)
    unfolding check_revoked
    check_revoked-Holds none next s h = h s.world
    check_revoked-Holds (some is_revoked) next s h =
        elim (Bool-cases (starts_with "did:aaf:" intent.requester.user_id)) [
          | inl did ↦ rw did (or_revoked-Holds _ next _ (h _))
          | inr other ↦ rw other (h s.world)
        ]

    run-Holds :
        (budget : BudgetState F) (w : W)
        → length g.order < 2 ^ 32
        → exhausted F budget ≡ none
        → Holds F W Facts x intent (run F W x intent g budget w)
    unfolding run start initial_state
    run-Holds budget w bound fits = check_revoked-Holds x.revoked_did _ _ (λ w'.
        or_stop-Holds F W Facts x intent _ _ _ (
          gate-Holds F W Facts x intent _ _ _ _ (
            run_nodes-Holds g.order [] _ refl bound
              (record { counted = refl; stored = tt; within = fits }))))

    -- A run that returns `Completed` has an output for every node of the order, its step counter is
    -- the length of the order, and the charges have not exhausted the budget, where the budget is
    -- not exhausted before the run and the counter of 32 bits can hold the length.
    pub completed_run :
        (budget : BudgetState F) (w : W) (outputs : Assoc (NodeOutput F)) (steps : ℕ)
        → length g.order < 2 ^ 32
        → exhausted F budget ≡ none
        → (run F W x intent g budget w).0 ≡ returned (completed outputs steps)
        → (steps ≡ length g.order)
          × All (Stored outputs) g.order
          × (exhausted F (run F W x intent g budget w).1.budget ≡ none)
    completed_run budget w outputs steps bound fits ends =
        by_post (subst (λ e. Post F W Facts e final) ends (run-Holds budget w bound fits).at)
      where
        final : RunState F W
        final = (run F W x intent g budget w).1

        by_post :
            (outputs ≡ final.outputs) × (steps ≡ final.step) × Facts final
            → (steps ≡ length g.order)
              × All (Stored outputs) g.order
              × (exhausted F final.budget ≡ none)
        by_post h = (h.1 ∙ h.2.0, rw h.0 h.2.1, h.2.2)
