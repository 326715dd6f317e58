-- ===== src/Runtime/Executor/Validated.antt =====
-- Completed runs of core/crates/aaf-runtime/src/executor.rs over graphs that graph.rs has validated.
use agentic_application_fram.Base.{
  none, ℕ, ◌^◌, ◌<◌, ◌≡◌, ◌∙◌, String, true, List, Assoc, arith, length, length-Within, has,
  has-count, All-has,
}
use agentic_application_fram.Float.{Float}
use agentic_application_fram.Contracts.Intent.{IntentEnvelope}
use agentic_application_fram.Runtime.Budget.{BudgetState, exhausted}
use agentic_application_fram.Runtime.Graph.{Edge, Graph, keys_of, valid, validate_with_compensators}
use agentic_application_fram.Runtime.Graph.Order.{Distinct}
use agentic_application_fram.Runtime.Graph.Validate.{OrderOf, validate-OrderOf}
use agentic_application_fram.Runtime.Node.{Node, NodeOutput}
use agentic_application_fram.Runtime.Executor.{completed, returned, GraphExecutor, run}
use agentic_application_fram.Runtime.Executor.Completed.{Stored, completed_run}

order-length :
    {V : Type 0} (nodes : Assoc V) (edges : List Edge) (compensators : Assoc V) (g : Graph V)
    → OrderOf nodes edges compensators g
    → length g.order ≡ length (keys_of nodes)
order-length nodes edges compensators g o = omega (
  arith,
  length-Within g.order (keys_of nodes) (λ v. omega (arith, o.once v)),
  length-Within (keys_of nodes) g.order (λ v. omega (arith, o.once v)),
)

module _ (F : Float) (W : Type 0) (x : GraphExecutor F W) (intent : IntentEnvelope F) where
  -- A run of a validated graph that returns `Completed` has an output for every node, its step
  -- counter is the number of the nodes, and the charges have not exhausted the budget, where the
  -- budget is not exhausted before the run and the counter of 32 bits can hold that number.
  pub validated_run :
      (nodes : Assoc (Node F W)) (edges : List Edge) (compensators : Assoc (Node F W))
      (g : Graph (Node F W)) (budget : BudgetState F) (w : W) (outputs : Assoc (NodeOutput F))
      (steps : ℕ)
      → Distinct (keys_of nodes)
      → validate_with_compensators nodes edges compensators ≡ valid g
      → length (keys_of nodes) < 2 ^ 32
      → exhausted F budget ≡ none
      → (run F W x intent g budget w).0 ≡ returned (completed outputs steps)
      → (steps ≡ length (keys_of nodes))
        × ((id : String) → has id (keys_of nodes) ≡ true → Stored F W outputs id)
        × (exhausted F (run F W x intent g budget w).1.budget ≡ none)
  validated_run nodes edges compensators g budget w outputs steps distinct made bound fits ends =
      let o = validate-OrderOf nodes edges compensators g distinct made in
      let sizes = order-length nodes edges compensators g o in
      let done =
        completed_run F W x intent g budget w outputs steps (omega (arith, sizes)) fits ends in
      (
        done.0 ∙ sizes,
        λ id node.
            All-has (Stored F W outputs) id g.order done.1
              (ground (arith, has-count id g.order, has-count id (keys_of nodes), o.once id)),
        done.2,
      )
