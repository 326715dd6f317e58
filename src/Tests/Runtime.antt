-- ===== src/Tests/Runtime.antt =====
-- Runs of core/crates/aaf-runtime: the budget, and a graph of a read and a payment.
use agentic_application_fram.Base.{
  has, eq_iff, find, text_before, ℕ, ◌≤◌, ◌≡◌, refl, String, none, Bool, true, false, List, [], ◌∷◌,
  Assoc, lookup, insert, arith, str_eq, saturating_add, Bool-cases, inl, inr,
}
use agentic_application_fram.Contracts.Capability.{SideEffect}
use agentic_application_fram.Policy.Engine.{evaluate, collect, decide}
use agentic_application_fram.Runtime.Budget.{BudgetState, new, consume, exhausted, charge}
use agentic_application_fram.Runtime.Budget.Exhaustion.{Charge, charge_all, total, charges_fit}
use agentic_application_fram.Runtime.Node.{
  CompensationChain, rollback, deterministic, NodeOutput, Node, ok, err, node_failure,
}
use agentic_application_fram.Runtime.Node.Rollback.{Ends, rollback-Ends}
use agentic_application_fram.Runtime.Executor.{
  queue, GraphExecutor, run, check_revoked, start, or_stop, gate, initial_state, run_nodes, on_node,
  check_step, run_node, on_result, charge_step, or_partial, post_check, record_step, finish_step,
  finish, closing, or_fail,
}
use agentic_application_fram.Runtime.Graph.{
  Edge, Graph, keys_of, valid, validate_with_compensators, or_missing, missing_end, missing_step,
  sort_out, conclude, kahn, adjacency, degrees, zero_degrees, ready, sort, enqueue, visit, relax,
  decrease, or_zero, or_empty, unvisited,
}
use agentic_application_fram.Runtime.Executor.Shadow.{shadow_ignores_writes, Agree}
use agentic_application_fram.Runtime.Executor.Completed.{Stored}
use agentic_application_fram.Runtime.Executor.Validated.{validated_run}
use agentic_application_fram.Runtime.Graph
use agentic_application_fram.Runtime.Graph.Order.{Distinct}
use agentic_application_fram.Tests.Samples.{thousandths, sample_budget, sample_intent}

abbrev two_charges : List (Charge thousandths)
two_charges =
    record { spent_tokens = 300; cost_usd = 1000100; elapsed_ms = 20 }
    ∷ record { spent_tokens = 200; cost_usd = 1000100; elapsed_ms = 30 }
    ∷ []

abbrev tracker : BudgetState thousandths
tracker = new thousandths sample_budget

charges_fit_example :
    (total thousandths Charge.spent_tokens two_charges ≤ 1000)
    × (total thousandths Charge.elapsed_ms two_charges ≤ 60000)
unfolding charge_all charge consume exhausted saturating_add new
charges_fit_example =
    charges_fit thousandths sample_budget two_charges (omega arith) (omega arith) refl

abbrev overdrawn : BudgetState thousandths
overdrawn = record { initial = sample_budget; used_tokens = 1001; used_cost = 1000000; used_ms = 5 }

abbrev output_of : String → NodeOutput thousandths
output_of text = record {
  contents = text;
  tokens = 10;
  cost_usd = 1000100;
  duration_ms = 5;
  model = none;
}

-- The world is the list of what was done.
abbrev node_of : String → SideEffect → Node thousandths (List String)
node_of id effect = record {
  id = id;
  kind = deterministic;
  side_effect = effect;
  run = λ intent outputs log. (ok (output_of id), id ∷ log);
}

abbrev broken : String → SideEffect → Node thousandths (List String)
broken id effect = record {
  id = id;
  kind = deterministic;
  side_effect = effect;
  run = λ intent outputs log. (err (node_failure "no network"), log);
}

abbrev executor : Bool → GraphExecutor thousandths (List String)
executor shadow = record {
  policy = [];
  shadow = shadow;
  open_trace = λ t i log. (none, "open" ∷ log);
  close_trace = λ t s log. (none, "close" ∷ log);
  record_observation = λ o log. (none, "record" ∷ log);
  revoked_did = none;
  elapsed_ms = λ before after. 1;
  marker = λ id effect. "shadow";
  display = λ e. "error";
}

abbrev sample_nodes : Assoc (Node thousandths (List String))
sample_nodes =
    ("fetch", node_of "fetch" SideEffect.read) ∷ ("pay", node_of "pay" SideEffect.payment) ∷ []

abbrev fetch_first : List Edge
fetch_first = record { from = "fetch"; to = "pay" } ∷ []

abbrev graph : Graph (Node thousandths (List String))
graph = record {
  nodes = sample_nodes;
  edges = fetch_first;
  order = "fetch" ∷ "pay" ∷ [];
  compensators = [];
}

abbrev both_outputs : Assoc (NodeOutput thousandths)
both_outputs = ("fetch", output_of "fetch") ∷ ("pay", output_of "pay") ∷ []

abbrev two_steps : ℕ
two_steps = 2

Distinct-nodes : Distinct (keys_of sample_nodes)
Distinct-nodes v = ground (arith, eq_iff "fetch" v, eq_iff "pay" v, eq_iff "fetch" "pay")

graph_validates : validate_with_compensators sample_nodes fetch_first [] ≡ valid graph
unfolding validate_with_compensators or_missing missing_end missing_step sort_out conclude kahn
    adjacency Graph.initial_state degrees zero_degrees ready sort enqueue visit relax decrease
    or_zero or_empty unvisited lookup insert text_before find
graph_validates = refl

validated_run_example :
    (two_steps ≡ 2)
    × ((id : String)
        → has id (keys_of sample_nodes) ≡ true
        → Stored thousandths (List String) both_outputs id)
    × (exhausted thousandths
          (run thousandths (List String) (executor false) sample_intent graph tracker []).1.budget
        ≡ none)
unfolding run queue check_revoked start or_stop gate initial_state run_nodes on_node check_step
    run_node on_result charge_step or_partial post_check record_step finish_step finish closing
    or_fail evaluate collect decide lookup insert new charge consume exhausted saturating_add
validated_run_example =
    validated_run thousandths (List String) (executor false) sample_intent sample_nodes fetch_first
      [] graph tracker [] both_outputs 2 Distinct-nodes graph_validates (omega arith) refl refl

-- The same graph, whose payment would fail.
abbrev other_nodes : Assoc (Node thousandths (List String))
other_nodes =
    ("fetch", node_of "fetch" SideEffect.read) ∷ ("pay", broken "pay" SideEffect.payment) ∷ []

Agree-elsewhere :
    (id : String) → Agree thousandths (List String) (lookup id sample_nodes) (lookup id other_nodes)
unfolding lookup
Agree-elsewhere id = elim (Bool-cases (str_eq "fetch" id)) [
  | inl e ↦ rw e (record { kind = refl; effect = refl; behaviour = λ h. refl })
  | inr e ↦ elim (Bool-cases (str_eq "pay" id)) [
    | inl p ↦ rw (e, p) (record { kind = refl; effect = refl; behaviour = λ h. ground (arith, h) })
    | inr p ↦ rw (e, p) tt
  ]
]

shadow_ignores_writes_example :
    run thousandths (List String) (executor true) sample_intent graph tracker []
    ≡ run thousandths
        (List String)
        (executor true)
        sample_intent
        (record graph { nodes = other_nodes })
        tracker
        []
shadow_ignores_writes_example =
    shadow_ignores_writes thousandths (List String) (executor true) sample_intent refl graph
      other_nodes Agree-elsewhere tracker []

-- The second compensator fails, and the first is left.
abbrev chain : CompensationChain thousandths (List String)
chain = ("pay", broken "pay" SideEffect.payment) ∷ ("book", node_of "book" SideEffect.write) ∷ []

rollback-Ends_example :
    Ends thousandths
      (List String)
      sample_intent
      0
      chain
      (rollback thousandths (List String) sample_intent chain []).0
      (rollback thousandths (List String) sample_intent chain []).1
rollback-Ends_example = rollback-Ends thousandths (List String) sample_intent chain []
