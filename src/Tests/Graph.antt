-- ===== src/Tests/Graph.antt =====
-- Validations by core/crates/aaf-runtime/src/graph.rs: a chain of three nodes.
use agentic_application_fram.Base.{
  ℕ, ◌≡◌, ◌≢◌, ◌++◌, refl, String, true, List, [], ◌∷◌, Assoc, lookup, insert, arith, has, eq_iff,
  find, text_before,
}
use agentic_application_fram.Runtime.Graph.{
  Edge, Graph, keys_of, valid, out_of_fuel, validate_with_compensators, or_missing, missing_end,
  missing_step, sort_out, conclude, kahn, adjacency, initial_state, degrees, zero_degrees, ready,
  sort, enqueue, visit, relax, decrease, or_zero, or_empty, unvisited,
}
use agentic_application_fram.Runtime.Graph.Order.{Distinct}
use agentic_application_fram.Runtime.Graph.Validate.{
  OrderOf, validate-ne-out_of_fuel, validate-OrderOf, validate_complete,
}

abbrev three_nodes : Assoc ℕ
three_nodes = ("c", 3) ∷ ("a", 1) ∷ ("b", 2) ∷ []

abbrev chain : List Edge
chain = record { from = "a"; to = "b" } ∷ record { from = "b"; to = "c" } ∷ []

abbrev chained : Graph ℕ
chained = record {
  nodes = three_nodes;
  edges = chain;
  order = "a" ∷ "b" ∷ "c" ∷ [];
  compensators = [];
}

Distinct-nodes : Distinct (keys_of three_nodes)
Distinct-nodes v = ground (
  arith,
  eq_iff "c" v,
  eq_iff "a" v,
  eq_iff "b" v,
  eq_iff "c" "a",
  eq_iff "c" "b",
  eq_iff "a" "b",
)

chain_validates : validate_with_compensators three_nodes chain [] ≡ valid chained
unfolding validate_with_compensators or_missing missing_end missing_step sort_out conclude kahn
    adjacency initial_state degrees zero_degrees ready sort enqueue visit relax decrease or_zero
    or_empty unvisited lookup insert text_before find
chain_validates = refl

validate-ne-out_of_fuel_example : validate_with_compensators three_nodes chain [] ≢ out_of_fuel
validate-ne-out_of_fuel_example = validate-ne-out_of_fuel three_nodes chain [] Distinct-nodes

validate-OrderOf_example : OrderOf three_nodes chain [] chained
validate-OrderOf_example =
    validate-OrderOf three_nodes chain [] chained Distinct-nodes chain_validates

a_first :
    (before after : List String) → chained.order ≡ before ++ "b" ∷ after → has "a" before ≡ true
a_first [] after h = absurd (ground (arith, h, eq_iff "a" "b"))
a_first (x ∷ before) after h = ground (arith, h, eq_iff x "a")

b_second :
    (before after : List String) → chained.order ≡ before ++ "c" ∷ after → has "b" before ≡ true
b_second [] after h = absurd (ground (arith, h, eq_iff "a" "c"))
b_second (x ∷ []) after h = absurd (ground (arith, h, eq_iff "b" "c"))
b_second (x ∷ y ∷ before) after h = ground (arith, h, eq_iff y "b")

validate_complete_example :
    (g : Graph ℕ) × (validate_with_compensators three_nodes chain [] ≡ valid g)
validate_complete_example =
    validate_complete three_nodes chain [] ("a" ∷ "b" ∷ "c" ∷ []) Distinct-nodes (ground arith)
      ((refl, refl), ((refl, refl), tt)) tt (a_first, (b_second, tt)) (λ v h. ground arith)
