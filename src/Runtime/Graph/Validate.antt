-- ===== src/Runtime/Graph/Validate.antt =====
-- The validation of core/crates/aaf-runtime/src/graph.rs as a whole.
use mathlib.Core.Path.{subst}
use agentic_application_fram.Base.{
  ◌≡◌, ◌≢◌, refl, sym, ap, ◌∙◌, String, Option, none, some, true, List, [], ◌∷◌, reverse, Assoc,
  length, has, count, count-reverse, count-Within, All, arith,
}
use agentic_application_fram.Runtime.Graph.{
  Edge, Graph, Kahn, keys_of, missing_end, missing_step, Validation, valid, out_of_fuel, conclude,
  or_missing, sort_out, validate_with_compensators,
}
use agentic_application_fram.Runtime.Graph.Degrees.{Ends, missing_end-Ends}
use agentic_application_fram.Runtime.Graph.Steps.{Drained}
use agentic_application_fram.Runtime.Graph.Order.{
  Distinct, Sorted, Topological-Sorted, ended, order-Within, order-length,
}

-- Every node of the graph stands in the order exactly once, and every edge runs forwards.
pub record OrderOf {V : Type 0} (nodes : Assoc V) (edges : List Edge) (compensators : Assoc V)
    (g : Graph V) : Type 0 where
  pub same_nodes : g.nodes ≡ nodes
  pub same_edges : g.edges ≡ edges
  pub same_compensators : g.compensators ≡ compensators
  pub once : (v : String) → count v g.order ≡ count v (keys_of nodes)
  pub sorted : Sorted edges g.order

module _ {V : Type 0} (nodes : Assoc V) (edges : List Edge) (compensators : Assoc V)
    (distinct : Distinct (keys_of nodes)) where
  sort_out-conclude :
      All (Ends (keys_of nodes)) edges
      → (t : Kahn) × (sort_out nodes edges compensators
          ≡ conclude nodes edges compensators (some t))
        × Drained (keys_of nodes) edges t
  unfolding sort_out
  sort_out-conclude ends =
      let found = ended (keys_of nodes) edges distinct ends in
      (found.0, ap (conclude nodes edges compensators) found.1, found.2)

  conclude-ended : (t : Kahn) → conclude nodes edges compensators (some t) ≢ out_of_fuel
  unfolding conclude
  conclude-ended t h = ground arith

  abbrev solved : Kahn → Graph V
  solved t = record {
    nodes = nodes;
    edges = edges;
    order = reverse t.order;
    compensators = compensators;
  }

  conclude-full :
      (t : Kahn)
      → length t.visited ≡ length (keys_of nodes)
      → conclude nodes edges compensators (some t) ≡ valid (solved t)
  unfolding conclude
  conclude-full t e = ground arith

  full-conclude :
      (t : Kahn) (g : Graph V)
      → conclude nodes edges compensators (some t) ≡ valid g
      → (length t.visited ≡ length (keys_of nodes)) × (solved t ≡ g)
  unfolding conclude
  full-conclude t g h = ground arith

  solved-OrderOf :
      (t : Kahn)
      → All (Ends (keys_of nodes)) edges
      → Drained (keys_of nodes) edges t
      → length t.visited ≡ length (keys_of nodes)
      → OrderOf nodes edges compensators (solved t)
  solved-OrderOf t ends d full = record {
    same_nodes = refl;
    same_edges = refl;
    same_compensators = refl;
    once = λ v.
        count-reverse v t.order
        ∙ count-Within t.order (keys_of nodes)
            (order-Within (keys_of nodes) edges distinct ends t d)
            (ap length (sym d.inv.same) ∙ full) v;
    sorted = Topological-Sorted edges t.order d.inv.sorted;
  }

  conclude_complete :
      (t : Kahn) (plan : List String)
      → All (Ends (keys_of nodes)) edges
      → Drained (keys_of nodes) edges t
      → Sorted edges plan
      → ((v : String) → has v (keys_of nodes) ≡ true → has v plan ≡ true)
      → conclude nodes edges compensators (some t) ≡ valid (solved t)
  conclude_complete t plan ends d sorted covers = conclude-full t (
      ap length d.inv.same
      ∙ order-length (keys_of nodes) edges distinct ends t d plan sorted covers)

Ends-missing_end :
    (ids : List String) (es : List Edge) → All (Ends ids) es → missing_end ids es ≡ none
unfolding missing_end
Ends-missing_end ids [] h = refl
Ends-missing_end ids (e ∷ es) h = ground (arith, Ends-missing_end ids es h.1, h.0)

steps-missing_step :
    (ids ks : List String) → All (λ k. has k ids ≡ true) ks → missing_step ids ks ≡ none
unfolding missing_step
steps-missing_step ids [] h = refl
steps-missing_step ids (k ∷ ks) h = ground (arith, steps-missing_step ids ks h.1, h.0)

-- The end of the checks before the loop.
or_missing-valid :
    {V : Type 0} (o : Option String) (next : Validation V) (g : Graph V)
    → or_missing o next ≡ valid g
    → (o ≡ none) × (next ≡ valid g)
unfolding or_missing
or_missing-valid none next g h = (refl, h)
or_missing-valid (some id) next g h = ground arith

or_missing-ended :
    {V : Type 0} (o : Option String) (next : Validation V)
    → or_missing o next ≡ out_of_fuel
    → (o ≡ none) × (next ≡ out_of_fuel)
unfolding or_missing
or_missing-ended none next h = (refl, h)
or_missing-ended (some id) next h = ground arith

module _ {V : Type 0} where
  -- The loop over the queue ends within as many rounds as the graph has nodes.
  pub validate-ne-out_of_fuel :
      (nodes : Assoc V) (edges : List Edge) (compensators : Assoc V)
      → Distinct (keys_of nodes)
      → validate_with_compensators nodes edges compensators ≢ out_of_fuel
  unfolding validate_with_compensators
  validate-ne-out_of_fuel [] edges compensators distinct h = ground arith
  validate-ne-out_of_fuel ((k, x) ∷ nodes) edges compensators distinct h =
      let edge = or_missing-ended _ _ h in
      let step = or_missing-ended _ _ edge.1 in
      let found =
        sort_out-conclude ((k, x) ∷ nodes) edges compensators distinct
          (missing_end-Ends _ edges edge.0) in
      conclude-ended ((k, x) ∷ nodes) edges compensators distinct found.0 (sym found.1 ∙ step.1)

  -- A graph that validates keeps its nodes, edges and compensators, every node stands in its order
  -- exactly once, and in that order the source of every edge stands before the target.
  pub validate-OrderOf :
      (nodes : Assoc V) (edges : List Edge) (compensators : Assoc V) (g : Graph V)
      → Distinct (keys_of nodes)
      → validate_with_compensators nodes edges compensators ≡ valid g
      → OrderOf nodes edges compensators g
  unfolding validate_with_compensators
  validate-OrderOf [] edges compensators g distinct h = absurd (ground arith)
  validate-OrderOf ((k, x) ∷ nodes) edges compensators g distinct h =
      let edge = or_missing-valid _ _ g h in
      let step = or_missing-valid _ _ g edge.1 in
      let ends = missing_end-Ends _ edges edge.0 in
      let found = sort_out-conclude ((k, x) ∷ nodes) edges compensators distinct ends in
      let full =
        full-conclude ((k, x) ∷ nodes) edges compensators distinct found.0 g
          (sym found.1 ∙ step.1) in
      subst (OrderOf ((k, x) ∷ nodes) edges compensators) full.1
        (solved-OrderOf ((k, x) ∷ nodes) edges compensators distinct found.0 ends found.2 full.0)

  -- A graph validates if it has a node, both ends of every edge and the step of every compensator are
  -- nodes, and there is a list with all its nodes in which the source of every edge stands before
  -- the target: it is refused as a cycle only where no such list exists.
  pub validate_complete :
      (nodes : Assoc V) (edges : List Edge) (compensators : Assoc V) (plan : List String)
      → Distinct (keys_of nodes)
      → nodes ≢ []
      → All (Ends (keys_of nodes)) edges
      → All (λ k. has k (keys_of nodes) ≡ true) (keys_of compensators)
      → Sorted edges plan
      → ((v : String) → has v (keys_of nodes) ≡ true → has v plan ≡ true)
      → (g : Graph V) × (validate_with_compensators nodes edges compensators ≡ valid g)
  unfolding validate_with_compensators or_missing
  validate_complete [] edges compensators plan distinct some_node ends steps sorted covers =
      absurd (some_node refl)
  validate_complete ((k, x) ∷ nodes) edges compensators plan distinct some_node ends steps sorted
        covers =
      let found = sort_out-conclude ((k, x) ∷ nodes) edges compensators distinct ends in
      (
        solved ((k, x) ∷ nodes) edges compensators distinct found.0,
        rw
            (
              Ends-missing_end (keys_of ((k, x) ∷ nodes)) edges ends,
              steps-missing_step (keys_of ((k, x) ∷ nodes)) (keys_of compensators) steps,
            )
            (found.1
              ∙ conclude_complete ((k, x) ∷ nodes) edges compensators distinct found.0 plan ends
                  found.2 sorted covers),
      )
