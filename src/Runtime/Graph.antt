-- ===== src/Runtime/Graph.antt =====
-- core/crates/aaf-runtime/src/graph.rs: the validation of a graph, and its builder. The proofs are in
-- the children.
pub mod Degrees
pub mod Steps
pub mod Order
pub mod Validate
use Prim.Native.String.{◌++◌ as str_append}
use agentic_application_fram.Base.{
  ℕ, zero, suc, ◌+◌, ◌-◌, String, Option, none, some, Bool, true, false, not, ◌&&◌, List, [], ◌∷◌,
  ◌++◌, reverse, Assoc, lookup, insert, adjust, if◌then◌else◌, ◌==◌, length, all, find, has,
  text_before, str_eq, u64_max,
}

pub data GraphValidationError : Type 0 where
  cycle : String → GraphValidationError
  missing_node : String → GraphValidationError
  empty_graph : GraphValidationError

pub record Edge : Type 0 where
  pub from : String
  pub to : String

-- `keys()`, in the order of the map.
abbrev pub keys_of {ℓ} : {V : Type ℓ} → Assoc V → List String
keys_of [] = []
keys_of ((k, v) ∷ m) = k ∷ keys_of m

-- `contains_key`
abbrev pub contains_key {ℓ} : {V : Type ℓ} → String → Assoc V → Bool
contains_key k m = has k (keys_of m)

-- The first end of an edge that is no node.
unfoldable pub missing_end : List String → List Edge → Option String
missing_end ids [] = none
missing_end ids (e ∷ es) =
    let rest = missing_end ids es in
    if not (has e.from ids) then some e.from else if not (has e.to ids) then some e.to else rest

unfoldable pub missing_step : List String → List String → Option String
missing_step ids [] = none
missing_step ids (k ∷ ks) =
    let rest = missing_step ids ks in
    if not (has k ids) then some (str_append "compensator-for-" k) else rest

-- The in-degrees and the forward edges that the loop over the edges leaves.
unfoldable pub zero_degrees : List String → Assoc ℕ
zero_degrees [] = []
zero_degrees (k ∷ ks) = (k, 0) ∷ zero_degrees ks

unfoldable pub or_zero : Option ℕ → ℕ
or_zero none = 0
or_zero (some d) = d

unfoldable pub or_empty : Option (List String) → List String
or_empty none = []
or_empty (some l) = l

unfoldable pub degrees : List Edge → Assoc ℕ → Assoc ℕ
unfolding or_zero
degrees [] indeg = indeg
degrees (e ∷ es) indeg = degrees es (insert e.to (or_zero (lookup e.to indeg) + 1) indeg)

unfoldable pub adjacency : List Edge → Assoc (List String) → Assoc (List String)
unfolding or_empty
adjacency [] adj = adj
adjacency (e ∷ es) adj =
    adjacency es (insert e.from (or_empty (lookup e.from adj) ++ e.to ∷ []) adj)

-- The queue is kept with its last element first, so it is sorted downwards.
unfoldable pub enqueue : String → List String → List String
enqueue x [] = x ∷ []
enqueue x (y ∷ ys) = let rest = enqueue x ys in if text_before x y then y ∷ rest else x ∷ y ∷ ys

unfoldable pub sort : List String → List String
unfolding enqueue
sort [] = []
sort (x ∷ xs) = enqueue x (sort xs)

unfoldable pub ready : Assoc ℕ → List String
ready [] = []
ready ((k, d) ∷ indeg) = let rest = ready indeg in if d == 0 then k ∷ rest else rest

-- The variables of the loop. The order is kept with its last element first.
pub record Kahn : Type 0 where
  pub indeg : Assoc ℕ  -- usize
  pub queue : List String
  pub order : List String
  pub visited : List String

-- `*d -= 1`, which wraps around.
abbrev pub less_one : ℕ → ℕ
less_one d = if d == 0 then u64_max else d - 1

-- The body of the loop over the children, for a child with this in-degree.
unfoldable pub decrease : String → Option ℕ → Kahn → Kahn
unfolding sort
decrease c none s = s
decrease c (some d) s =
    let s' = record s { indeg = insert c (less_one d) s.indeg } in
    if less_one d == 0 then record s' { queue = sort (c ∷ s.queue) } else s'

unfoldable pub relax : List String → Kahn → Kahn
unfolding decrease
relax [] s = s
relax (c ∷ cs) s = relax cs (decrease c (lookup c s.indeg) s)

-- The body of the loop, for the node that is popped.
unfoldable pub visit : Assoc (List String) → String → List String → Kahn → Kahn
unfolding relax or_empty
visit adj n queue s = relax (or_empty (lookup n adj)) (record s {
  queue = queue;
  order = n ∷ s.order;
  visited = if has n s.visited then s.visited else n ∷ s.visited;
})

-- The loop, on fuel; `none` is that the fuel ran out.
abbrev pub drained : List String → Kahn → Option Kahn
drained [] s = some s
drained (_ ∷ _) s = none

unfoldable pub kahn : ℕ → Assoc (List String) → Kahn → Option Kahn
kahn zero adj s = drained s.queue s
kahn (suc fuel) adj s = elim s.queue [
  | [] ↦ some s
  | n ∷ queue ↦ kahn fuel adj (visit adj n queue s)
]

unfoldable pub initial_state : List String → List Edge → Kahn
unfolding zero_degrees degrees ready sort
initial_state ids edges =
    let indeg = degrees edges (zero_degrees ids) in
    record { indeg = indeg; queue = sort (ready indeg); order = []; visited = [] }

unfoldable pub unvisited : List String → List String → Option String
unvisited ids visited = find (λ k. not (has k visited)) ids

abbrev pub or_unknown : Option String → String
or_unknown none = "unknown"
or_unknown (some k) = k

pub record Graph (V : Type 0) : Type 0 where
  pub nodes : Assoc V
  pub edges : List Edge
  pub order : List String
  pub compensators : Assoc V

-- `Result<Graph, GraphValidationError>`; `out_of_fuel` is that the loop has not ended.
pub data Validation (V : Type 0) : Type 0 where
  valid : Graph V → Validation V
  invalid : GraphValidationError → Validation V
  out_of_fuel : Validation V

-- The builder; a node comes with its id.
pub record GraphBuilder (V : Type 0) : Type 0 where
  pub nodes : Assoc V
  pub edges : List Edge
  pub compensators : Assoc V

module _ {V : Type 0} where
  -- What follows the loop.
  unfoldable pub conclude : Assoc V → List Edge → Assoc V → Option Kahn → Validation V
  unfolding unvisited
  conclude nodes edges compensators none = out_of_fuel
  conclude nodes edges compensators (some s) =
      if not (length s.visited == length (keys_of nodes))
      then invalid (cycle (or_unknown (unvisited (keys_of nodes) s.visited)))
      else valid (record {
        nodes = nodes;
        edges = edges;
        order = reverse s.order;
        compensators = compensators;
      })

  unfoldable pub or_missing : Option String → Validation V → Validation V
  or_missing none next = next
  or_missing (some id) next = invalid (missing_node id)

  unfoldable pub sort_out : Assoc V → List Edge → Assoc V → Validation V
  sort_out nodes edges compensators =
      conclude nodes edges compensators
        (kahn (length (keys_of nodes)) (adjacency edges []) (initial_state (keys_of nodes) edges))

  unfoldable pub validate_with_compensators : Assoc V → List Edge → Assoc V → Validation V
  unfolding or_missing
  validate_with_compensators [] edges compensators = invalid empty_graph
  validate_with_compensators (n ∷ nodes) edges compensators =
      let ids = keys_of (n ∷ nodes) in
      or_missing (missing_end ids edges) (
        or_missing (missing_step ids (keys_of compensators))
          (sort_out (n ∷ nodes) edges compensators))

  unfoldable pub validate : Assoc V → List Edge → Validation V
  validate nodes edges = validate_with_compensators nodes edges []

  abbrev pub new : GraphBuilder V
  new = record { nodes = []; edges = []; compensators = [] }

  abbrev pub add_node : String → V → GraphBuilder V → GraphBuilder V
  add_node id node b = record b { nodes = insert id node b.nodes }

  abbrev pub add_edge : String → String → GraphBuilder V → GraphBuilder V
  add_edge from to b = record b { edges = b.edges ++ record { from = from; to = to } ∷ [] }

  abbrev pub add_compensator : String → V → GraphBuilder V → GraphBuilder V
  add_compensator for_step compensator b = record b {
    compensators = insert for_step compensator b.compensators;
  }

  unfoldable pub build : GraphBuilder V → Validation V
  build b = validate_with_compensators b.nodes b.edges b.compensators
