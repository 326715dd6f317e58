-- ===== src/Planner/TopoSort.antt =====
-- `topo_sort` of core/crates/aaf-planner/src/planner.rs: the depth-first order of the capabilities of
-- a plan. The order is kept with its last element first.
pub mod Steps
pub mod Order
pub mod Complete
use agentic_application_fram.Base.{
  ℕ, zero, suc, String, Option, none, some, Bool, true, false, ◌&&◌, List, [], ◌∷◌, reverse, Assoc,
  lookup, insert, if◌then◌else◌, length, has,
}
use agentic_application_fram.Float.{Float}
use agentic_application_fram.Contracts.Capability.{CapabilityContract}
use agentic_application_fram.Planner.Composition.{ids_of}

module _ (F : Float) where
  pub record Sorting : Type 0 where
    pub visited : List String
    pub order : List (CapabilityContract F)

  -- A call of `visit` on a dependency, where the set holds it.
  abbrev pub visit_found :
      (CapabilityContract F → Sorting → Option Sorting)
      → Option (CapabilityContract F)
      → Sorting
      → Option Sorting
  visit_found visit none s = some s
  visit_found visit (some d) s = visit d s

  abbrev pub and_then : Option Sorting → (Sorting → Option Sorting) → Option Sorting
  and_then none f = none
  and_then (some s) f = f s

  -- The loop over the dependencies.
  unfoldable pub visit_deps :
      (CapabilityContract F → Sorting → Option Sorting)
      → List String
      → Assoc (CapabilityContract F)
      → List String
      → Sorting
      → Option Sorting
  visit_deps visit id_set by_id [] s = some s
  visit_deps visit id_set by_id (dep ∷ deps) s =
      and_then (if has dep id_set then visit_found visit (lookup dep by_id) s else some s)
        (visit_deps visit id_set by_id deps)

  abbrev pub push_order : CapabilityContract F → Option Sorting → Option Sorting
  push_order c none = none
  push_order c (some s) = some (record s { order = c ∷ s.order })

  -- `visit`, on fuel; `none` is that the fuel ran out.
  unfoldable pub visit :
      ℕ
      → List String
      → Assoc (CapabilityContract F)
      → CapabilityContract F
      → Sorting
      → Option Sorting
  unfolding visit_deps
  visit zero id_set by_id c s = none
  visit (suc fuel) id_set by_id c s =
      let deps =
        visit_deps (visit fuel id_set by_id) id_set by_id c.depends_on
          (record s { visited = c.id ∷ s.visited }) in
      if has c.id s.visited then some s else push_order c deps

  unfoldable pub by_id :
      List (CapabilityContract F) → Assoc (CapabilityContract F) → Assoc (CapabilityContract F)
  by_id [] m = m
  by_id (c ∷ caps) m = by_id caps (insert c.id c m)

  -- The loop over the capabilities.
  unfoldable pub visit_all :
      ℕ
      → List String
      → Assoc (CapabilityContract F)
      → List (CapabilityContract F)
      → Sorting
      → Option Sorting
  unfolding visit
  visit_all fuel id_set m [] s = some s
  visit_all fuel id_set m (c ∷ caps) s =
      and_then (visit fuel id_set m c s) (visit_all fuel id_set m caps)

  abbrev pub sorted : Option Sorting → Option (List (CapabilityContract F))
  sorted none = none
  sorted (some s) = some (reverse s.order)

  unfoldable pub topo_sort : List (CapabilityContract F) → Option (List (CapabilityContract F))
  unfolding visit_all by_id
  topo_sort caps = sorted (
      visit_all (suc (length caps)) (ids_of F caps) (by_id caps []) caps
        (record { visited = []; order = [] }))
