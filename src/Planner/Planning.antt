-- ===== src/Planner/Planning.antt =====
-- `RegistryPlanner` of core/crates/aaf-planner/src/planner.rs. The digest and the lower case are
-- parameters; the fresh ids of the outputs are an argument, by the position of the step.
pub mod Chosen
pub mod Fresh
use Prim.Native.String.{◌++◌ as str_append}
use agentic_application_fram.Base.{
  ℕ, zero, suc, ◌+◌, ◌%◌, ◌^◌, String, Option, none, some, Bool, true, false, List, [], ◌∷◌,
  if◌then◌else◌, ◌==◌, has, retain, decimal,
}
use agentic_application_fram.Float.{Float}
use agentic_application_fram.Contracts.Intent.{IntentEnvelope}
use agentic_application_fram.Contracts.Capability.{CapabilityContract}
use agentic_application_fram.Registry.Store.{Registry}
use agentic_application_fram.Registry.Discovery.{DiscoveryQuery, DiscoveryResult, discover}
use agentic_application_fram.Registry.Discovery
use agentic_application_fram.Planner.Plan.{
  ExecutionPlan, PlannedStep, PlannedStepKind, deterministic, agent, BoundedAutonomy,
  BoundsViolation, validate,
}
use agentic_application_fram.Planner.Cache.{CacheInner, key_for, get, put}
use agentic_application_fram.Planner.Cache
use agentic_application_fram.Planner.FastPath.{debug_name}
use agentic_application_fram.Planner.Composition.{
  CompositionChecker, CompositionViolation, EntityAwareComposition, is_safe, check,
}
use agentic_application_fram.Planner.TopoSort.{topo_sort}

-- What the planner calls outside: the hexadecimal SHA-256 and the lower case of a text.
pub record Outside : Type 0 where
  pub sha256_hex : String → String
  pub to_lowercase : String → String

module _ (F : Float) (O : Outside) where
  -- The registry in memory never fails. `out_of_fuel` is that the sort has not ended.
  pub data PlannerError : Type 0 where
    bounds : BoundsViolation F → PlannerError
    unsafe_composition : PlannerError
    unsafe_entity_composition : CompositionViolation → PlannerError
    no_capability : PlannerError
    out_of_fuel : PlannerError

  -- `Result<ExecutionPlan, PlannerError>`
  pub data Planned : Type 0 where
    planned : ExecutionPlan → Planned
    rejected : PlannerError → Planned

  -- The registry is shared with others and is an argument of `plan`.
  pub record RegistryPlanner : Type 0 where
    pub bounds : BoundedAutonomy F
    pub composition : CompositionChecker
    pub entity_composition : Option (EntityAwareComposition F)
    pub cache : CacheInner ExecutionPlan

  abbrev pub new : BoundedAutonomy F → CompositionChecker → RegistryPlanner
  new limits composition = record {
    bounds = limits;
    composition = composition;
    entity_composition = none;
    cache = Cache.new;
  }

  abbrev pub with_entity_composition : EntityAwareComposition F → RegistryPlanner → RegistryPlanner
  with_entity_composition checker p = record p { entity_composition = some checker }

  unfoldable pub intent_key : IntentEnvelope F → String
  intent_key i = key_for O.sha256_hex O.to_lowercase i.goal i.domain (debug_name i.intent_type)

  abbrev pub or_else :
      List (DiscoveryResult F O.to_lowercase)
      → List (DiscoveryResult F O.to_lowercase)
      → List (DiscoveryResult F O.to_lowercase)
  or_else [] second = second
  or_else (h ∷ hits) second = h ∷ hits

  -- The candidates of the domain, or else those of every domain.
  unfoldable pub candidates :
      IntentEnvelope F → Registry F → List (DiscoveryResult F O.to_lowercase)
  candidates i r =
      or_else
        (discover F O.to_lowercase (record { query = i.goal; domain = some i.domain; limit = 10 })
          r)
        (discover F O.to_lowercase (Discovery.new i.goal) r)

  -- The hits after the first that the first one depends on.
  unfoldable pub needed :
      CapabilityContract F → List (DiscoveryResult F O.to_lowercase) → List (CapabilityContract F)
  needed top [] = []
  needed top (hit ∷ hits) =
      let rest = needed top hits in
      if has hit.capability.id top.depends_on then hit.capability ∷ rest else rest

  abbrev pub input_of : ℕ → String → String
  input_of idx id =
      if idx == 0
      then str_append "intent.goal → " id
      else str_append "step_" (str_append (decimal idx) (str_append ".output → " id))

  unfoldable pub steps_from : (ℕ → String) → ℕ → List (CapabilityContract F) → List PlannedStep
  steps_from ids idx [] = []
  steps_from ids idx (cap ∷ caps) =
      record {
        step_id = (idx + 1) % 2 ^ 32;
        kind = if cap.deterministic then deterministic else agent;
        capability = cap.id;
        input_mapping = input_of idx cap.id;
        output_id = ids idx;
      }
      ∷ steps_from ids (idx + 1) caps

  -- The bounds, and the store of the plan in the cache.
  unfoldable pub accept :
      Option (BoundsViolation F)
      → String
      → ExecutionPlan
      → RegistryPlanner
      → Planned × RegistryPlanner
  accept (some v) key plan p = (rejected (bounds v), p)
  accept none key plan p = (planned plan, record p { cache = put key plan p.cache })

  unfoldable pub assemble :
      (ℕ → String)
      → IntentEnvelope F
      → Option (List (CapabilityContract F))
      → RegistryPlanner
      → Planned × RegistryPlanner
  unfolding accept
  assemble ids i none p = (rejected out_of_fuel, p)
  assemble ids i (some ordered) p =
      let plan : ExecutionPlan = record {
        intent_id = i.intent_id;
        steps = steps_from ids 0 ordered;
      } in
      accept (validate F p.bounds i plan) (intent_key i) plan p

  abbrev pub check_entities :
      Option (EntityAwareComposition F) → List (CapabilityContract F) → Option CompositionViolation
  check_entities none caps = none
  check_entities (some ec) caps = check F ec caps

  unfoldable pub after_entities :
      Option CompositionViolation
      → (ℕ → String)
      → IntentEnvelope F
      → List (CapabilityContract F)
      → RegistryPlanner
      → Planned × RegistryPlanner
  unfolding assemble
  after_entities (some v) ids i chosen p = (rejected (unsafe_entity_composition v), p)
  after_entities none ids i chosen p = assemble ids i (topo_sort F chosen) p

  unfoldable pub compose :
      (ℕ → String)
      → IntentEnvelope F
      → List (CapabilityContract F)
      → RegistryPlanner
      → Planned × RegistryPlanner
  unfolding after_entities
  compose ids i chosen p =
      if is_safe F p.composition chosen
      then after_entities (check_entities p.entity_composition chosen) ids i chosen p
      else (rejected unsafe_composition, p)

  unfoldable pub choose :
      (ℕ → String)
      → IntentEnvelope F
      → List (DiscoveryResult F O.to_lowercase)
      → RegistryPlanner
      → Planned × RegistryPlanner
  unfolding compose needed
  choose ids i [] p = (rejected no_capability, p)
  choose ids i (hit ∷ hits) p = compose ids i (hit.capability ∷ needed hit.capability hits) p

  unfoldable pub plan_cached :
      Option ExecutionPlan
      → (ℕ → String)
      → IntentEnvelope F
      → Registry F
      → RegistryPlanner
      → Planned × RegistryPlanner
  unfolding choose candidates
  plan_cached (some plan) ids i r p = (planned plan, p)
  plan_cached none ids i r p = choose ids i (candidates i r) p

  unfoldable pub plan :
      (ℕ → String) → IntentEnvelope F → Registry F → RegistryPlanner → Planned × RegistryPlanner
  unfolding plan_cached
  plan ids i r p = plan_cached (get (intent_key i) p.cache) ids i r p
