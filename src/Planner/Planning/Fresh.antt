-- ===== src/Planner/Planning/Fresh.antt =====
-- The plans that core/crates/aaf-planner/src/planner.rs makes and finds in its cache.
use mathlib.Core.Path.{subst}
use mathlib.Core.Option.{some-injective}
use agentic_application_fram.Base.{
  ℕ, ◌+◌, ◌≡◌, refl, ap, sym, ◌∙◌, String, Option, none, some, Bool, true, false, List, [], ◌∷◌,
  lookup, count, has, if◌then◌else◌, arith, eq_refl, length, retain, ◌≤◌, ◌%◌, ◌^◌,
}
use agentic_application_fram.Float.{Float}
use agentic_application_fram.Contracts.Intent.{IntentEnvelope}
use agentic_application_fram.Contracts.Capability.{CapabilityContract, is_write_class}
use agentic_application_fram.Registry.Store.{Registry}
use agentic_application_fram.Registry.Discovery.{DiscoveryResult}
use agentic_application_fram.Planner.Plan.{
  ExecutionPlan, PlannedStep, BoundsViolation, validate, InBounds, validate-InBounds,
}
use agentic_application_fram.Planner.Cache.{CacheInner, put}
use agentic_application_fram.Planner.Cache.Fifo.{Valid, lookup-put}
use agentic_application_fram.Planner.Composition.{
  CompositionViolation, EntityAwareComposition, is_safe, ids_of,
}
use agentic_application_fram.Planner.Composition.Safety.{Safe, check-Safe, is_safe-writes}
use agentic_application_fram.Planner.TopoSort.{topo_sort}
use agentic_application_fram.Planner.TopoSort.Complete.{topo_sort_complete}
use agentic_application_fram.Planner.Planning.Chosen.{Chosen, needed-Chosen}
use agentic_application_fram.Planner.Planning.{
  Outside, unsafe_composition, planned, rejected, RegistryPlanner, intent_key, candidates, needed,
  steps_from, accept, assemble, check_entities, after_entities, compose, choose, plan_cached, plan,
}

pub capabilities_of : List PlannedStep → List String
capabilities_of [] = []
capabilities_of (s ∷ steps) = s.capability ∷ capabilities_of steps

module _ (F : Float) (O : Outside) where
  -- The capabilities that a plan is made of are safe to compose: as many writes as the planner lets
  -- through, counted with 32 bits, and where it has the check of the entities, what that accepts. The
  -- plan has one step for each of their ids, and no other.
  pub record MadeOf (p : RegistryPlanner F O) (plan : ExecutionPlan)
      (chosen : List (CapabilityContract F)) : Type 0 where
    pub writes :
        length (retain (λ cap. is_write_class cap.side_effect) chosen) % 2 ^ 32
        ≤ p.composition.max_writes
    pub entities : (c : EntityAwareComposition F) → p.entity_composition ≡ some c → Safe F c chosen
    pub steps :
        (v : String)
        → count v (capabilities_of plan.steps) ≡ (if has v (ids_of F chosen) then 1 else 0)

  pub record Sound (p : RegistryPlanner F O) (i : IntentEnvelope F) (r : Registry F)
      (plan : ExecutionPlan) : Type 0 where
    pub intent : plan.intent_id ≡ i.intent_id
    pub in_bounds : InBounds F p.bounds i plan
    pub chosen : List (CapabilityContract F)
    pub is_chosen : Chosen F O i r chosen
    pub made_of : MadeOf p plan chosen

  capabilities-steps :
      (ids : ℕ → String) (n : ℕ) (caps : List (CapabilityContract F))
      → capabilities_of (steps_from F O ids n caps) ≡ ids_of F caps
  unfolding capabilities_of steps_from
  capabilities-steps ids n [] = refl
  capabilities-steps ids n (cap ∷ caps) = ap (λ l. cap.id ∷ l) (capabilities-steps ids (n + 1) caps)

  -- What each stage of the planning answers where it answers with a plan.
  accept-planned :
      (o : Option (BoundsViolation F)) (key : String) (x y : ExecutionPlan)
      (p : RegistryPlanner F O)
      → (accept F O o key x p).0 ≡ planned y
      → (o ≡ none) × (x ≡ y) × ((accept F O o key x p).1 ≡ record p { cache = put key x p.cache })
  unfolding accept
  accept-planned (some v) key x y p h = absurd (ground arith)
  accept-planned none key x y p h = (refl, ground arith, refl)

  abbrev made : (ℕ → String) → IntentEnvelope F → List (CapabilityContract F) → ExecutionPlan
  made ids i ordered = record { intent_id = i.intent_id; steps = steps_from F O ids 0 ordered }

  -- A plan of sorted capabilities that the bounds admit, and its place in the cache.
  record Assembled (ids : ℕ → String) (i : IntentEnvelope F)
      (o : Option (List (CapabilityContract F))) (p q : RegistryPlanner F O) (y : ExecutionPlan)
      : Type 0 where
    ordered : List (CapabilityContract F)
    sorts : o ≡ some ordered
    same : made ids i ordered ≡ y
    bounded : validate F p.bounds i (made ids i ordered) ≡ none
    cached : q ≡ record p { cache = put (intent_key F O i) y p.cache }

  assemble-planned :
      (ids : ℕ → String) (i : IntentEnvelope F) (o : Option (List (CapabilityContract F)))
      (p : RegistryPlanner F O) (y : ExecutionPlan)
      → (assemble F O ids i o p).0 ≡ planned y
      → Assembled ids i o p (assemble F O ids i o p).1 y
  unfolding assemble
  assemble-planned ids i none p y h = absurd (ground arith)
  assemble-planned ids i (some ordered) p y h =
      let done =
        accept-planned (validate F p.bounds i (made ids i ordered)) (intent_key F O i)
          (made ids i ordered) y p h in
      record {
        ordered = ordered;
        sorts = refl;
        same = done.1;
        bounded = done.0;
        cached = done.2 ∙ ap (λ x. record p { cache = put (intent_key F O i) x p.cache }) done.1;
      }

  entities-planned :
      (o : Option CompositionViolation) (ids : ℕ → String) (i : IntentEnvelope F)
      (chosen : List (CapabilityContract F)) (p : RegistryPlanner F O) (y : ExecutionPlan)
      → (after_entities F O o ids i chosen p).0 ≡ planned y
      → (o ≡ none)
        × Assembled ids i (topo_sort F chosen) p (after_entities F O o ids i chosen p).1 y
  unfolding after_entities
  entities-planned (some v) ids i chosen p y h = absurd (ground arith)
  entities-planned none ids i chosen p y h =
      (refl, assemble-planned ids i (topo_sort F chosen) p y h)

  -- What stands behind a plan of chosen capabilities.
  record Composed (ids : ℕ → String) (i : IntentEnvelope F) (chosen : List (CapabilityContract F))
      (p q : RegistryPlanner F O) (y : ExecutionPlan) : Type 0 where
    safe : is_safe F p.composition chosen ≡ true
    entities : check_entities F O p.entity_composition chosen ≡ none
    assembled : Assembled ids i (topo_sort F chosen) p q y

  composed :
      (b : Bool) (ids : ℕ → String) (i : IntentEnvelope F) (chosen : List (CapabilityContract F))
      (p : RegistryPlanner F O) (y : ExecutionPlan)
      → is_safe F p.composition chosen ≡ b
      → (if b
          then after_entities F O (check_entities F O p.entity_composition chosen) ids i chosen p
          else (rejected unsafe_composition, p)).0
        ≡ planned y
      → Composed ids i chosen p
          (if b
            then after_entities F O (check_entities F O p.entity_composition chosen) ids i chosen p
            else (rejected unsafe_composition, p)).1
          y
  composed true ids i chosen p y e h =
      let done =
        entities-planned (check_entities F O p.entity_composition chosen) ids i chosen p y h in
      record { safe = e; entities = done.0; assembled = done.1 }
  composed false ids i chosen p y e h = absurd (ground arith)

  compose-planned :
      (ids : ℕ → String) (i : IntentEnvelope F) (chosen : List (CapabilityContract F))
      (p : RegistryPlanner F O) (y : ExecutionPlan)
      → (compose F O ids i chosen p).0 ≡ planned y
      → Composed ids i chosen p (compose F O ids i chosen p).1 y
  unfolding compose
  compose-planned ids i chosen p y h =
      composed (is_safe F p.composition chosen) ids i chosen p y refl h

  -- A plan that no cache held.
  record New (ids : ℕ → String) (i : IntentEnvelope F) (r : Registry F) (p q : RegistryPlanner F O)
      (y : ExecutionPlan) : Type 0 where
    chosen : List (CapabilityContract F)
    is_chosen : Chosen F O i r chosen
    composed : Composed ids i chosen p q y

  choose-planned :
      (ids : ℕ → String) (i : IntentEnvelope F) (r : Registry F)
      (hits : List (DiscoveryResult F O.to_lowercase)) (p : RegistryPlanner F O) (y : ExecutionPlan)
      → candidates F O i r ≡ hits
      → (choose F O ids i hits p).0 ≡ planned y
      → New ids i r p (choose F O ids i hits p).1 y
  unfolding choose
  choose-planned ids i r [] p y e h = absurd (ground arith)
  choose-planned ids i r (hit ∷ hits) p y e h = record {
    chosen = hit.capability ∷ needed F O hit.capability hits;
    is_chosen = needed-Chosen F O i r hit hits e;
    composed = compose-planned ids i (hit.capability ∷ needed F O hit.capability hits) p y h;
  }

  cached-planned :
      (o : Option ExecutionPlan) (ids : ℕ → String) (i : IntentEnvelope F) (r : Registry F)
      (p : RegistryPlanner F O) (y : ExecutionPlan)
      → o ≡ none
      → (plan_cached F O o ids i r p).0 ≡ planned y
      → New ids i r p (plan_cached F O o ids i r p).1 y
  unfolding plan_cached
  cached-planned none ids i r p y e h = choose-planned ids i r (candidates F O i r) p y refl h
  cached-planned (some x) ids i r p y e h = absurd (ground arith)

  plan-New :
      (ids : ℕ → String) (i : IntentEnvelope F) (r : Registry F) (p : RegistryPlanner F O)
      (y : ExecutionPlan)
      → lookup (intent_key F O i) p.cache.map ≡ none
      → (plan F O ids i r p).0 ≡ planned y
      → New ids i r p (plan F O ids i r p).1 y
  unfolding plan
  plan-New ids i r p y e h = cached-planned (lookup (intent_key F O i) p.cache.map) ids i r p y e h

  entities-Safe :
      (o : Option (EntityAwareComposition F)) (chosen : List (CapabilityContract F))
      → check_entities F O o chosen ≡ none
      → (c : EntityAwareComposition F) → o ≡ some c
      → Safe F c chosen
  entities-Safe none chosen h c e = absurd (ground arith)
  entities-Safe (some d) chosen h c e =
      subst (λ x. Safe F x chosen) (some-injective d c e) (check-Safe F d chosen h)

  assembled-Sound :
      (ids : ℕ → String) (i : IntentEnvelope F) (r : Registry F)
      (chosen : List (CapabilityContract F)) (p q : RegistryPlanner F O) (y : ExecutionPlan)
      → Chosen F O i r chosen
      → Composed ids i chosen p q y
      → Sound p i r y
  assembled-Sound ids i r chosen p q y c h =
      let a = h.assembled in
      let sorting = topo_sort_complete F chosen in
      let same = some-injective _ _ (sym a.sorts ∙ sorting.1) in
      subst (Sound p i r) a.same (record {
        intent = refl;
        in_bounds = validate-InBounds F p.bounds i (made ids i a.ordered) a.bounded;
        chosen = chosen;
        is_chosen = c;
        made_of = record {
          writes = is_safe-writes F p.composition chosen h.safe;
          entities = entities-Safe p.entity_composition chosen h.entities;
          steps = λ v.
              ap (count v) (capabilities-steps ids 0 a.ordered ∙ ap (ids_of F) same) ∙ sorting.2 v;
        };
      })

  -- A plan that was not in the cache is a plan of its intent and within the bounds for it. It is made
  -- of the first capability that the discovery answers for the goal, in the intent's domain or, where
  -- it answers none there, in any domain, and of those of its other answers that this one names among
  -- its dependencies: it has exactly one step for each id among them, and no other step. These
  -- capabilities are all in the registry; no more of them write than the planner admits, as counted
  -- modulo 2 ^ 32; and where the planner has the entity-aware check, they satisfy what it requires.
  pub plan-Sound :
      (ids : ℕ → String) (i : IntentEnvelope F) (r : Registry F) (p : RegistryPlanner F O)
      (y : ExecutionPlan)
      → lookup (intent_key F O i) p.cache.map ≡ none
      → (plan F O ids i r p).0 ≡ planned y
      → Sound p i r y
  plan-Sound ids i r p y e h =
      let new = plan-New ids i r p y e h in
      assembled-Sound ids i r new.chosen p _ y new.is_chosen new.composed

  found-plan :
      (o : Option ExecutionPlan) (ids : ℕ → String) (i : IntentEnvelope F) (r : Registry F)
      (p : RegistryPlanner F O) (y : ExecutionPlan)
      → o ≡ some y
      → plan_cached F O o ids i r p ≡ (planned y, p)
  unfolding plan_cached
  found-plan none ids i r p y e = absurd (ground arith)
  found-plan (some x) ids i r p y e = ap (λ z. (planned z, p)) (some-injective x y e)

  put-found :
      (key : String) (y : ExecutionPlan) (c : CacheInner ExecutionPlan)
      → Valid c
      → lookup key (put key y c).map ≡ some y
  put-found key y c valid = lookup-put key key y c valid ∙ (rw (eq_refl key) refl)

  from-cache :
      (ids : ℕ → String) (i : IntentEnvelope F) (r : Registry F) (p : RegistryPlanner F O)
      (y : ExecutionPlan)
      → lookup (intent_key F O i) p.cache.map ≡ some y
      → plan F O ids i r p ≡ (planned y, p)
  unfolding plan
  from-cache ids i r p y e = found-plan (lookup (intent_key F O i) p.cache.map) ids i r p y e

  -- After a new plan is made, every intent with the same key, that is with the same type, domain and
  -- goal, is answered with that plan from the cache, without a check of its bounds, whatever its
  -- depth and budget are and whatever the registry holds then.
  pub plan-again :
      (ids jds : ℕ → String) (i j : IntentEnvelope F) (r s : Registry F) (p : RegistryPlanner F O)
      (y : ExecutionPlan)
      → Valid p.cache
      → lookup (intent_key F O i) p.cache.map ≡ none
      → (plan F O ids i r p).0 ≡ planned y
      → intent_key F O j ≡ intent_key F O i
      → plan F O jds j s (plan F O ids i r p).1 ≡ (planned y, (plan F O ids i r p).1)
  plan-again ids jds i j r s p y valid e h same =
      let cached = (plan-New ids i r p y e h).composed.assembled.cached in
      from-cache jds j s (plan F O ids i r p).1 y (
        ap (λ q. lookup (intent_key F O j) q.cache.map) cached
        ∙ ap (λ k. lookup k (put (intent_key F O i) y p.cache).map) same
        ∙ put-found (intent_key F O i) y p.cache valid)
