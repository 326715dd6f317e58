-- ===== src/Tests/Planner.antt =====
-- The planner at concrete inputs: a cache of two plans, a rule, and capabilities of which one depends
-- on another.
use agentic_application_fram.Base.{
  ℕ, ◌≤◌, ◌≡◌, refl, String, Option, none, some, Bool, true, false, List, [], ◌∷◌, lookup, insert,
  retain, in_order, count, has, length, eq_iff, arith, ◌==◌, Assoc, if◌then◌else◌, All, reverse,
  decimal,
}
use agentic_application_fram.Contracts.Intent.{IntentEnvelope}
use agentic_application_fram.Contracts.Capability.{
  CapabilityContract, SideEffect, DataClassification, EntityRefLite,
}
use agentic_application_fram.Registry.Store.{Registry}
use agentic_application_fram.Planner.Plan.{default_bounds, ExecutionPlan, deterministic}
use agentic_application_fram.Planner.Cache.{CacheInner, put, with_capacity}
use agentic_application_fram.Planner.Cache.Fifo.{Valid, puts, puts-new-Valid, lookup-put}
use agentic_application_fram.Planner.FastPath.{Json, FastPathRule, FastPathRuleSet, evaluate}
use agentic_application_fram.Planner.FastPath.Matching.{Answers, evaluate-Answers}
use agentic_application_fram.Planner.Composition.{
  EntityAwareComposition, ClassificationHint, default_checker, check, ids_of, is_safe,
  detect_cross_tenant_fan_out, detect_double_write, first_double, writers,
  detect_classification_leak,
}
use agentic_application_fram.Planner.Composition.Safety.{Safe, check-Safe}
use agentic_application_fram.Planner.TopoSort.{topo_sort}
use agentic_application_fram.Planner.TopoSort.Steps.{Ordered}
use agentic_application_fram.Planner.TopoSort.Complete.{topo_sort_complete, topo_sort-Ordered}
use agentic_application_fram.Planner.Planning.{Outside, RegistryPlanner, planned, plan, intent_key}
use agentic_application_fram.Planner.Planning.Fresh.{Sound, plan-Sound, plan-again}
use agentic_application_fram.Tests.Samples.{thousandths, sample_intent}

abbrev entries : List (String × ℕ)
entries = ("a", 1) ∷ ("b", 2) ∷ []

puts-new-Valid_example : Valid (puts entries (with_capacity 1))
puts-new-Valid_example = puts-new-Valid entries 1

abbrev full_cache : CacheInner ℕ
full_cache = record { map = ("a", 1) ∷ ("b", 2) ∷ []; order = "a" ∷ "b" ∷ []; capacity = 2 }

full_cache-Valid : Valid full_cache
unfolding puts put insert
full_cache-Valid = puts-new-Valid entries 2

lookup-put_example : lookup "a" (put "c" 3 full_cache).map ≡ none
lookup-put_example = lookup-put "a" "c" 3 full_cache full_cache-Valid

-- JSON values by number.
abbrev numbers : Json
numbers = record { Value = ℕ; equal = λ a b. a == b }

abbrev refund_rule : FastPathRule numbers
refund_rule = record {
  pattern = record { intent_type = "TransactionalIntent"; domain = "orders" };
  target_capability = "cap-refund";
  field_mapping = record { from = "order"; to = "order_id" } ∷ [];
  conditions = record { field = "kind"; equals = 1 } ∷ [];
}

abbrev rules : FastPathRuleSet numbers
rules = record {
  rules =
      record {
        rule = refund_rule;
        learned_rule_id = some "lr-1";
        evidence = "int-0" ∷ [];
        enabled = true;
      }
      ∷ [];
}

abbrev constraints : Assoc ℕ
constraints = ("kind", 1) ∷ ("order", 17) ∷ []

evaluate-Answers_example :
    Answers numbers thousandths rules.rules sample_intent constraints
      (evaluate numbers thousandths rules sample_intent constraints)
evaluate-Answers_example = evaluate-Answers numbers thousandths rules sample_intent constraints

abbrev order_entity : EntityRefLite
order_entity = record { entity_id = "commerce.Order"; tenant = some "acme" }

abbrev pub refund : CapabilityContract thousandths
refund = record {
  id = "cap-refund";
  name = "refund";
  description = "refund an order";
  version = "1.0.0";
  side_effect = SideEffect.payment;
  deterministic = true;
  compensation = some "cap-undo";
  required_scope = "orders:write";
  data_classification = DataClassification.internal;
  depends_on = "cap-find" ∷ [];
  tags = [];
  domains = "orders" ∷ [];
  reads = [];
  writes = order_entity ∷ [];
  emits = [];
  required_attestation_level = none;
  reputation = 1000500;
  learned_rules = [];
}

abbrev pub finder : CapabilityContract thousandths
finder = record {
  id = "cap-find";
  name = "find";
  description = "find an order";
  version = "1.0.0";
  side_effect = SideEffect.read;
  deterministic = false;
  compensation = none;
  required_scope = "orders:read";
  data_classification = DataClassification.internal;
  depends_on = [];
  tags = [];
  domains = "orders" ∷ [];
  reads = order_entity ∷ [];
  writes = [];
  emits = [];
  required_attestation_level = none;
  reputation = 1000500;
  learned_rules = [];
}

abbrev checker : EntityAwareComposition thousandths
checker = record {
  base = default_checker;
  classification_lookup = some (λ e. some ClassificationHint.internal);
}

accepted : check thousandths checker (refund ∷ finder ∷ []) ≡ none
unfolding check is_safe retain detect_cross_tenant_fan_out detect_double_write first_double in_order
    writers insert lookup detect_classification_leak
accepted = refl

check-Safe_example : Safe thousandths checker (refund ∷ finder ∷ [])
check-Safe_example = check-Safe thousandths checker (refund ∷ finder ∷ []) accepted

topo_sort_complete_example :
    (sorted_caps : List (CapabilityContract thousandths)) × (topo_sort thousandths
        (refund ∷ finder ∷ [])
      ≡ some sorted_caps)
    × ((v : String)
        → count v (ids_of thousandths sorted_caps)
          ≡ (if has v (ids_of thousandths (refund ∷ finder ∷ [])) then 1 else 0))
topo_sort_complete_example = topo_sort_complete thousandths (refund ∷ finder ∷ [])

abbrev by_length : String → ℕ
by_length s = if has s ("cap-refund" ∷ []) then 1 else 0

sorts : topo_sort thousandths (refund ∷ finder ∷ []) ≡ some (finder ∷ refund ∷ [])
unfolding topo_sort lookup insert
sorts = refl

topo_sort-Ordered_example :
    Ordered thousandths by_length ("cap-refund" ∷ "cap-find" ∷ []) (refund ∷ finder ∷ [])
topo_sort-Ordered_example =
    topo_sort-Ordered thousandths by_length (refund ∷ finder ∷ []) (finder ∷ refund ∷ [])
      (((λ e. omega arith), tt), (tt, tt)) sorts

-- The digest and the lower case of the text itself, which has no upper case.
abbrev plain : Outside
plain = record { sha256_hex = λ s. s; to_lowercase = λ s. s }

abbrev pub shop : Registry thousandths
shop = record { store = ("cap-refund", refund) ∷ ("cap-find", finder) ∷ []; reputation_rate = [] }

abbrev planner : RegistryPlanner thousandths plain
planner = record {
  bounds = record (default_bounds thousandths) { max_cost_usd = 1010000 };
  composition = default_checker;
  entity_composition = some checker;
  cache = with_capacity 8;
}

abbrev output_ids : ℕ → String
output_ids n = decimal n

abbrev refund_intent : IntentEnvelope thousandths
refund_intent = record sample_intent { goal = "refund" }

abbrev deeper_intent : IntentEnvelope thousandths
deeper_intent = record refund_intent { intent_id = "int-2"; depth = 9 }

abbrev refund_plan : ExecutionPlan
refund_plan = record {
  intent_id = "int-1";
  steps =
      record {
        step_id = 1;
        kind = deterministic;
        capability = "cap-refund";
        input_mapping = "intent.goal → cap-refund";
        output_id = "0";
      }
      ∷ [];
}

refund_planned :
    (plan thousandths plain output_ids refund_intent shop planner).0 ≡ planned refund_plan
unfolding plan lookup agentic_application_fram.Registry.Discovery.discover
    agentic_application_fram.Base.take agentic_application_fram.Base.split_whitespace
    agentic_application_fram.Base.is_empty agentic_application_fram.Base.is_whitespace
    agentic_application_fram.Base.contains agentic_application_fram.Base.join
    agentic_application_fram.Base.text_before agentic_application_fram.Base.any
    agentic_application_fram.Base.adjust agentic_application_fram.Base.remove
    agentic_application_fram.Base.place agentic_application_fram.Base.trim
    agentic_application_fram.Base.starts_with retain is_safe check detect_cross_tenant_fan_out
    detect_double_write first_double in_order writers insert decimal
    agentic_application_fram.Base.Words.words_from agentic_application_fram.Planner.Cache.evict
    agentic_application_fram.Planner.Cache.key_for agentic_application_fram.Planner.Cache.store put
    agentic_application_fram.Planner.Composition.add_tenant
    agentic_application_fram.Planner.Composition.add_tenants
    agentic_application_fram.Planner.Composition.add_writer
    agentic_application_fram.Planner.Composition.all_tenants
    agentic_application_fram.Planner.Composition.fan_out
    agentic_application_fram.Planner.Composition.leak_in
    agentic_application_fram.Planner.Composition.leak_of
    agentic_application_fram.Planner.Composition.leak_where_known
    agentic_application_fram.Planner.Composition.set_insert detect_classification_leak
    agentic_application_fram.Planner.Plan.validate agentic_application_fram.Planner.Planning.accept
    agentic_application_fram.Planner.Planning.after_entities
    agentic_application_fram.Planner.Planning.assemble
    agentic_application_fram.Planner.Planning.candidates
    agentic_application_fram.Planner.Planning.choose
    agentic_application_fram.Planner.Planning.compose
    agentic_application_fram.Planner.Planning.needed
    agentic_application_fram.Planner.Planning.plan_cached
    agentic_application_fram.Planner.Planning.steps_from intent_key topo_sort
    agentic_application_fram.Planner.TopoSort.by_id agentic_application_fram.Planner.TopoSort.visit
    agentic_application_fram.Planner.TopoSort.visit_all
    agentic_application_fram.Planner.TopoSort.visit_deps
    agentic_application_fram.Registry.Discovery.lexical_score
    agentic_application_fram.Registry.Discovery.matches
    agentic_application_fram.Registry.Discovery.place
    agentic_application_fram.Registry.Discovery.ratio_of
    agentic_application_fram.Registry.Discovery.sort agentic_application_fram.Runtime.Graph.or_empty
refund_planned = refl

plan-Sound_example : Sound thousandths plain planner refund_intent shop refund_plan
unfolding lookup
plan-Sound_example =
    plan-Sound thousandths plain output_ids refund_intent shop planner refund_plan refl
      refund_planned

new_cache-Valid : Valid planner.cache
new_cache-Valid = record { same = refl; distinct = λ v. omega arith; bounded = omega arith }

plan-again_example :
    plan thousandths plain output_ids deeper_intent shop
      (plan thousandths plain output_ids refund_intent shop planner).1
    ≡ (planned refund_plan, (plan thousandths plain output_ids refund_intent shop planner).1)
unfolding lookup intent_key
plan-again_example =
    plan-again thousandths plain output_ids output_ids refund_intent deeper_intent shop shop planner
      refund_plan new_cache-Valid refl refund_planned refl
