-- ===== src/Planner/FastPath.antt =====
-- core/crates/aaf-planner/src/fast_path.rs: the rules that map a request to a capability. JSON values
-- and their equality are parameters; the constraints of an intent are an argument. An object is
-- the map of its fields.
pub mod Matching
use agentic_application_fram.Base.{
  String, Option, none, some, Bool, true, false, not, ◌&&◌, List, [], ◌∷◌, ◌++◌, Assoc, lookup,
  insert, if◌then◌else◌, str_eq,
}
use agentic_application_fram.Float.{Float}
use agentic_application_fram.Contracts.Intent.{
  IntentEnvelope, IntentType, transactional_intent, analytical_intent, delegation_intent,
  planning_intent, governance_intent,
}

pub record FieldMapping : Type 0 where
  pub from : String
  pub to : String

pub record RequestPattern : Type 0 where
  pub intent_type : String
  pub domain : String

-- `format!("{:?}", intent_type)`
abbrev pub debug_name : IntentType → String
debug_name transactional_intent = "TransactionalIntent"
debug_name analytical_intent = "AnalyticalIntent"
debug_name planning_intent = "PlanningIntent"
debug_name delegation_intent = "DelegationIntent"
debug_name governance_intent = "GovernanceIntent"

pub record Json : Type 1 where
  pub Value : Type 0
  pub equal : Value → Value → Bool

module _ (J : Json) where
  pub record Condition : Type 0 where
    pub field : String
    pub equals : J.Value

  pub record FastPathRule : Type 0 where
    pub pattern : RequestPattern
    pub target_capability : String
    pub field_mapping : List FieldMapping
    pub conditions : List Condition

  pub data FastPathOutcome : Type 0 where
    matched : String → Assoc J.Value → FastPathOutcome
    no_match : FastPathOutcome

  pub record TaggedRule : Type 0 where
    pub rule : FastPathRule
    pub learned_rule_id : Option String
    pub evidence : List String
    pub enabled : Bool

  pub record FastPathRuleSet : Type 0 where
    pub rules : List TaggedRule

  abbrev pub new : FastPathRuleSet
  new = record { rules = [] }

  abbrev pub push : FastPathRule → FastPathRuleSet → FastPathRuleSet
  push rule s = record {
    rules =
        s.rules
        ++ record { rule = rule; learned_rule_id = none; evidence = []; enabled = true } ∷ [];
  }

  abbrev pub add_learned : FastPathRule → String → List String → FastPathRuleSet → FastPathRuleSet
  add_learned rule learned_rule_id evidence s = record {
    rules =
        s.rules
        ++ record {
          rule = rule;
          learned_rule_id = some learned_rule_id;
          evidence = evidence;
          enabled = true;
        }
          ∷ [];
  }

  -- `learned_rule_id.as_deref() == Some(id)`
  abbrev pub is_learned_as : String → Option String → Bool
  is_learned_as id none = false
  is_learned_as id (some learned) = str_eq learned id

  unfoldable pub set_enabled : Bool → String → List TaggedRule → List TaggedRule
  set_enabled value id [] = []
  set_enabled value id (r ∷ rs) =
      let rest = set_enabled value id rs in
      (if is_learned_as id r.learned_rule_id then record r { enabled = value } else r) ∷ rest

  abbrev pub disable_learned : String → FastPathRuleSet → FastPathRuleSet
  disable_learned id s = record { rules = set_enabled false id s.rules }

  abbrev pub enable_learned : String → FastPathRuleSet → FastPathRuleSet
  enable_learned id s = record { rules = set_enabled true id s.rules }

  abbrev pub learned_id : Option String → List String → List String
  learned_id none rest = rest
  learned_id (some id) rest = id ∷ rest

  unfoldable pub learned_ids : List TaggedRule → List String
  learned_ids [] = []
  learned_ids (r ∷ rs) = learned_id r.learned_rule_id (learned_ids rs)

  abbrev pub list_learned : FastPathRuleSet → List String
  list_learned s = learned_ids s.rules

  -- `constraints.get(&c.field) == Some(&c.equals)`
  abbrev pub is_equal_to : J.Value → Option J.Value → Bool
  is_equal_to v none = false
  is_equal_to v (some w) = J.equal w v

  unfoldable pub conditions_ok : Assoc J.Value → List Condition → Bool
  conditions_ok constraints [] = true
  conditions_ok constraints (c ∷ cs) =
      let rest = conditions_ok constraints cs in
      if not (is_equal_to c.equals (lookup c.field constraints)) then false else rest

  abbrev pub put_field : String → Option J.Value → Assoc J.Value → Assoc J.Value
  put_field to none mapped = mapped
  put_field to (some v) mapped = insert to v mapped

  unfoldable pub map_fields : Assoc J.Value → List FieldMapping → Assoc J.Value → Assoc J.Value
  map_fields constraints [] mapped = mapped
  map_fields constraints (fm ∷ fms) mapped =
      map_fields constraints fms (put_field fm.to (lookup fm.from constraints) mapped)

  module _ (F : Float) where
    unfoldable pub evaluate_rules :
        List TaggedRule → IntentEnvelope F → Assoc J.Value → FastPathOutcome
    evaluate_rules [] intent constraints = no_match
    evaluate_rules (tagged ∷ rules) intent constraints =
        let rest = evaluate_rules rules intent constraints in
        if not tagged.enabled
        then rest
        else if not (str_eq (debug_name intent.intent_type) tagged.rule.pattern.intent_type)
        then rest
        else if not (str_eq intent.domain tagged.rule.pattern.domain)
        then rest
        else if not (conditions_ok constraints tagged.rule.conditions)
        then rest
        else matched tagged.rule.target_capability
            (map_fields constraints tagged.rule.field_mapping [])

    unfoldable pub evaluate : FastPathRuleSet → IntentEnvelope F → Assoc J.Value → FastPathOutcome
    evaluate s intent constraints = evaluate_rules s.rules intent constraints
