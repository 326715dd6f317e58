-- ===== src/Planner/FastPath/Matching.antt =====
-- What core/crates/aaf-planner/src/fast_path.rs matches, and the switching of learned rules.
use agentic_application_fram.Base.{
  ◌≡◌, refl, inl, inr, String, Bool, true, false, not, ◌&&◌, List, [], ◌∷◌, Assoc, lookup,
  lookup-insert, ap, ◌∙◌, Option, none, some, if◌then◌else◌, str_eq, arith, Bool-cases, retain, All,
  eq_iff,
}
use agentic_application_fram.Float.{Float}
use agentic_application_fram.Contracts.Intent.{IntentEnvelope}
use agentic_application_fram.Planner.FastPath.{
  FieldMapping, put_field, Json, Condition, FastPathOutcome, matched, no_match, TaggedRule,
  FastPathRuleSet, debug_name, disable_learned, is_learned_as, set_enabled, conditions_ok,
  is_equal_to, map_fields, evaluate_rules, evaluate,
}

module _ (J : Json) (F : Float) where
  -- The set without the rules that were learned under an id.
  unfoldable pub without_learned : String → FastPathRuleSet J → FastPathRuleSet J
  without_learned id s = record {
    rules = retain (λ r. not (is_learned_as J id r.learned_rule_id)) s.rules;
  }

  evaluate-disabled :
      (id : String) (rules : List (TaggedRule J)) (intent : IntentEnvelope F)
      (constraints : Assoc J.Value)
      → evaluate_rules J F (set_enabled J false id rules) intent constraints
        ≡ evaluate_rules J F
            (retain (λ r. not (is_learned_as J id r.learned_rule_id)) rules)
            intent
            constraints
  unfolding evaluate_rules set_enabled retain
  evaluate-disabled id [] intent constraints = refl
  evaluate-disabled id (r ∷ rs) intent constraints =
      ground (arith, evaluate-disabled id rs intent constraints)

  -- After a learned rule is disabled, every intent is answered as by the set without the rules that
  -- were learned under its id.
  pub evaluate-disable :
      (id : String) (s : FastPathRuleSet J) (intent : IntentEnvelope F)
      (constraints : Assoc J.Value)
      → evaluate J F (disable_learned J id s) intent constraints
        ≡ evaluate J F (without_learned id s) intent constraints
  unfolding evaluate without_learned
  evaluate-disable id s intent constraints = evaluate-disabled id s.rules intent constraints

  -- A rule that is enabled and whose pattern and conditions an intent meets.
  pub record Meets (r : TaggedRule J) (intent : IntentEnvelope F) (constraints : Assoc J.Value)
      : Type 0 where
    pub enabled : r.enabled ≡ true
    pub intent_type : debug_name intent.intent_type ≡ r.rule.pattern.intent_type
    pub domain : intent.domain ≡ r.rule.pattern.domain
    pub conditions :
        All (λ c. is_equal_to J c.equals (lookup c.field constraints) ≡ true) r.rule.conditions

  -- The first rule of a list that an intent meets.
  pub data First (intent : IntentEnvelope F) (constraints : Assoc J.Value)
      : List (TaggedRule J) → TaggedRule J → Type 0 where
    here :
        {r : TaggedRule J} {rs : List (TaggedRule J)}
        → Meets r intent constraints
        → First intent constraints (r ∷ rs) r
    later :
        {r q : TaggedRule J} {rs : List (TaggedRule J)}
        → ¬ Meets q intent constraints
        → First intent constraints rs r
        → First intent constraints (q ∷ rs) r

  conditions-All :
      (constraints : Assoc J.Value) (cs : List (Condition J))
      → conditions_ok J constraints cs ≡ true
      → All (λ c. is_equal_to J c.equals (lookup c.field constraints) ≡ true) cs
  unfolding conditions_ok
  conditions-All constraints [] h = tt
  conditions-All constraints (c ∷ cs) h =
      (ground arith, conditions-All constraints cs (ground arith))

  All-conditions :
      (constraints : Assoc J.Value) (cs : List (Condition J))
      → All (λ c. is_equal_to J c.equals (lookup c.field constraints) ≡ true) cs
      → conditions_ok J constraints cs ≡ true
  unfolding conditions_ok
  All-conditions constraints [] h = refl
  All-conditions constraints (c ∷ cs) h = ground (arith, h.0, All-conditions constraints cs h.1)

  abbrev meets : TaggedRule J → IntentEnvelope F → Assoc J.Value → Bool
  meets r intent constraints =
      r.enabled
      && str_eq (debug_name intent.intent_type) r.rule.pattern.intent_type
      && str_eq intent.domain r.rule.pattern.domain
      && conditions_ok J constraints r.rule.conditions

  meets-Meets :
      (r : TaggedRule J) (intent : IntentEnvelope F) (constraints : Assoc J.Value)
      → meets r intent constraints ≡ true
      → Meets r intent constraints
  meets-Meets r intent constraints h = record {
    enabled = ground arith;
    intent_type = (eq_iff _ _).0 (ground arith);
    domain = (eq_iff _ _).0 (ground arith);
    conditions = conditions-All constraints r.rule.conditions (ground arith);
  }

  Meets-meets :
      (r : TaggedRule J) (intent : IntentEnvelope F) (constraints : Assoc J.Value)
      → Meets r intent constraints
      → meets r intent constraints ≡ true
  Meets-meets r intent constraints m = ground (
    arith,
    m.enabled,
    (eq_iff _ _).1 m.intent_type,
    (eq_iff _ _).1 m.domain,
    All-conditions constraints r.rule.conditions m.conditions,
  )

  abbrev answer : TaggedRule J → Assoc J.Value → FastPathOutcome J
  answer r constraints =
      matched r.rule.target_capability (map_fields J constraints r.rule.field_mapping [])

  evaluate-step :
      (r : TaggedRule J) (rs : List (TaggedRule J)) (intent : IntentEnvelope F)
      (constraints : Assoc J.Value)
      → evaluate_rules J F (r ∷ rs) intent constraints ≡ (
          if meets r intent constraints
          then answer r constraints
          else evaluate_rules J F rs intent constraints)
  unfolding evaluate_rules
  evaluate-step r rs intent constraints = ground arith

  -- The value that a mapping gives to a field: that of the constraint which the last entry for the
  -- field names, of those whose constraint is there.
  pub value_at : Assoc J.Value → List FieldMapping → String → Option J.Value
  value_at constraints [] k = none
  value_at constraints (fm ∷ fms) k = elim (value_at constraints fms k) [
    | some v ↦ some v
    | none ↦ if str_eq fm.to k then lookup fm.from constraints else none
  ]

  abbrev or_old : Option J.Value → Option J.Value → Option J.Value
  or_old (some v) old = some v
  or_old none old = old

  lookup-put_field :
      (to k : String) (o : Option J.Value) (mapped : Assoc J.Value)
      → lookup k (put_field J to o mapped)
        ≡ or_old (if str_eq to k then o else none) (lookup k mapped)
  lookup-put_field to k none mapped = ground arith
  lookup-put_field to k (some v) mapped = elim (Bool-cases (str_eq to k)) [
    | inl e ↦ rw (lookup-insert, e) refl
    | inr e ↦ rw (lookup-insert, e) refl
  ]

  or_old_assoc :
      (later first old : Option J.Value)
      → or_old later (or_old first old) ≡ or_old (elim later [ some v ↦ some v | none ↦ first ]) old
  or_old_assoc none first old = refl
  or_old_assoc (some v) first old = refl

  lookup-map_fields :
      (constraints : Assoc J.Value) (fms : List FieldMapping) (mapped : Assoc J.Value) (k : String)
      → lookup k (map_fields J constraints fms mapped)
        ≡ or_old (value_at constraints fms k) (lookup k mapped)
  unfolding map_fields value_at
  lookup-map_fields constraints [] mapped k = refl
  lookup-map_fields constraints (fm ∷ fms) mapped k =
      lookup-map_fields constraints fms _ k
      ∙ ap (or_old (value_at constraints fms k))
          (lookup-put_field fm.to k (lookup fm.from constraints) mapped)
      ∙ or_old_assoc (value_at constraints fms k) _ (lookup k mapped)

  mapped-value_at :
      (constraints : Assoc J.Value) (fms : List FieldMapping) (k : String)
      → lookup k (map_fields J constraints fms []) ≡ value_at constraints fms k
  unfolding lookup
  mapped-value_at constraints fms k =
      lookup-map_fields constraints fms [] k ∙ or_old-none (value_at constraints fms k)
    where
      or_old-none : (o : Option J.Value) → or_old o none ≡ o
      or_old-none none = refl
      or_old-none (some v) = refl

  -- What an outcome says of the rules: the target and the mapped fields of the first rule that the
  -- intent meets, with the values that its mapping gives them, or that it meets none.
  abbrev pub Answers :
      List (TaggedRule J) → IntentEnvelope F → Assoc J.Value → FastPathOutcome J → Type 0
  Answers rules intent constraints (matched target fields) =
      (r : TaggedRule J) × First intent constraints rules r
      × (target ≡ r.rule.target_capability)
      × (fields ≡ map_fields J constraints r.rule.field_mapping [])
      × ((k : String) → lookup k fields ≡ value_at constraints r.rule.field_mapping k)
  Answers rules intent constraints no_match = All (λ r. ¬ Meets r intent constraints) rules

  Answers-later :
      (r : TaggedRule J) (rs : List (TaggedRule J)) (intent : IntentEnvelope F)
      (constraints : Assoc J.Value) (o : FastPathOutcome J)
      → ¬ Meets r intent constraints
      → Answers rs intent constraints o
      → Answers (r ∷ rs) intent constraints o
  Answers-later r rs intent constraints (matched target fields) n a =
      (a.0, later n a.1, a.2, a.3, a.4)
  Answers-later r rs intent constraints no_match n a = (n, a)

  evaluate-nil :
      (intent : IntentEnvelope F) (constraints : Assoc J.Value)
      → evaluate_rules J F [] intent constraints ≡ no_match
  unfolding evaluate_rules
  evaluate-nil intent constraints = refl

  rules-Answers :
      (rules : List (TaggedRule J)) (intent : IntentEnvelope F) (constraints : Assoc J.Value)
      → Answers rules intent constraints (evaluate_rules J F rules intent constraints)
  rules-Answers [] intent constraints = rw (evaluate-nil intent constraints) tt
  rules-Answers (r ∷ rs) intent constraints = elim (Bool-cases (meets r intent constraints)) [
    | inl met ↦
        rw (evaluate-step r rs intent constraints, met)
          (
            r,
            here (meets-Meets r intent constraints met),
            refl,
            refl,
            mapped-value_at constraints r.rule.field_mapping,
          )
    | inr unmet ↦
        rw (evaluate-step r rs intent constraints, unmet)
          (Answers-later r rs intent constraints _
            (λ m. ground (arith, Meets-meets r intent constraints m))
            (rules-Answers rs intent constraints))
  ]

  -- An intent is answered by the target and the mapped fields of the first rule that is enabled and
  -- whose pattern and conditions it meets, and by no match exactly where it meets none. A mapped field
  -- has the value of the constraint that the last entry of the mapping for it names, of those entries
  -- whose constraint is there, and every other field is missing.
  pub evaluate-Answers :
      (s : FastPathRuleSet J) (intent : IntentEnvelope F) (constraints : Assoc J.Value)
      → Answers s.rules intent constraints (evaluate J F s intent constraints)
  unfolding evaluate
  evaluate-Answers s intent constraints = rules-Answers s.rules intent constraints
