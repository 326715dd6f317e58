-- ===== src/Federation/Boundary.antt =====
-- What core/crates/aaf-federation/src/lib.rs lets through.
use mathlib.Core.Path.{subst}
use mathlib.Core.Option.{some-injective}
use agentic_application_fram.Base.{
  ◌≤◌, ◌≡◌, refl, sym, ◌∙◌, String, Option, none, some, true, List, [], ◌∷◌, eq_iff, All, arith,
  ◌↔◌, ◌&&◌, str_eq, has, In, FirstWith, find-FirstWith, has-In, In-has,
}
use agentic_application_fram.Float.{Float}
use agentic_application_fram.Contracts.Capability.{
  CapabilityContract, DataClassification, EntityRefLite,
}
use agentic_application_fram.Federation.{
  EntityOp, op_eq, reading, writing, emitting, ClassificationCap, level, for_data, EntityAccessRule,
  FederationAgreement, has_entity_rules, find_rule, FederationError, Router, agreement_for, under,
  exceeds, mismatch, or_next, check_rule, check_all, event_refs, check_capability,
  enforce_capability,
}

-- A rule about an operation on an entity.
pub record About (entity_id : String) (op : EntityOp) (rule : EntityAccessRule) : Type 0 where
  pub entity : rule.entity_id ≡ entity_id
  pub operation : rule.op ≡ op

-- An agreement that names both cells.
pub record Between (from to : String) (a : FederationAgreement) : Type 0 where
  pub sender : In from a.parties
  pub receiver : In to a.parties

op_eq-reading : (o : EntityOp) → (op_eq o reading ≡ true) ↔ (o ≡ reading)
op_eq-reading reading = ground arith
op_eq-reading writing = ground arith
op_eq-reading emitting = ground arith

op_eq-writing : (o : EntityOp) → (op_eq o writing ≡ true) ↔ (o ≡ writing)
op_eq-writing reading = ground arith
op_eq-writing writing = ground arith
op_eq-writing emitting = ground arith

op_eq-emitting : (o : EntityOp) → (op_eq o emitting ≡ true) ↔ (o ≡ emitting)
op_eq-emitting reading = ground arith
op_eq-emitting writing = ground arith
op_eq-emitting emitting = ground arith

op_eq_iff : (o p : EntityOp) → (op_eq o p ≡ true) ↔ (o ≡ p)
op_eq_iff o reading = op_eq-reading o
op_eq_iff o writing = op_eq-writing o
op_eq_iff o emitting = op_eq-emitting o

rule-About :
    (entity_id : String) (op : EntityOp) (r : EntityAccessRule)
    → ((str_eq r.entity_id entity_id && op_eq r.op op) ≡ true) ↔ About entity_id op r
rule-About entity_id op r = (
  λ h. record {
    entity = (eq_iff r.entity_id entity_id).0 (ground arith);
    operation = (op_eq_iff r.op op).0 (ground arith);
  },
  λ a. ground (arith, (eq_iff r.entity_id entity_id).1 a.entity, (op_eq_iff r.op op).1 a.operation),
)

agreement-Between :
    (from to : String) (a : FederationAgreement)
    → ((has from a.parties && has to a.parties) ≡ true) ↔ Between from to a
agreement-Between from to a = (
  λ h. record {
    sender = has-In from a.parties (ground arith);
    receiver = has-In to a.parties (ground arith);
  },
  λ b. ground (arith, In-has from a.parties b.sender, In-has to a.parties b.receiver),
)

-- An access of data of a class that the first rule about the entity and the operation permits: the
-- class is within its cap, and where the rule and the entity both name a tenant, it is the same.
pub record Permits (rules : List EntityAccessRule) (data_class : DataClassification) (op : EntityOp)
    (entity : EntityRefLite) : Type 0 where
  pub rule : EntityAccessRule
  pub first : FirstWith (About entity.entity_id op) rule rules
  pub capped :
      (cap : ClassificationCap)
      → rule.max_classification ≡ some cap
      → for_data data_class ≤ level cap
  pub same_tenant : (t u : String) → rule.tenant ≡ some t → entity.tenant ≡ some u → t ≡ u

or_next-none : (a b : Option FederationError) → or_next a b ≡ none → (a ≡ none) × (b ≡ none)
or_next-none none b h = (refl, h)
or_next-none (some e) b h = absurd (ground arith)

exceeds-capped :
    (capability entity_id : String) (data_class : DataClassification) (o : Option ClassificationCap)
    → exceeds capability entity_id data_class o ≡ none
    → (cap : ClassificationCap) → o ≡ some cap
    → for_data data_class ≤ level cap
unfolding exceeds
exceeds-capped capability entity_id data_class none h cap e = absurd (ground arith)
exceeds-capped capability entity_id data_class (some c) h cap e =
    subst (λ x. for_data data_class ≤ level x) (some-injective c cap e) (ground arith)

mismatch-same :
    (entity_id : String) (o p : Option String)
    → mismatch entity_id o p ≡ none
    → (t u : String) → o ≡ some t
    → p ≡ some u
    → t ≡ u
unfolding mismatch
mismatch-same entity_id none p h t u e f = absurd (ground arith)
mismatch-same entity_id (some x) none h t u e f = absurd (ground arith)
mismatch-same entity_id (some x) (some y) h t u e f =
    sym (some-injective x t e) ∙ (eq_iff x y).0 (ground arith) ∙ some-injective y u f

check_rule-Permits :
    (rules : List EntityAccessRule) (capability : String) (data_class : DataClassification)
    (entity : EntityRefLite) (op : EntityOp) (o : Option EntityAccessRule)
    → find_rule entity.entity_id op rules ≡ o
    → check_rule capability data_class entity op o ≡ none
    → Permits rules data_class op entity
unfolding check_rule find_rule
check_rule-Permits rules capability data_class entity op none e h = absurd (ground arith)
check_rule-Permits rules capability data_class entity op (some rule) e h =
    let parts = or_next-none _ _ h in
    record {
      rule = rule;
      first =
          find-FirstWith _ (About entity.entity_id op) (rule-About entity.entity_id op) rule rules
            e;
      capped =
          exceeds-capped capability entity.entity_id data_class rule.max_classification parts.0;
      same_tenant = mismatch-same entity.entity_id rule.tenant entity.tenant parts.1;
    }

check_all-Permits :
    (rules : List EntityAccessRule) (capability : String) (data_class : DataClassification)
    (op : EntityOp) (entities : List EntityRefLite)
    → check_all rules capability data_class op entities ≡ none
    → All (Permits rules data_class op) entities
unfolding check_all
check_all-Permits rules capability data_class op [] h = tt
check_all-Permits rules capability data_class op (entity ∷ entities) h =
    let parts = or_next-none _ _ h in
    (
      check_rule-Permits rules capability data_class entity op _ refl parts.0,
      check_all-Permits rules capability data_class op entities parts.1,
    )

module _ (F : Float) where
  pub record Within (a : FederationAgreement) (c : CapabilityContract F) : Type 0 where
    pub reads : All (Permits a.entity_rules c.data_classification reading) c.reads
    pub writes : All (Permits a.entity_rules c.data_classification writing) c.writes
    pub emits : All (Permits a.entity_rules c.data_classification emitting) (event_refs c.emits)

  check-Within :
      (c : CapabilityContract F) (a : FederationAgreement)
      → check_capability F c a ≡ none
      → Within a c
  unfolding check_capability
  check-Within c a h =
      let reads = or_next-none _ _ h in
      let writes = or_next-none _ _ reads.1 in
      record {
        reads = check_all-Permits a.entity_rules c.id c.data_classification reading c.reads reads.0;
        writes =
            check_all-Permits a.entity_rules c.id c.data_classification writing c.writes writes.0;
        emits =
            check_all-Permits a.entity_rules c.id c.data_classification emitting
              (event_refs c.emits) writes.1;
      }

  under-found :
      (o : Option FederationAgreement) (to : String)
      (f : FederationAgreement → Option FederationError)
      → under o to f ≡ none
      → (a : FederationAgreement) × (o ≡ some a) × (f a ≡ none)
  under-found none to f h = absurd (ground arith)
  under-found (some a) to f h = (a, refl, h)

  -- A capability that the router lets through between two cells is covered by the first agreement that
  -- names both; and if that agreement has entity rules, every entity that the capability reads, writes
  -- or emits has a first rule about that entity and that operation, whose cap, where it has one, is not
  -- below the class of the capability's data. Where this rule and an entity that is read or written both
  -- name a tenant, it is the same one; of an entity without a tenant, as every emitted one is, nothing
  -- is said about the tenant.
  pub enforce-Within :
      (from to : String) (c : CapabilityContract F) (r : Router)
      → enforce_capability F from to c r ≡ none
      → (a : FederationAgreement) × FirstWith (Between from to) a r.agreements
        × (has_entity_rules a.entity_rules ≡ true → Within a c)
  unfolding enforce_capability agreement_for
  enforce-Within from to c r h =
      let found = under-found (agreement_for from to r) to _ h in
      (
        found.0,
        find-FirstWith _ (Between from to) (agreement-Between from to) found.0 r.agreements found.1,
        λ rules. check-Within c found.0 (ground (arith, found.2)),
      )
