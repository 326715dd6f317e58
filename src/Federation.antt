-- ===== src/Federation.antt =====
-- core/crates/aaf-federation/src/lib.rs: the agreements between cells and the router that enforces them.
-- A payload is the map of the fields of a JSON object, or no object.
pub mod Boundary
use agentic_application_fram.Base.{
  ℕ, String, Option, none, some, Bool, true, false, not, ◌&&◌, List, [], ◌∷◌, Assoc, if◌then◌else◌,
  ltb, str_eq, find, has,
}
use agentic_application_fram.Float.{Float}
use agentic_application_fram.Contracts.Capability.{
  CapabilityContract, DataClassification, public, internal, confidential, restricted, EntityRefLite,
  EventRefLite,
}
use agentic_application_fram.Runtime.Graph.{contains_key}

pub record CellConfig : Type 0 where
  pub id : String
  pub region : String
  pub local_capabilities : List String

pub data EntityOp : Type 0 where
  reading writing emitting : EntityOp

-- The derived equality.
abbrev pub op_eq : EntityOp → EntityOp → Bool
op_eq reading reading = true
op_eq writing writing = true
op_eq emitting emitting = true
op_eq _ _ = false

pub data ClassificationCap : Type 0 where
  public_cap internal_cap confidential_cap restricted_cap : ClassificationCap

abbrev pub level : ClassificationCap → ℕ
level public_cap = 0
level internal_cap = 1
level confidential_cap = 2
level restricted_cap = 3

abbrev pub for_data : DataClassification → ℕ
for_data public = 0
for_data internal = 1
for_data confidential = 2
for_data restricted = 3

pub record EntityAccessRule : Type 0 where
  pub entity_id : String
  pub op : EntityOp
  pub max_classification : Option ClassificationCap
  pub tenant : Option String

pub record FederationAgreement : Type 0 where
  pub parties : List String
  pub shared_capabilities : List String
  pub prohibited_fields : List String
  pub entity_rules : List EntityAccessRule

abbrev pub with_prohibited_fields : List String → List String → List String → FederationAgreement
with_prohibited_fields parties shared_capabilities prohibited_fields = record {
  parties = parties;
  shared_capabilities = shared_capabilities;
  prohibited_fields = prohibited_fields;
  entity_rules = [];
}

abbrev pub with_entity_rules :
    List String → List String → List EntityAccessRule → FederationAgreement
with_entity_rules parties shared_capabilities entity_rules = record {
  parties = parties;
  shared_capabilities = shared_capabilities;
  prohibited_fields = [];
  entity_rules = entity_rules;
}

abbrev pub has_entity_rules : List EntityAccessRule → Bool
has_entity_rules [] = false
has_entity_rules (_ ∷ _) = true

unfoldable pub find_rule : String → EntityOp → List EntityAccessRule → Option EntityAccessRule
find_rule entity_id op rules = find (λ r. str_eq r.entity_id entity_id && op_eq r.op op) rules

pub data FederationError : Type 0 where
  no_agreement boundary_violation : String → FederationError
  entity_not_permitted : String → EntityOp → FederationError
  classification_cap_exceeded :
      String → String → DataClassification → ClassificationCap → FederationError
  tenant_mismatch : String → String → String → FederationError

pub record Router : Type 0 where
  pub cells : List CellConfig
  pub agreements : List FederationAgreement

unfoldable pub route : String → Router → Option CellConfig
route capability_id r = find (λ c. has capability_id c.local_capabilities) r.cells

unfoldable pub agreement_for : String → String → Router → Option FederationAgreement
agreement_for from to r = find (λ a. has from a.parties && has to a.parties) r.agreements

-- The first prohibited field that the object has.
unfoldable pub prohibited : {V : Type 0} → List String → Assoc V → Option FederationError
prohibited [] obj = none
prohibited (field ∷ fields) obj =
    let rest = prohibited fields obj in
    if contains_key field obj then some (boundary_violation field) else rest

abbrev pub check_payload :
    {V : Type 0} → FederationAgreement → Option (Assoc V) → Option FederationError
check_payload a none = none
check_payload a (some obj) = prohibited a.prohibited_fields obj

-- `?` on the agreement.
abbrev pub under :
    Option FederationAgreement
    → String
    → (FederationAgreement → Option FederationError)
    → Option FederationError
under none to f = some (no_agreement to)
under (some a) to f = f a

-- The checks answer `none` for `Ok(())`.
unfoldable pub enforce_outbound :
    {V : Type 0} → String → String → Option (Assoc V) → Router → Option FederationError
unfolding prohibited
enforce_outbound from to payload r =
    under (agreement_for from to r) to (λ a. check_payload a payload)

unfoldable pub exceeds :
    String → String → DataClassification → Option ClassificationCap → Option FederationError
exceeds capability entity_id data_class none = none
exceeds capability entity_id data_class (some cap) =
    if ltb (level cap) (for_data data_class)
    then some (classification_cap_exceeded capability entity_id data_class cap)
    else none

unfoldable pub mismatch : String → Option String → Option String → Option FederationError
mismatch entity_id none cap_tenant = none
mismatch entity_id (some rule_tenant) none = none
mismatch entity_id (some rule_tenant) (some cap_tenant) =
    if not (str_eq rule_tenant cap_tenant)
    then some (tenant_mismatch entity_id rule_tenant cap_tenant)
    else none

abbrev pub or_next : Option FederationError → Option FederationError → Option FederationError
or_next none next = next
or_next (some e) next = some e

-- The closure `check`, for the rule that is found.
unfoldable pub check_rule :
    String
    → DataClassification
    → EntityRefLite
    → EntityOp
    → Option EntityAccessRule
    → Option FederationError
unfolding exceeds mismatch
check_rule capability data_class entity op none = some (entity_not_permitted entity.entity_id op)
check_rule capability data_class entity op (some rule) =
    or_next (exceeds capability entity.entity_id data_class rule.max_classification)
      (mismatch entity.entity_id rule.tenant entity.tenant)

-- A loop of `enforce_capability`.
unfoldable pub check_all :
    List EntityAccessRule
    → String
    → DataClassification
    → EntityOp
    → List EntityRefLite
    → Option FederationError
unfolding check_rule find_rule
check_all rules capability data_class op [] = none
check_all rules capability data_class op (entity ∷ entities) =
    or_next (check_rule capability data_class entity op (find_rule entity.entity_id op rules))
      (check_all rules capability data_class op entities)

-- The references that the emitted events stand for.
abbrev pub event_refs : List EventRefLite → List EntityRefLite
event_refs [] = []
event_refs (e ∷ es) = record { entity_id = e.id; tenant = none } ∷ event_refs es

module _ (F : Float) where
  unfoldable pub check_capability :
      CapabilityContract F → FederationAgreement → Option FederationError
  unfolding check_all
  check_capability c a =
      or_next (check_all a.entity_rules c.id c.data_classification reading c.reads) (
        or_next (check_all a.entity_rules c.id c.data_classification writing c.writes)
          (check_all a.entity_rules c.id c.data_classification emitting (event_refs c.emits)))

  unfoldable pub enforce_capability :
      String → String → CapabilityContract F → Router → Option FederationError
  unfolding check_capability enforce_outbound
  enforce_capability from to c r = under (agreement_for from to r) to (λ a.
      if not (has_entity_rules a.entity_rules)
      then enforce_outbound {V = Unit} from to (some []) r
      else check_capability c a)

abbrev pub if_found : String → EntityOp → Option EntityAccessRule → Option FederationError
if_found entity_id op none = some (entity_not_permitted entity_id op)
if_found entity_id op (some rule) = none

unfoldable pub enforce_outbound_entity :
    String → String → EntityRefLite → EntityOp → Router → Option FederationError
unfolding find_rule
enforce_outbound_entity from to entity op r = under (agreement_for from to r) to (λ a.
    if not (has_entity_rules a.entity_rules)
    then none
    else if_found entity.entity_id op (find_rule entity.entity_id op a.entity_rules))
