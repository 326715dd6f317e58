-- ===== src/Contracts/Capability.antt =====
-- core/crates/aaf-contracts/src/capability.rs: the contract of a capability and its validation.
use agentic_application_fram.Base.{
  String, Option, none, some, List, Bool, true, false, ◌&&◌, trim, is_empty, if◌then◌else◌,
}
use agentic_application_fram.Float.{Float}

pub data SideEffect : Type 0 where
  pure read write delete send payment : SideEffect

pub data DataClassification : Type 0 where
  public internal confidential restricted : DataClassification

pub data DegradationLevel : Type 0 where
  full partial cached unavailable : DegradationLevel

-- The test `matches!(se, Write | Delete | Send | Payment)` that the runtime and the rules share.
abbrev pub is_write_class : SideEffect → Bool
is_write_class pure = false
is_write_class read = false
is_write_class write = true
is_write_class delete = true
is_write_class send = true
is_write_class payment = true

-- The version and the local id of an entity are left out: no modelled code reads them.
pub record EntityRefLite : Type 0 where
  pub entity_id : String
  pub tenant : Option String

-- The version of an event is left out.
pub record EventRefLite : Type 0 where
  pub id : String

-- `AttestationLevelRef`, in the order that it derives.
pub data AttestationLevelRef : Type 0 where
  unattested auto_verified human_reviewed certified : AttestationLevelRef

-- The endpoint, the schemas, the SLA, the cost, the degradation chain, `conflicts_with` and the scope
-- of entities are left out: no modelled code reads them. A learned rule stands by its id, a
-- compensation by its endpoint.
pub record CapabilityContract (F : Float) : Type 0 where
  pub id : String
  pub name : String
  pub description : String
  pub version : String
  pub side_effect : SideEffect
  pub deterministic : Bool
  pub compensation : Option String
  pub required_scope : String
  pub data_classification : DataClassification
  pub depends_on : List String
  pub tags : List String
  pub domains : List String
  pub reads : List EntityRefLite
  pub writes : List EntityRefLite
  pub emits : List EventRefLite
  pub required_attestation_level : Option AttestationLevelRef
  pub reputation : F.Single
  pub learned_rules : List String

-- The `ContractError`s of the validation.
pub data CapabilityError : Type 0 where
  missing_field : String → CapabilityError
  missing_compensation : String → SideEffect → CapabilityError

abbrev pub is_none {ℓ} : {A : Type ℓ} → Option A → Bool
is_none none = true
is_none (some _) = false

-- `CapabilityContract::validate`; `none` is `Ok(())`.
unfoldable pub validate : {F : Float} → CapabilityContract F → Option CapabilityError
validate c =
    if is_empty (trim c.name)
    then some (missing_field "name")
    else if is_empty (trim c.version)
    then some (missing_field "version")
    else if is_write_class c.side_effect && is_none c.compensation
    then some (missing_compensation c.id c.side_effect)
    else none
