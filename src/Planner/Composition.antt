-- ===== src/Planner/Composition.antt =====
-- core/crates/aaf-planner/src/composition.rs: whether capabilities may stand in one plan. The lookup
-- of the classification of an entity is a function that the checker holds.
pub mod Entities
pub mod Safety
use agentic_application_fram.Base.{
  ℕ, ◌%◌, ◌^◌, String, Option, none, some, Bool, true, false, ◌&&◌, List, [], ◌∷◌, ◌++◌, Assoc,
  lookup, insert, if◌then◌else◌, leb, ltb, length, any, retain, has, in_order,
}
use agentic_application_fram.Float.{Float}
use agentic_application_fram.Contracts.Capability.{
  CapabilityContract, EntityRefLite, DataClassification, confidential, restricted, is_write_class,
}
use agentic_application_fram.Runtime.Graph.{or_empty}

pub data ClassificationHint : Type 0 where
  public internal pii : ClassificationHint
  regulated : String → ClassificationHint

abbrev pub level : ClassificationHint → ℕ
level ClassificationHint.public = 0
level ClassificationHint.internal = 1
level pii = 2
level (regulated _) = 3

abbrev pub level_of_capability : DataClassification → ℕ
level_of_capability DataClassification.public = 0
level_of_capability DataClassification.internal = 1
level_of_capability confidential = 2
level_of_capability restricted = 3

pub data CompositionViolation : Type 0 where
  double_write : String → List String → CompositionViolation
  classification_leak :
      String → String → DataClassification → ClassificationHint → CompositionViolation
  cross_tenant_fan_out : List String → CompositionViolation

pub record CompositionChecker : Type 0 where
  pub max_writes : ℕ  -- u32

abbrev pub default_checker : CompositionChecker
default_checker = record { max_writes = 3 }

-- `insert` of a set.
unfoldable pub set_insert : String → List String → List String
set_insert t s = if has t s then s else t ∷ s

-- The writers of each entity.
unfoldable pub add_writer : String → List EntityRefLite → Assoc (List String) → Assoc (List String)
unfolding or_empty
add_writer id [] writers = writers
add_writer id (w ∷ ws) writers =
    add_writer id ws (insert w.entity_id (or_empty (lookup w.entity_id writers) ++ id ∷ []) writers)

unfoldable pub first_double : Assoc (List String) → Option CompositionViolation
first_double [] = none
first_double ((entity_id, caps) ∷ m) =
    let rest = first_double m in
    if leb 2 (length caps) then some (double_write entity_id caps) else rest

abbrev pub or_next :
    Option CompositionViolation → Option CompositionViolation → Option CompositionViolation
or_next none next = next
or_next (some v) next = some v

pub record Tenants : Type 0 where
  pub tenants : List String
  pub per_entity_tenants : Assoc (List String)

unfoldable pub add_tenant : String → Option String → Tenants → Tenants
unfolding or_empty set_insert
add_tenant entity none t = t
add_tenant entity (some tenant) t = record {
  tenants = set_insert tenant t.tenants;
  per_entity_tenants =
      insert entity (set_insert tenant (or_empty (lookup entity t.per_entity_tenants)))
        t.per_entity_tenants;
}

unfoldable pub add_tenants : List EntityRefLite → Tenants → Tenants
unfolding add_tenant
add_tenants [] t = t
add_tenants (w ∷ ws) t = add_tenants ws (add_tenant w.entity_id w.tenant t)

unfoldable pub fan_out : Tenants → Option CompositionViolation
fan_out t =
    if leb 2 (length t.tenants) && any (λ e. leb 2 (length e.1)) t.per_entity_tenants
    then some (cross_tenant_fan_out (in_order (λ x. x) t.tenants))
    else none

module _ (F : Float) where
  unfoldable pub is_safe : CompositionChecker → List (CapabilityContract F) → Bool
  is_safe c capabilities =
      leb (length (retain (λ cap. is_write_class cap.side_effect) capabilities) % 2 ^ 32)
        c.max_writes

  abbrev pub ids_of : List (CapabilityContract F) → List String
  ids_of [] = []
  ids_of (cap ∷ caps) = cap.id ∷ ids_of caps

  unfoldable pub writers : List (CapabilityContract F) → Assoc (List String) → Assoc (List String)
  unfolding add_writer
  writers [] m = m
  writers (cap ∷ caps) m = writers caps (add_writer cap.id cap.writes m)

  unfoldable pub detect_double_write : List (CapabilityContract F) → Option CompositionViolation
  detect_double_write capabilities = first_double (in_order (λ e. e.0) (writers capabilities []))

  unfoldable pub leak_of :
      CapabilityContract F → EntityRefLite → Option ClassificationHint → Option CompositionViolation
  leak_of cap read none = none
  leak_of cap read (some hint) =
      if ltb (level_of_capability cap.data_classification) (level hint)
      then some (classification_leak cap.id read.entity_id cap.data_classification hint)
      else none

  unfoldable pub leak_in :
      (String → Option ClassificationHint)
      → CapabilityContract F
      → List EntityRefLite
      → Option CompositionViolation
  unfolding leak_of
  leak_in classify cap [] = none
  leak_in classify cap (read ∷ reads) =
      or_next (leak_of cap read (classify read.entity_id)) (leak_in classify cap reads)

  unfoldable pub detect_classification_leak :
      (String → Option ClassificationHint)
      → List (CapabilityContract F)
      → Option CompositionViolation
  unfolding leak_in
  detect_classification_leak classify [] = none
  detect_classification_leak classify (cap ∷ caps) =
      or_next (leak_in classify cap cap.reads) (detect_classification_leak classify caps)

  unfoldable pub all_tenants : List (CapabilityContract F) → Tenants → Tenants
  unfolding add_tenants
  all_tenants [] t = t
  all_tenants (cap ∷ caps) t = all_tenants caps (add_tenants cap.writes t)

  unfoldable pub detect_cross_tenant_fan_out :
      List (CapabilityContract F) → Option CompositionViolation
  unfolding all_tenants fan_out
  detect_cross_tenant_fan_out capabilities =
      fan_out (all_tenants capabilities (record { tenants = []; per_entity_tenants = [] }))

  pub record EntityAwareComposition : Type 0 where
    pub base : CompositionChecker
    pub classification_lookup : Option (String → Option ClassificationHint)

  abbrev pub new : CompositionChecker → EntityAwareComposition
  new base = record { base = base; classification_lookup = none }

  abbrev pub with_classification_lookup :
      (String → Option ClassificationHint) → EntityAwareComposition → EntityAwareComposition
  with_classification_lookup classify c = record c { classification_lookup = some classify }

  unfoldable pub leak_where_known :
      Option (String → Option ClassificationHint)
      → List (CapabilityContract F)
      → Option CompositionViolation
  leak_where_known none capabilities = none
  leak_where_known (some classify) capabilities = detect_classification_leak classify capabilities

  -- `EntityAwareComposition::check`; `none` is `Ok(())`.
  unfoldable pub check :
      EntityAwareComposition → List (CapabilityContract F) → Option CompositionViolation
  unfolding leak_where_known
  check c capabilities =
      let rest = or_next (detect_cross_tenant_fan_out capabilities) (
        or_next (detect_double_write capabilities)
          (leak_where_known c.classification_lookup capabilities)) in
      if is_safe c.base capabilities then rest else some (double_write "" (ids_of capabilities))
