-- ===== src/Policy/Rules/Boundary.antt =====
-- core/crates/aaf-policy/src/rules/boundary.rs: tenants, data classes and entity classes.
use agentic_application_fram.Base.{
  ℕ, String, Option, none, some, Bool, false, not, List, ltb, str_eq, any, if◌then◌else◌,
}
use agentic_application_fram.Float.{Float}
use agentic_application_fram.Contracts.Capability.{
  DataClassification, public, internal, confidential, restricted, EntityRefLite, CapabilityContract,
}
use agentic_application_fram.Contracts.Policy.{
  boundary_enforcement, PolicySeverity, error, fatal, PolicyViolation,
}
use agentic_application_fram.Policy.Context.{EntityClass, level, PolicyContext}

unfoldable pub capability_level : DataClassification → ℕ
capability_level public = 0
capability_level internal = 1
capability_level confidential = 2
capability_level restricted = 3

violation : PolicySeverity → PolicyViolation
violation severity = record {
  rule_id = "tenant-boundary";
  kind = boundary_enforcement;
  severity = severity;
}

-- The first violation, if any: an early `return` of the one, else what the other finds.
abbrev first : Option PolicyViolation → Option PolicyViolation → Option PolicyViolation
first none later = later
first (some v) later = some v

-- 1. The tenant of the requester is the active tenant, where both are known.
unfoldable pub tenant_check : Option String → Option String → Option PolicyViolation
unfolding violation
tenant_check (some active) (some requester) =
    if not (str_eq active requester) then some (violation fatal) else none
tenant_check _ _ = none

-- 3. No entity that is read has a class above the capability's.
exceeds : ℕ → Option EntityClass → Bool
exceeds cap_level none = false
exceeds cap_level (some c) = ltb cap_level (level c)

reads_check : (String → Option EntityClass) → ℕ → List EntityRefLite → Option PolicyViolation
unfolding violation exceeds
reads_check lookup cap_level reads =
    if any (λ r. exceeds cap_level (lookup r.entity_id)) reads then some (violation fatal) else none

-- No entity that is written belongs to another tenant than the active one.
foreign : Option String → Option String → Bool
foreign (some owner) (some active) = not (str_eq owner active)
foreign _ _ = false

writes_check : Option String → List EntityRefLite → Option PolicyViolation
unfolding violation foreign
writes_check active writes =
    if any (λ w. foreign w.tenant active) writes then some (violation fatal) else none

module _ (F : Float) where
  needs_scope : PolicyContext F → String → Option PolicyViolation
  unfolding violation
  needs_scope ctx scope =
      if not (any (λ s. str_eq s scope) ctx.requester.scopes) then some (violation error) else none

  -- 2. A confidential or restricted capability needs the scope of its class.
  class_check : PolicyContext F → DataClassification → Option PolicyViolation
  unfolding needs_scope
  class_check ctx confidential = needs_scope ctx "confidential:read"
  class_check ctx restricted = needs_scope ctx "restricted:read"
  class_check ctx _ = none

  flow_check :
      PolicyContext F
      → CapabilityContract F
      → Option (String → Option EntityClass)
      → Option PolicyViolation
  unfolding reads_check writes_check
  flow_check ctx cap none = none
  flow_check ctx cap (some lookup) =
      first (reads_check lookup (capability_level cap.data_classification) cap.reads)
        (writes_check ctx.tenant cap.writes)

  capability_checks : PolicyContext F → Option (CapabilityContract F) → Option PolicyViolation
  unfolding class_check flow_check
  capability_checks ctx none = none
  capability_checks ctx (some cap) =
      first (class_check ctx cap.data_classification) (flow_check ctx cap ctx.ontology_class_lookup)

  unfoldable pub boundary_evaluate : PolicyContext F → Option PolicyViolation
  unfolding tenant_check capability_checks
  boundary_evaluate ctx =
      first (tenant_check ctx.tenant ctx.requester.tenant) (capability_checks ctx ctx.capability)
