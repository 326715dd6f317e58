-- ===== src/Registry/Registration.antt =====
-- core/crates/aaf-registry/src/registration.rs: the registration of a service, in the steps of the
-- pipeline. The health check is a function that the pipeline holds.
pub mod Outcome
use agentic_application_fram.Base.{
  String, Option, none, some, Bool, true, false, ◌≡◌, refl, ◌&&◌, not, if◌then◌else◌,
}
use agentic_application_fram.Float.{Float}
use agentic_application_fram.Contracts.Capability.{CapabilityContract, CapabilityError, validate}
use agentic_application_fram.Registry.Store.{Registry, RegistryError, invalid, Found, ok, err}
use agentic_application_fram.Registry.Store
use agentic_application_fram.Trust.Registry.{TrustRegistry}
use agentic_application_fram.Trust.Registry as Trust

pub data RegistrationError : Type 0 where
  registry_error : RegistryError → RegistrationError
  conflict : String → RegistrationError
  health_check_failed : String → String → RegistrationError

module _ (F : Float) where
  pub record RegistrationResult : Type 0 where
    pub capability_id : String
    pub replaced : Bool
    pub initial_trust : F.Carrier
    pub health_ok : Bool

  -- `Result<RegistrationResult, RegistrationError>`
  pub data Registered : Type 0 where
    registered : RegistrationResult → Registered
    refused : RegistrationError → Registered

  -- The registries that the pipeline shares with its callers.
  pub record Services : Type 0 where
    pub registry : Registry F
    pub trust : TrustRegistry F

  -- Steps 3 and 5 to 7, for what the registry answers.
  unfoldable pub completed :
      Option RegistryError × Registry F
      → CapabilityContract F
      → Bool
      → Services
      → Registered × Services
  completed (some e, registry) cap replaced s =
      (refused (registry_error e), record s { registry = registry })
  completed (none, registry) cap replaced s =
      let trust = Trust.register F cap.id s.trust in
      (
        registered (record {
          capability_id = cap.id;
          replaced = replaced;
          initial_trust = (Trust.get F cap.id trust).value;
          health_ok = true;
        }),
        record { registry = registry; trust = trust },
      )

  unfoldable pub complete : CapabilityContract F → Bool → Services → Registered × Services
  unfolding completed
  complete cap replaced s = completed (Store.register F cap s.registry) cap replaced s

  -- Step 4c.
  unfoldable pub detect_conflict :
      Found (CapabilityContract F) → CapabilityContract F → Bool → Services → Registered × Services
  unfolding complete
  detect_conflict (ok _) cap force s =
      if not force then (refused (conflict cap.id), s) else complete cap true s
  detect_conflict (err _) cap force s = complete cap false s

  -- Step 4b.
  unfoldable pub after_health :
      Option String → CapabilityContract F → Bool → Services → Registered × Services
  unfolding detect_conflict
  after_health (some reason) cap force s = (refused (health_check_failed cap.id reason), s)
  after_health none cap force s = detect_conflict (Store.get F cap.id s.registry) cap force s

  -- Step 4a.
  unfoldable pub after_validation :
      Option CapabilityError
      → Option String
      → CapabilityContract F
      → Bool
      → Services
      → Registered × Services
  unfolding after_health
  after_validation (some e) health cap force s = (refused (registry_error (invalid e)), s)
  after_validation none health cap force s = after_health health cap force s

  -- `RegistrationPipeline::register`; `none` of the health check is `Ok(())`.
  unfoldable pub register_service :
      (CapabilityContract F → Option String)
      → CapabilityContract F
      → Bool
      → Services
      → Registered × Services
  unfolding after_validation
  register_service health_check cap force s =
      after_validation (validate cap) (health_check cap) cap force s
