-- ===== src/Registry/Registration/Outcome.antt =====
-- Every outcome of core/crates/aaf-registry/src/registration.rs.
use agentic_application_fram.Base.{
  ◌≡◌, refl, ap, String, Option, none, some, Bool, true, false, not, lookup, lookup-inserted, arith,
}
use agentic_application_fram.Float.{Float}
use agentic_application_fram.Contracts.Capability.{
  CapabilityContract, CapabilityError, validate, is_none,
}
use agentic_application_fram.Contracts.Trust.{initial}
use agentic_application_fram.Registry.Store.{Registry, RegistryError, invalid, Found, ok, err}
use agentic_application_fram.Registry.Store
use agentic_application_fram.Trust.Registry as Trust
use agentic_application_fram.Registry.Registration.{
  RegistrationResult, Registered, registered, refused, Services, completed, complete,
  detect_conflict, after_health, after_validation, register_service,
}

module _ (F : Float) where
  pub record Completed (health : Option String) (cap : CapabilityContract F) (force : Bool)
      (s t : Services F) (r : RegistrationResult F) : Type 0 where
    pub valid : validate cap ≡ none
    pub healthy : health ≡ none
    pub named : r.capability_id ≡ cap.id
    pub stored : lookup cap.id t.registry.store ≡ some cap
    pub replaced : r.replaced ≡ not (is_none (lookup cap.id s.registry.store))
    pub by_force : r.replaced ≡ true → force ≡ true
    pub trust : Trust.get F cap.id t.trust ≡ initial F
    pub told : r.initial_trust ≡ (initial F).value

  abbrev pub Outcome :
      Option String → CapabilityContract F → Bool → Services F → Registered F × Services F → Type 0
  Outcome health cap force s (refused e, t) = t ≡ s
  Outcome health cap force s (registered r, t) = Completed health cap force s t r

  register-valid :
      (cap : CapabilityContract F) (r : Registry F)
      → validate cap ≡ none
      → Store.register F cap r ≡ (none, Store.upsert F cap r)
  unfolding Store.register Store.admit
  register-valid cap r v = rw v refl

  get-register :
      (agent : String) (t : Trust.TrustRegistry F)
      → Trust.get F agent (Trust.register F agent t) ≡ initial F
  unfolding Trust.get Trust.register Trust.fresh
  get-register agent t =
      ap (λ o. elim o [ none ↦ initial F | some x ↦ x.score ])
        (lookup-inserted agent (Trust.fresh F) t.inner)

  complete-valid :
      (cap : CapabilityContract F) (replaced : Bool) (s : Services F)
      → validate cap ≡ none
      → complete F cap replaced s ≡ (
        registered (record {
          capability_id = cap.id;
          replaced = replaced;
          initial_trust = (Trust.get F cap.id (Trust.register F cap.id s.trust)).value;
          health_ok = true;
        }),
        record {
          registry = Store.upsert F cap s.registry;
          trust = Trust.register F cap.id s.trust;
        },
      )
  unfolding complete completed
  complete-valid cap replaced s v =
      ap (λ x. completed F x cap replaced s) (register-valid cap s.registry v)

  complete-Outcome :
      (health : Option String) (cap : CapabilityContract F) (force replaced : Bool) (s : Services F)
      → validate cap ≡ none
      → health ≡ none
      → replaced ≡ not (is_none (lookup cap.id s.registry.store))
      → (replaced ≡ true → force ≡ true)
      → Outcome health cap force s (complete F cap replaced s)
  complete-Outcome health cap force replaced s v h same forced =
      rw (complete-valid cap replaced s v) (record {
        valid = v;
        healthy = h;
        named = refl;
        stored = lookup-inserted cap.id cap s.registry.store;
        replaced = same;
        by_force = forced;
        trust = get-register cap.id s.trust;
        told = ap (λ x. x.value) (get-register cap.id s.trust);
      })

  conflict-Outcome :
      (o : Option (CapabilityContract F)) (health : Option String) (cap : CapabilityContract F)
      (force : Bool) (s : Services F)
      → validate cap ≡ none
      → health ≡ none
      → lookup cap.id s.registry.store ≡ o
      → Outcome health cap force s (detect_conflict F (Store.or_storage F cap.id o) cap force s)
  unfolding detect_conflict
  conflict-Outcome none health cap force s v h e =
      complete-Outcome health cap force false s v h (rw e refl) (λ x. ground arith)
  conflict-Outcome (some old) health cap true s v h e =
      complete-Outcome health cap true true s v h (rw e refl) (λ x. refl)
  conflict-Outcome (some old) health cap false s v h e = refl

  health-Outcome :
      (o : Option String) (cap : CapabilityContract F) (force : Bool) (s : Services F)
      → validate cap ≡ none
      → Outcome o cap force s (after_health F o cap force s)
  unfolding after_health Store.get
  health-Outcome (some reason) cap force s v = refl
  health-Outcome none cap force s v =
      conflict-Outcome (lookup cap.id s.registry.store) none cap force s v refl refl

  validation-Outcome :
      (o : Option CapabilityError) (health : Option String) (cap : CapabilityContract F)
      (force : Bool) (s : Services F)
      → validate cap ≡ o
      → Outcome health cap force s (after_validation F o health cap force s)
  unfolding after_validation
  validation-Outcome (some e) health cap force s v = refl
  validation-Outcome none health cap force s v = health-Outcome health cap force s v

  -- A registration that is refused, whatever the reason, leaves both registries as they were. One that
  -- goes through found the capability valid and healthy, stores it under its id, says whether it
  -- replaced another one, which it does only by force, and sets the trust to the initial score.
  pub register-Outcome :
      (health_check : CapabilityContract F → Option String) (cap : CapabilityContract F)
      (force : Bool) (s : Services F)
      → Outcome (health_check cap) cap force s (register_service F health_check cap force s)
  unfolding register_service
  register-Outcome health_check cap force s =
      validation-Outcome (validate cap) (health_check cap) cap force s refl
