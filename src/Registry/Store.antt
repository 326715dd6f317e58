-- ===== src/Registry/Store.antt =====
-- core/crates/aaf-registry/src/store.rs over the store in memory of
-- core/crates/aaf-storage/src/registry.rs. The clock is an argument, in milliseconds.
pub mod Reputation
use agentic_application_fram.Base.{
  ℕ, ◌+◌, String, Option, none, some, Bool, true, false, List, [], ◌∷◌, ◌++◌, Assoc, lookup, insert,
  remove, if◌then◌else◌, leb, ltb, find, str_eq,
}
use agentic_application_fram.Float.{Float, clamp_single}
use agentic_application_fram.Contracts.Capability.{
  CapabilityContract, CapabilityError, validate, AttestationLevelRef, unattested, auto_verified,
  human_reviewed, certified,
}

-- The errors of the registry that the store, the search by name and the pipeline raise.
pub data RegistryError : Type 0 where
  storage_not_found : String → RegistryError
  invalid : CapabilityError → RegistryError
  insufficient_attestation : AttestationLevelRef → AttestationLevelRef → RegistryError
  rate_limited : String → RegistryError
  not_found : String → RegistryError

-- `Result<A, RegistryError>`
pub data Found {ℓ} (A : Type ℓ) : Type ℓ where
  ok : A → Found A
  err : RegistryError → Found A

-- The derived order of the levels.
abbrev pub rank : AttestationLevelRef → ℕ
rank unattested = 0
rank auto_verified = 1
rank human_reviewed = 2
rank certified = 3

abbrev pub reputation_rate_limit : ℕ
reputation_rate_limit = 60000

-- `values()`
abbrev pub values_of {ℓ} : {V : Type ℓ} → Assoc V → List V
values_of [] = []
values_of ((k, v) ∷ m) = v ∷ values_of m

-- Whether the last update of a capability is too recent.
abbrev pub too_soon : ℕ → Option ℕ → Bool
too_soon now none = false
too_soon now (some last) = ltb now (last + reputation_rate_limit)

module _ (F : Float) where
  pub record Registry : Type 0 where
    pub store : Assoc (CapabilityContract F)
    pub reputation_rate : Assoc ℕ

  abbrev pub in_memory : Registry
  in_memory = record { store = []; reputation_rate = [] }

  abbrev pub upsert : CapabilityContract F → Registry → Registry
  upsert cap r = record r { store = insert cap.id cap r.store }

  unfoldable pub admit :
      Option CapabilityError → CapabilityContract F → Registry → Option RegistryError × Registry
  admit (some e) cap r = (some (invalid e), r)
  admit none cap r = (none, upsert cap r)

  unfoldable pub register : CapabilityContract F → Registry → Option RegistryError × Registry
  unfolding admit
  register cap r = admit (validate cap) cap r

  abbrev pub or_storage : String → Option (CapabilityContract F) → Found (CapabilityContract F)
  or_storage id none = err (storage_not_found id)
  or_storage id (some cap) = ok cap

  unfoldable pub get : String → Registry → Found (CapabilityContract F)
  get id r = or_storage id (lookup id r.store)

  unfoldable pub attest :
      Option AttestationLevelRef
      → AttestationLevelRef
      → CapabilityContract F
      → Found (CapabilityContract F)
  attest none presented cap = ok cap
  attest (some required) presented cap =
      if ltb (rank presented) (rank required)
      then err (insufficient_attestation required presented)
      else ok cap

  unfoldable pub get_for_attestation :
      String → AttestationLevelRef → Registry → Found (CapabilityContract F)
  unfolding get attest
  get_for_attestation id presented r = elim (get id r) [
    | err e ↦ err e
    | ok cap ↦ attest cap.required_attestation_level presented cap
  ]

  unfoldable pub deregister : String → Registry → Registry
  deregister id r = record r { store = remove id r.store }

  abbrev pub list : Registry → List (CapabilityContract F)
  list r = values_of r.store

  abbrev pub or_not_found : String → Option (CapabilityContract F) → Found (CapabilityContract F)
  or_not_found name none = err (not_found name)
  or_not_found name (some cap) = ok cap

  unfoldable pub find_by_name : String → Registry → Found (CapabilityContract F)
  find_by_name name r = or_not_found name (find (λ c. str_eq c.name name) (list r))

  unfoldable pub rescore :
      String
      → F.Single
      → String
      → Option (CapabilityContract F)
      → Registry
      → Option RegistryError × Registry
  rescore id new_score evidence none r = (some (storage_not_found id), r)
  rescore id new_score evidence (some cap) r = (
    none,
    upsert
        (record cap {
          reputation = clamp_single F new_score (F.single_ratio 0 1) (F.single_ratio 1 1);
          learned_rules = cap.learned_rules ++ evidence ∷ [];
        })
        r,
  )

  unfoldable pub update_reputation :
      ℕ → String → F.Single → String → Registry → Option RegistryError × Registry
  unfolding rescore
  update_reputation now id new_score evidence r =
      if too_soon now (lookup id r.reputation_rate)
      then (some (rate_limited id), r)
      else rescore id new_score evidence (lookup id r.store)
          (record r { reputation_rate = insert id now r.reputation_rate })
