-- ===== src/Sidecar.antt =====
-- core/crates/aaf-sidecar/src/acl.rs: the translation of entities between the model of the framework
-- and that of a service. JSON values are parameters; an object is the map of its fields. A
-- translator is a trait object: two functions that may fail.
pub mod Renaming
use agentic_application_fram.Base.{
  ℕ, String, Option, none, some, Bool, List, [], ◌∷◌, Assoc, lookup, insert, length, ◌==◌,
}
use agentic_application_fram.Runtime.Graph.{contains_key}

pub data AclError : Type 0 where
  no_translator translation_failed : String → AclError

-- `mapping.get(k).cloned().unwrap_or_else(..)`
abbrev pub or_key : Option String → String → String
or_key none k = k
or_key (some j) k = j

module _ (Value : Type 0) where
  -- A JSON value: an object, or any other value.
  pub data Json : Type 0 where
    object : Assoc Value → Json
    other : Value → Json

  -- `Result<serde_json::Value, AclError>`
  pub data Translated : Type 0 where
    ok : Json → Translated
    err : AclError → Translated

  pub record EntityTranslator : Type 0 where
    pub entity_id : String
    pub to_service : Json → Translated
    pub to_aaf : Json → Translated

  pub record AclRegistry : Type 0 where
    pub translators : Assoc EntityTranslator

  abbrev pub new : AclRegistry
  new = record { translators = [] }

  abbrev pub register : EntityTranslator → AclRegistry → AclRegistry
  register t r = record { translators = insert t.entity_id t r.translators }

  unfoldable pub service_by : Option EntityTranslator → String → Json → Translated
  service_by none entity_id value = err (no_translator entity_id)
  service_by (some t) entity_id value = t.to_service value

  unfoldable pub aaf_by : Option EntityTranslator → String → Json → Translated
  aaf_by none entity_id value = err (no_translator entity_id)
  aaf_by (some t) entity_id value = t.to_aaf value

  unfoldable pub to_service : String → Json → AclRegistry → Translated
  unfolding service_by
  to_service entity_id value r = service_by (lookup entity_id r.translators) entity_id value

  unfoldable pub to_aaf : String → Json → AclRegistry → Translated
  unfolding aaf_by
  to_aaf entity_id value r = aaf_by (lookup entity_id r.translators) entity_id value

  abbrev pub has_translator : String → AclRegistry → Bool
  has_translator entity_id r = contains_key entity_id r.translators

  abbrev pub len : AclRegistry → ℕ
  len r = length r.translators

  abbrev pub is_empty : AclRegistry → Bool
  is_empty r = len r == 0

  pub record FieldRenamingTranslator : Type 0 where
    pub entity : String
    pub aaf_to_service : Assoc String
    pub service_to_aaf : Assoc String

  -- The loop over the pairs.
  unfoldable pub add_mappings :
      List (String × String) → FieldRenamingTranslator → FieldRenamingTranslator
  add_mappings [] t = t
  add_mappings ((a, s) ∷ mappings) t = add_mappings mappings (record t {
    service_to_aaf = insert s a t.service_to_aaf;
    aaf_to_service = insert a s t.aaf_to_service;
  })

  unfoldable pub renaming : String → List (String × String) → FieldRenamingTranslator
  unfolding add_mappings
  renaming entity mappings =
      add_mappings mappings (record { entity = entity; aaf_to_service = []; service_to_aaf = [] })

  -- The loop over the fields of an object.
  unfoldable pub rename_fields : Assoc Value → Assoc String → Assoc Value → Assoc Value
  rename_fields [] mapping out = out
  rename_fields ((k, v) ∷ obj) mapping out =
      rename_fields obj mapping (insert (or_key (lookup k mapping) k) v out)

  unfoldable pub rename : Json → Assoc String → Json
  unfolding rename_fields
  rename (object obj) mapping = object (rename_fields obj mapping [])
  rename (other v) mapping = other v

  abbrev pub translator_of : FieldRenamingTranslator → EntityTranslator
  translator_of t = record {
    entity_id = t.entity;
    to_service = λ value. ok (rename value t.aaf_to_service);
    to_aaf = λ value. ok (rename value t.service_to_aaf);
  }
