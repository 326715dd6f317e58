-- ===== src/Ontology.antt =====
-- core/crates/aaf-ontology/src/entity.rs, relation.rs, version.rs, registry.rs, lineage.rs and
-- resolver.rs: entities, the registry in memory, the lineage of entities and the exact resolver.
pub mod Upserts
use agentic_application_fram.Base.{
  ℕ, String, Option, none, some, Bool, true, false, not, ◌&&◌, ◌||◌, List, [], ◌∷◌, ◌++◌, Assoc,
  lookup, insert, remove, if◌then◌else◌, ltb, leb, ◌==◌, str_eq, find, retain, length,
}
use agentic_application_fram.Registry.Store.{values_of}

pub record EntityVersion : Type 0 where
  pub major : ℕ  -- u32
  pub minor : ℕ  -- u32
  pub patch : ℕ  -- u32

abbrev pub initial : EntityVersion
initial = record { major = 0; minor = 1; patch = 0 }

pub data Classification : Type 0 where
  public internal pii : Classification
  regulated : String → Classification

abbrev pub level : Classification → ℕ
level public = 0
level internal = 1
level pii = 2
level (regulated _) = 3

abbrev pub can_flow_into : Classification → Classification → Bool
can_flow_into c d = leb (level c) (level d)

pub data FieldType : Type 0 where
  string integer float boolean timestamp money object : FieldType
  entity_ref list_of : String → FieldType

pub record EntityField : Type 0 where
  pub name : String
  pub field_type : FieldType
  pub required : Bool
  pub classification : Option Classification
  pub description : String

pub data RelationKind : Type 0 where
  has_one has_many references derived_from : RelationKind

pub data Cardinality : Type 0 where
  exactly_one zero_or_one zero_or_many one_or_many : Cardinality

pub record Relation : Type 0 where
  pub kind : RelationKind
  pub from : String
  pub to : String
  pub cardinality : Cardinality
  pub description : String

pub record EntityRef : Type 0 where
  pub entity_id : String
  pub version : EntityVersion
  pub tenant : Option String
  pub local_id : Option String

pub record Entity : Type 0 where
  pub id : String
  pub version : EntityVersion
  pub description : String
  pub classification : Classification
  pub fields : List EntityField
  pub relations : List Relation
  pub owner_service : Option String

-- `and_then(..).unwrap_or_else(..)`
abbrev pub override_of : Option EntityField → Option Classification
override_of none = none
override_of (some f) = f.classification

abbrev pub or_top : Classification → Option Classification → Classification
or_top top none = top
or_top top (some c) = c

unfoldable pub classification_for : String → Entity → Classification
classification_for field e =
    or_top e.classification (override_of (find (λ f. str_eq f.name field) e.fields))

pub data VersionCompatibility : Type 0 where
  compatible additive breaking : VersionCompatibility

unfoldable pub compare_versions : EntityVersion → EntityVersion → VersionCompatibility
compare_versions current new =
    if ltb current.major new.major
    then breaking
    else if new.major == current.major && ltb current.minor new.minor
    then additive
    else if new.major == current.major && new.minor == current.minor && leb current.patch new.patch
    then compatible
    else breaking

abbrev pub is_breaking : VersionCompatibility → Bool
is_breaking compatible = false
is_breaking additive = false
is_breaking breaking = true

-- The errors of the registry. The versions stand for the text of the error.
pub data OntologyError : Type 0 where
  not_found : String → OntologyError
  incompatible_version : EntityVersion → EntityVersion → OntologyError
  dangling_relation : String → String → OntologyError
  classification_downgrade : Classification → Classification → OntologyError

-- `contains_key`
abbrev pub is_known : Option Entity → Bool
is_known none = false
is_known (some _) = true

-- The first loop of `upsert`.
unfoldable pub dangling : Assoc Entity → String → List Relation → Option OntologyError
dangling inner id [] = none
dangling inner id (rel ∷ rels) =
    let rest = dangling inner id rels in
    if not (str_eq rel.to id || is_known (lookup rel.to inner))
    then some (dangling_relation rel.from rel.to)
    else rest

-- The checks against the entity that is there.
unfoldable pub conflict_with : Option Entity → Entity → Bool → Option OntologyError
conflict_with none entity allow_breaking = none
conflict_with (some existing) entity allow_breaking =
    if not (can_flow_into existing.classification entity.classification)
    then some (classification_downgrade existing.classification entity.classification)
    else if is_breaking (compare_versions existing.version entity.version) && not allow_breaking
    then some (incompatible_version existing.version entity.version)
    else none

-- The end of `upsert`, after both checks.
unfoldable pub store :
    Option OntologyError
    → Option OntologyError
    → Entity
    → Assoc Entity
    → Option OntologyError × Assoc Entity
store (some e) second entity inner = (some e, inner)
store none (some e) entity inner = (some e, inner)
store none none entity inner = (none, insert entity.id entity inner)

unfoldable pub upsert : Entity → Bool → Assoc Entity → Option OntologyError × Assoc Entity
unfolding dangling conflict_with store
upsert entity allow_breaking inner =
    store (dangling inner entity.id entity.relations)
      (conflict_with (lookup entity.id inner) entity allow_breaking) entity inner

abbrev pub list : Assoc Entity → List Entity
list inner = values_of inner

abbrev pub delete : String → Assoc Entity → Assoc Entity
delete id inner = remove id inner

pub record EntityRefVersioned : Type 0 where
  pub entity_ref : EntityRef
  pub version : EntityVersion

pub record LineageRecord : Type 0 where
  pub produced : EntityRefVersioned
  pub derived_from : List EntityRefVersioned
  pub producing_capability : String
  pub trace_id : String
  pub created_at : ℕ

-- `record` and `for_entity` of the lineage store.
abbrev pub append_record : LineageRecord → List LineageRecord → List LineageRecord
append_record rec inner = inner ++ rec ∷ []

unfoldable pub for_entity : String → List LineageRecord → List LineageRecord
for_entity id inner = retain (λ r. str_eq r.produced.entity_ref.entity_id id) inner
