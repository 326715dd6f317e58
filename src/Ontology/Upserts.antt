-- ===== src/Ontology/Upserts.antt =====
-- What holds through every sequence of upserts of core/crates/aaf-ontology/src/registry.rs.
use mathlib.Core.Path.{subst}
use agentic_application_fram.Base.{
  ◌≤◌, ◌<◌, ◌≡◌, refl, sym, ◌⊎◌, inl, inr, String, Option, none, some, Bool, true, false, List, [],
  ◌∷◌, Assoc, lookup, insert, lookup-insert, Holds, Holds-insert, All, str_eq, eq_iff, arith,
  Bool-cases,
}
use agentic_application_fram.Ontology.{
  EntityVersion, level, Relation, Entity, compare_versions, is_breaking, OntologyError, is_known,
  dangling, conflict_with, store, upsert,
}

-- Upserts, each with its permission to break.
unfoldable pub upsert_all : List (Entity × Bool) → Assoc Entity → Assoc Entity
unfolding upsert
upsert_all [] inner = inner
upsert_all ((entity, allow_breaking) ∷ rest) inner =
    upsert_all rest (upsert entity allow_breaking inner).1

-- Every relation of the entity leads to an entity that is stored.
abbrev pub Resolved : Assoc Entity → Entity → Type 0
Resolved inner e = All (λ rel. is_known (lookup rel.to inner) ≡ true) e.relations

abbrev pub Closed : Assoc Entity → Type 0
Closed inner = (id : String) → Holds (Resolved inner) (lookup id inner)

-- The same major version, and no earlier minor or patch.
abbrev pub Extends : EntityVersion → EntityVersion → Type 0
Extends v w =
    (v.major ≡ w.major) × ((v.minor < w.minor) ⊎ ((v.minor ≡ w.minor) × (v.patch ≤ w.patch)))

-- What later upserts leave of an entity.
abbrev pub Later : Bool → Entity → Option Entity → Type 0
Later breaks e none = ⊥
Later breaks e (some f) =
    (level e.classification ≤ level f.classification)
    × (breaks ≡ false → Extends e.version f.version)

known-insert :
    (k : String) (entity : Entity) (inner : Assoc Entity)
    → is_known (lookup k inner) ≡ true
    → is_known (lookup k (insert entity.id entity inner)) ≡ true
known-insert k entity inner h = elim (Bool-cases (str_eq entity.id k)) [
  | inl same ↦ rw (lookup-insert, same) refl
  | inr other ↦ rw (lookup-insert, other) h
]

dangling-Resolved :
    (entity : Entity) (inner : Assoc Entity) (rels : List Relation)
    → dangling inner entity.id rels ≡ none
    → All (λ rel. is_known (lookup rel.to (insert entity.id entity inner)) ≡ true) rels
unfolding dangling
dangling-Resolved entity inner [] h = tt
dangling-Resolved entity inner (rel ∷ rels) h = (
  elim (Bool-cases (str_eq entity.id rel.to)) [
    | inl same ↦ rw (lookup-insert, same) refl
    | inr other ↦
        rw (lookup-insert, other) (ground (arith, eq_iff rel.to entity.id, eq_iff entity.id rel.to))
  ],
  dangling-Resolved entity inner rels (ground arith),
)

Resolved-insert :
    (entity : Entity) (inner : Assoc Entity) (rels : List Relation)
    → All (λ rel. is_known (lookup rel.to inner) ≡ true) rels
    → All (λ rel. is_known (lookup rel.to (insert entity.id entity inner)) ≡ true) rels
Resolved-insert entity inner [] h = tt
Resolved-insert entity inner (rel ∷ rels) h =
    (known-insert rel.to entity inner h.0, Resolved-insert entity inner rels h.1)

Holds-Resolved :
    (entity : Entity) (inner : Assoc Entity) (o : Option Entity)
    → Holds (Resolved inner) o
    → Holds (Resolved (insert entity.id entity inner)) o
Holds-Resolved entity inner none h = tt
Holds-Resolved entity inner (some e) h = Resolved-insert entity inner e.relations h

store-Closed :
    (o p : Option OntologyError) (entity : Entity) (inner : Assoc Entity)
    → dangling inner entity.id entity.relations ≡ o
    → Closed inner
    → Closed (store o p entity inner).1
unfolding store
store-Closed (some e) p entity inner d h = h
store-Closed none (some e) entity inner d h = h
store-Closed none none entity inner d h = λ id.
    Holds-insert (Resolved (insert entity.id entity inner)) entity.id id entity inner
      (dangling-Resolved entity inner entity.relations d)
      (Holds-Resolved entity inner (lookup id inner) (h id))

versions-Extends : (v w : EntityVersion) → is_breaking (compare_versions v w) ≡ false → Extends v w
unfolding compare_versions
versions-Extends v w h = ground arith

Extends-trans : (u v w : EntityVersion) → Extends u v → Extends v w → Extends u w
Extends-trans u v w h k = ground arith

conflict-level :
    (f entity : Entity) (allow : Bool)
    → conflict_with (some f) entity allow ≡ none
    → level f.classification ≤ level entity.classification
unfolding conflict_with
conflict-level f entity allow c = ground arith

conflict-breaking :
    (f entity : Entity) (allow : Bool)
    → allow ≡ false
    → conflict_with (some f) entity allow ≡ none
    → is_breaking (compare_versions f.version entity.version) ≡ false
unfolding conflict_with
conflict-breaking f entity allow a c = ground arith

conflict-Later :
    (breaks : Bool) (e : Entity) (o : Option Entity) (entity : Entity) (allow : Bool)
    → (breaks ≡ false → allow ≡ false)
    → conflict_with o entity allow ≡ none
    → Later breaks e o
    → Later breaks e (some entity)
unfolding conflict_with
conflict-Later breaks e none entity allow b c h = absurd h
conflict-Later breaks e (some f) entity allow b c h = (
  omega (arith, h.0, conflict-level f entity allow c),
  λ n.
      Extends-trans e.version f.version entity.version (h.1 n)
        (versions-Extends f.version entity.version (conflict-breaking f entity allow (b n) c)),
)

-- What one upsert leaves of an entity that is stored.
stored-Later :
    (breaks : Bool) (e entity : Entity) (id : String) (inner : Assoc Entity)
    → (str_eq entity.id id ≡ true → Later breaks e (some entity))
    → Later breaks e (lookup id inner)
    → Later breaks e (lookup id (insert entity.id entity inner))
stored-Later breaks e entity id inner new h = elim (Bool-cases (str_eq entity.id id)) [
  | inl same ↦ rw (lookup-insert, same) (new same)
  | inr other ↦ rw (lookup-insert, other) h
]

store-Later :
    (o p : Option OntologyError) (breaks : Bool) (e entity : Entity) (allow : Bool) (id : String)
    (inner : Assoc Entity)
    → conflict_with (lookup entity.id inner) entity allow ≡ p
    → (breaks ≡ false → allow ≡ false)
    → Later breaks e (lookup id inner)
    → Later breaks e (lookup id (store o p entity inner).1)
unfolding store
store-Later (some x) p breaks e entity allow id inner c b h = h
store-Later none (some x) breaks e entity allow id inner c b h = h
store-Later none none breaks e entity allow id inner c b h =
    stored-Later breaks e entity id inner
      (λ same.
        conflict-Later breaks e (lookup entity.id inner) entity allow b c
          (subst (λ k. Later breaks e (lookup k inner)) (sym ((eq_iff entity.id id).0 same)) h))
      h

-- No upsert of a list may break.
abbrev pub AllKept : Bool → List (Entity × Bool) → Type 0
AllKept breaks ops = All (λ op. breaks ≡ false → op.1 ≡ false) ops

-- Through every sequence of upserts of a registry in which every relation leads to a stored entity,
-- that remains so.
pub upsert_all-Closed :
    (ops : List (Entity × Bool)) (inner : Assoc Entity)
    → Closed inner
    → Closed (upsert_all ops inner)
unfolding upsert_all upsert
upsert_all-Closed [] inner h = h
upsert_all-Closed ((entity, allow) ∷ ops) inner h =
    upsert_all-Closed ops (upsert entity allow inner).1 (
      store-Closed (dangling inner entity.id entity.relations)
        (conflict_with (lookup entity.id inner) entity allow) entity inner refl h)

upserts_keep :
    (breaks : Bool) (ops : List (Entity × Bool)) (id : String) (e : Entity) (inner : Assoc Entity)
    → AllKept breaks ops
    → Later breaks e (lookup id inner)
    → Later breaks e (lookup id (upsert_all ops inner))
unfolding upsert_all upsert
upserts_keep breaks [] id e inner kept h = h
upserts_keep breaks ((entity, allow) ∷ ops) id e inner kept h =
    upserts_keep breaks ops id e (upsert entity allow inner).1 kept.1 (
      store-Later (dangling inner entity.id entity.relations)
        (conflict_with (lookup entity.id inner) entity allow) breaks e entity allow id inner refl
        kept.0 h)

-- Through every sequence of upserts a stored entity stays in the registry and its classification never
-- falls; and if none of them is allowed to break, its version keeps its major number and never goes
-- back.
pub upsert_all-Later :
    (breaks : Bool) (ops : List (Entity × Bool)) (id : String) (e : Entity) (inner : Assoc Entity)
    → AllKept breaks ops
    → lookup id inner ≡ some e
    → Later breaks e (lookup id (upsert_all ops inner))
upsert_all-Later breaks ops id e inner kept h =
    upserts_keep breaks ops id e inner kept
      (subst (Later breaks e) (sym h) (omega arith, λ n. (refl, inr (refl, omega arith))))
