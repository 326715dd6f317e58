-- ===== src/Planner/Composition/Entities.antt =====
-- What the maps of core/crates/aaf-planner/src/composition.rs hold: writers and tenants by entity.
use mathlib.Core.Path.{subst}
use agentic_application_fram.Base.{
  ℕ, ◌+◌, ◌≤◌, ◌≡◌, refl, sym, ◌∙◌, inl, inr, String, Option, none, some, Bool, true, ◌||◌, List,
  [], ◌∷◌, Assoc, lookup, lookup-insert, if◌then◌else◌, leb, length, length-append, any, has, count,
  All, ◌≢◌, ◌⊎◌, arith, str_eq, eq_iff, Bool-cases,
}
use agentic_application_fram.Contracts.Capability.{EntityRefLite}
use agentic_application_fram.Runtime.Graph.{or_empty}
use agentic_application_fram.Planner.Composition.{
  set_insert, add_writer, first_double, Tenants, add_tenant, add_tenants, fan_out,
}

abbrev pub entity_ids : List EntityRefLite → List String
entity_ids [] = []
entity_ids (w ∷ ws) = w.entity_id ∷ entity_ids ws

-- A number of texts for each entity bounds the lists of a map.
abbrev pub Bounded : (String → ℕ) → Assoc (List String) → Type 0
Bounded n m = All (λ e. length e.1 ≤ n e.0) m

pub Bounded-lookup :
    (n : String → ℕ) (m : Assoc (List String)) (k : String)
    → Bounded n m
    → length (or_empty (lookup k m)) ≤ n k
unfolding lookup or_empty
Bounded-lookup n [] k h = omega arith
Bounded-lookup n ((j, l) ∷ m) k h = elim (Bool-cases (str_eq j k)) [
  | inl same ↦ ground (arith, h.0, eq_iff j k)
  | inr other ↦ rw other (Bounded-lookup n m k h.1)
]

-- The writers of every entity are as many as the writes of it.
pub lookup-add_writer :
    (e id : String) (ws : List EntityRefLite) (m : Assoc (List String))
    → length (or_empty (lookup e (add_writer id ws m)))
      ≡ length (or_empty (lookup e m)) + count e (entity_ids ws)
unfolding add_writer
lookup-add_writer e id [] m = omega arith
lookup-add_writer e id (w ∷ ws) m = elim (Bool-cases (str_eq w.entity_id e)) [
  | inl same ↦
      lookup-add_writer e id ws _
      ∙ (rw (lookup-insert, same, (eq_iff w.entity_id e).0 same)
          (omega (arith, length-append (or_empty (lookup e m)) (id ∷ []))))
  | inr other ↦ lookup-add_writer e id ws _ ∙ (rw (lookup-insert, other) (omega arith))
]

pub first_double-Bounded : (m : Assoc (List String)) → first_double m ≡ none → Bounded (λ e. 1) m
unfolding first_double
first_double-Bounded [] h = tt
first_double-Bounded ((e, caps) ∷ m) h = (ground arith, first_double-Bounded m (ground arith))

-- The tenants of the writes of an entity.
abbrev pub tenant_if : Bool → Option String → List String → List String
tenant_if same none rest = rest
tenant_if same (some t) rest = if same then t ∷ rest else rest

pub tenants_of : String → List EntityRefLite → List String
tenants_of e [] = []
tenants_of e (w ∷ ws) = tenant_if (str_eq w.entity_id e) w.tenant (tenants_of e ws)

pub two_members :
    (t u : String) (s : List String) → has t s ≡ true → has u s ≡ true → 2 ≤ length s ⊎ (t ≡ u)
two_members t u [] h k = absurd (ground arith)
two_members t u (x ∷ []) h k =
    inr (sym ((eq_iff x t).0 (ground arith)) ∙ (eq_iff x u).0 (ground arith))
two_members t u (x ∷ y ∷ s) h k = inl (omega arith)

-- The sets that the loop over the writes leaves hold what is theirs.
pub has-set_insert :
    (v t : String) (s : List String) → has v (set_insert t s) ≡ (str_eq t v || has v s)
unfolding set_insert
has-set_insert v t s = ground (arith, eq_iff t v)

pub has-add_tenant :
    (e v k : String) (o : Option String) (t : Tenants)
    → has v (or_empty (lookup e (add_tenant k o t).per_entity_tenants))
      ≡ (has v (or_empty (lookup e t.per_entity_tenants)) || has v (tenant_if (str_eq k e) o []))
unfolding add_tenant
has-add_tenant e v k none t = ground arith
has-add_tenant e v k (some tenant) t = elim (Bool-cases (str_eq k e)) [
  | inl same ↦
      rw (lookup-insert, same, (eq_iff k e).0 same)
        (has-set_insert v tenant (or_empty (lookup e t.per_entity_tenants)) ∙ (ground arith))
  | inr other ↦ rw (lookup-insert, other) (ground arith)
]

pub has-tenant_if :
    (v : String) (b : Bool) (o : Option String) (rest : List String)
    → has v (tenant_if b o rest) ≡ (has v (tenant_if b o []) || has v rest)
has-tenant_if v b none rest = refl
has-tenant_if v b (some t) rest = ground arith

pub has-add_tenants :
    (e v : String) (ws : List EntityRefLite) (t : Tenants)
    → has v (or_empty (lookup e (add_tenants ws t).per_entity_tenants))
      ≡ (has v (or_empty (lookup e t.per_entity_tenants)) || has v (tenants_of e ws))
unfolding add_tenants tenants_of
has-add_tenants e v [] t = ground arith
has-add_tenants e v (w ∷ ws) t =
    has-add_tenants e v ws (add_tenant w.entity_id w.tenant t)
    ∙ (ground (
      arith,
      has-add_tenant e v w.entity_id w.tenant t,
      has-tenant_if v (str_eq w.entity_id e) w.tenant (tenants_of e ws),
    ))

pub has-tenants :
    (e v k : String) (o : Option String) (t : Tenants)
    → (has v t.tenants || has v (tenant_if (str_eq k e) o [])) ≡ true
    → has v (add_tenant k o t).tenants ≡ true
unfolding add_tenant
has-tenants e v k none t h = ground arith
has-tenants e v k (some tenant) t h = has-set_insert v tenant t.tenants ∙ (ground arith)

pub has-all_tenants :
    (e v : String) (ws : List EntityRefLite) (t : Tenants)
    → (has v t.tenants || has v (tenants_of e ws)) ≡ true
    → has v (add_tenants ws t).tenants ≡ true
unfolding add_tenants tenants_of
has-all_tenants e v [] t h = ground arith
has-all_tenants e v (w ∷ ws) t h = has-all_tenants e v ws (add_tenant w.entity_id w.tenant t) (
    ground (
      arith,
      has-tenants e v w.entity_id w.tenant t,
      has-tenant_if v (str_eq w.entity_id e) w.tenant (tenants_of e ws),
    ))

pub any-lookup :
    (e : String) (m : Assoc (List String))
    → 2 ≤ length (or_empty (lookup e m))
    → any (λ x. leb 2 (length x.1)) m ≡ true
unfolding any lookup or_empty
any-lookup e [] h = absurd (omega arith)
any-lookup e ((j, s) ∷ m) h = elim (Bool-cases (str_eq j e)) [
  | inl same ↦ ground arith
  | inr other ↦ ground (
    arith,
    any-lookup e m (subst (λ b. 2 ≤ length (or_empty (if b then some s else lookup e m))) other h),
  )
]

-- The entity's writes name at most one tenant.
abbrev pub OneTenant : List EntityRefLite → Type 0
OneTenant ws =
    (e t u : String) → has t (tenants_of e ws) ≡ true → has u (tenants_of e ws) ≡ true → t ≡ u

abbrev pub no_tenants : Tenants
no_tenants = record { tenants = []; per_entity_tenants = [] }

pub two-fan_out :
    (t : Tenants) (e : String)
    → 2 ≤ length t.tenants
    → 2 ≤ length (or_empty (lookup e t.per_entity_tenants))
    → fan_out t ≢ none
unfolding fan_out
two-fan_out t e h k n = ground (arith, any-lookup e t.per_entity_tenants k)

pub fan_out-OneTenant :
    (ws : List EntityRefLite) → fan_out (add_tenants ws no_tenants) ≡ none → OneTenant ws
fan_out-OneTenant ws h e t u ht hu =
    let all = add_tenants ws no_tenants in
    elim (two_members t u (or_empty (lookup e all.per_entity_tenants))
      (has-add_tenants e t ws no_tenants ∙ (ground arith))
      (has-add_tenants e u ws no_tenants ∙ (ground arith))) [
        | inr same ↦ same
        | inl two ↦
            elim (two_members t u all.tenants (has-all_tenants e t ws no_tenants (ground arith))
              (has-all_tenants e u ws no_tenants (ground arith))) [
                | inr same ↦ same
                | inl tenants ↦ absurd (two-fan_out all e tenants two h)
              ]
      ]
