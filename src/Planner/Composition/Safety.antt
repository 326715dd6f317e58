-- ===== src/Planner/Composition/Safety.antt =====
-- What core/crates/aaf-planner/src/composition.rs accepts.
use mathlib.Core.Path.{subst}
use mathlib.Core.Option.{some-injective}
use agentic_application_fram.Base.{
  ◌+◌, ◌≤◌, ◌%◌, ◌^◌, ◌≡◌, refl, ap, sym, ◌∙◌, String, Option, none, some, true, List, [], ◌∷◌,
  ◌++◌, Assoc, lookup, length, retain, count, All, in_order-All, arith, count-append,
}
use agentic_application_fram.Float.{Float}
use agentic_application_fram.Contracts.Capability.{
  CapabilityContract, EntityRefLite, is_write_class,
}
use agentic_application_fram.Runtime.Graph.{or_empty}
use agentic_application_fram.Planner.Composition.{
  ClassificationHint, level, level_of_capability, CompositionViolation, CompositionChecker,
  add_writer, or_next, Tenants, add_tenants, fan_out, is_safe, writers, detect_double_write,
  leak_of, leak_in, detect_classification_leak, all_tenants, detect_cross_tenant_fan_out,
  EntityAwareComposition, leak_where_known, check,
}
use agentic_application_fram.Planner.Composition.Entities.{
  entity_ids, Bounded-lookup, lookup-add_writer, first_double-Bounded, OneTenant, no_tenants,
  fan_out-OneTenant,
}

module _ (F : Float) where
  -- The writes of a plan, one after the other.
  pub writes_of : List (CapabilityContract F) → List EntityRefLite
  writes_of [] = []
  writes_of (cap ∷ caps) = cap.writes ++ writes_of caps

  add_tenants-append :
      (ws vs : List EntityRefLite) (t : Tenants)
      → add_tenants (ws ++ vs) t ≡ add_tenants vs (add_tenants ws t)
  unfolding add_tenants
  add_tenants-append [] vs t = refl
  add_tenants-append (w ∷ ws) vs t = add_tenants-append ws vs _

  all_tenants-writes :
      (caps : List (CapabilityContract F)) (t : Tenants)
      → all_tenants F caps t ≡ add_tenants (writes_of caps) t
  unfolding all_tenants writes_of add_tenants
  all_tenants-writes [] t = refl
  all_tenants-writes (cap ∷ caps) t =
      all_tenants-writes caps _ ∙ sym (add_tenants-append cap.writes (writes_of caps) t)

  entity_ids-append :
      (ws vs : List EntityRefLite) → entity_ids (ws ++ vs) ≡ entity_ids ws ++ entity_ids vs
  entity_ids-append [] vs = refl
  entity_ids-append (w ∷ ws) vs = ap (λ l. w.entity_id ∷ l) (entity_ids-append ws vs)

  lookup-writers :
      (e : String) (caps : List (CapabilityContract F)) (m : Assoc (List String))
      → length (or_empty (lookup e (writers F caps m)))
        ≡ length (or_empty (lookup e m)) + count e (entity_ids (writes_of caps))
  unfolding writers writes_of
  lookup-writers e [] m = omega arith
  lookup-writers e (cap ∷ caps) m = rw entity_ids-append (
      lookup-writers e caps (add_writer cap.id cap.writes m)
      ∙ omega (
        arith,
        lookup-add_writer e cap.id cap.writes m,
        count-append e (entity_ids cap.writes) (entity_ids (writes_of caps)),
      ))

  -- No read of a capability is of an entity above the classification of the capability.
  abbrev pub Covers : (String → Option ClassificationHint) → CapabilityContract F → Type 0
  Covers classify cap =
      All
        (λ read.
          (hint : ClassificationHint)
          → classify read.entity_id ≡ some hint
          → level hint ≤ level_of_capability cap.data_classification)
        cap.reads

  -- What an accepted plan keeps to: the number of write-class capabilities, one tenant for every
  -- entity that is written, one write of every entity, and reads below the classification.
  pub record Safe (c : EntityAwareComposition F) (caps : List (CapabilityContract F)) : Type 0 where
    pub writes :
        length (retain (λ cap. is_write_class cap.side_effect) caps) % 2 ^ 32 ≤ c.base.max_writes
    pub one_tenant : OneTenant (writes_of caps)
    pub written_once : (e : String) → count e (entity_ids (writes_of caps)) ≤ 1
    pub no_leak :
        (classify : String → Option ClassificationHint)
        → c.classification_lookup ≡ some classify
        → All (Covers classify) caps

  double-written_once :
      (caps : List (CapabilityContract F))
      → detect_double_write F caps ≡ none
      → (e : String) → count e (entity_ids (writes_of caps)) ≤ 1
  unfolding detect_double_write
  double-written_once caps h e =
      let small = in_order-All (λ x. x.0) _ (writers F caps []) (first_double-Bounded _ h) in
      omega (arith, Bounded-lookup (λ k. 1) (writers F caps []) e small, lookup-writers e caps [])

  or_next-none : (a b : Option CompositionViolation) → or_next a b ≡ none → (a ≡ none) × (b ≡ none)
  or_next-none none b h = (refl, h)
  or_next-none (some v) b h = absurd (ground arith)

  leak_of-level :
      (cap : CapabilityContract F) (read : EntityRefLite) (o : Option ClassificationHint)
      → leak_of F cap read o ≡ none
      → (hint : ClassificationHint) → o ≡ some hint
      → level hint ≤ level_of_capability cap.data_classification
  unfolding leak_of
  leak_of-level cap read none h hint e = absurd (ground arith)
  leak_of-level cap read (some found) h hint e = ground arith

  leak_in-Covers :
      (classify : String → Option ClassificationHint) (cap : CapabilityContract F)
      (reads : List EntityRefLite)
      → leak_in F classify cap reads ≡ none
      → All
          (λ read.
            (hint : ClassificationHint)
            → classify read.entity_id ≡ some hint
            → level hint ≤ level_of_capability cap.data_classification)
          reads
  unfolding leak_in
  leak_in-Covers classify cap [] h = tt
  leak_in-Covers classify cap (read ∷ reads) h =
      let parts = or_next-none _ _ h in
      (leak_of-level cap read _ parts.0, leak_in-Covers classify cap reads parts.1)

  leaks-Covers :
      (classify : String → Option ClassificationHint) (caps : List (CapabilityContract F))
      → detect_classification_leak F classify caps ≡ none
      → All (Covers classify) caps
  unfolding detect_classification_leak
  leaks-Covers classify [] h = tt
  leaks-Covers classify (cap ∷ caps) h =
      let parts = or_next-none _ _ h in
      (leak_in-Covers classify cap cap.reads parts.0, leaks-Covers classify caps parts.1)

  leak_where-Covers :
      (o : Option (String → Option ClassificationHint)) (caps : List (CapabilityContract F))
      → leak_where_known F o caps ≡ none
      → (classify : String → Option ClassificationHint) → o ≡ some classify
      → All (Covers classify) caps
  unfolding leak_where_known
  leak_where-Covers none caps h classify e = absurd (ground arith)
  leak_where-Covers (some known) caps h classify e =
      subst (λ f. All (Covers f) caps) (some-injective known classify e) (leaks-Covers known caps h)

  fan_out-writes :
      (caps : List (CapabilityContract F))
      → detect_cross_tenant_fan_out F caps ≡ none
      → OneTenant (writes_of caps)
  unfolding detect_cross_tenant_fan_out
  fan_out-writes caps h =
      fan_out-OneTenant (writes_of caps) (ap fan_out (sym (all_tenants-writes caps no_tenants)) ∙ h)

  pub is_safe-writes :
      (c : CompositionChecker) (caps : List (CapabilityContract F))
      → is_safe F c caps ≡ true
      → length (retain (λ cap. is_write_class cap.side_effect) caps) % 2 ^ 32 ≤ c.max_writes
  unfolding is_safe
  is_safe-writes c caps h = ground arith

  check-base :
      (c : EntityAwareComposition F) (caps : List (CapabilityContract F))
      → check F c caps ≡ none
      → (is_safe F c.base caps ≡ true)
        × (or_next (detect_cross_tenant_fan_out F caps) (
              or_next
                (detect_double_write F caps)
                (leak_where_known F c.classification_lookup caps))
            ≡ none)
  unfolding check
  check-base c caps h = ground arith

  -- The capabilities of a plan that the entity-aware check accepts hold no more write-class side
  -- effects than the maximum, as counted modulo 2 ^ 32, all writes of one entity name the same tenant
  -- where they name one, no entity is written twice, and no capability reads an entity that the lookup
  -- classifies above it.
  pub check-Safe :
      (c : EntityAwareComposition F) (caps : List (CapabilityContract F))
      → check F c caps ≡ none
      → Safe c caps
  check-Safe c caps h =
      let base = check-base c caps h in
      let tenants = or_next-none _ _ base.1 in
      let doubles = or_next-none _ _ tenants.1 in
      record {
        writes = (is_safe-writes c.base caps base.0);
        one_tenant = fan_out-writes caps tenants.0;
        written_once = double-written_once caps doubles.0;
        no_leak = leak_where-Covers c.classification_lookup caps doubles.1;
      }
