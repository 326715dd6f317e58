-- ===== src/Planner/TopoSort/Complete.antt =====
-- `topo_sort` of core/crates/aaf-planner/src/planner.rs as a whole.
use mathlib.Core.Path.{subst}
use mathlib.Core.Option.{some-injective, some-ne-none}
use mathlib.Core.List.{reverse-cons, reverse-reverse}
use agentic_application_fram.Base.{
  ℕ, suc, ◌+◌, ◌≡◌, ◌≢◌, ◌⊎◌, ◌++◌, refl, ap, sym, ◌∙◌, inl, inr, String, none, some, true, List,
  [], ◌∷◌, reverse, Assoc, lookup, insert, lookup-insert, Holds, if◌then◌else◌, length, has, count,
  has-count, All, arith, str_eq, eq_iff, eq_refl, Bool-cases,
}
use agentic_application_fram.Float.{Float}
use agentic_application_fram.Contracts.Capability.{CapabilityContract}
use agentic_application_fram.Planner.Composition.{ids_of}
use agentic_application_fram.Planner.TopoSort.{Sorting, by_id, sorted, topo_sort}
use agentic_application_fram.Planner.TopoSort.Steps.{Ranked, Ordered, Fit, remaining-length}
use agentic_application_fram.Planner.TopoSort.Order.{Finished, visit_all-Finished}

module _ (F : Float) (rank : String → ℕ) where
  module _ (R : Type 0) (ids : List String) where
    abbrev Named : String → CapabilityContract F → Type 0
    Named k d = (d.id ≡ k) × Fit F rank ids R d

    Named-insert :
        (c : CapabilityContract F) (m : Assoc (CapabilityContract F))
        → Fit F rank ids R c
        → ((k : String) → Holds (Named k) (lookup k m))
        → (k : String) → Holds (Named k) (lookup k (insert c.id c m))
    Named-insert c m fit h k = elim (Bool-cases (str_eq c.id k)) [
      | inl same ↦ rw (lookup-insert, same) ((eq_iff c.id k).0 same, fit)
      | inr other ↦ rw (lookup-insert, other) (h k)
    ]

    by_id-fits :
        (caps : List (CapabilityContract F)) (m : Assoc (CapabilityContract F))
        → All (Fit F rank ids R) caps
        → ((k : String) → Holds (Named k) (lookup k m))
        → (k : String) → Holds (Named k) (lookup k (by_id F caps m))
    unfolding by_id
    by_id-fits [] m fit h k = h k
    by_id-fits (c ∷ caps) m fit h k =
        by_id-fits caps (insert c.id c m) fit.1 (Named-insert c m fit.0 h) k

    lookup-ne :
        (c : CapabilityContract F) (m : Assoc (CapabilityContract F)) (k : String)
        → (c.id ≡ k) ⊎ (lookup k m ≢ none)
        → lookup k (insert c.id c m) ≢ none
    lookup-ne c m k h e = elim (Bool-cases (str_eq c.id k)) [
      | inl same ↦ some-ne-none c (sym (lookup-insert c.id k c m ∙ (rw same refl)) ∙ e)
      | inr other ↦ elim h [
        | inl named ↦ absurd (ground (arith, (eq_iff c.id k).1 named))
        | inr there ↦ there (sym (lookup-insert c.id k c m ∙ (rw other refl)) ∙ e)
      ]
    ]

    by_id-total :
        (caps : List (CapabilityContract F)) (m : Assoc (CapabilityContract F)) (k : String)
        → (has k (ids_of F caps) ≡ true) ⊎ (lookup k m ≢ none)
        → lookup k (by_id F caps m) ≢ none
    unfolding by_id
    by_id-total [] m k (inl h) = absurd (ground arith)
    by_id-total [] m k (inr h) = h
    by_id-total (c ∷ caps) m k (inr h) =
        by_id-total caps (insert c.id c m) k (inr (lookup-ne c m k (inr h)))
    by_id-total (c ∷ caps) m k (inl h) = elim (Bool-cases (str_eq c.id k)) [
      | inl same ↦
          by_id-total caps (insert c.id c m) k
            (inr (lookup-ne c m k (inl ((eq_iff c.id k).0 same))))
      | inr other ↦ by_id-total caps (insert c.id c m) k (inl (ground arith))
    ]

  ids-Fit :
      (R : Type 0) (ids : List String) (caps : List (CapabilityContract F))
      → ((v : String) → has v (ids_of F caps) ≡ true → has v ids ≡ true)
      → (R → All (Ranked F rank ids) caps)
      → All (Fit F rank ids R) caps
  ids-Fit R ids [] known ranked = tt
  ids-Fit R ids (c ∷ caps) known ranked = (
    (known c.id (ground (arith, eq_refl c.id)), λ r. (ranked r).0),
    ids-Fit R ids caps (λ v e. known v (ground arith)) (λ r. (ranked r).1),
  )

  abbrev start : Sorting F
  start = record { visited = []; order = [] }

  length-ids_of : (caps : List (CapabilityContract F)) → length (ids_of F caps) ≡ length caps
  length-ids_of [] = refl
  length-ids_of (c ∷ caps) = ap suc (length-ids_of caps)

  -- The depth-first search of all capabilities ends within the fuel.
  pub searched :
      (R : Type 0) (caps : List (CapabilityContract F))
      → (R → All (Ranked F rank (ids_of F caps)) caps)
      → (t : Sorting F) × (topo_sort F caps ≡ some (reverse t.order))
        × Finished F rank (ids_of F caps) R (by_id F caps []) caps start t
  unfolding topo_sort lookup
  searched R caps ranked =
      let ids = ids_of F caps in
      let fit = ids-Fit R ids caps (λ v e. e) ranked in
      let found =
        visit_all-Finished F rank ids R (by_id F caps [])
          (record {
            fits = by_id-fits R ids caps [] fit (λ k. tt);
            total = λ k e. by_id-total R ids caps [] k (inl e);
          })
          (length caps) caps start fit
          (omega (arith, remaining-length ids [], length-ids_of caps)) in
      (found.0, ap (sorted F) found.1, found.2)

module _ (F : Float) where
  visited-all :
      (caps : List (CapabilityContract F)) (visited : List String)
      → All (λ c. has c.id visited ≡ true) caps
      → (v : String) → has v (ids_of F caps) ≡ true
      → has v visited ≡ true
  visited-all [] visited h v e = absurd (ground arith)
  visited-all (c ∷ caps) visited h v e = elim (Bool-cases (str_eq c.id v)) [
    | inl same ↦ subst (λ k. has k visited ≡ true) ((eq_iff c.id v).0 same) h.0
    | inr other ↦ visited-all caps visited h.1 v (ground arith)
  ]

  ids-append :
      (v : String) (caps more : List (CapabilityContract F))
      → count v (ids_of F (caps ++ more)) ≡ count v (ids_of F caps) + count v (ids_of F more)
  ids-append v [] more = omega arith
  ids-append v (c ∷ caps) more = ground (arith, ids-append v caps more)

  ids-reverse :
      (v : String) (caps : List (CapabilityContract F))
      → count v (ids_of F (reverse caps)) ≡ count v (ids_of F caps)
  ids-reverse v [] = refl
  ids-reverse v (c ∷ caps) =
      rw (reverse-cons c caps)
        (ids-append v (reverse caps) (c ∷ []) ∙ omega (arith, ids-reverse v caps))

  -- The sort of the capabilities of a plan ends, whatever their dependencies, and its result holds
  -- the id of every one of them exactly once and no other id.
  pub topo_sort_complete :
      (caps : List (CapabilityContract F))
      → (sorted_caps : List (CapabilityContract F)) × (topo_sort F caps ≡ some sorted_caps)
        × ((v : String) → count v (ids_of F sorted_caps) ≡ (if has v (ids_of F caps) then 1 else 0))
  topo_sort_complete caps =
      let found = searched F (λ v. 0) ⊥ caps (λ r. absurd r) in
      (
        reverse found.0.order,
        found.1,
        λ v.
            ids-reverse v found.0.order
            ∙ (ground (
              arith,
              found.2.step.balance v,
              found.2.step.once (λ w. ground arith) v,
              found.2.step.within (λ w e. ground arith) v,
              visited-all caps found.0.visited found.2.visited v,
              has-count v found.0.visited,
            )),
      )

  -- If the dependencies of the capabilities among each other have no cycle, which a rank of their ids
  -- shows, the sort puts every dependency before what depends on it: in its result, read from the
  -- last to the first, the dependencies of each capability are among those that follow.
  pub topo_sort-Ordered :
      (rank : String → ℕ) (caps sorted_caps : List (CapabilityContract F))
      → All (Ranked F rank (ids_of F caps)) caps
      → topo_sort F caps ≡ some sorted_caps
      → Ordered F rank (ids_of F caps) (reverse sorted_caps)
  topo_sort-Ordered rank caps sorted_caps ranked h =
      let found = searched F rank Unit caps (λ r. ranked) in
      subst (Ordered F rank (ids_of F caps))
        (sym (reverse-reverse found.0.order) ∙ ap reverse (some-injective _ _ (sym found.1 ∙ h)))
        (found.2.first tt (λ n v e. absurd (ground arith)) tt)
