-- ===== src/Planner/TopoSort/Order.antt =====
-- The order that `topo_sort` of core/crates/aaf-planner/src/planner.rs makes.
use mathlib.Core.Path.{subst}
use agentic_application_fram.Base.{
  ℕ, zero, suc, ◌≤◌, ◌<◌, ◌≡◌, ◌≢◌, refl, ap, ◌∙◌, inl, inr, String, Option, none, some, true,
  false, List, [], ◌∷◌, Assoc, lookup, Holds, if◌then◌else◌, has, has-count, All, arith, str_eq,
  eq_iff, eq_refl, Bool-cases,
}
use agentic_application_fram.Float.{Float}
use agentic_application_fram.Contracts.Capability.{CapabilityContract}
use agentic_application_fram.Planner.Composition.{ids_of}
use agentic_application_fram.Planner.TopoSort.{
  Sorting, visit_found, and_then, visit_deps, push_order, visit, visit_all,
}
use agentic_application_fram.Planner.TopoSort.Steps.{
  remaining, remaining-visit, remaining-grows, Ordered, Above, Step, Step-refl, Step-trans,
  Step-Above, Step-has, Above-le, Fit,
}

module _ (F : Float) (rank : String → ℕ) (ids : List String) where
  module _ (R : Type 0) (m : Assoc (CapabilityContract F)) where
    -- What a visit leaves.
    record Done (c : CapabilityContract F) (s t : Sorting F) : Type 0 where
      step : Step F rank ids s t
      visited : has c.id t.visited ≡ true
      first :
          R
          → Above F rank ids (suc (rank c.id)) s
          → Ordered F rank ids s.order
          → Ordered F rank ids t.order × (has c.id (ids_of F t.order) ≡ true)

    pub record Good : Type 0 where
      pub fits : (k : String) → Holds (λ d. (d.id ≡ k) × Fit F rank ids R d) (lookup k m)
      pub total : (k : String) → has k ids ≡ true → lookup k m ≢ none

    abbrev Visits : (CapabilityContract F → Sorting F → Option (Sorting F)) → ℕ → Type 0
    Visits visitor f =
        (c : CapabilityContract F) (s : Sorting F)
        → Fit F rank ids R c
        → remaining ids s.visited ≤ f
        → (t : Sorting F) × (visitor c s ≡ some t) × Done c s t

    -- What the loop over the dependencies leaves.
    record AllDone (deps : List String) (s t : Sorting F) : Type 0 where
      step : Step F rank ids s t
      first :
          R
          → (n : ℕ) → All (λ dep. has dep ids ≡ true → rank dep < n) deps
          → Above F rank ids n s
          → Ordered F rank ids s.order
          → Ordered F rank ids t.order
            × All (λ dep. has dep ids ≡ true → has dep (ids_of F t.order) ≡ true) deps

    found-Done :
        (visitor : CapabilityContract F → Sorting F → Option (Sorting F)) (f : ℕ)
        → Visits visitor f
        → (dep : String) (o : Option (CapabilityContract F)) (s : Sorting F) → o ≢ none
        → Holds (λ d. (d.id ≡ dep) × Fit F rank ids R d) o
        → has dep ids ≡ true
        → remaining ids s.visited ≤ f
        → (t : Sorting F) × (visit_found F visitor o s ≡ some t) × AllDone (dep ∷ []) s t
    found-Done visitor f visits dep none s there good e room = absurd (there refl)
    found-Done visitor f visits dep (some d) s there good e room =
        let found = visits d s good.1 room in
        let at = ap rank good.0 in
        (
          found.0,
          found.1,
          record {
            step = found.2.step;
            first = λ r n below above ordered.
                let done =
                  found.2.first r
                    (Above-le F rank ids n (suc (rank d.id)) s (omega (arith, below.0 e, at)) above)
                    ordered in
                (
                  done.0,
                  ((λ _. subst (λ k. has k (ids_of F found.0.order) ≡ true) good.0 done.1), tt),
                );
          },
        )

    dep-AllDone :
        (visitor : CapabilityContract F → Sorting F → Option (Sorting F)) (f : ℕ)
        → Good
        → Visits visitor f
        → (dep : String) (s : Sorting F) → remaining ids s.visited ≤ f
        → (t : Sorting F) × ((if has dep ids
              then visit_found F visitor (lookup dep m) s
              else some s)
            ≡ some t)
          × AllDone (dep ∷ []) s t
    dep-AllDone visitor f good visits dep s room = elim (Bool-cases (has dep ids)) [
      | inl e ↦ rw e (
          found-Done visitor f visits dep (lookup dep m) s (good.total dep e) (good.fits dep) e
            room)
      | inr e ↦ rw e (
        s,
        refl,
        record {
          step = Step-refl F rank ids s;
          first = λ r n below above ordered. (ordered, ((λ h. absurd (ground arith)), tt));
        },
      )
    ]

    deps-AllDone :
        (visitor : CapabilityContract F → Sorting F → Option (Sorting F)) (f : ℕ)
        → Good
        → Visits visitor f
        → (deps : List String) (s : Sorting F) → remaining ids s.visited ≤ f
        → (t : Sorting F) × (visit_deps F visitor ids m deps s ≡ some t) × AllDone deps s t
    unfolding visit_deps
    deps-AllDone visitor f good visits [] s room = (
      s,
      refl,
      record { step = Step-refl F rank ids s; first = λ r n below above ordered. (ordered, tt) },
    )
    deps-AllDone visitor f good visits (dep ∷ deps) s room =
        let one = dep-AllDone visitor f good visits dep s room in
        let rest =
          deps-AllDone visitor f good visits deps one.0
            (omega (arith, remaining-grows ids s.visited one.0.visited one.2.step.grows, room)) in
        (
          rest.0,
          ap (λ x. and_then F x (visit_deps F visitor ids m deps)) one.1 ∙ rest.1,
          record {
            step = Step-trans F rank ids s one.0 rest.0 one.2.step rest.2.step;
            first = λ r n below above ordered.
                let now = one.2.first r n (below.0, tt) above ordered in
                let after =
                  rest.2.first r n below.1 (Step-Above F rank ids n s one.0 one.2.step above)
                    now.0 in
                (
                  after.0,
                  ((λ e. Step-has F rank ids dep one.0 rest.0 rest.2.step (now.1.0 e)), after.1),
                );
          },
        )

    visit-old :
        (f : ℕ) (c : CapabilityContract F) (s : Sorting F)
        → has c.id s.visited ≡ true
        → visit F (suc f) ids m c s ≡ some s
    unfolding visit
    visit-old f c s e = rw e refl

    visit-new :
        (f : ℕ) (c : CapabilityContract F) (s : Sorting F)
        → has c.id s.visited ≡ false
        → visit F (suc f) ids m c s
          ≡ push_order F c (
              visit_deps F
                (visit F f ids m)
                ids
                m
                c.depends_on
                (record s { visited = c.id ∷ s.visited }))
    unfolding visit
    visit-new f c s e = rw e refl

    old-Done : (c : CapabilityContract F) (s : Sorting F) → has c.id s.visited ≡ true → Done c s s
    old-Done c s e = record {
      step = Step-refl F rank ids s;
      visited = e;
      first = λ r above ordered.
          (ordered, elim (above c.id e) [ inl there ↦ there | inr waits ↦ absurd (omega arith) ]);
    }

    abbrev entered : CapabilityContract F → Sorting F → Sorting F
    entered c s = record s { visited = c.id ∷ s.visited }

    entered-Above :
        (c : CapabilityContract F) (s : Sorting F)
        → Above F rank ids (suc (rank c.id)) s
        → Above F rank ids (rank c.id) (entered c s)
    entered-Above c s above v e = elim (Bool-cases (str_eq c.id v)) [
      | inl same ↦ inr (omega (arith, ap rank ((eq_iff c.id v).0 same)))
      | inr other ↦ elim (above v (ground arith)) [
        | inl there ↦ inl there
        | inr waits ↦ inr (omega arith)
      ]
    ]

    new-Step :
        (c : CapabilityContract F) (s t : Sorting F)
        → Fit F rank ids R c
        → has c.id s.visited ≡ false
        → Step F rank ids (entered c s) t
        → Step F rank ids s (record t { order = c ∷ t.order })
    new-Step c s t fit new h = record {
      grows = λ v. ground (arith, h.grows v);
      balance = λ v. ground (arith, h.balance v, h.grows v);
      once = λ o. h.once (λ v. ground (arith, o v, eq_iff c.id v, has-count c.id s.visited));
      within = λ w. h.within (λ v e. ground (arith, w v, eq_iff c.id v, fit.0));
    }

    new-Done :
        (c : CapabilityContract F) (s t : Sorting F)
        → Fit F rank ids R c
        → has c.id s.visited ≡ false
        → AllDone c.depends_on (entered c s) t
        → Done c s (record t { order = c ∷ t.order })
    new-Done c s t fit new h = record {
      step = new-Step c s t fit new h.step;
      visited = ground (arith, h.step.grows c.id, eq_refl c.id, has-count c.id t.visited);
      first = λ r above ordered.
          let done = h.first r (rank c.id) (fit.1 r) (entered-Above c s above) ordered in
          ((done.1, done.0), ground (arith, eq_refl c.id));
    }

    visit_lem : Good → (f : ℕ) → Visits (visit F (suc f) ids m) f
    visit_lem good zero c s fit room = elim (Bool-cases (has c.id s.visited)) [
      | inl old ↦ (s, visit-old zero c s old, old-Done c s old)
      | inr new ↦ absurd (omega (arith, remaining-visit c.id ids s.visited fit.0 new))
    ]
    visit_lem good (suc f) c s fit room = elim (Bool-cases (has c.id s.visited)) [
      | inl old ↦ (s, visit-old (suc f) c s old, old-Done c s old)
      | inr new ↦
          let deps =
            deps-AllDone (visit F (suc f) ids m) f good (visit_lem good f) c.depends_on
              (entered c s) (omega (arith, remaining-visit c.id ids s.visited fit.0 new)) in
          (
            record deps.0 { order = c ∷ deps.0.order },
            visit-new (suc f) c s new ∙ ap (push_order F c) deps.1,
            new-Done c s deps.0 fit new deps.2,
          )
    ]

    -- What the loop over all capabilities leaves.
    pub record Finished (caps : List (CapabilityContract F)) (s t : Sorting F) : Type 0 where
      pub step : Step F rank ids s t
      pub visited : All (λ c. has c.id t.visited ≡ true) caps
      pub first :
          R
          → ((n : ℕ) → Above F rank ids n s)
          → Ordered F rank ids s.order
          → Ordered F rank ids t.order

    visited-later :
        (s t : Sorting F)
        → Step F rank ids s t
        → (v : String) → has v s.visited ≡ true
        → has v t.visited ≡ true
    visited-later s t step v e =
        ground (arith, step.grows v, has-count v s.visited, has-count v t.visited)

    pub visit_all-Finished :
        Good
        → (f : ℕ) (caps : List (CapabilityContract F)) (s : Sorting F) → All (Fit F rank ids R) caps
        → remaining ids s.visited ≤ f
        → (t : Sorting F) × (visit_all F (suc f) ids m caps s ≡ some t) × Finished caps s t
    unfolding visit_all
    visit_all-Finished good f [] s fit room = (
      s,
      refl,
      record { step = Step-refl F rank ids s; visited = tt; first = λ r above ordered. ordered },
    )
    visit_all-Finished good f (c ∷ caps) s fit room =
        let one = visit_lem good f c s fit.0 room in
        let rest =
          visit_all-Finished good f caps one.0 fit.1
            (omega (arith, remaining-grows ids s.visited one.0.visited one.2.step.grows, room)) in
        (
          rest.0,
          ap (λ x. and_then F x (visit_all F (suc f) ids m caps)) one.1 ∙ rest.1,
          record {
            step = Step-trans F rank ids s one.0 rest.0 one.2.step rest.2.step;
            visited = (visited-later one.0 rest.0 rest.2.step c.id one.2.visited, rest.2.visited);
            first = λ r above ordered.
                rest.2.first r (λ n. Step-Above F rank ids n s one.0 one.2.step (above n))
                  (one.2.first r (above (suc (rank c.id))) ordered).0;
          },
        )
