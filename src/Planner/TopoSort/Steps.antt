-- ===== src/Planner/TopoSort/Steps.antt =====
-- The steps of `topo_sort` of core/crates/aaf-planner/src/planner.rs, and what each of them keeps.
use agentic_application_fram.Base.{
  ℕ, suc, ◌+◌, ◌≤◌, ◌<◌, ◌≡◌, refl, ◌⊎◌, inl, inr, String, true, false, List, [], ◌∷◌,
  if◌then◌else◌, length, has, count, has-count, All, arith, eq_iff, eq_refl, Bool-cases,
}
use agentic_application_fram.Float.{Float}
use agentic_application_fram.Contracts.Capability.{CapabilityContract}
use agentic_application_fram.Planner.Composition.{ids_of}
use agentic_application_fram.Planner.TopoSort.{Sorting}

-- The ids that are not visited.
unfoldable pub remaining : List String → List String → ℕ
remaining [] visited = 0
remaining (i ∷ ids) visited = (if has i visited then 0 else 1) + remaining ids visited

pub remaining-cons :
    (v : String) (ids visited : List String) → remaining ids (v ∷ visited) ≤ remaining ids visited
unfolding remaining
remaining-cons v [] visited = omega arith
remaining-cons v (i ∷ ids) visited = ground (arith, remaining-cons v ids visited)

pub remaining-visit :
    (v : String) (ids visited : List String)
    → has v ids ≡ true
    → has v visited ≡ false
    → suc (remaining ids (v ∷ visited)) ≤ remaining ids visited
unfolding remaining
remaining-visit v [] visited h n = absurd (ground arith)
remaining-visit v (i ∷ ids) visited h n =
    ground
      (arith, remaining-visit v ids visited, remaining-cons v ids visited, eq_iff i v, eq_refl v)

pub remaining-length : (ids visited : List String) → remaining ids visited ≤ length ids
unfolding remaining
remaining-length [] visited = omega arith
remaining-length (i ∷ ids) visited = ground (arith, remaining-length ids visited)

pub remaining-grows :
    (ids visited more : List String)
    → ((v : String) → count v visited ≤ count v more)
    → remaining ids more ≤ remaining ids visited
unfolding remaining
remaining-grows [] visited more h = omega arith
remaining-grows (i ∷ ids) visited more h =
    ground (arith, remaining-grows ids visited more h, h i, has-count i visited, has-count i more)

module _ (F : Float) (rank : String → ℕ) (ids : List String) where
  -- Every dependency within the set has a lower rank.
  abbrev pub Ranked : CapabilityContract F → Type 0
  Ranked c = All (λ dep. has dep ids ≡ true → rank dep < rank c.id) c.depends_on

  -- Every dependency within the set stands in a list.
  abbrev pub Before : List (CapabilityContract F) → CapabilityContract F → Type 0
  Before done c = All (λ dep. has dep ids ≡ true → has dep (ids_of F done) ≡ true) c.depends_on

  -- A list, last element first, in which dependencies stand before what depends on them.
  abbrev pub Ordered : List (CapabilityContract F) → Type 0
  Ordered [] = Unit
  Ordered (c ∷ done) = Before done c × Ordered done

  -- The ids that are visited and not yet in the order have ranks from a bound on.
  abbrev pub Above : ℕ → Sorting F → Type 0
  Above n s = (v : String) → has v s.visited ≡ true → has v (ids_of F s.order) ≡ true ⊎ (n ≤ rank v)

  pub record Step (s t : Sorting F) : Type 0 where
    pub grows : (v : String) → count v s.visited ≤ count v t.visited
    pub balance :
        (v : String)
        → count v (ids_of F t.order) + count v s.visited
          ≡ count v (ids_of F s.order) + count v t.visited
    pub once : ((v : String) → count v s.visited ≤ 1) → (v : String) → count v t.visited ≤ 1
    pub within :
        ((v : String) → has v s.visited ≡ true → has v ids ≡ true)
        → (v : String) → has v t.visited ≡ true
        → has v ids ≡ true

  pub Step-refl : (s : Sorting F) → Step s s
  Step-refl s = record {
    grows = λ v. omega arith;
    balance = λ v. refl;
    once = λ h. h;
    within = λ h. h;
  }

  pub Step-trans : (r s t : Sorting F) → Step r s → Step s t → Step r t
  Step-trans r s t h k = record {
    grows = λ v. omega (arith, h.grows v, k.grows v);
    balance = λ v. omega (arith, h.balance v, k.balance v, h.grows v, k.grows v);
    once = λ o. k.once (h.once o);
    within = λ w. k.within (h.within w);
  }

  -- Whoever waits before a step waits after it, and what is in the order stays there.
  pub Step-Above : (n : ℕ) (s t : Sorting F) → Step s t → Above n s → Above n t
  Step-Above n s t h above v e = elim (Bool-cases (has v (ids_of F t.order))) [
    | inl there ↦ inl there
    | inr missing ↦
        elim (above v (
          ground (
            arith,
            h.balance v,
            h.grows v,
            has-count v s.visited,
            has-count v t.visited,
            has-count v (ids_of F t.order),
            has-count v (ids_of F s.order),
          ))) [
            | inl old ↦ absurd (
                ground (
                  arith,
                  h.balance v,
                  h.grows v,
                  has-count v s.visited,
                  has-count v t.visited,
                  has-count v (ids_of F t.order),
                  has-count v (ids_of F s.order),
                ))
            | inr waits ↦ inr waits
          ]
  ]

  pub Step-has :
      (v : String) (s t : Sorting F)
      → Step s t
      → has v (ids_of F s.order) ≡ true
      → has v (ids_of F t.order) ≡ true
  Step-has v s t h e = ground (
    arith,
    h.balance v,
    h.grows v,
    has-count v (ids_of F t.order),
    has-count v (ids_of F s.order),
  )

  pub Above-le : (n k : ℕ) (s : Sorting F) → k ≤ n → Above n s → Above k s
  Above-le n k s h above v e = elim (above v e) [
    | inl there ↦ inl there
    | inr waits ↦ inr (omega arith)
  ]

  pub Before-Step :
      (c : CapabilityContract F) (s t : Sorting F) → Step s t → Before s.order c → Before t.order c
  Before-Step c s t step = before c.depends_on
    where
      before :
          (deps : List String)
          → All (λ dep. has dep ids ≡ true → has dep (ids_of F s.order) ≡ true) deps
          → All (λ dep. has dep ids ≡ true → has dep (ids_of F t.order) ≡ true) deps
      before [] h = tt
      before (dep ∷ deps) h = ((λ e. Step-has dep s t step (h.0 e)), before deps h.1)

  -- A capability of the set, ranked where `R` holds.
  abbrev pub Fit : Type 0 → CapabilityContract F → Type 0
  Fit R c = (has c.id ids ≡ true) × (R → Ranked c)
