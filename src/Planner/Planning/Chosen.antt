-- ===== src/Planner/Planning/Chosen.antt =====
-- The capabilities that core/crates/aaf-planner/src/planner.rs chooses for an intent, apart from its
-- loops.
use mathlib.Core.Path.{subst}
use agentic_application_fram.Base.{
  ◌≡◌, ◌⊎◌, refl, sym, inl, inr, none, some, List, [], ◌∷◌, has, All, In, has-In, In-has,
  Bool-cases, arith,
}
use agentic_application_fram.Float.{Float}
use agentic_application_fram.Contracts.Intent.{IntentEnvelope}
use agentic_application_fram.Contracts.Capability.{CapabilityContract}
use agentic_application_fram.Registry.Store.{Registry, list}
use agentic_application_fram.Registry.Discovery.{DiscoveryQuery, DiscoveryResult, discover}
use agentic_application_fram.Registry.Discovery.Ranking.{Fits, discover-Fits}
use agentic_application_fram.Planner.Planning.{Outside, or_else, candidates, needed}

module _ (F : Float) (O : Outside) where
  abbrev pub Hits : Type 0
  Hits = List (DiscoveryResult F O.to_lowercase)

  abbrev pub answers : IntentEnvelope F → Registry F → Hits
  answers i r =
      discover F O.to_lowercase (record { query = i.goal; domain = some i.domain; limit = 10 }) r

  abbrev pub answers_anywhere : IntentEnvelope F → Registry F → Hits
  answers_anywhere i r =
      discover F O.to_lowercase (record { query = i.goal; domain = none; limit = 5 }) r

  -- What the registry offers for the goal: its answers in the domain of the intent, or if there are
  -- none, those in any domain: of the first at most ten, of the others at most five.
  abbrev pub Offered : IntentEnvelope F → Registry F → Hits → Type 0
  Offered i r hits = (hits ≡ answers i r) ⊎ ((answers i r ≡ []) × (hits ≡ answers_anywhere i r))

  -- Of a list of hits, the capabilities that another one names among those it depends on.
  pub data Needed (top : CapabilityContract F) : Hits → List (CapabilityContract F) → Type 0 where
    finished : Needed top [] []
    takes :
        {hit : DiscoveryResult F O.to_lowercase} {hits : Hits} {caps : List (CapabilityContract F)}
        → In hit.capability.id top.depends_on
        → Needed top hits caps
        → Needed top (hit ∷ hits) (hit.capability ∷ caps)
    leaves :
        {hit : DiscoveryResult F O.to_lowercase} {hits : Hits} {caps : List (CapabilityContract F)}
        → ¬ In hit.capability.id top.depends_on
        → Needed top hits caps
        → Needed top (hit ∷ hits) caps

  -- The first capability that the registry offers, with those that it depends on directly, all of them
  -- capabilities of the registry.
  pub record Chosen (i : IntentEnvelope F) (r : Registry F) (caps : List (CapabilityContract F))
      : Type 0 where
    pub top : DiscoveryResult F O.to_lowercase
    pub others : Hits
    pub rest : List (CapabilityContract F)
    pub offered : Offered i r (top ∷ others)
    pub top_first : caps ≡ top.capability ∷ rest
    pub others_needed : Needed top.capability others rest
    pub listed : All (λ c. In c (list F r)) caps

  candidates-Offered : (i : IntentEnvelope F) (r : Registry F) → Offered i r (candidates F O i r)
  unfolding candidates
  candidates-Offered i r = by_first (answers i r) refl
    where
      by_first :
          (hits : Hits)
          → hits ≡ answers i r
          → (or_else F O hits (answers_anywhere i r) ≡ answers i r)
            ⊎ ((answers i r ≡ [])
                × (or_else F O hits (answers_anywhere i r) ≡ answers_anywhere i r))
      by_first [] e = inr (sym e, refl)
      by_first (h ∷ hs) e = inl e

  needed-Needed : (top : CapabilityContract F) (hits : Hits) → Needed top hits (needed F O top hits)
  unfolding needed
  needed-Needed top [] = finished
  needed-Needed top (hit ∷ hits) = elim (Bool-cases (has hit.capability.id top.depends_on)) [
    | inl e ↦ rw e (takes (has-In _ top.depends_on e) (needed-Needed top hits))
    | inr e ↦
        rw e (leaves (λ i. ground (arith, In-has _ top.depends_on i, e)) (needed-Needed top hits))
  ]

  Fits-listed :
      (q : DiscoveryQuery) (r : Registry F) (top : CapabilityContract F) (hits : Hits)
      (caps : List (CapabilityContract F))
      → Needed top hits caps
      → All (Fits F O.to_lowercase q (list F r)) hits
      → All (λ c. In c (list F r)) caps
  Fits-listed q r top hits caps finished h = tt
  Fits-listed q r top (hit ∷ hits) caps (takes i n) h =
      (h.0.listed, Fits-listed q r top hits _ n h.1)
  Fits-listed q r top (hit ∷ hits) caps (leaves i n) h = Fits-listed q r top hits caps n h.1

  all_listed :
      (q : DiscoveryQuery) (r : Registry F) (top : DiscoveryResult F O.to_lowercase) (others : Hits)
      (rest : List (CapabilityContract F))
      → Needed top.capability others rest
      → top ∷ others ≡ discover F O.to_lowercase q r
      → All (λ c. In c (list F r)) (top.capability ∷ rest)
  all_listed q r top others rest n e =
      let fits =
        subst (All (Fits F O.to_lowercase q (list F r))) (sym e)
          (discover-Fits F O.to_lowercase q r) in
      (fits.0.listed, Fits-listed q r top.capability others rest n fits.1)

  pub needed-Chosen :
      (i : IntentEnvelope F) (r : Registry F) (top : DiscoveryResult F O.to_lowercase)
      (others : Hits)
      → candidates F O i r ≡ top ∷ others
      → Chosen i r (top.capability ∷ needed F O top.capability others)
  needed-Chosen i r top others e =
      let offered = subst (Offered i r) e (candidates-Offered i r) in
      let picked = needed-Needed top.capability others in
      record {
        top = top;
        others = others;
        rest = needed F O top.capability others;
        offered = offered;
        top_first = refl;
        others_needed = picked;
        listed = elim offered [
          | inl h ↦ all_listed _ r top others _ picked h
          | inr h ↦ all_listed _ r top others _ picked h.1
        ];
      }
