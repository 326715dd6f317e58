-- ===== src/Registry/Discovery/Ranking.antt =====
-- What core/crates/aaf-registry/src/discovery.rs answers.
use agentic_application_fram.Base.{
  ℕ, zero, suc, ◌≤◌, ◌≡◌, refl, inl, inr, String, true, false, List, [], ◌∷◌, length, take, arith,
  Bool-cases, All, In, here, later,
}
use agentic_application_fram.Float.{Float, zero_float}
use agentic_application_fram.Contracts.Capability.{CapabilityContract}
use agentic_application_fram.Registry.Store.{Registry, list}
use agentic_application_fram.Registry.Discovery.{
  DiscoveryQuery, DiscoveryResult, in_domain, lexical_score, haystack_of, matches, place, sort,
  discover,
}

module _ (F : Float) (to_lowercase : String → String) where
  abbrev Result : Type 0
  Result = DiscoveryResult F to_lowercase

  -- No result scores less than the one after it.
  abbrev pub Descending : List (DiscoveryResult F to_lowercase) → Type 0
  Descending [] = Unit
  Descending (x ∷ []) = Unit
  Descending (x ∷ y ∷ ys) = (F.lt x.score y.score ≡ false) × Descending (y ∷ ys)

  -- A result is a capability of the list that serves the domain, with its score, which is positive.
  pub record Fits (q : DiscoveryQuery) (caps : List (CapabilityContract F))
      (x : DiscoveryResult F to_lowercase) : Type 0 where
    pub listed : In x.capability caps
    pub domain : in_domain q.domain x.capability.domains ≡ true
    pub scored :
        x.score ≡ lexical_score F to_lowercase q.query (haystack_of F to_lowercase x.capability)
    pub positive : F.lt (zero_float F) x.score ≡ true

  Fits-later :
      (q : DiscoveryQuery) (cap : CapabilityContract F) (caps : List (CapabilityContract F))
      (xs : List Result)
      → All (Fits q caps) xs
      → All (Fits q (cap ∷ caps)) xs
  Fits-later q cap caps [] h = tt
  Fits-later q cap caps (x ∷ xs) h = (
    record {
      listed = later h.0.listed;
      domain = h.0.domain;
      scored = h.0.scored;
      positive = h.0.positive;
    },
    Fits-later q cap caps xs h.1,
  )

  matches-Fits :
      (q : DiscoveryQuery) (caps : List (CapabilityContract F))
      → All (Fits q caps) (matches F to_lowercase q caps)
  unfolding matches
  matches-Fits q [] = tt
  matches-Fits q (cap ∷ caps) =
      let rest = Fits-later q cap caps (matches F to_lowercase q caps) (matches-Fits q caps) in
      elim (Bool-cases (in_domain q.domain cap.domains)) [
        | inr out ↦ rw out rest
        | inl serves ↦
            elim (Bool-cases (
              F.lt (zero_float F)
                (lexical_score F to_lowercase q.query (haystack_of F to_lowercase cap)))) [
                  | inr low ↦ rw (serves, low) rest
                  | inl high ↦
                      rw (serves, high)
                        (
                          record { listed = here; domain = serves; scored = refl; positive = high },
                          rest,
                        )
                ]
      ]

  take-Descending : (n : ℕ) (xs : List Result) → Descending xs → Descending (take n xs)
  unfolding take
  take-Descending zero xs h = tt
  take-Descending (suc n) [] h = tt
  take-Descending (suc zero) (x ∷ ys) h = tt
  take-Descending (suc (suc n)) (x ∷ []) h = tt
  take-Descending (suc (suc n)) (x ∷ y ∷ ys) h = (h.0, take-Descending (suc n) (y ∷ ys) h.1)

  take-All {κ} : (P : Result → Type κ) (n : ℕ) (xs : List Result) → All P xs → All P (take n xs)
  unfolding take
  take-All P zero xs h = tt
  take-All P (suc n) [] h = tt
  take-All P (suc n) (x ∷ xs) h = (h.0, take-All P n xs h.1)

  length-take : (n : ℕ) (xs : List Result) → length (take n xs) ≤ n
  unfolding take
  length-take zero xs = omega arith
  length-take (suc n) [] = omega arith
  length-take (suc n) (x ∷ xs) = omega (arith, length-take n xs)

  place-All {κ} :
      (P : Result → Type κ) (x : Result) (ys : List Result)
      → P x
      → All P ys
      → All P (place F to_lowercase x ys)
  unfolding place
  place-All P x [] h hs = (h, tt)
  place-All P x (y ∷ ys) h hs = elim (Bool-cases (F.lt x.score y.score)) [
    | inl low ↦ rw low (hs.0, place-All P x ys h hs.1)
    | inr high ↦ rw high (h, hs)
  ]

  sort-All {κ} :
      (P : Result → Type κ) (xs : List Result) → All P xs → All P (sort F to_lowercase xs)
  unfolding sort
  sort-All P [] h = tt
  sort-All P (x ∷ xs) h = place-All P x (sort F to_lowercase xs) h.0 (sort-All P xs h.1)

  pub discover-Fits :
      (q : DiscoveryQuery) (r : Registry F) → All (Fits q (list F r)) (discover F to_lowercase q r)
  unfolding discover
  discover-Fits q r =
      take-All (Fits q (list F r)) q.limit _
        (sort-All (Fits q (list F r)) _ (matches-Fits q (list F r)))

  module _ (asymmetric : (a b : F.Carrier) → F.lt a b ≡ true → F.lt b a ≡ false) where
    -- The list that an element goes into does not begin above it.
    place-Descending :
        (x y : Result) (ys : List Result)
        → F.lt y.score x.score ≡ false
        → Descending (y ∷ ys)
        → Descending (y ∷ place F to_lowercase x ys)
    unfolding place
    place-Descending x y [] low h = (low, tt)
    place-Descending x y (z ∷ zs) low h = elim (Bool-cases (F.lt x.score z.score)) [
      | inl below ↦ rw below (h.0, place-Descending x z zs (asymmetric x.score z.score below) h.1)
      | inr above ↦ rw above (low, (above, h.1))
    ]

    sorted-place :
        (x : Result) (ys : List Result) → Descending ys → Descending (place F to_lowercase x ys)
    unfolding place
    sorted-place x [] h = tt
    sorted-place x (y ∷ ys) h = elim (Bool-cases (F.lt x.score y.score)) [
      | inl below ↦ rw below (place-Descending x y ys (asymmetric x.score y.score below) h)
      | inr above ↦ rw above (above, h)
    ]

    sort-Descending : (xs : List Result) → Descending (sort F to_lowercase xs)
    unfolding sort
    sort-Descending [] = tt
    sort-Descending (x ∷ xs) = sorted-place x (sort F to_lowercase xs) (sort-Descending xs)

    pub record Ranking (q : DiscoveryQuery) (r : Registry F)
        (xs : List (DiscoveryResult F to_lowercase)) : Type 0 where
      pub limited : length xs ≤ q.limit
      pub fitting : All (Fits q (list F r)) xs
      pub ranked : Descending xs

    -- If the comparison of scores is asymmetric, a query is answered by at most its limit of
    -- capabilities of the registry, each of which serves the domain that it names and has a positive
    -- score, and none of which scores less than the one after it.
    pub discover-Ranking :
        (q : DiscoveryQuery) (r : Registry F) → Ranking q r (discover F to_lowercase q r)
    unfolding discover
    discover-Ranking q r = record {
      limited = length-take q.limit _;
      fitting = discover-Fits q r;
      ranked = take-Descending q.limit _ (sort-Descending (matches F to_lowercase q (list F r)));
    }
