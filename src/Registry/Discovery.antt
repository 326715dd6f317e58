-- ===== src/Registry/Discovery.antt =====
-- core/crates/aaf-registry/src/discovery.rs: the capabilities that match a query, by their score. The
-- lower case of a text is a parameter.
pub mod Ranking
use Prim.Native.String.{◌++◌ as str_append}
use agentic_application_fram.Base.{
  ℕ, suc, String, Option, none, some, Bool, true, false, not, List, [], ◌∷◌, if◌then◌else◌, length,
  any, retain, has, str_eq, split_whitespace, contains, join, take,
}
use agentic_application_fram.Float.{Float, zero_float}
use agentic_application_fram.Contracts.Capability.{CapabilityContract, EntityRefLite, EventRefLite}
use agentic_application_fram.Registry.Store.{Registry, list}

pub record DiscoveryQuery : Type 0 where
  pub query : String
  pub domain : Option String
  pub limit : ℕ  -- usize

abbrev pub new : String → DiscoveryQuery
new query = record { query = query; domain = none; limit = 5 }

pub data EntityQueryKind : Type 0 where
  reads writes emits : EntityQueryKind

-- The domain filter.
abbrev pub in_domain : Option String → List String → Bool
in_domain none domains = true
in_domain (some d) domains = has d domains

module _ (F : Float) (to_lowercase : String → String) where
  pub record DiscoveryResult : Type 0 where
    pub capability : CapabilityContract F
    pub score : F.Carrier

  -- The number of terms that the text contains, and its ratio to all terms.
  abbrev pub hit_count : List String → String → ℕ
  hit_count q_terms haystack = length (retain (λ term. contains term haystack) q_terms)

  unfoldable pub ratio_of : List String → String → F.Carrier
  ratio_of [] haystack = zero_float F
  ratio_of (t ∷ ts) haystack =
      F.div (F.from_u64 (hit_count (t ∷ ts) haystack)) (F.from_u64 (length (t ∷ ts)))

  unfoldable pub lexical_score : String → String → F.Carrier
  unfolding ratio_of
  lexical_score q haystack = ratio_of (split_whitespace (to_lowercase q)) (to_lowercase haystack)

  abbrev pub haystack_of : CapabilityContract F → String
  haystack_of cap =
      str_append cap.name
        (str_append " " (str_append cap.description (str_append " " (join " " cap.tags))))

  -- The loop over the capabilities.
  unfoldable pub matches : DiscoveryQuery → List (CapabilityContract F) → List DiscoveryResult
  unfolding lexical_score
  matches q [] = []
  matches q (cap ∷ caps) =
      let rest = matches q caps in
      let score = lexical_score q.query (haystack_of cap) in
      if not (in_domain q.domain cap.domains)
      then rest
      else if F.lt (zero_float F) score
      then record { capability = cap; score = score } ∷ rest
      else rest

  -- The stable sort, the highest score first.
  unfoldable pub place : DiscoveryResult → List DiscoveryResult → List DiscoveryResult
  place x [] = x ∷ []
  place x (y ∷ ys) = let rest = place x ys in if F.lt x.score y.score then y ∷ rest else x ∷ y ∷ ys

  unfoldable pub sort : List DiscoveryResult → List DiscoveryResult
  unfolding place
  sort [] = []
  sort (x ∷ xs) = place x (sort xs)

  unfoldable pub discover : DiscoveryQuery → Registry F → List DiscoveryResult
  unfolding matches sort
  discover q r = take q.limit (sort (matches q (list F r)))

  -- Whether the capability declares the entity in the role.
  unfoldable pub declares : EntityQueryKind → EntityRefLite → CapabilityContract F → Bool
  declares reads entity cap = any (λ x. str_eq x.entity_id entity.entity_id) cap.reads
  declares writes entity cap = any (λ x. str_eq x.entity_id entity.entity_id) cap.writes
  declares emits entity cap = any (λ e. str_eq e.id entity.entity_id) cap.emits

  unfoldable pub discover_by_entity :
      EntityRefLite → EntityQueryKind → Registry F → List (CapabilityContract F)
  unfolding declares
  discover_by_entity entity kind r = retain (declares kind entity) (list F r)
