-- ===== src/Policy/Scope.antt =====
-- core/crates/aaf-policy/src/scope.rs: the scopes that an agent carries into a request. A scope is
-- the list of its bytes.
pub mod Matching
pub mod Effective
use Prim.Native.Char.{code}
use agentic_application_fram.Base.{
  ℕ, ◌≡◌, ◌≢◌, ◌↔◌, ◌∙◌, ◌≤◌, refl, sym, ap, String, Option, none, some, map_option, Bool, true,
  false, ◌&&◌, ◌||◌, not, Bool-cases, inl, inr, ◌⊎◌, List, [], ◌∷◌, reverse, any, retain,
  if◌then◌else◌, ◌==◌, ltb, arith,
}
use agentic_application_fram.Contracts.Trust.{
  AutonomyLevel, level1, level2, level3, level4, level5, as_u8,
}

abbrev pub Scope : Type 0
Scope = List ℕ

abbrev pub bytes : String → Scope
bytes String.[] = []
bytes (String.◌∷◌ c s) = code c ∷ bytes s

unfoldable pub same : Scope → Scope → Bool
same [] [] = true
same [] (_ ∷ _) = false
same (_ ∷ _) [] = false
same (a ∷ xs) (b ∷ bs) = a == b && same xs bs

-- `strip_prefix`; `none` where the scope does not start with it.
unfoldable pub strip_prefix : Scope → Scope → Option Scope
strip_prefix [] s = some s
strip_prefix (a ∷ xs) [] = none
strip_prefix (a ∷ xs) (b ∷ bs) = let rest = strip_prefix xs bs in if a == b then rest else none

unfoldable pub strip_suffix : Scope → Scope → Option Scope
unfolding strip_prefix
strip_suffix suffix s = map_option reverse (strip_prefix (reverse suffix) (reverse s))

abbrev pub is_found : Option Scope → Bool
is_found none = false
is_found (some _) = true

abbrev pub starts_with_colon : Option Scope → Bool
starts_with_colon none = false
starts_with_colon (some []) = false
starts_with_colon (some (c ∷ _)) = c == 58

unfoldable pub scope_matches : Scope → Scope → Bool
unfolding same strip_prefix strip_suffix
scope_matches granted required =
    same granted required || same granted (bytes "*") || elim (strip_suffix (bytes ":*") granted) [
      | none ↦ false
      | some prefix ↦ starts_with_colon (strip_prefix prefix required)
    ]

unfoldable pub autonomy_ceiling : AutonomyLevel → List Scope
autonomy_ceiling level1 = []
autonomy_ceiling level2 = bytes "*:read" ∷ []
autonomy_ceiling level3 = bytes "*:read" ∷ bytes "*:write" ∷ []
autonomy_ceiling level4 =
    bytes "*:read" ∷ bytes "*:write" ∷ bytes "*:delete" ∷ bytes "*:send" ∷ bytes "*:execute" ∷ []
autonomy_ceiling level5 = bytes "*" ∷ []

unfoldable pub ceiling_matches : Scope → Scope → Bool
unfolding same strip_prefix strip_suffix
ceiling_matches ceiling scope =
    same ceiling (bytes "*") || elim (strip_prefix (bytes "*") ceiling) [
      | none ↦ same ceiling scope
      | some suffix ↦ is_found (strip_suffix suffix scope)
    ]

unfoldable pub scope_matches_with_ceiling : Scope → Scope → Bool
unfolding scope_matches ceiling_matches
scope_matches_with_ceiling granted required =
    scope_matches granted required || ceiling_matches granted required

-- `collect` into a `BTreeSet`, which is sorted by the bytes.
unfoldable pub before : Scope → Scope → Bool
before [] [] = false
before [] (_ ∷ _) = true
before (_ ∷ _) [] = false
before (a ∷ xs) (b ∷ bs) = ltb a b || (a == b && before xs bs)

unfoldable pub insert_sorted : Scope → List Scope → List Scope
unfolding same before
insert_sorted x [] = x ∷ []
insert_sorted x (y ∷ ys) =
    let rest = insert_sorted x ys in
    if same x y then y ∷ ys else if before x y then x ∷ y ∷ ys else y ∷ rest

unfoldable pub collect : List Scope → List Scope
unfolding insert_sorted
collect [] = []
collect (x ∷ xs) = insert_sorted x (collect xs)

abbrev pub is_granted : List Scope → Scope → Bool
is_granted user_scopes s = any (λ u. scope_matches u s) user_scopes

unfoldable pub after_intent : List Scope → List Scope → List Scope
unfolding collect
after_intent user_scopes intent_scopes = collect (retain (is_granted user_scopes) intent_scopes)

unfoldable pub compute_effective_scopes : List Scope → List Scope → AutonomyLevel → List Scope
unfolding after_intent
compute_effective_scopes user_scopes intent_scopes agent_level =
    retain (λ s. any (λ c. scope_matches c s) (autonomy_ceiling agent_level))
      (after_intent user_scopes intent_scopes)

abbrev pub is_permitted : AutonomyLevel → Scope → Bool
is_permitted agent_level s =
    any (λ c. scope_matches_with_ceiling c s) (autonomy_ceiling agent_level)

unfoldable pub effective_scopes : List Scope → List Scope → AutonomyLevel → List Scope
unfolding after_intent
effective_scopes user_scopes intent_scopes agent_level =
    retain (is_permitted agent_level) (after_intent user_scopes intent_scopes)
