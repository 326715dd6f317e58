-- ===== src/Policy/Scope/Effective.antt =====
-- The layers of scopes and the ceilings of core/crates/aaf-policy/src/scope.rs.
use agentic_application_fram.Base.{
  ◌≡◌, ◌≢◌, ◌∙◌, ◌≤◌, refl, String, none, Bool, true, false, ◌&&◌, ◌||◌, List, [], ◌∷◌, any, retain,
  arith, In,
}
use agentic_application_fram.Contracts.Trust.{
  AutonomyLevel, level1, level2, level3, level4, level5, as_u8,
}
use agentic_application_fram.Policy.Scope.Matching.{same_iff, Granted, Allowed}
use agentic_application_fram.Policy.Scope.{
  Scope, bytes, same, strip_prefix, strip_suffix, scope_matches, autonomy_ceiling,
  scope_matches_with_ceiling, insert_sorted, collect, is_granted, after_intent,
  compute_effective_scopes, is_permitted, effective_scopes,
}

-- A scope is in a list.
abbrev pub has : Scope → List Scope → Bool
has s = any (same s)

has-insert_sorted :
    (s x : Scope) (xs : List Scope) → has s (insert_sorted x xs) ≡ (same s x || has s xs)
unfolding insert_sorted any
has-insert_sorted s x [] = refl
has-insert_sorted s x (y ∷ ys) = ground (arith, has-insert_sorted s x ys, same_iff x y)

has-collect : (s : Scope) (xs : List Scope) → has s (collect xs) ≡ has s xs
unfolding collect any
has-collect s [] = refl
has-collect s (x ∷ xs) = has-insert_sorted s x (collect xs) ∙ (rw (has-collect s xs) refl)

has-retain :
    (s : Scope) (p : Scope → Bool) (xs : List Scope) → has s (retain p xs) ≡ (has s xs && p s)
unfolding retain any
has-retain s p [] = refl
has-retain s p (x ∷ xs) = ground (arith, has-retain s p xs, same_iff s x)

-- A list of effective scopes has a scope exactly as the three filters say.
has-effective_scopes :
    (user_scopes intent_scopes : List Scope) (agent_level : AutonomyLevel) (s : Scope)
    → has s (effective_scopes user_scopes intent_scopes agent_level)
      ≡ (has s intent_scopes && is_granted user_scopes s && is_permitted agent_level s)
unfolding effective_scopes after_intent
has-effective_scopes user_scopes intent_scopes agent_level s = ground (
  arith,
  has-retain s (is_permitted agent_level) (collect (retain (is_granted user_scopes) intent_scopes)),
  has-collect s (retain (is_granted user_scopes) intent_scopes),
  has-retain s (is_granted user_scopes) intent_scopes,
)

-- A scope of an intent that a scope of the user covers and the agent's level allows.
pub record Effective (user_scopes intent_scopes : List Scope) (agent_level : AutonomyLevel)
    (s : Scope) : Type 0 where
  pub needed : In s intent_scopes
  pub granted : Granted user_scopes s
  pub allowed : Allowed agent_level s

star_matches : (s : Scope) → scope_matches_with_ceiling (bytes "*") s ≡ true
unfolding scope_matches_with_ceiling scope_matches same
star_matches s = ground arith

is_permitted-level :
    (low high : AutonomyLevel) (s : Scope)
    → as_u8 low ≤ as_u8 high
    → is_permitted low s ≡ true
    → is_permitted high s ≡ true
unfolding any autonomy_ceiling as_u8
is_permitted-level low high s = ground (arith, star_matches s)

-- A scope that is effective at a level of autonomy is effective at every higher level.
pub effective_scopes-level :
    (user_scopes intent_scopes : List Scope) (low high : AutonomyLevel) (s : Scope)
    → as_u8 low ≤ as_u8 high
    → has s (effective_scopes user_scopes intent_scopes low) ≡ true
    → has s (effective_scopes user_scopes intent_scopes high) ≡ true
effective_scopes-level user_scopes intent_scopes low high s le h = ground (
  arith,
  has-effective_scopes user_scopes intent_scopes low s,
  has-effective_scopes user_scopes intent_scopes high s,
  is_permitted-level low high s le,
)

-- The wildcards of the ceilings below level 5 match nothing but themselves here.
matches_itself :
    (verb : String) (s : Scope)
    → strip_suffix (bytes ":*") (bytes verb) ≡ none
    → same (bytes verb) (bytes "*") ≡ false
    → scope_matches (bytes verb) s ≡ same (bytes verb) s
unfolding scope_matches
matches_itself verb s e n = rw (e, n) (ground arith)

literal_ceiling :
    (agent_level : AutonomyLevel) (s : Scope)
    → agent_level ≢ level5
    → any (λ c. scope_matches c s) (autonomy_ceiling agent_level)
      ≡ any (λ c. same c s) (autonomy_ceiling agent_level)
unfolding any autonomy_ceiling strip_suffix strip_prefix same
literal_ceiling level1 s below = refl
literal_ceiling level2 s below = rw (matches_itself "*:read" s refl refl) refl
literal_ceiling level3 s below =
    rw (matches_itself "*:read" s refl refl, matches_itself "*:write" s refl refl) refl
literal_ceiling level4 s below =
    rw
      (
        matches_itself "*:read" s refl refl,
        matches_itself "*:write" s refl refl,
        matches_itself "*:delete" s refl refl,
        matches_itself "*:send" s refl refl,
        matches_itself "*:execute" s refl refl,
      )
      refl
literal_ceiling level5 s below = absurd (below refl)

-- Below level 5 the first version of the function, compute_effective_scopes, lets through only
-- scopes that are literally an entry of the ceiling, such as the text *:read.
pub compute_effective_scopes-literal :
    (user_scopes intent_scopes : List Scope) (agent_level : AutonomyLevel) (s : Scope)
    → agent_level ≢ level5
    → has s (compute_effective_scopes user_scopes intent_scopes agent_level) ≡ true
    → any (λ c. same c s) (autonomy_ceiling agent_level) ≡ true
unfolding compute_effective_scopes
compute_effective_scopes-literal user_scopes intent_scopes agent_level s below h = ground (
  arith,
  literal_ceiling agent_level s below,
  has-retain s (λ i. any (λ c. scope_matches c i) (autonomy_ceiling agent_level))
      (after_intent user_scopes intent_scopes),
)
