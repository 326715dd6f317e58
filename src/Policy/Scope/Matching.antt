-- ===== src/Policy/Scope/Matching.antt =====
-- What a scope covers and what a level of autonomy allows, apart from the text functions of
-- core/crates/aaf-policy/src/scope.rs, and that its matchers decide it.
use mathlib.Core.List.{◌++◌, reverse-append, reverse-reverse}
use mathlib.Core.Option.{some-injective}
use agentic_application_fram.Base.{
  ◌≡◌, ◌↔◌, ◌⊎◌, ◌∙◌, refl, sym, ap, inl, inr, Option, none, some, Bool, true, false, ◌||◌, List,
  [], ◌∷◌, any, reverse, map_option, Bool-cases, ◌==◌, arith, In, here, later,
}
use agentic_application_fram.Contracts.Trust.{AutonomyLevel, level1, level2, level3, level4, level5}
use agentic_application_fram.Policy.Scope.{
  Scope, bytes, same, is_found, starts_with_colon, strip_prefix, strip_suffix, scope_matches,
  autonomy_ceiling, ceiling_matches, scope_matches_with_ceiling, is_granted, is_permitted,
}

pub same_iff : (s t : Scope) → (same s t ≡ true) ↔ (s ≡ t)
unfolding same
same_iff [] [] = ground arith
same_iff [] (b ∷ bs) = ground arith
same_iff (a ∷ rest) [] = ground arith
same_iff (a ∷ rest) (b ∷ bs) = ground (arith, same_iff rest bs)

-- A granted scope is the star, or the required scope itself, or a name and `:*` where the required
-- scope is that name, a colon and anything.
pub data Covers (granted required : Scope) : Type 0 where
  everything : granted ≡ bytes "*" → Covers granted required
  itself : granted ≡ required → Covers granted required
  below :
      (name verb : Scope)
      → granted ≡ name ++ bytes ":*"
      → required ≡ name ++ (bytes ":" ++ verb)
      → Covers granted required

-- Some name before the ending.
pub record EndsWith (ending scope : Scope) : Type 0 where
  pub name : Scope
  pub whole : scope ≡ name ++ ending

-- The scopes that a level of autonomy allows an agent.
pub Allowed : AutonomyLevel → Scope → Type 0
Allowed level1 s = ⊥
Allowed level2 s = EndsWith (bytes ":read") s
Allowed level3 s = EndsWith (bytes ":read") s ⊎ EndsWith (bytes ":write") s
Allowed level4 s =
    EndsWith (bytes ":read") s
    ⊎ (EndsWith (bytes ":write") s
        ⊎ (EndsWith (bytes ":delete") s
            ⊎ (EndsWith (bytes ":send") s ⊎ EndsWith (bytes ":execute") s)))
Allowed level5 s = Unit

strip_prefix-some : (p s r : Scope) → strip_prefix p s ≡ some r → s ≡ p ++ r
unfolding strip_prefix
strip_prefix-some [] s r h = some-injective s r h
strip_prefix-some (a ∷ xs) [] r h = absurd (ground arith)
strip_prefix-some (a ∷ xs) (b ∷ bs) r h = elim (Bool-cases (a == b)) [
  | inl e ↦
      ap (λ z. z ∷ bs) (ground (arith, e))
      ∙ ap (λ z. a ∷ z) (strip_prefix-some xs bs r (ground (arith, h, e)))
  | inr e ↦ absurd (ground (arith, h, e))
]

strip_prefix-append : (p r : Scope) → strip_prefix p (p ++ r) ≡ some r
unfolding strip_prefix
strip_prefix-append [] r = refl
strip_prefix-append (a ∷ xs) r = ground (arith, strip_prefix-append xs r)

map_reverse : (o : Option Scope) (r : Scope) → map_option reverse o ≡ some r → o ≡ some (reverse r)
map_reverse none r h = absurd (ground arith)
map_reverse (some x) r h =
    ap some (sym (reverse-reverse x) ∙ ap reverse (some-injective (reverse x) r h))

strip_suffix-some : (x s r : Scope) → strip_suffix x s ≡ some r → s ≡ r ++ x
unfolding strip_suffix
strip_suffix-some x s r h =
    sym (reverse-reverse s)
    ∙ ap reverse (strip_prefix-some (reverse x) (reverse s) (reverse r) (map_reverse _ r h))
    ∙ ap reverse (sym (reverse-append r x))
    ∙ reverse-reverse (r ++ x)

strip_suffix-append : (x r : Scope) → strip_suffix x (r ++ x) ≡ some r
unfolding strip_suffix
strip_suffix-append x r =
    ap (λ z. map_option reverse (strip_prefix (reverse x) z)) (reverse-append r x)
    ∙ ap (map_option reverse) (strip_prefix-append (reverse x) (reverse r))
    ∙ ap some (reverse-reverse r)

colon-Covers :
    (granted required name : Scope) (o : Option Scope)
    → granted ≡ name ++ bytes ":*"
    → strip_prefix name required ≡ o
    → starts_with_colon o ≡ true
    → Covers granted required
colon-Covers granted required name none g e h = absurd (ground arith)
colon-Covers granted required name (some []) g e h = absurd (ground arith)
colon-Covers granted required name (some (c ∷ verb)) g e h =
    let colon : c ≡ 58 = ground (arith, h) in
    below name verb g
      (strip_prefix-some name required (c ∷ verb) e ∙ ap (λ z. name ++ (z ∷ verb)) colon)

-- The last test of `scope_matches`.
abbrev under_name : Option Scope → Scope → Bool
under_name o required = elim o [
  | none ↦ false
  | some name ↦ starts_with_colon (strip_prefix name required)
]

name-Covers :
    (granted required : Scope) (o : Option Scope)
    → strip_suffix (bytes ":*") granted ≡ o
    → under_name o required ≡ true
    → Covers granted required
name-Covers granted required none e h = absurd (ground arith)
name-Covers granted required (some name) e h =
    colon-Covers granted required name _ (strip_suffix-some (bytes ":*") granted name e) refl h

matches-Covers :
    (granted required : Scope) → scope_matches granted required ≡ true → Covers granted required
unfolding scope_matches
matches-Covers granted required h = elim (Bool-cases (same granted required)) [
  | inl e ↦ itself ((same_iff granted required).0 e)
  | inr n ↦ elim (Bool-cases (same granted (bytes "*"))) [
    | inl e ↦ everything ((same_iff granted (bytes "*")).0 e)
    | inr m ↦ name-Covers granted required _ refl (ground (arith, h, n, m))
  ]
]

under_name-below :
    (granted required name verb : Scope)
    → granted ≡ name ++ bytes ":*"
    → required ≡ name ++ (bytes ":" ++ verb)
    → under_name (strip_suffix (bytes ":*") granted) required ≡ true
under_name-below granted required name verb g r =
    ap (λ z. under_name (strip_suffix (bytes ":*") z) required) g
    ∙ ap (λ o. under_name o required) (strip_suffix-append (bytes ":*") name)
    ∙ ap (λ z. starts_with_colon (strip_prefix name z)) r
    ∙ ap starts_with_colon (strip_prefix-append name (bytes ":" ++ verb))

Covers-matches :
    (granted required : Scope) → Covers granted required → scope_matches granted required ≡ true
unfolding scope_matches
Covers-matches granted required (everything e) = ground (arith, (same_iff granted (bytes "*")).1 e)
Covers-matches granted required (itself e) = ground (arith, (same_iff granted required).1 e)
Covers-matches granted required (below name verb g r) =
    ground (arith, under_name-below granted required name verb g r)

-- The ceilings of the levels below the fifth: a star and an ending.
found-EndsWith :
    (ending s : Scope) (o : Option Scope)
    → strip_suffix ending s ≡ o
    → is_found o ≡ true
    → EndsWith ending s
found-EndsWith ending s none e h = absurd (ground arith)
found-EndsWith ending s (some name) e h = record {
  name = name;
  whole = strip_suffix-some ending s name e;
}

ends_iff :
    (ending s : Scope)
    → strip_suffix (bytes ":*") (42 ∷ ending) ≡ none
    → same (42 ∷ ending) (bytes "*") ≡ false
    → (scope_matches_with_ceiling (42 ∷ ending) s ≡ true) ↔ EndsWith ending s
unfolding scope_matches_with_ceiling scope_matches ceiling_matches strip_prefix
ends_iff ending s e n = (
  λ h. elim (Bool-cases (same (42 ∷ ending) s)) [
    | inl whole ↦ record { name = bytes "*"; whole = sym ((same_iff (42 ∷ ending) s).0 whole) }
    | inr other ↦ found-EndsWith ending s _ refl (ground (arith, h, other, e, n))
  ],
  λ k.
      let found = ap (strip_suffix ending) k.whole ∙ strip_suffix-append ending k.name in
      ground (arith, ap is_found found),
)

or_iff {ℓ κ} :
    (b c : Bool) {B : Type ℓ} {C : Type κ}
    → (b ≡ true) ↔ B
    → (c ≡ true) ↔ C
    → ((b || c) ≡ true) ↔ (B ⊎ C)
or_iff true c h k = (λ e. inl (h.0 refl), λ e. refl)
or_iff false c h k =
    (λ e. inr (k.0 e), λ e. elim e [ inl x ↦ ground (arith, h.1 x) | inr y ↦ k.1 y ])

last_iff {ℓ} : (b : Bool) {B : Type ℓ} → (b ≡ true) ↔ B → ((b || false) ≡ true) ↔ B
last_iff true h = h
last_iff false h = h

star_permits : (s : Scope) → scope_matches_with_ceiling (bytes "*") s ≡ true
unfolding scope_matches_with_ceiling
star_permits s = ground (arith, Covers-matches (bytes "*") s (everything refl))

pub permitted_iff :
    (agent_level : AutonomyLevel) (s : Scope)
    → (is_permitted agent_level s ≡ true) ↔ Allowed agent_level s
unfolding Allowed any autonomy_ceiling strip_suffix strip_prefix same
permitted_iff level1 s = ground arith
permitted_iff level2 s = last_iff _ (ends_iff (bytes ":read") s refl refl)
permitted_iff level3 s =
    or_iff _ _ (ends_iff (bytes ":read") s refl refl)
      (last_iff _ (ends_iff (bytes ":write") s refl refl))
permitted_iff level4 s = or_iff _ _ (ends_iff (bytes ":read") s refl refl) (
    or_iff _ _ (ends_iff (bytes ":write") s refl refl) (
      or_iff _ _ (ends_iff (bytes ":delete") s refl refl) (
        or_iff _ _ (ends_iff (bytes ":send") s refl refl)
          (last_iff _ (ends_iff (bytes ":execute") s refl refl)))))
permitted_iff level5 s = (λ h. tt, λ k. rw (star_permits s) refl)

-- Some scope of the user covers it.
pub record Granted (user_scopes : List Scope) (s : Scope) : Type 0 where
  pub by : Scope
  pub held : In by user_scopes
  pub covers : Covers by s

is_granted-Granted :
    (user_scopes : List Scope) (s : Scope) → is_granted user_scopes s ≡ true → Granted user_scopes s
unfolding any
is_granted-Granted [] s h = absurd (ground arith)
is_granted-Granted (u ∷ us) s h = elim (Bool-cases (scope_matches u s)) [
  | inl e ↦ record { by = u; held = here; covers = matches-Covers u s e }
  | inr e ↦
      let k = is_granted-Granted us s (ground (arith, h, e)) in
      record { by = k.by; held = later k.held; covers = k.covers }
]

In-granted :
    (user_scopes : List Scope) (u s : Scope)
    → In u user_scopes
    → scope_matches u s ≡ true
    → is_granted user_scopes s ≡ true
unfolding any
In-granted [] u s i h = elim i [ ]
In-granted (v ∷ us) u s here h = ground (arith, h)
In-granted (v ∷ us) u s (later i) h = ground (arith, In-granted us u s i h)

pub is_granted_iff :
    (user_scopes : List Scope) (s : Scope)
    → (is_granted user_scopes s ≡ true) ↔ Granted user_scopes s
is_granted_iff user_scopes s = (
  is_granted-Granted user_scopes s,
  λ k. In-granted user_scopes k.by s k.held (Covers-matches k.by s k.covers),
)
