-- ===== src/Sidecar/Renaming.antt =====
-- The renaming of fields of core/crates/aaf-sidecar/src/acl.rs there and back.
use mathlib.Core.Path.{subst}
use mathlib.Core.List.{append_assoc, append-nil}
use agentic_application_fram.Base.{
  ◌≡◌, refl, ap, sym, ◌∙◌, inl, inr, String, false, List, [], ◌∷◌, ◌++◌, Assoc, lookup, insert,
  str_eq, eq_iff, arith, Bool-cases, has, All, All-append,
}
use agentic_application_fram.Runtime.Graph.{keys_of}
use agentic_application_fram.Sidecar.{object, rename_fields, rename, or_key}

-- The new name of a field.
abbrev pub new_name : Assoc String → String → String
new_name mapping k = or_key (lookup k mapping) k

map_names : (String → String) → List String → List String
map_names f [] = []
map_names f (k ∷ ks) = f k ∷ map_names f ks

map-append :
    (f : String → String) (ks : List String) (k : String)
    → map_names f (ks ++ k ∷ []) ≡ map_names f ks ++ f k ∷ []
unfolding map_names
map-append f [] k = refl
map-append f (j ∷ ks) k = ap (λ l. f j ∷ l) (map-append f ks k)

-- A name that is told apart by its way back is new among new names where it is new.
has-map :
    (f g : String → String) (k : String) (used : List String)
    → All (λ u. g (f u) ≡ u) used
    → g (f k) ≡ k
    → has k used ≡ false
    → has (f k) (map_names f used) ≡ false
unfolding map_names
has-map f g k [] back b h = refl
has-map f g k (u ∷ used) back b h = elim (Bool-cases (str_eq (f u) (f k))) [
  | inr apart ↦ ground (arith, has-map f g k used back.1 b)
  | inl same ↦
      absurd (ground (arith, (eq_iff u k).1 (sym back.0 ∙ ap g ((eq_iff (f u) (f k)).0 same) ∙ b)))
]

module _ (Value : Type 0) where
  -- The fields under their new names, in the same order.
  renamed : (String → String) → Assoc Value → Assoc Value
  renamed f [] = []
  renamed f ((k, v) ∷ obj) = (f k, v) ∷ renamed f obj

  insert-fresh :
      (k : String) (v : Value) (out : Assoc Value)
      → has k (keys_of out) ≡ false
      → insert k v out ≡ out ++ (k, v) ∷ []
  unfolding insert
  insert-fresh k v [] h = refl
  insert-fresh k v ((j, w) ∷ out) h = ground (arith, insert-fresh k v out)

  -- The fields have different names under a renaming, none of which is in a list.
  abbrev Fresh : (String → String) → List String → Assoc Value → Type 0
  Fresh f used [] = Unit
  Fresh f used ((k, v) ∷ obj) = (has (f k) used ≡ false) × Fresh f (used ++ f k ∷ []) obj

  keys-append :
      (out : Assoc Value) (k : String) (v : Value)
      → keys_of (out ++ (k, v) ∷ []) ≡ keys_of out ++ k ∷ []
  keys-append [] k v = refl
  keys-append ((j, w) ∷ out) k v = ap (λ l. j ∷ l) (keys-append out k v)

  rename_fields-renamed :
      (mapping : Assoc String) (obj out : Assoc Value)
      → Fresh (new_name mapping) (keys_of out) obj
      → rename_fields Value obj mapping out ≡ out ++ renamed (new_name mapping) obj
  unfolding rename_fields renamed
  rename_fields-renamed mapping [] out h = sym (append-nil out)
  rename_fields-renamed mapping ((k, v) ∷ obj) out h =
      ap (rename_fields Value obj mapping) (insert-fresh (new_name mapping k) v out h.0)
      ∙ rename_fields-renamed mapping obj (out ++ (new_name mapping k, v) ∷ []) (
          subst (λ used. Fresh (new_name mapping) used obj)
            (sym (keys-append out (new_name mapping k) v)) h.1)
      ∙ append_assoc out ((new_name mapping k, v) ∷ []) (renamed (new_name mapping) obj)

  -- Every field comes back to its name.
  abbrev pub Back : (String → String) → (String → String) → Assoc Value → Type 0
  Back f g obj = All (λ e. g (f e.0) ≡ e.0) obj

  -- No two fields have the same name.
  abbrev pub DistinctFields : List String → Assoc Value → Type 0
  DistinctFields used [] = Unit
  DistinctFields used ((k, v) ∷ obj) = (has k used ≡ false) × DistinctFields (used ++ k ∷ []) obj

  there-Fresh :
      (f g : String → String) (used : List String) (obj : Assoc Value)
      → All (λ u. g (f u) ≡ u) used
      → Back f g obj
      → DistinctFields used obj
      → Fresh f (map_names f used) obj
  there-Fresh f g used [] u back h = tt
  there-Fresh f g used ((k, v) ∷ obj) u back h = (
    has-map f g k used u back.0 h.0,
    subst (λ l. Fresh f l obj) (map-append f used k)
        (there-Fresh f g (used ++ k ∷ []) obj
          (All-append (λ u. g (f u) ≡ u) used (k ∷ []) u (back.0, tt)) back.1 h.1),
  )

  Back-Fresh :
      (f g : String → String) (used : List String) (obj : Assoc Value)
      → Back f g obj
      → DistinctFields used obj
      → Fresh g used (renamed f obj)
  unfolding renamed
  Back-Fresh f g used [] back h = tt
  Back-Fresh f g used ((k, v) ∷ obj) back h = (
    subst (λ j. has j used ≡ false) (sym back.0) h.0,
    subst (λ j. Fresh g (used ++ j ∷ []) (renamed f obj)) (sym back.0)
        (Back-Fresh f g (used ++ k ∷ []) obj back.1 h.1),
  )

  renamed-Back :
      (f g : String → String) (obj : Assoc Value) → Back f g obj → renamed g (renamed f obj) ≡ obj
  unfolding renamed
  renamed-Back f g [] back = refl
  renamed-Back f g ((k, v) ∷ obj) back =
      ap (λ j. (j, v) ∷ renamed g (renamed f obj)) back.0
      ∙ ap (λ l. (k, v) ∷ l) (renamed-Back f g obj back.1)

  -- An object whose fields have different names comes back unchanged from the renaming there and back
  -- if the second mapping takes the new name of each of its fields to the name that it had.
  pub rename-rename :
      (there back : Assoc String) (obj : Assoc Value)
      → DistinctFields [] obj
      → Back (new_name there) (new_name back) obj
      → rename Value (rename Value (object obj) there) back ≡ object obj
  unfolding rename map_names
  rename-rename there back obj distinct returns =
      let first =
        rename_fields-renamed there obj []
          (there-Fresh (new_name there) (new_name back) [] obj tt returns distinct) in
      let second =
        rename_fields-renamed back (renamed (new_name there) obj) []
          (Back-Fresh (new_name there) (new_name back) [] obj returns distinct) in
      ap object (
        ap (λ o. rename_fields Value o back []) first
        ∙ second
        ∙ renamed-Back (new_name there) (new_name back) obj returns)
