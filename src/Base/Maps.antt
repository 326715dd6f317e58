-- ===== src/Base/Maps.antt =====
-- `HashMap<String, V>` as an association list, whose order no operation depends on, and the
-- laws of the operations that the program uses.
use Prim.Native.String.{String}
use mathlib.Core.Path.{◌≡◌, refl}
use mathlib.Core.Bool.{Bool, true, false}
use mathlib.Core.Option.{Option, none, some}
use mathlib.Core.List.{List, [], ◌∷◌}
use native.Mathlib.Omega.{arith}
use text.Mathlib.Text.{◌==◌ as str_eq}
use text.Mathlib.TextEquality.{eq_iff}
use text.Mathlib.TextPositions.{eq_refl}
use agentic_application_fram.Base.Tests.{if◌then◌else◌}

abbrev pub Assoc {ℓ} : Type ℓ → Type ℓ
Assoc V = List (String × V)

-- `Option::map`, which computes in statements.
abbrev pub map_option {ℓ κ} : {A : Type ℓ} {B : Type κ} → (A → B) → Option A → Option B
map_option f none = none
map_option f (some a) = some (f a)

-- The value, where there is one, satisfies `P`.
abbrev pub Holds {ℓ κ} : {A : Type ℓ} → (A → Type κ) → Option A → Type κ
Holds P none = Unit
Holds P (some a) = P a

module _ {ℓ} {V : Type ℓ} where
  -- `get`
  unfoldable pub lookup : String → Assoc V → Option V
  lookup k [] = none
  lookup k ((j, v) ∷ m) = if str_eq j k then some v else lookup k m

  -- `insert`: replaces the value of a key that is there
  unfoldable pub insert : String → V → Assoc V → Assoc V
  insert key value [] = (key, value) ∷ []
  insert key value ((j, old) ∷ rest) =
      if str_eq j key then (key, value) ∷ rest else (j, old) ∷ insert key value rest

  -- a write through `get_mut`: nothing where the key is missing
  unfoldable pub adjust : String → (V → V) → Assoc V → Assoc V
  adjust k f [] = []
  adjust k f ((j, w) ∷ m) = if str_eq j k then (j, f w) ∷ m else (j, w) ∷ adjust k f m

  -- `remove`
  unfoldable pub remove : String → Assoc V → Assoc V
  remove k [] = []
  remove k ((j, w) ∷ m) = let rest = remove k m in if str_eq j k then rest else (j, w) ∷ rest

  pub lookup-insert :
      (key j : String) (value : V) (m : Assoc V)
      → lookup j (insert key value m) ≡ (if str_eq key j then some value else lookup j m)
  unfolding lookup insert
  lookup-insert key j value [] = refl
  lookup-insert key j value ((i, old) ∷ rest) =
      ground (arith, lookup-insert key j value rest, eq_iff i j, eq_iff i key, eq_iff key j)

  pub lookup-inserted :
      (key : String) (value : V) (m : Assoc V) → lookup key (insert key value m) ≡ some value
  lookup-inserted key value m = rw (lookup-insert, eq_refl key) refl

  pub lookup-adjust :
      (k j : String) (f : V → V) (m : Assoc V)
      → lookup j (adjust k f m) ≡ (if str_eq k j then map_option f (lookup j m) else lookup j m)
  unfolding lookup adjust
  lookup-adjust k j f [] = ground arith
  lookup-adjust k j f ((i, w) ∷ m) =
      ground (arith, eq_iff k j, eq_iff i k, eq_iff i j, lookup-adjust k j f m)

  pub lookup-remove :
      (k j : String) (m : Assoc V)
      → lookup j (remove k m) ≡ (if str_eq k j then none else lookup j m)
  unfolding lookup remove
  lookup-remove k j [] = ground arith
  lookup-remove k j ((i, w) ∷ m) =
      ground (arith, eq_iff k j, eq_iff i k, eq_iff i j, lookup-remove k j m)

module _ {ℓ κ} {V : Type ℓ} (P : V → Type κ) where
  Holds-map :
      (t : Bool) (f : V → V) (o : Option V)
      → ((v : V) → P v → P (f v))
      → Holds P o
      → Holds P (if t then map_option f o else o)
  Holds-map false f o keep h = h
  Holds-map true f none keep h = tt
  Holds-map true f (some v) keep h = keep v h

  pub Holds-adjust :
      (key j : String) (f : V → V) (m : Assoc V)
      → ((v : V) → P v → P (f v))
      → Holds P (lookup j m)
      → Holds P (lookup j (adjust key f m))
  Holds-adjust key j f m keep h = rw lookup-adjust (Holds-map (str_eq key j) f (lookup j m) keep h)

  Holds-if : (t : Bool) (v : V) (o : Option V) → P v → Holds P o → Holds P (if t then some v else o)
  Holds-if true v o p h = p
  Holds-if false v o p h = h

  pub Holds-insert :
      (key j : String) (v : V) (m : Assoc V)
      → P v
      → Holds P (lookup j m)
      → Holds P (lookup j (insert key v m))
  Holds-insert key j v m p h = rw lookup-insert (Holds-if (str_eq key j) v (lookup j m) p h)

pub ruleset assoc_laws = (lookup-insert, lookup-adjust, lookup-remove)
