-- ===== src/Base/Find.antt =====
-- Membership, and what `iter().find(p)` finds.
use mathlib.Core.Path.{◌≡◌, refl, sym, subst}
use mathlib.Core.Bool.{Bool, true}
use mathlib.Core.Logic.{◌↔◌, inl, inr}
use mathlib.Core.List.{List, [], ◌∷◌}
use mathlib.Core.Option.{some, some-injective}
use native.Mathlib.Omega.{arith}
use Prim.Native.String.{String}
use text.Mathlib.Text.{◌==◌ as str_eq}
use text.Mathlib.TextEquality.{eq_iff}
use agentic_application_fram.Base.Tests.{Bool-cases}
use agentic_application_fram.Base.Lists.{find}
use agentic_application_fram.Base.Count.{has}

-- An element of a list.
pub data In {ℓ} {A : Type ℓ} (x : A) : List A → Type ℓ where
  here : {xs : List A} → In x (x ∷ xs)
  later : {y : A} {xs : List A} → In x xs → In x (y ∷ xs)

-- The first element of a list with a property.
pub data FirstWith {ℓ κ} {A : Type ℓ} (P : A → Type κ) (x : A) : List A → Type (ℓ ⊔ κ) where
  at_head : {xs : List A} → P x → FirstWith P x (x ∷ xs)
  after : {y : A} {xs : List A} → ¬ P y → FirstWith P x xs → FirstWith P x (y ∷ xs)

module _ {ℓ κ} {A : Type ℓ} (p : A → Bool) (P : A → Type κ)
    (decides : (x : A) → (p x ≡ true) ↔ P x) where
  pub find-FirstWith : (x : A) (xs : List A) → find p xs ≡ some x → FirstWith P x xs
  unfolding find
  find-FirstWith x [] h = absurd (ground arith)
  find-FirstWith x (y ∷ ys) h = elim (Bool-cases (p y)) [
    | inl e ↦
        subst (λ z. FirstWith P z (y ∷ ys)) (some-injective y x (ground (arith, h, e)))
          (at_head ((decides y).0 e))
    | inr e ↦
        after (λ q. ground (arith, (decides y).1 q, e)) (find-FirstWith x ys (ground (arith, h, e)))
  ]

pub has-In : (v : String) (xs : List String) → has v xs ≡ true → In v xs
has-In v [] h = absurd (ground arith)
has-In v (x ∷ xs) h = elim (Bool-cases (str_eq x v)) [
  | inl e ↦ subst (λ z. In v (z ∷ xs)) (sym ((eq_iff x v).0 e)) here
  | inr e ↦ later (has-In v xs (ground (arith, h, e)))
]

pub In-has : (v : String) (xs : List String) → In v xs → has v xs ≡ true
In-has v [] h = elim h [ ]
In-has v (x ∷ xs) here = ground (arith, (eq_iff v v).1 refl)
In-has v (x ∷ xs) (later h) = ground (arith, In-has v xs h)
