-- ===== src/Base/Sorting.antt =====
-- Iteration in the order of the keys, as over a `BTreeMap` or a `BTreeSet`.
use Prim.Native.String.{String}
use mathlib.Core.Path.{subst}
use mathlib.Core.Logic.{inl, inr}
use mathlib.Core.Bool.{Bool, true, false}
use mathlib.Core.List.{List, [], ◌∷◌}
use agentic_application_fram.Base.Tests.{Bool-cases, if◌then◌else◌}
use agentic_application_fram.Base.Lists.{All}
use agentic_application_fram.Base.Count.{text_before}

module _ {ℓ} {A : Type ℓ} (key : A → String) where
  unfoldable pub place : A → List A → List A
  place x [] = x ∷ []
  place x (y ∷ ys) =
      let rest = place x ys in if text_before (key y) (key x) then y ∷ rest else x ∷ y ∷ ys

  unfoldable pub in_order : List A → List A
  unfolding place
  in_order [] = []
  in_order (x ∷ xs) = place x (in_order xs)

  All-if {κ} :
      (P : List A → Type κ) (b : Bool) (xs ys : List A) → P xs → P ys → P (if b then xs else ys)
  All-if P true xs ys h g = h
  All-if P false xs ys h g = g

  All-place {κ} : (P : A → Type κ) (x : A) (ys : List A) → P x → All P ys → All P (place x ys)
  unfolding place
  All-place P x [] h hs = (h, tt)
  All-place P x (y ∷ ys) h hs =
      All-if (All P) (text_before (key y) (key x)) _ _ (hs.0, All-place P x ys h hs.1) (h, hs)

  pub All-in_order {κ} : (P : A → Type κ) (xs : List A) → All P xs → All P (in_order xs)
  unfolding in_order
  All-in_order P [] h = tt
  All-in_order P (x ∷ xs) h = All-place P x (in_order xs) h.0 (All-in_order P xs h.1)

  place-All {κ} : (P : A → Type κ) (x : A) (ys : List A) → All P (place x ys) → P x × All P ys
  unfolding place
  place-All P x [] h = (h.0, tt)
  place-All P x (y ∷ ys) h = elim (Bool-cases (text_before (key y) (key x))) [
    | inl before ↦
        let here = subst (λ b. All P (if b then y ∷ place x ys else x ∷ y ∷ ys)) before h in
        let rest = place-All P x ys here.1 in (rest.0, (here.0, rest.1))
    | inr after ↦ subst (λ b. All P (if b then y ∷ place x ys else x ∷ y ∷ ys)) after h
  ]

  pub in_order-All {κ} : (P : A → Type κ) (xs : List A) → All P (in_order xs) → All P xs
  unfolding in_order
  in_order-All P [] h = tt
  in_order-All P (x ∷ xs) h =
      let parts = place-All P x (in_order xs) h in (parts.0, in_order-All P xs parts.1)
