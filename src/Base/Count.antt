-- ===== src/Base/Count.antt =====
-- How often a text stands in a list, and lists that hold each text no more often than another.
use Prim.Native.Nat.{ℕ, suc, ◌+◌, ◌≤◌, ◌<◌}
use Prim.Native.Char.{code}
use Prim.Native.String.{String}
use mathlib.Core.Logic.{inl, inr}
use mathlib.Core.Path.{subst, ◌≡◌, refl}
use mathlib.Core.Bool.{Bool, true, false, ◌&&◌, ◌||◌}
use mathlib.Core.List.{List, [], ◌∷◌, ◌++◌, reverse, reverse-cons}
use native.Mathlib.Omega.{arith}
use text.Mathlib.Text.{◌==◌ as str_eq}
use text.Mathlib.TextEquality.{eq_iff}
use text.Mathlib.TextPositions.{eq_refl}
use agentic_application_fram.Base.Tests.{Bool-cases, ltb, ◌==◌, if◌then◌else◌}
use agentic_application_fram.Base.Lists.{length, All}

abbrev pub count : String → List String → ℕ
count v [] = 0
count v (x ∷ xs) = (if str_eq x v then 1 else 0) + count v xs

-- `contains`
abbrev pub has : String → List String → Bool
has v [] = false
has v (x ∷ xs) = str_eq x v || has v xs

pub has-count : (v : String) (xs : List String) → has v xs ≡ ltb 0 (count v xs)
has-count v [] = refl
has-count v (x ∷ xs) = ground (arith, has-count v xs)

pub count-append : (v : String) (xs ys : List String) → count v (xs ++ ys) ≡ count v xs + count v ys
count-append v [] ys = omega arith
count-append v (x ∷ xs) ys = ground (arith, count-append v xs ys)

pub has-append : (v : String) (xs ys : List String) → has v (xs ++ ys) ≡ (has v xs || has v ys)
has-append v [] ys = refl
has-append v (x ∷ xs) ys = ground (arith, has-append v xs ys)

pub count-reverse : (v : String) (xs : List String) → count v (reverse xs) ≡ count v xs
count-reverse v [] = refl
count-reverse v (x ∷ xs) =
    rw (reverse-cons x xs)
      (ground (arith, count-append v (reverse xs) (x ∷ []), count-reverse v xs))

erase : String → List String → List String
erase v [] = []
erase v (x ∷ xs) = let rest = erase v xs in if str_eq x v then xs else x ∷ rest

count-erase :
    (v w : String) (xs : List String)
    → 0 < count w xs
    → count v xs ≡ (if str_eq w v then 1 else 0) + count v (erase w xs)
unfolding erase
count-erase v w [] h = absurd (omega arith)
count-erase v w (x ∷ xs) h = ground (arith, count-erase v w xs, eq_iff x w, eq_iff x v, eq_iff w v)

length-erase :
    (w : String) (xs : List String) → 0 < count w xs → length xs ≡ suc (length (erase w xs))
unfolding erase
length-erase w [] h = absurd (omega arith)
length-erase w (x ∷ xs) h = ground (arith, length-erase w xs)

-- The first list holds no text more often than the second.
abbrev pub Within : List String → List String → Type 0
Within xs ys = (v : String) → count v xs ≤ count v ys

Within-erase : (x : String) (xs ys : List String) → Within (x ∷ xs) ys → Within xs (erase x ys)
Within-erase x xs ys h v = ground (arith, h v, h x, count-erase v x ys, eq_refl x)

Within-head : (x : String) (xs ys : List String) → Within (x ∷ xs) ys → 0 < count x ys
Within-head x xs ys h = ground (arith, h x, eq_refl x)

pub length-Within : (xs ys : List String) → Within xs ys → length xs ≤ length ys
length-Within [] ys h = omega arith
length-Within (x ∷ xs) ys h = omega (
  arith,
  length-Within xs (erase x ys) (Within-erase x xs ys h),
  length-erase x ys (Within-head x xs ys h),
)

pub count-Within :
    (xs ys : List String)
    → Within xs ys
    → length xs ≡ length ys
    → (v : String) → count v xs ≡ count v ys
count-Within [] [] h e v = refl
count-Within [] (y ∷ ys) h e v = absurd (omega arith)
count-Within (x ∷ xs) ys h e v =
    let here = Within-head x xs ys h in
    omega (
      arith,
      count-Within xs (erase x ys) (Within-erase x xs ys h) (omega (arith, length-erase x ys here))
          v,
      count-erase v x ys here,
    )

pub All-has {κ} :
    (P : String → Type κ) (v : String) (xs : List String) → All P xs → has v xs ≡ true → P v
All-has P v [] h e = absurd (ground arith)
All-has P v (x ∷ xs) h e = elim (Bool-cases (str_eq x v)) [
  | inl same ↦ subst P ((eq_iff x v).0 same) h.0
  | inr other ↦ All-has P v xs h.1 (ground arith)
]

-- The order of texts by their characters, which is that of their bytes.
unfoldable pub text_before : String → String → Bool
text_before String.[] String.[] = false
text_before String.[] (String.◌∷◌ d t) = true
text_before (String.◌∷◌ c s) String.[] = false
text_before (String.◌∷◌ c s) (String.◌∷◌ d t) =
    ltb (code c) (code d) || (code c == code d && text_before s t)
