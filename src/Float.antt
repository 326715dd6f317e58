-- ===== src/Float.antt =====
-- `f64` and `f32`, which the language lacks: types with the operations that the program uses. No law is
-- assumed here; a theorem that needs one takes it as a hypothesis.
use agentic_application_fram.Base.{ℕ, Bool, if◌then◌else◌, ◌||◌}

pub record Float : Type 1 where
  pub Carrier : Type 0
  -- the literal a / b, and its negation
  pub ratio : ℕ → ℕ → Carrier
  pub neg : Carrier → Carrier
  pub add : Carrier → Carrier → Carrier
  pub sub : Carrier → Carrier → Carrier
  pub mul : Carrier → Carrier → Carrier
  pub div : Carrier → Carrier → Carrier
  pub lt : Carrier → Carrier → Bool
  pub le : Carrier → Carrier → Bool
  pub is_nan : Carrier → Bool
  pub is_finite : Carrier → Bool
  -- `f32`: the literal a / b, and the order.
  pub Single : Type 0
  pub single_ratio : ℕ → ℕ → Single
  pub single_lt : Single → Single → Bool
  -- `n as f64`
  pub from_u64 : ℕ → Carrier

module _ (F : Float) where
  abbrev pub zero_float : F.Carrier
  zero_float = F.ratio 0 1

  abbrev pub one_float : F.Carrier
  one_float = F.ratio 1 1

  -- `f64::max` and `f64::min` return the other operand where one is NaN.
  unfoldable pub max_float : F.Carrier → F.Carrier → F.Carrier
  max_float a b = if F.is_nan a || F.lt a b then b else a

  unfoldable pub min_float : F.Carrier → F.Carrier → F.Carrier
  min_float a b = if F.is_nan a || F.lt b a then b else a

  -- `x.clamp(lo, hi)`
  unfoldable pub clamp : F.Carrier → F.Carrier → F.Carrier → F.Carrier
  clamp x lo hi = let y = (if F.lt x lo then lo else x) in if F.lt hi y then hi else y

  -- The same, of `f32`.
  unfoldable pub clamp_single : F.Single → F.Single → F.Single → F.Single
  clamp_single x lo hi =
      let y = (if F.single_lt x lo then lo else x) in if F.single_lt hi y then hi else y
