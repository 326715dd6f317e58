-- ===== src/Contracts/Trust.antt =====
-- core/crates/aaf-contracts/src/trust.rs: autonomy levels and scores.
use agentic_application_fram.Base.{ℕ, zero, suc, ◌≡◌, refl, if◌then◌else◌}
use agentic_application_fram.Float.{Float, zero_float, one_float, clamp}

pub data AutonomyLevel : Type 0 where
  level1 level2 level3 level4 level5 : AutonomyLevel

unfoldable pub as_u8 : AutonomyLevel → ℕ
as_u8 level1 = 1
as_u8 level2 = 2
as_u8 level3 = 3
as_u8 level4 = 4
as_u8 level5 = 5

unfoldable pub from_u8 : ℕ → AutonomyLevel
from_u8 zero = level1
from_u8 (suc zero) = level1
from_u8 (suc (suc zero)) = level2
from_u8 (suc (suc (suc zero))) = level3
from_u8 (suc (suc (suc (suc zero)))) = level4
from_u8 (suc (suc (suc (suc (suc _))))) = level5

pub from_u8-as_u8 : (l : AutonomyLevel) → from_u8 (as_u8 l) ≡ l
unfolding from_u8 as_u8
from_u8-as_u8 level1 = refl
from_u8-as_u8 level2 = refl
from_u8-as_u8 level3 = refl
from_u8-as_u8 level4 = refl
from_u8-as_u8 level5 = refl

module _ (F : Float) where
  pub record TrustScore : Type 0 where
    pub value : F.Carrier
    pub autonomy : AutonomyLevel

  unfoldable pub initial : TrustScore
  initial = record { value = F.ratio 1 2; autonomy = level1 }

  unfoldable pub clamped : F.Carrier → F.Carrier
  unfolding clamp
  clamped value =
      if F.is_nan value then zero_float F else clamp F value (zero_float F) (one_float F)
