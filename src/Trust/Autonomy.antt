-- ===== src/Trust/Autonomy.antt =====
-- core/crates/aaf-trust/src/autonomy.rs: from a score to an autonomy level.
use agentic_application_fram.Base.{if◌then◌else◌}
use agentic_application_fram.Float.{Float}
use agentic_application_fram.Contracts.Trust.{AutonomyLevel, level1, level2, level3, level4, level5}

module _ (F : Float) where
  pub record AutonomyPolicy : Type 0 where
    pub l2 : F.Carrier
    pub l3 : F.Carrier
    pub l4 : F.Carrier
    pub l5 : F.Carrier

  unfoldable pub default_policy : AutonomyPolicy
  default_policy = record {
    l2 = F.ratio 55 100;
    l3 = F.ratio 7 10;
    l4 = F.ratio 85 100;
    l5 = F.ratio 95 100;
  }

  unfoldable pub level_for : AutonomyPolicy → F.Carrier → AutonomyLevel
  level_for p score =
      if F.le p.l5 score
      then level5
      else if F.le p.l4 score
      then level4
      else if F.le p.l3 score
      then level3
      else if F.le p.l2 score
      then level2
      else level1
