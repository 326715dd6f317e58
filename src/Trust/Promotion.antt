-- ===== src/Trust/Promotion.antt =====
-- core/crates/aaf-trust/src/promotion.rs: when an agent is promoted or demoted.
use agentic_application_fram.Base.{ℕ, Bool, true, false, ◌&&◌, ltb, leb, if◌then◌else◌}
use agentic_application_fram.Float.{Float}
use agentic_application_fram.Contracts.Trust.{AutonomyLevel, level5}
use agentic_application_fram.Trust.Score.{ScoreHistory, override_rate}

pub data PromotionDecision : Type 0 where
  promote hold demote drop_to_floor : PromotionDecision

abbrev pub is_level5 : AutonomyLevel → Bool
is_level5 level5 = true
is_level5 _ = false

module _ (F : Float) where
  pub record PromotionRules : Type 0 where
    pub override_rate_ceiling : F.Carrier
    pub override_rate_floor_for_promotion : F.Carrier
    pub min_executions_for_promotion : ℕ

  unfoldable pub default_rules : PromotionRules
  default_rules = record {
    override_rate_ceiling = F.ratio 5 100;
    override_rate_floor_for_promotion = F.ratio 1 100;
    min_executions_for_promotion = 1000;
  }

  unfoldable pub evaluate : PromotionRules → AutonomyLevel → ScoreHistory → PromotionDecision
  evaluate rules current h =
      let rate = override_rate F h in
      if ltb 0 h.policy_violations
      then drop_to_floor
      else if F.lt rules.override_rate_ceiling rate
      then demote
      else if is_level5 current
      then hold
      else if leb rules.min_executions_for_promotion h.total
          && F.lt rate rules.override_rate_floor_for_promotion
      then promote
      else hold
