-- ===== src/Trust/Registry.antt =====
-- core/crates/aaf-trust/src/registry.rs: the trust of every agent. The proofs are in the child.
pub mod Events
pub mod Range
use agentic_application_fram.Base.{
  ℕ, ◌+◌, ◌-◌, min, max, String, none, some, [], Assoc, lookup, insert,
}
use agentic_application_fram.Float.{Float, min_float}
use agentic_application_fram.Contracts.Trust.{level1, as_u8, from_u8, TrustScore, initial, clamped}
use agentic_application_fram.Trust.Score
use agentic_application_fram.Trust.Score.{ScoreEvent, ScoreHistory, default_history, delta}
use agentic_application_fram.Trust.Autonomy.{AutonomyPolicy, default_policy, level_for}
use agentic_application_fram.Trust.Promotion.{
  PromotionDecision, promote, hold, demote, drop_to_floor, PromotionRules, default_rules, evaluate,
}

module _ (F : Float) where
  pub record TrustRecord : Type 0 where
    pub score : TrustScore F
    pub history : ScoreHistory

  pub record TrustRegistry : Type 0 where
    pub inner : Assoc TrustRecord
    pub policy : AutonomyPolicy F
    pub rules : PromotionRules F

  unfoldable pub new : TrustRegistry
  new = record { inner = []; policy = default_policy F; rules = default_rules F }

  unfoldable pub fresh : TrustRecord
  fresh = record { score = initial F; history = default_history }

  unfoldable pub register : String → TrustRegistry → TrustRegistry
  unfolding fresh
  register agent r = record r { inner = insert agent fresh r.inner }

  unfoldable pub get : String → TrustRegistry → TrustScore F
  get agent r = elim (lookup agent r.inner) [ none ↦ initial F | some t ↦ t.score ]

  -- The `match` on the decision.
  adjust_score : PromotionDecision → TrustScore F → TrustScore F
  adjust_score drop_to_floor s = record {
    value = min_float F (F.ratio 1 2) s.value;
    autonomy = level1;
  }
  adjust_score demote s = record s { autonomy = from_u8 (max (as_u8 s.autonomy - 1) 1) }
  adjust_score promote s = record s { autonomy = from_u8 (min (as_u8 s.autonomy + 1) 5) }
  adjust_score hold s = s

  -- The score before the decision.
  rescore : AutonomyPolicy F → ScoreEvent → TrustScore F → TrustScore F
  rescore policy event s =
      let value = clamped F (F.add s.value (delta F event)) in
      record { value = value; autonomy = level_for F policy value }

  -- What `observe` does to the record of the agent.
  pub observe_record :
      AutonomyPolicy F
      → PromotionRules F
      → ℕ
      → ScoreEvent
      → TrustRecord
      → TrustRecord × PromotionDecision
  unfolding adjust_score rescore
  observe_record policy rules now event t =
      let history = Score.observe now event t.history in
      let score = rescore policy event t.score in
      let decision = evaluate F rules score.autonomy history in
      (record { score = adjust_score decision score; history = history }, decision)

  -- `entry(agent).or_insert_with(..)`
  unfoldable pub entry : String → TrustRegistry → TrustRecord
  unfolding fresh
  entry agent r = elim (lookup agent r.inner) [ none ↦ fresh | some t ↦ t ]

  unfoldable pub observe :
      ℕ → String → ScoreEvent → TrustRegistry → TrustRegistry × TrustScore F × PromotionDecision
  unfolding observe_record entry
  observe now agent event r =
      let (t, decision) = observe_record r.policy r.rules now event (entry agent r) in
      (record r { inner = insert agent t r.inner }, t.score, decision)
