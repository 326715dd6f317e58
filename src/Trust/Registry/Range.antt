-- ===== src/Trust/Registry/Range.antt =====
-- The range of the scores of core/crates/aaf-trust/src/registry.rs.
use agentic_application_fram.Base.{
  ℕ, ◌≡◌, inl, inr, false, String, List, [], ◌∷◌, arith, str_eq, Bool-cases,
}
use agentic_application_fram.Float.{Float, zero_float, one_float, min_float}
use agentic_application_fram.Contracts.Trust.{TrustScore, clamped}
use agentic_application_fram.Trust.Score.{ScoreEvent}
use agentic_application_fram.Trust.Autonomy.{AutonomyPolicy}
use agentic_application_fram.Trust.Promotion.{
  PromotionRules, PromotionDecision, promote, demote, hold, drop_to_floor,
}
use agentic_application_fram.Trust.Registry.{
  TrustRecord, TrustRegistry, get, observe, observe_record, adjust_score, rescore, entry,
}
use agentic_application_fram.Trust.Registry.Events.{
  AgentEvent, observe_all, get-entry, entry-observe,
}

module _ (F : Float) where
  -- A number that is not below 0 and not above 1.
  pub record InUnit (v : F.Carrier) : Type 0 where
    pub number : F.is_nan v ≡ false
    pub not_below : F.lt v (zero_float F) ≡ false
    pub not_above : F.lt (one_float F) v ≡ false

  -- The literals 0, 1/2 and 1 are numbers in that range.
  pub record LiteralLaws : Type 0 where
    pub zero_in : InUnit (zero_float F)
    pub half_in : InUnit (F.ratio 1 2)
    pub one_in : InUnit (one_float F)

  module _ (laws : LiteralLaws) where
    clamped-InUnit : (v : F.Carrier) → InUnit (clamped F v)
    unfolding clamped
    clamped-InUnit v = ground (arith, laws.zero_in, laws.one_in)

    min-InUnit : (v : F.Carrier) → InUnit v → InUnit (min_float F (F.ratio 1 2) v)
    unfolding min_float
    min-InUnit v h = ground (arith, laws.half_in)

    adjust_score-InUnit :
        (d : PromotionDecision) (s : TrustScore F)
        → InUnit s.value
        → InUnit (adjust_score F d s).value
    unfolding adjust_score
    adjust_score-InUnit drop_to_floor s h = min-InUnit s.value h
    adjust_score-InUnit demote s h = h
    adjust_score-InUnit promote s h = h
    adjust_score-InUnit hold s h = h

    observe_record-InUnit :
        (policy : AutonomyPolicy F) (rules : PromotionRules F) (now : ℕ) (e : ScoreEvent)
        (t : TrustRecord F)
        → InUnit (observe_record F policy rules now e t).0.score.value
    unfolding observe_record
    observe_record-InUnit policy rules now e t =
        adjust_score-InUnit _ (rescore F policy e t.score) (clamped-InUnit _)

    observe-InUnit :
        (now : ℕ) (agent other : String) (e : ScoreEvent) (r : TrustRegistry F)
        → InUnit (get F other r).value
        → InUnit (get F other (observe F now agent e r).0).value
    observe-InUnit now agent other e r h = elim (Bool-cases (str_eq agent other)) [
      | inl same ↦
          rw
            (
              get-entry F other (observe F now agent e r).0,
              entry-observe F now agent other e r,
              same,
            )
            (observe_record-InUnit r.policy r.rules now e (entry F agent r))
      | inr apart ↦
          rw
            (
              get-entry F other (observe F now agent e r).0,
              entry-observe F now agent other e r,
              apart,
            )
            (rw get-entry at h)
    ]

    -- Where every agent's score is a number from 0 to 1, it still is after any events, if the
    -- literals 0, 1/2 and 1 are numbers in that range; no other law of f64 is needed.
    pub scores-InUnit :
        (es : List AgentEvent) (r : TrustRegistry F) (agent : String)
        → ((a : String) → InUnit (get F a r).value)
        → InUnit (get F agent (observe_all F es r)).value
    unfolding observe_all
    scores-InUnit [] r agent h = h agent
    scores-InUnit ((now, other, e) ∷ es) r agent h =
        scores-InUnit es (observe F now other e r).0 agent
          (λ a. observe-InUnit now other a e r (h a))
