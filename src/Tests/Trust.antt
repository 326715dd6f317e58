-- ===== src/Tests/Trust.antt =====
-- Runs of core/crates/aaf-trust: events of two agents.
use agentic_application_fram.Base.{◌≡◌, List, [], ◌∷◌, lookup, arith}
use agentic_application_fram.Contracts.Trust.{level1}
use agentic_application_fram.Trust.Score.{ScoreEvent, policy_violation, accuracy_regression}
use agentic_application_fram.Trust.Registry.{TrustRegistry, new, get, observe, entry}
use agentic_application_fram.Trust.Registry.Events.{
  Observed, AgentEvent, observe_all, violation_is_final,
}
use agentic_application_fram.Tests.Samples.{thousandths}

abbrev some_events : List Observed
some_events =
    (1, ScoreEvent.success) ∷ (2, ScoreEvent.human_override) ∷ (3, accuracy_regression) ∷ []

abbrev registry : TrustRegistry thousandths
registry = new thousandths

abbrev later_events : List AgentEvent
later_events =
    (6, "a", ScoreEvent.success) ∷ (7, "b", policy_violation) ∷ (8, "a", ScoreEvent.success) ∷ []

violation_is_final_example :
    (get thousandths "a" (
      observe_all thousandths later_events
        (observe thousandths 5 "a" policy_violation registry).0)).autonomy
    ≡ level1
unfolding new entry lookup
violation_is_final_example =
    violation_is_final thousandths 5 "a" later_events registry (omega arith)
