-- ===== src/Tests/Services.antt =====
-- The registry of capabilities at concrete inputs: the two capabilities of the planner's tests.
use agentic_application_fram.Base.{
  ℕ, ◌+◌, ◌≤◌, ◌≡◌, refl, String, Option, none, some, true, false, [], ◌∷◌, lookup, arith, ltb,
  Holds,
}
use agentic_application_fram.Contracts.Capability.{validate}
use agentic_application_fram.Registry.Store.{
  Registry, in_memory, update_reputation, reputation_rate_limit,
}
use agentic_application_fram.Registry.Store.Reputation.{
  registering, deregistering, updating, perform_all, AllValid, perform_all-AllValid_capabilities,
  updates_spaced,
}
use agentic_application_fram.Registry.Discovery.{discover, DiscoveryQuery}
use agentic_application_fram.Registry.Discovery.Ranking.{Ranking, discover-Ranking}
use agentic_application_fram.Registry.Registration.{register_service, Services}
use agentic_application_fram.Registry.Registration.Outcome.{Outcome, register-Outcome}
use agentic_application_fram.Trust.Registry as Trust
use agentic_application_fram.Tests.Samples.{thousandths}
use agentic_application_fram.Tests.Planner.{refund, finder, shop}

empty-AllValid : AllValid thousandths (in_memory thousandths)
unfolding lookup
empty-AllValid = λ id. tt

perform_all-AllValid_capabilities_example : AllValid thousandths (
    perform_all thousandths
      (registering refund ∷ updating 5 "cap-refund" 1000900 "lr-1" ∷ deregistering "cap-find" ∷ [])
      (in_memory thousandths))
perform_all-AllValid_capabilities_example =
    perform_all-AllValid_capabilities thousandths
      (registering refund ∷ updating 5 "cap-refund" 1000900 "lr-1" ∷ deregistering "cap-find" ∷ [])
      (in_memory thousandths) empty-AllValid

first_update : (update_reputation thousandths 1000 "cap-refund" 1000900 "lr-1" shop).0 ≡ none
unfolding update_reputation lookup
first_update = refl

second_update :
    (update_reputation thousandths 61000 "cap-refund" 1000800 "lr-2" (
      perform_all thousandths
        (registering finder ∷ updating 2000 "cap-refund" 1000700 "lr-1" ∷ [])
        (update_reputation thousandths 1000 "cap-refund" 1000900 "lr-1" shop).1)).0
    ≡ none
unfolding update_reputation lookup perform_all
    agentic_application_fram.Registry.Store.Reputation.perform validate
    agentic_application_fram.Base.is_empty agentic_application_fram.Base.trim
    agentic_application_fram.Base.insert
second_update = refl

updates_spaced_example : 1000 + reputation_rate_limit ≤ 61000
updates_spaced_example =
    updates_spaced thousandths 1000 61000 "cap-refund" 1000900 1000800 "lr-1" "lr-2"
      (registering finder ∷ updating 2000 "cap-refund" 1000700 "lr-1" ∷ []) shop first_update
      second_update

ltb_asymmetric : (a b : ℕ) → ltb a b ≡ true → ltb b a ≡ false
ltb_asymmetric a b h = ground arith

abbrev refund_query : DiscoveryQuery
refund_query = record { query = "refund order"; domain = some "orders"; limit = 10 }

discover-Ranking_example :
    Ranking thousandths
      (λ s. s)
      ltb_asymmetric
      refund_query
      shop
      (discover thousandths (λ s. s) refund_query shop)
discover-Ranking_example = discover-Ranking thousandths (λ s. s) ltb_asymmetric refund_query shop

abbrev services : Services thousandths
services = record { registry = shop; trust = Trust.new thousandths }

register-Outcome_example :
    Outcome thousandths none refund true services
      (register_service thousandths (λ cap. none) refund true services)
register-Outcome_example = register-Outcome thousandths (λ cap. none) refund true services
