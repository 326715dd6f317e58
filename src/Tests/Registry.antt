-- ===== src/Tests/Registry.antt =====
-- Runs of core/crates/aaf-registry: the circuit breakers and the degradation of a capability.
use agentic_application_fram.Base.{◌≡◌, refl, none, some, true, List, [], ◌∷◌, arith, lookup}
use agentic_application_fram.Contracts.Capability.{DegradationLevel}
use agentic_application_fram.Registry.CircuitBreaker.{
  BreakerConfig, BreakerInner, capability, closed, open_state, half_open, default_config, new,
  record_failure, record_success, effective_state,
}
use agentic_application_fram.Registry.CircuitBreaker.Tripping.{
  record_failures, trips_at_threshold, probe_decides,
}
use agentic_application_fram.Registry.Breakers.{Breakers}
use agentic_application_fram.Registry.Breakers.Isolation.{
  Call, add, failure, success, ask, look_at_all, perform_all, AllValid, perform_all-AllValid,
}
use agentic_application_fram.Registry.Degradation.{DegradationStateMachine}

abbrev two_failures : BreakerConfig
two_failures = record { failure_threshold = 2; window = 1000; cooldown = 500 }

abbrev tripped : BreakerInner
tripped = record {
  state = open_state;
  level = capability;
  config = two_failures;
  failures = 10 ∷ 20 ∷ [];
  opened_at = some 20;
  reason = some "timeout";
}

trips_at_threshold_example :
    (record_failures none (10 ∷ 20 ∷ []) (new capability two_failures)).state ≡ open_state
trips_at_threshold_example =
    trips_at_threshold none 10 (10 ∷ 20 ∷ []) capability two_failures (omega arith) (omega arith)
      ((omega arith, omega arith), ((omega arith, omega arith), tt))

probe_decides_example :
    let (b', answer) = effective_state 520 tripped in
    (answer ≡ half_open)
    × ((record_failure 600 none b').1 ≡ true)
    × ((record_failure 600 none b').0.state ≡ open_state)
    × ((record_failure 600 none b').0.opened_at ≡ some 600)
    × (record_success 600 b'
        ≡ record tripped { state = closed; failures = []; opened_at = none; reason = none })
probe_decides_example = probe_decides tripped 20 520 600 none refl refl (omega arith)

abbrev one_tripped : Breakers
one_tripped = ("cap-a", tripped) ∷ ("cap-b", new capability default_config) ∷ []

abbrev some_calls : List Call
some_calls =
    add "cap-a" capability two_failures
    ∷ failure 10 "cap-a" none
    ∷ failure 20 "cap-a" none
    ∷ ask 30 "cap-a"
    ∷ look_at_all 600
    ∷ success 700 "cap-a"
    ∷ []

perform_all-AllValid_example : AllValid (perform_all some_calls [])
unfolding lookup
perform_all-AllValid_example =
    perform_all-AllValid some_calls [] (omega arith, (tt, (tt, (tt, (tt, (tt, tt))))))
      (record { at = λ j. tt })

abbrev cached_service : DegradationStateMachine
cached_service = record { current = DegradationLevel.cached }
