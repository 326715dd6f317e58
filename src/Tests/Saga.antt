-- ===== src/Tests/Saga.antt =====
-- A run of core/crates/aaf-saga: an order of three steps whose last one fails.
use agentic_application_fram.Base.{
  ◌==◌, ℕ, ◌≡◌, inr, refl, String, none, some, Bool, true, false, List, [], ◌∷◌, retain,
  if◌then◌else◌, find,
}
use agentic_application_fram.Saga.Definition.{
  deterministic, mandatory, partial_compensation, OnFailure, SagaStep, SagaDefinition, failed,
}
use agentic_application_fram.Saga.Recovery.{decide, action_of, preserve_set}
use agentic_application_fram.Saga.Executor.{
  StepResult, ok, failed_with_tag, outcome, failed_at, run, find_step,
}
use agentic_application_fram.Saga.Executor.Safety.{Leaves, run-Leaves}
use agentic_application_fram.Saga.Executor.Rollback.{Justified, run-Justified}
use agentic_application_fram.Saga.Executor.Reverse.{
  is_kept, is_dropped, numbers_of, undo_all, RunsOk, rollback_is_reverse,
}

abbrev no_stock : OnFailure
no_stock = record {
  strategy = "intelligent_recovery";
  rules =
      record { condition = "no_stock"; action = partial_compensation; preserve = "1" ∷ [] } ∷ [];
}

abbrev step_of : ℕ → String → SagaStep
step_of n name = record {
  step = n;
  name = name;
  kind = deterministic;
  capability = "cap";
  compensation = some "undo";
  compensation_type = mandatory;
  on_failure = some no_stock;
}

abbrev reserve : SagaStep
reserve = step_of 1 "reserve"

abbrev charge_card : SagaStep
charge_card = step_of 2 "charge"

abbrev ship : SagaStep
ship = step_of 3 "ship"

abbrev order_saga : SagaDefinition
order_saga = record {
  name = "order";
  description = none;
  steps = reserve ∷ charge_card ∷ ship ∷ [];
}

-- The world is the list of what was done.
abbrev runner : SagaStep → List String → StepResult × List String
runner s log = (if s.step == 3 then failed_with_tag "no_stock" else ok, s.name ∷ log)

abbrev undo : SagaStep → List String → List String
undo s log = "undo" ∷ s.name ∷ log

abbrev compensator : SagaStep → List String → Bool × List String
compensator s log = (true, undo s log)

abbrev refusing : SagaStep → List String → Bool × List String
refusing s log = (false, log)

run-Leaves_example :
    Leaves (run runner compensator order_saga []).0 (run runner compensator order_saga []).1
run-Leaves_example = run-Leaves runner compensator order_saga []

run-Justified_example :
    Justified runner refusing order_saga.steps
      (run runner refusing order_saga []).0
      (run runner refusing order_saga []).1
run-Justified_example = run-Justified runner refusing order_saga []

rollback_is_reverse_example :
    let d = decide "no_stock" ship.on_failure in
    let dropped = retain (is_dropped (action_of d) (preserve_set d)) (charge_card ∷ reserve ∷ []) in
    run runner compensator order_saga [] ≡ (
      outcome (
          failed_at 3 (action_of d) (numbers_of dropped) (
            numbers_of
              (retain (is_kept (action_of d) (preserve_set d)) (charge_card ∷ reserve ∷ [])))),
      failed,
      undo_all runner compensator undo (λ s w. refl) dropped ("ship" ∷ "charge" ∷ "reserve" ∷ []),
    )
unfolding decide RunsOk find_step find
rollback_is_reverse_example =
    rollback_is_reverse runner compensator undo (λ s w. refl) order_saga
      (reserve ∷ charge_card ∷ []) [] ship "no_stock" [] ("charge" ∷ "reserve" ∷ [])
      ("ship" ∷ "charge" ∷ "reserve" ∷ []) refl (refl, (refl, tt))
      ("reserve" ∷ [], refl, ("charge" ∷ "reserve" ∷ [], refl, refl)) refl (inr refl)
