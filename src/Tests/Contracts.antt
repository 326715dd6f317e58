-- ===== src/Tests/Contracts.antt =====
-- Runs of core/crates/aaf-contracts: delegations and the lives of tasks.
use agentic_application_fram.Base.{◌≡◌, ◌⊎◌, ◌↔◌, refl, none, true, List, [], ◌∷◌, String}
use agentic_application_fram.Contracts.Task.{
  waiting_for_context, ready, running, analyzing, completed, failed, cancelled, rejected, expired,
  proposed_mutation, app_review, accepted, is_terminal, can_transition_to, Task,
}
use agentic_application_fram.Contracts.Task.Lifecycle.{Request, terminal_exits}
use agentic_application_fram.Tests.Samples.{thousandths}

abbrev three_ids : List String
three_ids = "a" ∷ "b" ∷ "c" ∷ []

terminal_exits_example : (can_transition_to failed analyzing ≡ true) ↔ (
    ((failed ≡ failed) × (analyzing ≡ analyzing))
    ⊎ (((failed ≡ rejected) ⊎ (failed ≡ expired)) × (analyzing ≡ cancelled)))
unfolding is_terminal
terminal_exits_example = terminal_exits failed analyzing refl

abbrev sample_task : Task thousandths
sample_task = record {
  task_id = "task-1";
  intent_id = "int-1";
  state = proposed_mutation;
  assigned_agent = none;
  checkpoint_id = none;
  remaining_budget_usd = 1001000;
  remaining_time_ms = 5000;
  created_at = 10;
  updated_at = 10;
}

abbrev reviewed_run : List Request
reviewed_run = (1, app_review) ∷ (2, accepted) ∷ (3, running) ∷ []

abbrev whole_run : List Request
whole_run = (1, ready) ∷ (2, waiting_for_context) ∷ (3, ready) ∷ (4, running) ∷ (5, completed) ∷ []
