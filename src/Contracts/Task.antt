-- ===== src/Contracts/Task.antt =====
-- core/crates/aaf-contracts/src/task.rs: the life of a task. The proofs are in the child module.
pub mod Lifecycle
use agentic_application_fram.Base.{ℕ, String, Option, none, Bool, true, false, if◌then◌else◌}
use agentic_application_fram.Float.{Float}

pub data TaskState : Type 0 where
  proposed waiting_for_context ready running paused_for_approval blocked : TaskState
  analyzing recovering completed failed cancelled compensated : TaskState
  proposed_mutation app_review accepted rejected transformed expired : TaskState

unfoldable pub is_terminal : TaskState → Bool
is_terminal completed = true
is_terminal failed = true
is_terminal cancelled = true
is_terminal compensated = true
is_terminal rejected = true
is_terminal expired = true
is_terminal _ = false

-- The `match` of `can_transition_to`, an or-pattern written as one clause for each alternative.
unfoldable pub can_transition_to : TaskState → TaskState → Bool
can_transition_to proposed waiting_for_context = true
can_transition_to proposed ready = true
can_transition_to proposed proposed_mutation = true
can_transition_to waiting_for_context ready = true
can_transition_to ready running = true
can_transition_to blocked running = true
can_transition_to paused_for_approval running = true
can_transition_to accepted running = true
can_transition_to transformed running = true
can_transition_to running paused_for_approval = true
can_transition_to running blocked = true
can_transition_to running failed = true
can_transition_to running completed = true
can_transition_to running cancelled = true
can_transition_to paused_for_approval cancelled = true
can_transition_to failed analyzing = true
can_transition_to analyzing recovering = true
can_transition_to recovering running = true
can_transition_to recovering completed = true
can_transition_to recovering compensated = true
can_transition_to recovering failed = true
can_transition_to proposed_mutation app_review = true
can_transition_to app_review accepted = true
can_transition_to app_review rejected = true
can_transition_to app_review transformed = true
can_transition_to app_review expired = true
can_transition_to rejected cancelled = true
can_transition_to expired cancelled = true
can_transition_to _ _ = false

module _ (F : Float) where
  pub record Task : Type 0 where
    pub task_id : String
    pub intent_id : String
    pub state : TaskState
    pub assigned_agent : Option String
    pub checkpoint_id : Option String
    pub remaining_budget_usd : F.Carrier
    pub remaining_time_ms : ℕ
    pub created_at : ℕ
    pub updated_at : ℕ

  -- The fresh id and the clock are arguments.
  unfoldable pub new : String → ℕ → String → F.Carrier → ℕ → Task
  new task_id now intent_id budget_usd time_ms = record {
    task_id = task_id;
    intent_id = intent_id;
    state = proposed;
    assigned_agent = none;
    checkpoint_id = none;
    remaining_budget_usd = budget_usd;
    remaining_time_ms = time_ms;
    created_at = now;
    updated_at = now;
  }

  unfoldable pub transition : ℕ → TaskState → Task → Task × Bool
  transition now next t =
      if can_transition_to t.state next
      then (record t { state = next; updated_at = now }, true)
      else (t, false)
