-- ===== src/Contracts/Task/Lifecycle.antt =====
-- Sequences of requested transitions of core/crates/aaf-contracts/src/task.rs.
use agentic_application_fram.Base.{
  ℕ, Bool, true, false, ◌≡◌, ◌⊎◌, ◌↔◌, ◌||◌, inr, refl, List, [], ◌∷◌, arith, if◌then◌else◌,
}
use agentic_application_fram.Float.{Float}
use agentic_application_fram.Contracts.Task.{
  TaskState, proposed, waiting_for_context, ready, running, analyzing, completed, failed, cancelled,
  compensated, proposed_mutation, app_review, accepted, rejected, transformed, expired, is_terminal,
  can_transition_to, Task, transition,
}

-- A request to move to a state, at a time.
abbrev pub Request : Type 0
Request = ℕ × TaskState

-- Some request asks for a state of this kind.
abbrev pub asks : (TaskState → Bool) → List Request → Bool
asks p [] = false
asks p ((now, next) ∷ reqs) = p next || asks p reqs

abbrev pub is_decision : TaskState → Bool
is_decision accepted = true
is_decision transformed = true
is_decision _ = false

abbrev pub is_running : TaskState → Bool
is_running running = true
is_running _ = false

-- Where a proposal can be that nobody has accepted or transformed.
abbrev is_unreviewed : TaskState → Bool
is_unreviewed proposed_mutation = true
is_unreviewed app_review = true
is_unreviewed rejected = true
is_unreviewed expired = true
is_unreviewed cancelled = true
is_unreviewed _ = false

-- Where a task can be that has never run.
abbrev has_not_run : TaskState → Bool
has_not_run proposed = true
has_not_run waiting_for_context = true
has_not_run ready = true
has_not_run accepted = true
has_not_run transformed = true
has_not_run proposed_mutation = true
has_not_run app_review = true
has_not_run rejected = true
has_not_run expired = true
has_not_run cancelled = true
has_not_run _ = false

unreviewed_step :
    (s n : TaskState)
    → is_unreviewed s ≡ true
    → can_transition_to s n ≡ true
    → (is_decision n ≡ true) ⊎ (is_unreviewed n ≡ true)
unfolding can_transition_to
unreviewed_step s n h k = ground arith

unrun_step :
    (s n : TaskState)
    → has_not_run s ≡ true
    → can_transition_to s n ≡ true
    → (is_running n ≡ true) ⊎ (has_not_run n ≡ true)
unfolding can_transition_to
unrun_step s n h k = ground arith

-- A terminal state has no way on, but for three: from Failed to Analyzing, and from Rejected and
-- Expired to Cancelled.
pub terminal_exits :
    (s n : TaskState)
    → is_terminal s ≡ true
    → (can_transition_to s n ≡ true)
      ↔ (((s ≡ failed) × (n ≡ analyzing)) ⊎ (((s ≡ rejected) ⊎ (s ≡ expired)) × (n ≡ cancelled)))
unfolding is_terminal can_transition_to
terminal_exits s n h = ground arith

module _ (F : Float) where
  unfoldable pub transition_all : List Request → Task F → Task F
  transition_all [] t = t
  transition_all ((now, next) ∷ reqs) t = transition_all reqs (transition F now next t).0

  state-transition :
      (now : ℕ) (next : TaskState) (t : Task F)
      → (transition F now next t).0.state
        ≡ (if can_transition_to t.state next then next else t.state)
  unfolding transition
  state-transition now next t = ground arith

  -- One step of an invariant that only a request of some kind can break.
  module _ (inside breaks : TaskState → Bool)
      (keep : (s n : TaskState)
        → inside s ≡ true
        → can_transition_to s n ≡ true
        → (breaks n ≡ true) ⊎ (inside n ≡ true)) where
    inside_after :
        (reqs : List Request) (t : Task F)
        → inside t.state ≡ true
        → (asks breaks reqs ≡ true) ⊎ (inside (transition_all reqs t).state ≡ true)
    unfolding transition_all
    inside_after [] t h = inr h
    inside_after ((now, next) ∷ reqs) t h = ground (
      arith,
      keep t.state next,
      state-transition now next t,
      inside_after reqs (transition F now next t).0,
    )

  -- A proposed mutation comes to run only if some request accepted or transformed it.
  pub running_needs_review :
      (reqs : List Request) (t : Task F)
      → t.state ≡ proposed_mutation
      → (transition_all reqs t).state ≡ running
      → asks is_decision reqs ≡ true
  running_needs_review reqs t h k =
      ground (arith, inside_after is_unreviewed is_decision unreviewed_step reqs t)

  -- A task that was only proposed is completed only if some request made it run.
  pub completed_needs_running :
      (reqs : List Request) (t : Task F)
      → t.state ≡ proposed
      → (transition_all reqs t).state ≡ completed
      → asks is_running reqs ≡ true
  completed_needs_running reqs t h k =
      ground (arith, inside_after has_not_run is_running unrun_step reqs t)

  dead_step :
      (s n : TaskState)
      → (s ≡ completed) ⊎ (s ≡ cancelled) ⊎ (s ≡ compensated)
      → can_transition_to s n ≡ false
  unfolding can_transition_to
  dead_step s n h = ground arith

  -- A completed, cancelled or compensated task refuses every request and never changes again.
  pub dead_ends_absorb :
      (reqs : List Request) (t : Task F)
      → (t.state ≡ completed) ⊎ (t.state ≡ cancelled) ⊎ (t.state ≡ compensated)
      → transition_all reqs t ≡ t
  unfolding transition_all transition
  dead_ends_absorb [] t h = refl
  dead_ends_absorb ((now, next) ∷ reqs) t h =
      rw (dead_step t.state next h) (dead_ends_absorb reqs t h)
