-- ===== src/Saga/Executor.antt =====
-- core/crates/aaf-saga/src/executor.rs. The closures act on a world `W`, which stands for all that
-- they may read and change: the runner of a step, and the compensator, which says whether it
-- succeeded. The proofs are in the child modules.
pub mod Safety
pub mod Rollback
pub mod Reverse
use agentic_application_fram.Base.{
  ℕ, String, Option, none, some, Bool, true, false, ◌&&◌, List, [], ◌∷◌, ◌++◌, reverse, ◌==◌,
  if◌then◌else◌, any, find,
}
use agentic_application_fram.Saga.Definition.{
  CompensationType, mandatory, best_effort, no_compensation, RecoveryAction, pause_and_ask_user,
  retry_with_alternative, partial_compensation, full_compensation, skip, SagaStep, SagaDefinition,
  SagaState, initiated, running, step_failed, analyzing, recovery_selected, in_partial_compensation,
  waiting_for_input, in_full_compensation, failed, completed,
}
use agentic_application_fram.Saga.Recovery.{RecoveryDecision, decide, action_of, preserve_set}

pub data StepResult : Type 0 where
  ok : StepResult
  failed_with_tag : String → StepResult

pub data SagaOutcome : Type 0 where
  all_completed : List ℕ → SagaOutcome
  failed_at : ℕ → RecoveryAction → List ℕ → List ℕ → SagaOutcome
  pending_user : ℕ → SagaOutcome

pub data SagaError : Type 0 where
  mandatory_compensation_failed : ℕ → SagaError

-- What `run` returns; `panic` is the failed `expect("known")`.
pub data Finish : Type 0 where
  outcome : SagaOutcome → Finish
  error : SagaError → Finish
  panic : Finish

-- What becomes of one completed step in a rollback.
pub data Undo : Type 0 where
  kept undone let_go stuck lost : Undo

-- How a rollback ends: with the compensated and the preserved steps, or not at all.
pub data Loop : Type 0 where
  done : List ℕ → List ℕ → Loop
  stopped : SagaError → Loop
  lost : Loop

abbrev pub is_mandatory : CompensationType → Bool
is_mandatory mandatory = true
is_mandatory _ = false

abbrev pub is_partial : RecoveryAction → Bool
is_partial partial_compensation = true
is_partial _ = false

abbrev pub is_some : Option String → Bool
is_some none = false
is_some (some _) = true

unfoldable pub find_step : ℕ → List SagaStep → Option SagaStep
find_step n steps = find (λ s. s.step == n) steps

module _ {W : Type 0} (runner : SagaStep → W → StepResult × W)
    (compensator : SagaStep → W → Bool × W) where
  -- A step whose compensation failed.
  failed_undo : SagaStep → Undo
  failed_undo s = if is_mandatory s.compensation_type then stuck else let_go

  attempt : SagaStep → W → Undo × W
  unfolding failed_undo
  attempt s w = let (fine, w') = compensator s w in (if fine then undone else failed_undo s, w')

  undo_step : Option SagaStep → W → Undo × W
  unfolding attempt
  undo_step none w = (lost, w)
  undo_step (some s) w =
      let tried = attempt s w in if is_some s.compensation then tried else (undone, w)

  -- The body of `for done in completed.iter().rev()`.
  undo_one : Bool → List ℕ → List SagaStep → ℕ → W → Undo × W
  unfolding undo_step
  undo_one part keep steps n w =
      let undoing = undo_step (find_step n steps) w in
      if part && any (λ k. k == n) keep then (kept, w) else undoing

  -- What follows for the rest `next` of the loop, by what became of one step.
  after_undo : (List ℕ → List ℕ → W → Loop × W) → ℕ → List ℕ → List ℕ → Undo → W → Loop × W
  after_undo next n compensated preserved kept w = next compensated (preserved ++ n ∷ []) w
  after_undo next n compensated preserved undone w = next (compensated ++ n ∷ []) preserved w
  after_undo next n compensated preserved let_go w = next compensated preserved w
  after_undo next n compensated preserved stuck w = (stopped (mandatory_compensation_failed n), w)
  after_undo next n compensated preserved lost w = (lost, w)

  rollback : Bool → List ℕ → List SagaStep → List ℕ → List ℕ → List ℕ → W → Loop × W
  unfolding after_undo
  rollback part keep steps [] compensated preserved w = (done compensated preserved, w)
  rollback part keep steps (n ∷ ns) compensated preserved w =
      let (u, w') = undo_one part keep steps n w in
      after_undo (rollback part keep steps ns) n compensated preserved u w'

  abbrev compensating : RecoveryAction → SagaState
  compensating action = if is_partial action then in_partial_compensation else in_full_compensation

  -- The two compensating actions, once the rollback has ended.
  after_rollback : ℕ → RecoveryAction → Loop → Finish × SagaState
  after_rollback n action (done compensated preserved) =
      (outcome (failed_at n action compensated preserved), failed)
  after_rollback n action (stopped e) = (error e, compensating action)
  after_rollback n action lost = (panic, compensating action)

  pub compensate : List SagaStep → SagaStep → RecoveryDecision → List ℕ → W → Finish × SagaState × W
  unfolding rollback after_rollback
  compensate steps s decision done_so_far w =
      let action = action_of decision in
      let (l, w') =
        rollback (is_partial action) (preserve_set decision) steps (reverse done_so_far) [] [] w in
      let (f, st) = after_rollback s.step action l in (f, st, w')

  -- The rest of the loop, from the completed steps, the state field and the world.
  abbrev Rest : Type 0
  Rest = List ℕ → SagaState → W → Finish × SagaState × W

  -- What follows the second call of the runner.
  after_retry : SagaStep → Rest → List ℕ → StepResult → W → Finish × SagaState × W
  after_retry s next done_so_far ok w = next (done_so_far ++ s.step ∷ []) recovery_selected w
  after_retry s next done_so_far (failed_with_tag _) w =
      (outcome (failed_at s.step retry_with_alternative [] []), failed, w)

  -- The `match` on the action. The state is `RecoverySelected` here.
  recover :
      List SagaStep
      → SagaStep
      → Rest
      → RecoveryDecision
      → RecoveryAction
      → List ℕ
      → W
      → Finish × SagaState × W
  unfolding compensate after_retry
  recover steps s next decision full_compensation done_so_far w =
      compensate steps s decision done_so_far w
  recover steps s next decision partial_compensation done_so_far w =
      compensate steps s decision done_so_far w
  recover steps s next decision pause_and_ask_user done_so_far w =
      (outcome (pending_user s.step), waiting_for_input, w)
  recover steps s next decision retry_with_alternative done_so_far w =
      let (again, w') = runner s w in after_retry s next done_so_far again w'
  recover steps s next decision skip done_so_far w = next done_so_far recovery_selected w

  -- The `match` on the result of the runner.
  on_result :
      List SagaStep → SagaStep → Rest → List ℕ → SagaState → StepResult → W → Finish × SagaState × W
  unfolding recover
  on_result steps s next done_so_far st ok w = next (done_so_far ++ s.step ∷ []) st w
  on_result steps s next done_so_far st (failed_with_tag tag) w =
      let decision = decide tag s.on_failure in
      recover steps s next decision (action_of decision) done_so_far w

  -- The loop over the steps.
  run_steps : List SagaStep → List SagaStep → List ℕ → SagaState → W → Finish × SagaState × W
  unfolding on_result
  run_steps steps [] done_so_far st w = (outcome (all_completed done_so_far), completed, w)
  run_steps steps (s ∷ rest) done_so_far st w =
      let (r, w') = runner s w in on_result steps s (run_steps steps rest) done_so_far st r w'

  pub run : SagaDefinition → W → Finish × SagaState × W
  unfolding run_steps
  run def w = run_steps def.steps def.steps [] running w
