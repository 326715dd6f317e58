-- ===== src/Saga/Executor/Safety.antt =====
-- The results of core/crates/aaf-saga/src/executor.rs and the states that they leave.
use agentic_application_fram.Base.{
  ℕ, some, Bool, true, false, ◌≡◌, ◌≢◌, ◌⊎◌, refl, List, [], ◌∷◌, ◌++◌, reverse, arith, ◌==◌, find,
  if◌then◌else◌, All, All-append, All-reverse, All-weaken,
}
use agentic_application_fram.Saga.Definition.{
  is_terminal, RecoveryAction, pause_and_ask_user, retry_with_alternative, partial_compensation,
  full_compensation, skip, SagaStep, SagaDefinition, SagaState, in_partial_compensation,
  waiting_for_input, in_full_compensation, failed, completed, recovery_selected,
}
use agentic_application_fram.Saga.Recovery.{RecoveryDecision, decide, action_of, preserve_set}
use agentic_application_fram.Saga.Executor.{
  StepResult, ok, failed_with_tag, all_completed, failed_at, pending_user, Finish, outcome, error,
  panic, Undo, Loop, done, stopped, find_step, undo_one, rollback, after_rollback, compensate,
  after_retry, recover, on_result, run_steps, run, is_partial,
}

-- A step with this number is in the saga.
abbrev pub Known : List SagaStep → ℕ → Type 0
Known steps n = (s : SagaStep) × (find_step n steps ≡ some s)

Known-later : (x : SagaStep) (xs : List SagaStep) (n : ℕ) → Known xs n → Known (x ∷ xs) n
unfolding find_step find
Known-later x xs n (s, e) = (if x.step == n then x else s, ground arith)

All-Known : (xs : List SagaStep) → All (λ s. Known xs s.step) xs
unfolding find_step find
All-Known [] = tt
All-Known (x ∷ xs) = (
  (x, ground arith),
  All-weaken (λ s. Known xs s.step) (λ s. Known (x ∷ xs) s.step) xs
      (λ s k. Known-later x xs s.step k) (All-Known xs),
)

-- The state of the executor that each result leaves behind. A panic leaves none.
abbrev pub Leaves : Finish → SagaState → Type 0
Leaves (outcome (all_completed _)) st = st ≡ completed
Leaves (outcome (failed_at _ _ _ _)) st = st ≡ failed
Leaves (outcome (pending_user _)) st = st ≡ waiting_for_input
Leaves (error _) st = (st ≡ in_full_compensation) ⊎ (st ≡ in_partial_compensation)
Leaves panic st = ⊥

-- Whether the result is AllCompleted or Failed.
abbrev pub is_settled : Finish → Bool
is_settled (outcome (all_completed _)) = true
is_settled (outcome (failed_at _ _ _ _)) = true
is_settled (outcome (pending_user _)) = false
is_settled (error _) = false
is_settled panic = false

Leaves-is_terminal : (f : Finish) (st : SagaState) → Leaves f st → is_terminal st ≡ is_settled f
unfolding is_terminal
Leaves-is_terminal (outcome (all_completed _)) st h = ground arith
Leaves-is_terminal (outcome (failed_at _ _ _ _)) st h = ground arith
Leaves-is_terminal (outcome (pending_user _)) st h = ground arith
Leaves-is_terminal (error _) st h = ground arith
Leaves-is_terminal panic st h = absurd h

module _ {W : Type 0} (runner : SagaStep → W → StepResult × W)
    (compensator : SagaStep → W → Bool × W) where
  undo_one-found :
      (part : Bool) (keep : List ℕ) (steps : List SagaStep) (n : ℕ) (w : W)
      → Known steps n
      → (undo_one runner compensator part keep steps n w).0 ≢ Undo.lost
  unfolding undo_one
  undo_one-found part keep steps n w (s, e) = ground arith

  rollback-found :
      (part : Bool) (keep : List ℕ) (steps : List SagaStep) (ns compensated preserved : List ℕ)
      (w : W)
      → All (Known steps) ns
      → (rollback runner compensator part keep steps ns compensated preserved w).0 ≢ Loop.lost
  unfolding rollback
  rollback-found part keep steps [] compensated preserved w h = ground arith
  rollback-found part keep steps (n ∷ ns) compensated preserved w h =
      let w' = (undo_one runner compensator part keep steps n w).1 in
      ground (
        arith,
        undo_one-found part keep steps n w h.0,
        rollback-found part keep steps ns compensated (preserved ++ n ∷ []) w' h.1,
        rollback-found part keep steps ns (compensated ++ n ∷ []) preserved w' h.1,
        rollback-found part keep steps ns compensated preserved w' h.1,
      )

  after_rollback-Leaves :
      (n : ℕ) (a : RecoveryAction) (l : Loop)
      → l ≢ Loop.lost
      → Leaves
          (after_rollback runner compensator n a l).0
          (after_rollback runner compensator n a l).1
  unfolding after_rollback
  after_rollback-Leaves n a (done c p) h = refl
  after_rollback-Leaves n a (stopped e) h = ground arith
  after_rollback-Leaves n a Loop.lost h = h refl

  compensate-Leaves :
      (steps : List SagaStep) (s : SagaStep) (d : RecoveryDecision) (done_so_far : List ℕ) (w : W)
      → All (Known steps) done_so_far
      → Leaves
          (compensate runner compensator steps s d done_so_far w).0
          (compensate runner compensator steps s d done_so_far w).1
  unfolding compensate
  compensate-Leaves steps s d done_so_far w h = after_rollback-Leaves s.step (action_of d) _ (
      rollback-found (is_partial (action_of d)) (preserve_set d) steps (reverse done_so_far) [] [] w
        (All-reverse (Known steps) done_so_far h))

  -- What has to be shown of the ways in which a run may end, for it to hold of every run.
  pub record Covers (Q : Finish → SagaState → Type 0) (steps : List SagaStep) : Type 0 where
    pub all_done : (ns : List ℕ) → Q (outcome (all_completed ns)) completed
    pub paused : (n : ℕ) → Q (outcome (pending_user n)) waiting_for_input
    pub gave_up : (n : ℕ) → Q (outcome (failed_at n retry_with_alternative [] [])) failed
    pub rolled :
        (s : SagaStep) (d : RecoveryDecision) (ns : List ℕ) (w : W)
        → All (Known steps) ns
        → Q
            (compensate runner compensator steps s d ns w).0
            (compensate runner compensator steps s d ns w).1

  module _ (Q : Finish → SagaState → Type 0) (steps : List SagaStep) (c : Covers Q steps) where
    -- The rest of the loop ends in one of those ways.
    abbrev Ends : (List ℕ → SagaState → W → Finish × SagaState × W) → Type 0
    Ends next =
        (ns : List ℕ) (st : SagaState) (w : W)
        → All (Known steps) ns
        → Q (next ns st w).0 (next ns st w).1

    module _ (s : SagaStep) (k : Known steps s.step)
        (next : List ℕ → SagaState → W → Finish × SagaState × W) (ends : Ends next) where
      longer : (ns : List ℕ) → All (Known steps) ns → All (Known steps) (ns ++ s.step ∷ [])
      longer ns h = All-append (Known steps) ns (s.step ∷ []) h (k, tt)

      recover-Ends :
          (d : RecoveryDecision) (a : RecoveryAction)
          → Ends (λ ns st w. recover runner compensator steps s next d a ns w)
      unfolding recover
      recover-Ends d full_compensation ns st w h = c.rolled s d ns w h
      recover-Ends d partial_compensation ns st w h = c.rolled s d ns w h
      recover-Ends d pause_and_ask_user ns st w h = c.paused s.step
      recover-Ends d retry_with_alternative ns st w h = retried (runner s w).0 (runner s w).1
        where
          retried :
              (r : StepResult) (w' : W)
              → Q
                  (after_retry runner compensator s next ns r w').0
                  (after_retry runner compensator s next ns r w').1
          retried ok w' = ends (ns ++ s.step ∷ []) recovery_selected w' (longer ns h)
          retried (failed_with_tag _) w' = c.gave_up s.step
      recover-Ends d skip ns st w h = ends ns recovery_selected w h

      on_result-Ends :
          (r : StepResult) → Ends (λ ns st w. on_result runner compensator steps s next ns st r w)
      unfolding on_result
      on_result-Ends ok ns st w h = ends (ns ++ s.step ∷ []) st w (longer ns h)
      on_result-Ends (failed_with_tag tag) ns st w h =
          let d = decide tag s.on_failure in recover-Ends d (action_of d) ns st w h

    run_steps-Ends :
        (rest : List SagaStep)
        → All (λ s. Known steps s.step) rest
        → Ends (run_steps runner compensator steps rest)
    unfolding run_steps
    run_steps-Ends [] k ns st w h = c.all_done ns
    run_steps-Ends (s ∷ rest) k ns st w h =
        on_result-Ends s k.0 (run_steps runner compensator steps rest) (run_steps-Ends rest k.1)
          (runner s w).0 ns st (runner s w).1 h

  pub run-Ends :
      (Q : Finish → SagaState → Type 0) (def : SagaDefinition) (w : W)
      → Covers Q def.steps
      → Q (run runner compensator def w).0 (run runner compensator def w).1
  unfolding run
  run-Ends Q def w c = run_steps-Ends Q def.steps c def.steps (All-Known def.steps) [] _ w tt

  -- Whatever the steps and the compensators do, a run ends without a panic, and leaves the state
  -- Completed, Failed or WaitingForInput that its outcome stands for; after a failed mandatory
  -- compensation the state stays FullCompensation or PartialCompensation.
  pub run-Leaves :
      (def : SagaDefinition) (w : W)
      → Leaves (run runner compensator def w).0 (run runner compensator def w).1
  run-Leaves def w = run-Ends Leaves def w (record {
    all_done = λ ns. refl;
    paused = λ n. refl;
    gave_up = λ n. refl;
    rolled = λ s d ns w'. compensate-Leaves def.steps s d ns w';
  })

  -- The state after a run is terminal exactly when the run returns AllCompleted or Failed.
  pub run-is_terminal :
      (def : SagaDefinition) (w : W)
      → is_terminal (run runner compensator def w).1 ≡ is_settled (run runner compensator def w).0
  run-is_terminal def w = Leaves-is_terminal _ _ (run-Leaves def w)
