-- ===== src/Saga/Executor/Rollback.antt =====
-- The errors of a rollback of core/crates/aaf-saga/src/executor.rs.
use agentic_application_fram.Base.{
  ℕ, some, Bool, true, false, ◌≡◌, refl, List, [], ◌∷◌, ◌++◌, reverse, arith, All, All-reverse,
}
use agentic_application_fram.Saga.Definition.{
  mandatory, RecoveryAction, SagaStep, SagaDefinition, SagaState,
}
use agentic_application_fram.Saga.Recovery.{RecoveryDecision, action_of, preserve_set}
use agentic_application_fram.Saga.Executor.{
  StepResult, mandatory_compensation_failed, Finish, outcome, error, panic, Undo, Loop, done,
  stopped, find_step, undo_one, after_undo, rollback, after_rollback, compensate, run, is_partial,
  is_some,
}
use agentic_application_fram.Saga.Executor.Safety.{Known, run-Ends}

module _ {W : Type 0} (runner : SagaStep → W → StepResult × W)
    (compensator : SagaStep → W → Bool × W) where
  -- The step that is blamed has this number and a mandatory compensation, which failed.
  pub record Blamed (steps : List SagaStep) (n : ℕ) : Type 0 where
    pub step : SagaStep
    pub world : W
    pub found : find_step n steps ≡ some step
    pub compensated : is_some step.compensation ≡ true
    pub required : step.compensation_type ≡ mandatory
    pub fails : (compensator step world).0 ≡ false

  abbrev Explained : List SagaStep → Loop → Type 0
  Explained steps (stopped (mandatory_compensation_failed n)) = Blamed steps n
  Explained steps _ = Unit

  undo_one_stuck :
      (part : Bool) (keep : List ℕ) (steps : List SagaStep) (n : ℕ) (w : W) (s : SagaStep)
      → find_step n steps ≡ some s
      → (undo_one runner compensator part keep steps n w).0 ≡ Undo.stuck
      → (is_some s.compensation ≡ true)
        × (s.compensation_type ≡ mandatory)
        × ((compensator s w).0 ≡ false)
  unfolding undo_one
  undo_one_stuck part keep steps n w s e h = ground arith

  module _ (part : Bool) (keep : List ℕ) (steps : List SagaStep) where
    rollback-Explained :
        (ns compensated preserved : List ℕ) (w : W)
        → All (Known steps) ns
        → Explained steps (rollback runner compensator part keep steps ns compensated preserved w).0
    unfolding rollback
    rollback-Explained [] compensated preserved w k = tt
    rollback-Explained (n ∷ ns) compensated preserved w ((s, e), k) =
        by_undo (undo_one runner compensator part keep steps n w).0 refl
          (λ c p w'. rollback-Explained ns c p w' k)
      where
        by_undo :
            (u : Undo)
            → (undo_one runner compensator part keep steps n w).0 ≡ u
            → ((c p : List ℕ) (w' : W)
                → Explained steps (rollback runner compensator part keep steps ns c p w').0)
            → Explained steps
                (after_undo runner compensator
                  (rollback runner compensator part keep steps ns)
                  n
                  compensated
                  preserved
                  u
                  (undo_one runner compensator part keep steps n w).1).0
        by_undo Undo.kept h rest = rest compensated (preserved ++ n ∷ []) _
        by_undo Undo.undone h rest = rest (compensated ++ n ∷ []) preserved _
        by_undo Undo.let_go h rest = rest compensated preserved _
        by_undo Undo.lost h rest = tt
        by_undo Undo.stuck h rest =
            let (there, must, fails) = undo_one_stuck part keep steps n w s e h in
            record {
              step = s;
              world = w;
              found = e;
              compensated = there;
              required = must;
              fails = fails;
            }

  -- An error names a step whose mandatory compensation can fail.
  abbrev pub Justified : List SagaStep → Finish → SagaState → Type 0
  Justified steps (error (mandatory_compensation_failed n)) st = Blamed steps n
  Justified steps (outcome _) st = Unit
  Justified steps panic st = Unit

  after_rollback-Justified :
      (steps : List SagaStep) (n : ℕ) (a : RecoveryAction) (l : Loop) (st : SagaState)
      → Explained steps l
      → Justified steps (after_rollback runner compensator n a l).0 st
  unfolding after_rollback
  after_rollback-Justified steps n a (done c p) st h = tt
  after_rollback-Justified steps n a (stopped (mandatory_compensation_failed m)) st h = h
  after_rollback-Justified steps n a Loop.lost st h = tt

  compensate-Justified :
      (steps : List SagaStep) (s : SagaStep) (d : RecoveryDecision) (ns : List ℕ) (w : W)
      → All (Known steps) ns
      → Justified steps
          (compensate runner compensator steps s d ns w).0
          (compensate runner compensator steps s d ns w).1
  unfolding compensate
  compensate-Justified steps s d ns w h = after_rollback-Justified steps s.step (action_of d) _ _ (
      rollback-Explained (is_partial (action_of d)) (preserve_set d) steps (reverse ns) [] [] w
        (All-reverse (Known steps) ns h))

  -- Where a run fails with an error, the error carries the number of a step of the saga that has a
  -- mandatory compensation, and in some world that compensation fails.
  pub run-Justified :
      (def : SagaDefinition) (w : W)
      → Justified def.steps (run runner compensator def w).0 (run runner compensator def w).1
  run-Justified def w = run-Ends runner compensator (Justified def.steps) def w (record {
    all_done = λ ns. tt;
    paused = λ n. tt;
    gave_up = λ n. tt;
    rolled = λ s d ns w'. compensate-Justified def.steps s d ns w';
  })
