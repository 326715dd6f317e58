-- ===== src/Saga/Executor/Reverse.antt =====
-- A rollback of core/crates/aaf-saga/src/executor.rs whose compensators all succeed.
use mathlib.Core.List.{append-nil, append_assoc, map, map-append, reverse-cons}
use agentic_application_fram.Base.{
  ℕ, String, some, Bool, true, not, ◌&&◌, ◌≡◌, ◌⊎◌, inl, inr, refl, ap, ◌∙◌, List, [], ◌∷◌, ◌++◌,
  reverse, arith, ◌==◌, any, retain, if◌then◌else◌, All, All-reverse, Bool-cases,
}
use agentic_application_fram.Saga.Definition.{
  RecoveryAction, partial_compensation, full_compensation, SagaStep, SagaDefinition, SagaState,
  failed, running,
}
use agentic_application_fram.Saga.Recovery.{RecoveryDecision, decide, action_of, preserve_set}
use agentic_application_fram.Saga.Executor.{
  StepResult, ok, failed_with_tag, failed_at, Finish, outcome, Undo, done, find_step, undo_one,
  after_undo, rollback, after_rollback, compensate, recover, on_result, run_steps, run, is_partial,
  is_some,
}

abbrev pub numbers_of : List SagaStep → List ℕ
numbers_of = map (λ s. s.step)

-- Each of these steps is the first of its number in the saga.
abbrev pub Numbered : List SagaStep → List SagaStep → Type 0
Numbered steps = All (λ s. find_step s.step steps ≡ some s)

-- Partial compensation keeps the steps of the preserve set.
abbrev pub is_kept : RecoveryAction → List ℕ → SagaStep → Bool
is_kept a keep s = is_partial a && any (λ k. k == s.step) keep

abbrev pub is_dropped : RecoveryAction → List ℕ → SagaStep → Bool
is_dropped a keep s = not (is_kept a keep s)

-- The two actions that roll back.
abbrev pub Compensates : RecoveryAction → Type 0
Compensates a = (a ≡ full_compensation) ⊎ (a ≡ partial_compensation)

module _ {W : Type 0} (runner : SagaStep → W → StepResult × W)
    (compensator : SagaStep → W → Bool × W) (undo : SagaStep → W → W)
    (reliable : (s : SagaStep) (w : W) → compensator s w ≡ (true, undo s w)) where
  -- The undoings of these steps that have a compensation, one after the other.
  pub undo_all : List SagaStep → W → W
  undo_all [] w = w
  undo_all (s ∷ ss) w = undo_all ss (if is_some s.compensation then undo s w else w)

  undo_one_reliable :
      (a : RecoveryAction) (keep : List ℕ) (steps : List SagaStep) (s : SagaStep) (w : W)
      → find_step s.step steps ≡ some s
      → undo_one runner compensator (is_partial a) keep steps s.step w ≡ (
          if is_kept a keep s
          then (Undo.kept, w)
          else (Undo.undone, if is_some s.compensation then undo s w else w))
  unfolding undo_one
  undo_one_reliable a keep steps s w e = ground (arith, reliable s w)

  rollback_reliable :
      (a : RecoveryAction) (keep : List ℕ) (steps ss : List SagaStep) (c p : List ℕ) (w : W)
      → Numbered steps ss
      → rollback runner compensator (is_partial a) keep steps (numbers_of ss) c p w ≡ (
        done
            (c ++ numbers_of (retain (is_dropped a keep) ss))
            (p ++ numbers_of (retain (is_kept a keep) ss)),
        undo_all (retain (is_dropped a keep) ss) w,
      )
  unfolding rollback retain undo_all
  rollback_reliable a keep steps [] c p w h = simp append-nil
  rollback_reliable a keep steps (s ∷ ss) c p w h =
      ap
        (λ q.
          after_undo runner compensator
            (rollback runner compensator (is_partial a) keep steps (numbers_of ss)) s.step c p q.0
            q.1)
        (undo_one_reliable a keep steps s w h.0)
      ∙ elim (Bool-cases (is_kept a keep s)) [
        | inl e ↦
            rw e (rw append_assoc at (rollback_reliable a keep steps ss c (p ++ s.step ∷ []) w h.1))
        | inr e ↦ rw e (
            rw append_assoc at (
              rollback_reliable a keep steps ss (c ++ s.step ∷ []) p
                (if is_some s.compensation then undo s w else w) h.1))
      ]

  -- The runner completes these steps, from the one world to the other.
  unfoldable pub RunsOk : List SagaStep → W → W → Type 0
  RunsOk [] w w' = w ≡ w'
  RunsOk (s ∷ ss) w w' = (between : W) × (runner s w ≡ (ok, between)) × RunsOk ss between w'

  run_steps_ok :
      (steps before rest : List SagaStep) (ns : List ℕ) (st : SagaState) (w w' : W)
      → RunsOk before w w'
      → run_steps runner compensator steps (before ++ rest) ns st w
        ≡ run_steps runner compensator steps rest (ns ++ numbers_of before) st w'
  unfolding run_steps RunsOk
  run_steps_ok steps [] rest ns st w w' h = rw (append-nil, h)
  run_steps_ok steps (s ∷ before) rest ns st w w' (between, e, h) =
      ap
        (λ q.
          on_result runner compensator steps s (run_steps runner compensator steps (before ++ rest))
            ns st q.0 q.1)
        e
      ∙ (rw append_assoc at (run_steps_ok steps before rest (ns ++ s.step ∷ []) st between w' h))

  reverse-numbers_of : (ss : List SagaStep) → reverse (numbers_of ss) ≡ numbers_of (reverse ss)
  reverse-numbers_of [] = refl
  reverse-numbers_of (s ∷ ss) = simp (reverse-cons, map-append, reverse-numbers_of ss)

  rollback_reversed :
      (a : RecoveryAction) (keep : List ℕ) (steps before : List SagaStep) (w : W)
      → Numbered steps before
      → rollback runner compensator (is_partial a) keep steps (reverse (numbers_of before)) [] [] w
        ≡ (
          done
              (numbers_of (retain (is_dropped a keep) (reverse before)))
              (numbers_of (retain (is_kept a keep) (reverse before))),
          undo_all (retain (is_dropped a keep) (reverse before)) w,
        )
  rollback_reversed a keep steps before w h =
      ap (λ ns. rollback runner compensator (is_partial a) keep steps ns [] [] w)
        (reverse-numbers_of before)
      ∙ rollback_reliable a keep steps (reverse before) [] [] w
          (All-reverse (λ s. find_step s.step steps ≡ some s) before h)

  compensate_reliable :
      (steps before : List SagaStep) (s : SagaStep) (d : RecoveryDecision) (w : W)
      → Numbered steps before
      → let dropped = retain (is_dropped (action_of d) (preserve_set d)) (reverse before) in
        compensate runner compensator steps s d (numbers_of before) w ≡ (
          outcome (
              failed_at s.step
                (action_of d)
                (numbers_of dropped)
                (numbers_of (retain (is_kept (action_of d) (preserve_set d)) (reverse before)))),
          failed,
          undo_all dropped w,
        )
  unfolding compensate
  compensate_reliable steps before s d w h =
      ap
        (λ q. (
          (after_rollback runner compensator s.step (action_of d) q.0).0,
          (after_rollback runner compensator s.step (action_of d) q.0).1,
          q.1,
        ))
        (rollback_reversed (action_of d) (preserve_set d) steps before w h)

  recover_compensating :
      (steps before : List SagaStep) (s : SagaStep)
      (next : List ℕ → SagaState → W → Finish × SagaState × W) (d : RecoveryDecision)
      (a : RecoveryAction) (w : W)
      → Compensates a
      → recover runner compensator steps s next d a (numbers_of before) w
        ≡ compensate runner compensator steps s d (numbers_of before) w
  unfolding recover
  recover_compensating steps before s next d a w h = ground arith

  -- Where every compensator succeeds and no two steps share a number: if the runner completes the
  -- steps before s and then fails with a tag for which full or partial compensation is decided,
  -- the run ends Failed at s. It has undone the completed steps that are not kept, the last first,
  -- and lists their numbers in that order, and the numbers of the kept ones. Steps are kept only
  -- by partial compensation, where they are in the preserve set.
  pub rollback_is_reverse :
      (def : SagaDefinition) (before after : List SagaStep) (s : SagaStep) (tag : String)
      (w failing left : W)
      → def.steps ≡ before ++ s ∷ after
      → Numbered def.steps before
      → RunsOk before w failing
      → runner s failing ≡ (failed_with_tag tag, left)
      → Compensates (action_of (decide tag s.on_failure))
      → let d = decide tag s.on_failure in
        let dropped = retain (is_dropped (action_of d) (preserve_set d)) (reverse before) in
        run runner compensator def w ≡ (
          outcome (
              failed_at s.step
                (action_of d)
                (numbers_of dropped)
                (numbers_of (retain (is_kept (action_of d) (preserve_set d)) (reverse before)))),
          failed,
          undo_all dropped left,
        )
  unfolding run
  rollback_is_reverse def before after s tag w failing left parts numbered runs fails acts =
      ap (λ steps. run_steps runner compensator def.steps steps [] running w) parts
      ∙ run_steps_ok def.steps before (s ∷ after) [] running w failing runs
      ∙ ap
          (λ q.
            on_result runner compensator def.steps s (run_steps runner compensator def.steps after)
              (numbers_of before) running q.0 q.1)
          fails
      ∙ recover_compensating def.steps before s (run_steps runner compensator def.steps after)
          (decide tag s.on_failure) (action_of (decide tag s.on_failure)) left acts
      ∙ compensate_reliable def.steps before s (decide tag s.on_failure) left numbered
