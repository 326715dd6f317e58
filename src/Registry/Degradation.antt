-- ===== src/Registry/Degradation.antt =====
-- core/crates/aaf-registry/src/degradation.rs: the degradation level of one capability.
use agentic_application_fram.Base.{
  ℕ, ◌+◌, ◌-◌, min, Option, none, some, ◌≡◌, ◌⊎◌, List, [], ◌∷◌, arith, refl,
}
use agentic_application_fram.Contracts.Capability.{
  DegradationLevel, full, partial, cached, unavailable,
}

pub record DegradationTransition : Type 0 where
  pub from : DegradationLevel
  pub to : DegradationLevel

pub record DegradationStateMachine : Type 0 where
  pub current : DegradationLevel

unfoldable pub new : DegradationStateMachine
new = record { current = full }

-- The tail that both methods share: the write of the new level and its report.
move :
    DegradationLevel
    → DegradationStateMachine
    → DegradationStateMachine × Option DegradationTransition
move next m = (record m { current = next }, some (record { from = m.current; to = next }))

degrade_from :
    DegradationLevel
    → DegradationStateMachine
    → DegradationStateMachine × Option DegradationTransition
unfolding move
degrade_from full m = move partial m
degrade_from partial m = move cached m
degrade_from cached m = move unavailable m
degrade_from unavailable m = (m, none)

unfoldable pub degrade :
    DegradationStateMachine → DegradationStateMachine × Option DegradationTransition
unfolding degrade_from
degrade m = degrade_from m.current m

recover_from :
    DegradationLevel
    → DegradationStateMachine
    → DegradationStateMachine × Option DegradationTransition
unfolding move
recover_from full m = (m, none)
recover_from partial m = move full m
recover_from cached m = move partial m
recover_from unavailable m = move cached m

unfoldable pub recover :
    DegradationStateMachine → DegradationStateMachine × Option DegradationTransition
unfolding recover_from
recover m = recover_from m.current m

-- How far a level is from full service.
abbrev pub depth : DegradationLevel → ℕ
depth full = 0
depth partial = 1
depth cached = 2
depth unavailable = 3

-- The contract: a counter from 0 to 3 that saturates at both ends.
pub data Health : Type 0 where
  worse better : Health

pub run : List Health → DegradationStateMachine → DegradationStateMachine
run [] m = m
run (worse ∷ hs) m = run hs (degrade m).0
run (better ∷ hs) m = run hs (recover m).0

pub count : List Health → ℕ → ℕ
count [] n = n
count (worse ∷ hs) n = count hs (min 3 (n + 1))
count (better ∷ hs) n = count hs (n - 1)

depth-degrade :
    (m : DegradationStateMachine) → depth (degrade m).0.current ≡ min 3 (depth m.current + 1)
unfolding degrade
depth-degrade m = ground arith

depth-recover : (m : DegradationStateMachine) → depth (recover m).0.current ≡ depth m.current - 1
unfolding recover
depth-recover m = ground arith

-- Any sequence of failures and recoveries moves a capability as a counter from 0 (full) to 3
-- (unavailable) that stops at both ends.
pub run-refines-count :
    (hs : List Health) (m : DegradationStateMachine)
    → depth (run hs m).current ≡ count hs (depth m.current)
unfolding run count
run-refines-count [] m = refl
run-refines-count (worse ∷ hs) m = rw (← depth-degrade m) (run-refines-count hs (degrade m).0)
run-refines-count (better ∷ hs) m = rw (← depth-recover m) (run-refines-count hs (recover m).0)

-- A step down is undone by the next step up, whose report is the reverse of the first; a machine
-- that reports no step down is unavailable and unchanged.
pub recover-degrade :
    (m : DegradationStateMachine)
    → let (m', report) = degrade m in
      ((m.current ≡ unavailable) × (report ≡ none) × (m' ≡ m))
      ⊎ ((report ≡ some (record { from = m.current; to = m'.current }))
          × (recover m' ≡ (m, some (record { from = m'.current; to = m.current }))))
unfolding degrade recover
recover-degrade m = ground arith
