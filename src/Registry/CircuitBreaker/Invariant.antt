-- ===== src/Registry/CircuitBreaker/Invariant.antt =====
-- The well-formed breakers of core/crates/aaf-registry/src/circuit_breaker.rs, and the edges of
-- their state diagram.
use agentic_application_fram.Base.{
  ℕ, ◌+◌, ◌≤◌, ◌<◌, ◌≡◌, ◌⊎◌, String, Option, none, Bool, List, [], ◌∷◌, arith, ltb, length, retain,
  length-append, length-retain, u32_max,
}
use agentic_application_fram.Registry.CircuitBreaker.{
  BreakerState, BreakerConfig, BreakerLevel, BreakerInner, closed, open_state, half_open, new,
  prune, push_failure, after_push, record_failure, record_success, effective_state,
}

pub record IsValid (b : BreakerInner) : Type 0 where
  pub threshold_u32 : b.config.failure_threshold ≤ u32_max
  pub closed_below :
      b.state ≡ closed → (b.failures ≡ []) ⊎ (length b.failures < b.config.failure_threshold)
  pub opened : b.opened_at ≡ none → b.state ≡ closed
  pub unopened : b.state ≡ closed → b.opened_at ≡ none

pub new-IsValid :
    (l : BreakerLevel) (c : BreakerConfig) → c.failure_threshold ≤ u32_max → IsValid (new l c)
unfolding new
new-IsValid l c h = ground arith

below_after_retain :
    (p : ℕ → Bool) (xs : List ℕ) (n : ℕ)
    → (xs ≡ []) ⊎ (length xs < n)
    → (retain p xs ≡ []) ⊎ (length (retain p xs) < n)
below_after_retain p xs n h = ground (arith, length-retain p xs)

pub prune-IsValid : (now : ℕ) (b : BreakerInner) → IsValid b → IsValid (prune now b)
unfolding prune
prune-IsValid now b h = ground (
  arith,
  below_after_retain (λ (t : ℕ). ltb now (t + b.config.window)) b.failures
      b.config.failure_threshold,
)

after_push-IsValid :
    (now : ℕ) (reason : Option String) (b : BreakerInner)
    → IsValid b
    → IsValid (after_push now reason (push_failure now b)).0
unfolding after_push push_failure
after_push-IsValid now reason b h = ground (arith, length-append b.failures (now ∷ []))

pub record_failure-IsValid :
    (now : ℕ) (reason : Option String) (b : BreakerInner)
    → IsValid b
    → IsValid (record_failure now reason b).0
unfolding record_failure
record_failure-IsValid now reason b h =
    after_push-IsValid now reason (prune now b) (prune-IsValid now b h)

pub record_success-IsValid :
    (now : ℕ) (b : BreakerInner) → IsValid b → IsValid (record_success now b)
unfolding record_success
record_success-IsValid now b h = ground (arith, prune-IsValid now b)

pub effective_state-IsValid :
    (now : ℕ) (b : BreakerInner) → IsValid b → IsValid (effective_state now b).0
unfolding effective_state
effective_state-IsValid now b h = ground arith

-- The documented state diagram.
infix 40 ◌⟶◌
pub data ◌⟶◌ : BreakerState → BreakerState → Type 0 where
  trips : closed ⟶ open_state
  cools : open_state ⟶ half_open
  recovers : half_open ⟶ closed
  relapses : half_open ⟶ open_state

abbrev pub Moves : BreakerState → BreakerState → Type 0
Moves s t = (s ≡ t) ⊎ (s ⟶ t)

ruleset edges = (trips, cools, recovers, relapses)

module _ (now : ℕ) (reason : Option String) (b : BreakerInner) where
  failure-Moves : Moves b.state (record_failure now reason b).0.state
  unfolding record_failure
  failure-Moves = grind (arith, edges)

  success-Moves : Moves b.state (record_success now b).state
  unfolding record_success
  success-Moves = grind (arith, edges)

  resolving-Moves : Moves b.state (effective_state now b).0.state
  unfolding effective_state
  resolving-Moves = grind (arith, edges)

-- Every automatic operation leaves the state of a breaker or moves it along an edge of the
-- documented diagram: closed to open, open to half-open, half-open to closed or to open.
pub automatic-Moves :
    (now : ℕ) (reason : Option String) (b : BreakerInner)
    → Moves b.state (record_failure now reason b).0.state
      × Moves b.state (record_success now b).state
      × Moves b.state (effective_state now b).0.state
automatic-Moves now reason b =
    (failure-Moves now reason b, success-Moves now reason b, resolving-Moves now reason b)
