-- ===== src/Registry/Breakers.antt =====
-- `CircuitBreakerRegistry` of core/crates/aaf-registry/src/circuit_breaker.rs: breakers by key. The
-- proofs are in the child module.
pub mod Isolation
use agentic_application_fram.Base.{
  ℕ, String, Option, none, some, Bool, true, false, not, List, [], ◌∷◌, Assoc, lookup, insert,
  adjust,
}
use agentic_application_fram.Registry.CircuitBreaker
use agentic_application_fram.Registry.CircuitBreaker.{
  BreakerLevel, BreakerConfig, BreakerInner, BreakerSnapshot, closed, open_state, is_open, new,
  effective_state, snapshot_of,
}

abbrev pub Breakers : Type 0
Breakers = Assoc BreakerInner

-- `entry(key).or_insert_with(..)`
unfoldable pub register : String → BreakerLevel → BreakerConfig → Breakers → Breakers
register key level config r = elim (lookup key r) [
  | none ↦ insert key (new level config) r
  | some _ ↦ r
]

unfoldable pub record_failure : ℕ → String → Option String → Breakers → Breakers × Bool
record_failure now key reason r = (
  adjust key (λ b. (CircuitBreaker.record_failure now reason b).0) r,
  elim (lookup key r) [ none ↦ false | some b ↦ (CircuitBreaker.record_failure now reason b).1 ],
)

unfoldable pub record_success : ℕ → String → Breakers → Breakers
record_success now key r = adjust key (CircuitBreaker.record_success now) r

-- The state that `effective_state` resolves is written back.
resolve : ℕ → BreakerInner → BreakerInner
resolve now b = (effective_state now b).0

unfoldable pub allows : ℕ → String → Breakers → Breakers × Bool
unfolding resolve
allows now key r = (
  adjust key (resolve now) r,
  elim (lookup key r) [ none ↦ true | some b ↦ not (is_open (effective_state now b).1) ],
)

unfoldable pub snapshot : ℕ → String → Breakers → Breakers × Option BreakerSnapshot
unfolding resolve
snapshot now key r = (
  adjust key (resolve now) r,
  elim (lookup key r) [ none ↦ none | some b ↦ some (snapshot_of now key b) ],
)

unfoldable pub all_snapshots : ℕ → Breakers → Breakers × List BreakerSnapshot
unfolding resolve
all_snapshots now [] = ([], [])
all_snapshots now ((key, b) ∷ r) =
    let (r', shots) = all_snapshots now r in
    ((key, resolve now b) ∷ r', snapshot_of now key b ∷ shots)

force_open_one : ℕ → String → BreakerInner → BreakerInner
force_open_one now reason b = record b {
  state = open_state;
  opened_at = some now;
  reason = some reason;
}

unfoldable pub force_open : ℕ → String → String → Breakers → Breakers
unfolding force_open_one
force_open now key reason r = adjust key (force_open_one now reason) r

force_close_one : BreakerInner → BreakerInner
force_close_one b = record b { state = closed; failures = []; opened_at = none; reason = none }

unfoldable pub force_close : String → Breakers → Breakers
unfolding force_close_one
force_close key r = adjust key force_close_one r
