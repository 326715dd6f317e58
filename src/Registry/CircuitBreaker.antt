-- ===== src/Registry/CircuitBreaker.antt =====
-- core/crates/aaf-registry/src/circuit_breaker.rs. A timestamp is a number of milliseconds, and
-- the clock that a method reads is an argument. Durations are not negative, so `t > now - window`
-- is written `now < t + window`, and `now - opened >= cooldown` is `opened + cooldown ≤ now`.
pub mod Invariant
pub mod Tripping
use agentic_application_fram.Base.{
  ℕ, ◌+◌, ◌%◌, ◌^◌, String, Option, none, some, Bool, true, false, ◌&&◌, List, [], ◌∷◌, ◌++◌, ltb,
  leb, if◌then◌else◌, length, retain,
}

pub data BreakerState : Type 0 where
  closed open_state half_open : BreakerState

pub data BreakerLevel : Type 0 where
  service capability agent flow system : BreakerLevel

pub record BreakerConfig : Type 0 where
  pub failure_threshold : ℕ  -- u32
  pub window : ℕ
  pub cooldown : ℕ

abbrev pub default_config : BreakerConfig
default_config = record { failure_threshold = 5; window = 60000; cooldown = 30000 }

pub record BreakerInner : Type 0 where
  pub state : BreakerState
  pub level : BreakerLevel
  pub config : BreakerConfig
  pub failures : List ℕ
  pub opened_at : Option ℕ
  pub reason : Option String

unfoldable pub new : BreakerLevel → BreakerConfig → BreakerInner
new level config = record {
  state = closed;
  level = level;
  config = config;
  failures = [];
  opened_at = none;
  reason = none;
}

unfoldable pub prune : ℕ → BreakerInner → BreakerInner
prune now b = record b { failures = retain (λ t. ltb now (t + b.config.window)) b.failures }

abbrev pub is_half_open : BreakerState → Bool
is_half_open half_open = true
is_half_open _ = false

abbrev pub is_closed : BreakerState → Bool
is_closed closed = true
is_closed _ = false

abbrev pub is_open : BreakerState → Bool
is_open open_state = true
is_open _ = false

trip : ℕ → Option String → BreakerInner → BreakerInner × Bool
trip now reason b = (record b { state = open_state; opened_at = some now; reason = reason }, true)

push_failure : ℕ → BreakerInner → BreakerInner
push_failure now b = record b { failures = b.failures ++ now ∷ [] }

-- The tests after the failure is pushed.
after_push : ℕ → Option String → BreakerInner → BreakerInner × Bool
unfolding trip
after_push now reason b =
    if is_half_open b.state
    then trip now reason b
    else if leb b.config.failure_threshold (length b.failures % 2 ^ 32) && is_closed b.state
    then trip now reason b
    else (b, false)

unfoldable pub record_failure : ℕ → Option String → BreakerInner → BreakerInner × Bool
unfolding prune push_failure after_push
record_failure now reason b = after_push now reason (push_failure now (prune now b))

unfoldable pub record_success : ℕ → BreakerInner → BreakerInner
unfolding prune
record_success now b =
    let p = prune now b in
    if is_half_open p.state
    then record p { state = closed; failures = []; opened_at = none; reason = none }
    else p

cooled : Option ℕ → ℕ → ℕ → Bool
cooled none cooldown now = false
cooled (some opened) cooldown now = leb (opened + cooldown) now

unfoldable pub effective_state : ℕ → BreakerInner → BreakerInner × BreakerState
unfolding cooled
effective_state now b =
    let b' =
      (if is_open b.state && cooled b.opened_at b.config.cooldown now
        then record b { state = half_open }
        else b) in
    (b', b'.state)

pub record BreakerSnapshot : Type 0 where
  pub key : String
  pub level : BreakerLevel
  pub state : BreakerState
  pub failure_count : ℕ
  pub reason : Option String

-- The closure that `snapshot` and `all_snapshots` share.
unfoldable pub snapshot_of : ℕ → String → BreakerInner → BreakerSnapshot
unfolding effective_state
snapshot_of now key b =
    let b' = (effective_state now b).0 in
    record {
      key = key;
      level = b'.level;
      state = b'.state;
      failure_count = length b'.failures % 2 ^ 32;
      reason = b'.reason;
    }
