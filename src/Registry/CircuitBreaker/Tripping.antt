-- ===== src/Registry/CircuitBreaker/Tripping.antt =====
-- The failures and probes of one breaker of core/crates/aaf-registry/src/circuit_breaker.rs.
use agentic_application_fram.Base.{
  ℕ, suc, ◌+◌, ◌≤◌, ◌<◌, ◌≡◌, refl, String, Option, none, some, Bool, true, false, List, [], ◌∷◌,
  ◌++◌, ap, ◌∙◌, Bool-cases, inl, inr, arith, ltb, leb, if◌then◌else◌, length, All, All-append,
  retain-All, length-append, u32_max,
}
use agentic_application_fram.Registry.CircuitBreaker.{
  BreakerConfig, BreakerLevel, BreakerInner, closed, open_state, half_open, new, prune,
  push_failure, after_push, record_failure, record_success, effective_state,
}

-- A run of failures, each at its own time.
unfoldable pub record_failures : Option String → List ℕ → BreakerInner → BreakerInner
record_failures reason [] b = b
record_failures reason (t ∷ ts) b = record_failures reason ts (record_failure t reason b).0

abbrev pub InWindow : ℕ → ℕ → ℕ → Type 0
InWindow lo window t = (lo ≤ t) × (t < lo + window)

kept-InWindow :
    (lo window now : ℕ) (ts : List ℕ)
    → now < lo + window
    → All (InWindow lo window) ts
    → All (λ t. ltb now (t + window) ≡ true) ts
kept-InWindow lo window now [] h k = tt
kept-InWindow lo window now (t ∷ ts) h k = (ground arith, kept-InWindow lo window now ts h k.1)

prune_window :
    (lo now : ℕ) (b : BreakerInner)
    → now < lo + b.config.window
    → All (InWindow lo b.config.window) b.failures
    → prune now b ≡ b
unfolding prune
prune_window lo now b h k = rw (
    retain-All (λ t. ltb now (t + b.config.window)) b.failures
      (kept-InWindow lo b.config.window now b.failures h k))

stays_open :
    (reason : Option String) (ts : List ℕ) (b : BreakerInner)
    → b.state ≡ open_state
    → (record_failures reason ts b).state ≡ open_state
unfolding record_failures
stays_open reason [] b h = h
stays_open reason (t ∷ ts) b h =
    stays_open reason ts (record_failure t reason b).0 (unfold record_failure in ground arith)

module _ (reason : Option String) (lo now : ℕ) (b : BreakerInner) (shut : b.state ≡ closed)
    (inside : All (InWindow lo b.config.window) b.failures)
    (below : length b.failures < b.config.failure_threshold)
    (fits : b.config.failure_threshold ≤ u32_max) (here : InWindow lo b.config.window now) where
  kept : prune now b ≡ b
  kept = prune_window lo now b here.1 inside

  counted : length (b.failures ++ now ∷ []) ≡ suc (length b.failures)
  counted = omega (arith, length-append b.failures (now ∷ []))

  -- What a failure does to a closed breaker: it is counted, and trips it at the threshold.
  counting : BreakerInner × Bool
  counting =
      if leb b.config.failure_threshold (suc (length b.failures))
      then (
        record b {
          state = open_state;
          failures = b.failures ++ now ∷ [];
          opened_at = some now;
          reason = reason;
        },
        true,
      )
      else (record b { failures = b.failures ++ now ∷ [] }, false)

  after_push-closed : after_push now reason (push_failure now b) ≡ counting
  unfolding after_push push_failure counting
  after_push-closed = ground (arith, counted)

  record_failure-closed : record_failure now reason b ≡ counting
  unfolding record_failure
  record_failure-closed =
      ap (λ p. after_push now reason (push_failure now p)) kept ∙ after_push-closed

module _ (reason : Option String) (lo : ℕ) where
  record_failures-closed :
      (ts : List ℕ) (b : BreakerInner)
      → b.state ≡ closed
      → All (InWindow lo b.config.window) b.failures
      → length b.failures < b.config.failure_threshold
      → b.config.failure_threshold ≤ u32_max
      → All (InWindow lo b.config.window) ts
      → (record_failures reason ts b).state ≡ (
          if leb b.config.failure_threshold (length b.failures + length ts)
          then open_state
          else closed)
  unfolding record_failures counting
  record_failures-closed [] b shut inside below fits all = ground arith
  record_failures-closed (t ∷ ts) b shut inside below fits all =
      ap (λ p. (record_failures reason ts p.0).state)
        (record_failure-closed reason lo t b shut inside below fits all.0)
      ∙ (elim (Bool-cases (leb b.config.failure_threshold (suc (length b.failures)))) [
        | inl full ↦ rw full (
            ground (
              arith,
              stays_open reason ts (record b {
                state = open_state;
                failures = b.failures ++ t ∷ [];
                opened_at = some t;
                reason = reason;
              }),
            ))
        | inr room ↦ rw room (
            ground (
              arith,
              length-append b.failures (t ∷ []),
              record_failures-closed ts (record b { failures = b.failures ++ t ∷ [] }) shut
                  (All-append (InWindow lo b.config.window) b.failures (t ∷ []) inside (all.0, tt))
                  (ground (arith, length-append b.failures (t ∷ []))) fits all.1,
            ))
      ])

-- A new breaker whose failures all fall inside one window is open after them exactly when there
-- were at least as many as its threshold, and closed otherwise, for a threshold from 1 to the
-- largest u32.
pub trips_at_threshold :
    (reason : Option String) (lo : ℕ) (ts : List ℕ) (l : BreakerLevel) (c : BreakerConfig)
    → 0 < c.failure_threshold
    → c.failure_threshold ≤ u32_max
    → All (InWindow lo c.window) ts
    → (record_failures reason ts (new l c)).state
      ≡ (if leb c.failure_threshold (length ts) then open_state else closed)
trips_at_threshold reason lo ts l c positive fits all =
    unfold new in
    ground (arith, record_failures-closed reason lo ts (new l c) refl tt positive fits all)

-- Once the cooldown of an open breaker has passed, it lets a probe through half-open. A failed
-- probe opens it again from the moment of the failure and is reported as a trip; a successful one
-- closes it with no failures, no opening time and no reason.
pub probe_decides :
    (b : BreakerInner) (opened now later : ℕ) (why : Option String)
    → b.state ≡ open_state
    → b.opened_at ≡ some opened
    → opened + b.config.cooldown ≤ now
    → let (b', answer) = effective_state now b in
      (answer ≡ half_open)
      × ((record_failure later why b').1 ≡ true)
      × ((record_failure later why b').0.state ≡ open_state)
      × ((record_failure later why b').0.opened_at ≡ some later)
      × (record_success later b'
          ≡ record b { state = closed; failures = []; opened_at = none; reason = none })
unfolding effective_state record_failure record_success
probe_decides b opened now later why st at cool = ground arith
