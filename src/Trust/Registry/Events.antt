-- ===== src/Trust/Registry/Events.antt =====
-- Sequences of observed events of core/crates/aaf-trust/src/registry.rs and score.rs.
use mathlib.Core.Path.{subst}
use agentic_application_fram.Base.{
  inl, inr, sym, Bool-cases, ℕ, suc, ◌+◌, ◌^◌, ◌<◌, ◌≤◌, ◌≡◌, Bool, true, false, String, some, List,
  [], ◌∷◌, arith, length, str_eq, eq_iff, eq_refl, if◌then◌else◌, lookup, lookup-insert,
}
use agentic_application_fram.Float.{Float}
use agentic_application_fram.Contracts.Trust.{level1}
use agentic_application_fram.Trust.Score
use agentic_application_fram.Trust.Score.{
  ScoreEvent, ScoreHistory, default_history, policy_violation,
}
use agentic_application_fram.Trust.Autonomy.{AutonomyPolicy}
use agentic_application_fram.Trust.Promotion.{PromotionRules, evaluate}
use agentic_application_fram.Trust.Registry.{
  TrustRecord, TrustRegistry, get, observe, observe_record, entry,
}

-- An observed event, with its time.
abbrev pub Observed : Type 0
Observed = ℕ × ScoreEvent

pub observe_events : List Observed → ScoreHistory → ScoreHistory
observe_events [] h = h
observe_events ((now, e) ∷ es) h = observe_events es (Score.observe now e h)

abbrev pub is_success : ScoreEvent → Bool
is_success ScoreEvent.success = true
is_success _ = false

abbrev pub is_override : ScoreEvent → Bool
is_override ScoreEvent.human_override = true
is_override _ = false

abbrev pub is_violation : ScoreEvent → Bool
is_violation ScoreEvent.policy_violation = true
is_violation _ = false

-- How many of the events are of a kind.
abbrev pub count : (ScoreEvent → Bool) → List Observed → ℕ
count p [] = 0
count p ((now, e) ∷ es) = let rest = count p es in if p e then suc rest else rest

-- Each event is counted once at most.
abbrev Accounted : ScoreHistory → Type 0
Accounted h = h.success + h.human_override + h.policy_violations ≤ h.total

observe_lem :
    (now : ℕ) (e : ScoreEvent) (h : ScoreHistory)
    → Accounted h
    → h.total + 1 < 2 ^ 64
    → Accounted (Score.observe now e h)
      × ((Score.observe now e h).total ≡ h.total + 1)
      × ((Score.observe now e h).success ≡ h.success + (if is_success e then 1 else 0))
      × ((Score.observe now e h).human_override
          ≡ h.human_override + (if is_override e then 1 else 0))
      × ((Score.observe now e h).policy_violations
          ≡ h.policy_violations + (if is_violation e then 1 else 0))
unfolding Score.observe
observe_lem now e h a b = ground arith

observe_events_lem :
    (es : List Observed) (h : ScoreHistory)
    → Accounted h
    → h.total + length es < 2 ^ 64
    → let h' = observe_events es h in
      (h'.total ≡ h.total + length es)
      × (h'.success ≡ h.success + count is_success es)
      × (h'.human_override ≡ h.human_override + count is_override es)
      × (h'.policy_violations ≡ h.policy_violations + count is_violation es)
unfolding observe_events
observe_events_lem [] h a b = ground arith
observe_events_lem ((now, e) ∷ es) h a b =
    ground
      (arith, observe_lem now e h a (omega arith), observe_events_lem es (Score.observe now e h))

-- After fewer than 2 to the 64 events on an empty history, the total is their number, and the
-- successes, overrides and violations are the numbers of the events of each kind.
pub history_counts :
    (es : List Observed)
    → length es < 2 ^ 64
    → let h = observe_events es default_history in
      (h.total ≡ length es)
      × (h.success ≡ count is_success es)
      × (h.human_override ≡ count is_override es)
      × (h.policy_violations ≡ count is_violation es)
history_counts es b =
    ground (arith, observe_events_lem es default_history (omega arith) (omega arith))

-- An event of an agent, with its time.
abbrev pub AgentEvent : Type 0
AgentEvent = ℕ × String × ScoreEvent

module _ (F : Float) where
  unfoldable pub observe_all : List AgentEvent → TrustRegistry F → TrustRegistry F
  observe_all [] r = r
  observe_all ((now, agent, e) ∷ es) r = observe_all es (observe F now agent e r).0

  lookup-observe :
      (now : ℕ) (agent other : String) (e : ScoreEvent) (r : TrustRegistry F)
      → lookup other (observe F now agent e r).0.inner ≡ (
          if str_eq agent other
          then some (observe_record F r.policy r.rules now e (entry F agent r)).0
          else lookup other r.inner)
  unfolding observe
  lookup-observe now agent other e r = rw lookup-insert

  -- The events of one agent change the trust of no other.
  pub observe-isolated :
      (now : ℕ) (agent other : String) (e : ScoreEvent) (r : TrustRegistry F)
      → str_eq agent other ≡ false
      → get F other (observe F now agent e r).0 ≡ get F other r
  unfolding get
  observe-isolated now agent other e r h = ground (arith, lookup-observe now agent other e r)

  pub entry-observe :
      (now : ℕ) (agent other : String) (e : ScoreEvent) (r : TrustRegistry F)
      → entry F other (observe F now agent e r).0 ≡ (
          if str_eq agent other
          then (observe_record F r.policy r.rules now e (entry F agent r)).0
          else entry F other r)
  unfolding entry
  entry-observe now agent other e r = ground (arith, lookup-observe now agent other e r)

  pub get-entry : (agent : String) (r : TrustRegistry F) → get F agent r ≡ (entry F agent r).score
  unfolding get entry
  get-entry agent r = ground arith

  -- The agent has a violation on record and stands at the floor; `n` more events cannot wrap the
  -- count of its violations.
  record Floored (n : ℕ) (t : TrustRecord F) : Type 0 where
    violated : 0 < t.history.policy_violations
    room : t.history.policy_violations + n < 2 ^ 64
    floored : t.score.autonomy ≡ level1

  module _ (policy : AutonomyPolicy F) (rules : PromotionRules F) (now : ℕ)
      (t : TrustRecord F) where
    violation-Floored :
        (n : ℕ)
        → t.history.policy_violations + suc n < 2 ^ 64
        → Floored n (observe_record F policy rules now policy_violation t).0
    unfolding observe_record Score.observe evaluate
    violation-Floored n h = ground arith

    stays-Floored :
        (e : ScoreEvent) (n : ℕ)
        → Floored (suc n) t
        → Floored n (observe_record F policy rules now e t).0
    unfolding observe_record Score.observe evaluate
    stays-Floored e n h = ground arith

  observe-Floored :
      (now : ℕ) (agent other : String) (e : ScoreEvent) (n : ℕ) (r : TrustRegistry F)
      → Floored (suc n) (entry F other r)
      → Floored n (entry F other (observe F now agent e r).0)
  observe-Floored now agent other e n r h = elim (Bool-cases (str_eq agent other)) [
    | inl same ↦
        rw (entry-observe now agent other e r, same)
          (stays-Floored r.policy r.rules now (entry F agent r) e n
            (subst (λ a. Floored (suc n) (entry F a r)) (sym ((eq_iff agent other).0 same)) h))
    | inr apart ↦ rw (entry-observe now agent other e r, apart) (ground arith)
  ]

  observe_all-Floored :
      (es : List AgentEvent) (agent : String) (r : TrustRegistry F)
      → Floored (length es) (entry F agent r)
      → (get F agent (observe_all es r)).autonomy ≡ level1
  unfolding observe_all
  observe_all-Floored [] agent r h = rw get-entry h.floored
  observe_all-Floored ((now, other, e) ∷ es) agent r h =
      observe_all-Floored es agent (observe F now other e r).0
        (observe-Floored now other agent e (length es) r h)

  -- After a policy violation of an agent, and whatever events of any agents follow, the agent stays
  -- at Level1, while the count of its violations cannot wrap.
  pub violation_is_final :
      (now : ℕ) (agent : String) (es : List AgentEvent) (r : TrustRegistry F)
      → (entry F agent r).history.policy_violations + suc (length es) < 2 ^ 64
      → (get F agent (observe_all es (observe F now agent policy_violation r).0)).autonomy ≡ level1
  violation_is_final now agent es r h =
      observe_all-Floored es agent (observe F now agent policy_violation r).0 (
        rw (entry-observe now agent agent policy_violation r, eq_refl agent)
          (violation-Floored r.policy r.rules now (entry F agent r) (length es) h))
