-- ===== src/Trust/Score.antt =====
-- core/crates/aaf-trust/src/score.rs: the events of an agent and their counts.
use agentic_application_fram.Base.{ℕ, ◌+◌, ◌%◌, ◌^◌, Option, none, some, ◌==◌, if◌then◌else◌}
use agentic_application_fram.Float.{Float, zero_float}

pub data ScoreEvent : Type 0 where
  success human_override policy_violation accuracy_regression : ScoreEvent

pub record ScoreHistory : Type 0 where
  pub total : ℕ  -- u64
  pub success : ℕ  -- u64
  pub human_override : ℕ  -- u64
  pub policy_violations : ℕ  -- u64
  pub last_updated : Option ℕ

abbrev pub default_history : ScoreHistory
default_history = record {
  total = 0;
  success = 0;
  human_override = 0;
  policy_violations = 0;
  last_updated = none;
}

-- `n += 1` on a `u64`.
abbrev pub bump : ℕ → ℕ
bump n = (n + 1) % 2 ^ 64

count_event : ScoreEvent → ScoreHistory → ScoreHistory
count_event ScoreEvent.success h = record h { success = bump h.success }
count_event ScoreEvent.human_override h = record h { human_override = bump h.human_override }
count_event ScoreEvent.policy_violation h = record h {
  policy_violations = bump h.policy_violations;
}
count_event ScoreEvent.accuracy_regression h = h

-- The state that `ScoreHistory::observe` leaves; the delta that it returns is `delta`.
unfoldable pub observe : ℕ → ScoreEvent → ScoreHistory → ScoreHistory
unfolding count_event
observe now event h = record (count_event event (record h { total = bump h.total })) {
  last_updated = some now;
}

module _ (F : Float) where
  unfoldable pub delta : ScoreEvent → F.Carrier
  delta ScoreEvent.success = F.ratio 5 1000
  delta ScoreEvent.human_override = F.neg (F.ratio 2 100)
  delta ScoreEvent.policy_violation = F.neg (F.ratio 30 100)
  delta ScoreEvent.accuracy_regression = F.neg (F.ratio 5 100)

  unfoldable pub override_rate : ScoreHistory → F.Carrier
  override_rate h =
      if h.total == 0
      then zero_float F
      else F.div (F.from_u64 h.human_override) (F.from_u64 h.total)
