-- ===== src/Runtime/Budget.antt =====
-- core/crates/aaf-runtime/src/budget.rs: the budget of one intent.
pub mod Exhaustion
use agentic_application_fram.Base.{ℕ, ◌-◌, Option, none, some, ltb, saturating_add, if◌then◌else◌}
use agentic_application_fram.Float.{Float, zero_float, max_float}
use agentic_application_fram.Contracts.Intent.{BudgetContract}

module _ (F : Float) where
  -- Each error carries the original budget.
  pub data BudgetTrackerError : Type 0 where
    tokens : ℕ → BudgetTrackerError
    cost : F.Carrier → BudgetTrackerError
    time : ℕ → BudgetTrackerError

  pub record BudgetState : Type 0 where
    pub initial : BudgetContract F
    pub used_tokens : ℕ  -- u64
    pub used_cost : F.Carrier
    pub used_ms : ℕ  -- u64

  unfoldable pub new : BudgetContract F → BudgetState
  new budget = record { initial = budget; used_tokens = 0; used_cost = zero_float F; used_ms = 0 }

  -- The three additions of `charge`.
  unfoldable pub consume : ℕ → F.Carrier → ℕ → BudgetState → BudgetState
  consume spent_tokens cost_usd elapsed_ms s = record s {
    used_tokens = saturating_add s.used_tokens spent_tokens;
    used_cost = F.add s.used_cost cost_usd;
    used_ms = saturating_add s.used_ms elapsed_ms;
  }

  -- The three tests of `charge`.
  unfoldable pub exhausted : BudgetState → Option BudgetTrackerError
  exhausted s =
      if ltb s.initial.max_tokens s.used_tokens
      then some (tokens s.initial.max_tokens)
      else if F.lt s.initial.max_cost_usd s.used_cost
      then some (cost s.initial.max_cost_usd)
      else if ltb s.initial.max_latency_ms s.used_ms
      then some (time s.initial.max_latency_ms)
      else none

  -- `none` is `Ok(())`. What is over the budget stays charged.
  unfoldable pub charge : ℕ → F.Carrier → ℕ → BudgetState → BudgetState × Option BudgetTrackerError
  unfolding consume exhausted
  charge spent_tokens cost_usd elapsed_ms s =
      let s' = consume spent_tokens cost_usd elapsed_ms s in (s', exhausted s')

  unfoldable pub remaining : BudgetState → BudgetContract F
  remaining s = record {
    max_tokens = s.initial.max_tokens - s.used_tokens;
    max_cost_usd = max_float F (F.sub s.initial.max_cost_usd s.used_cost) (zero_float F);
    max_latency_ms = s.initial.max_latency_ms - s.used_ms;
  }
