-- ===== src/Tests/Samples.antt =====
-- Data for the tests: a model of f64 by thousandths around an offset, an intent and a budget.
use agentic_application_fram.Base.{ℕ, ◌+◌, ◌-◌, ◌*◌, ◌/◌, some, true, false, [], ◌∷◌, ltb, leb}
use agentic_application_fram.Float.{Float}
use agentic_application_fram.Contracts.Intent.{
  BudgetContract, IntentEnvelope, Requester, transactional_intent, RiskTier,
}

-- The number n stands for (n - 1000000) / 1000.
abbrev pub thousandths : Float
thousandths = record {
  Carrier = ℕ;
  ratio = λ a b. 1000000 + a * 1000 / b;
  neg = λ a. 2000000 - a;
  add = λ a b. a + b - 1000000;
  sub = λ a b. a + 1000000 - b;
  mul = λ a b. 1000000 + (a - 1000000) * (b - 1000000) / 1000;
  div = λ a b. 1000000 + (a - 1000000) * 1000 / (b - 1000000);
  lt = ltb;
  le = leb;
  is_nan = λ a. false;
  is_finite = λ a. true;
  Single = ℕ;
  single_ratio = λ a b. 1000000 + a * 1000 / b;
  single_lt = ltb;
  from_u64 = λ n. 1000000 + n * 1000;
}

abbrev pub sample_budget : BudgetContract thousandths
sample_budget = record { max_tokens = 1000; max_cost_usd = 1005000; max_latency_ms = 60000 }

abbrev pub alice : Requester
alice = record {
  user_id = "alice";
  role = "clerk";
  scopes = "orders:read" ∷ [];
  tenant = some "acme";
}

abbrev pub sample_intent : IntentEnvelope thousandths
sample_intent = record {
  intent_id = "int-1";
  intent_type = transactional_intent;
  requester = alice;
  goal = "refund order 17";
  domain = "orders";
  budget = sample_budget;
  risk_tier = RiskTier.write;
  trace_id = "tr-1";
  depth = 1;
  created_at = 1000;
}
