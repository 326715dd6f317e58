-- ===== src/Llm.antt =====
-- core/crates/aaf-llm/src/router.rs, pricing.rs and budget.rs: the choice of a provider for an intent,
-- the cost of a call, and the budget around a provider. A provider is a trait object: a function
-- of the request and a world that it changes. A request is a type of the caller.
pub mod Spending
use agentic_application_fram.Base.{
  ℕ, ◌+◌, ◌-◌, ◌==◌, String, Option, none, some, Bool, true, false, ◌&&◌, ◌||◌, List, [], ◌∷◌,
  Assoc, if◌then◌else◌, str_eq, find, starts_with,
}
use agentic_application_fram.Float.{Float, zero_float, max_float}
use agentic_application_fram.Contracts.Intent.{IntentEnvelope, BudgetContract, RiskTier}
use agentic_application_fram.Planner.FastPath.{debug_name}

pub data RoutingTier : Type 0 where
  high standard low : RoutingTier

-- The derived equality.
abbrev pub tier_eq : RoutingTier → RoutingTier → Bool
tier_eq high high = true
tier_eq standard standard = true
tier_eq low low = true
tier_eq _ _ = false

-- `format!("{:?}", risk_tier)`
abbrev pub risk_name : RiskTier → String
risk_name RiskTier.read = "Read"
risk_name RiskTier.write = "Write"
risk_name RiskTier.advisory = "Advisory"
risk_name RiskTier.delegation = "Delegation"
risk_name RiskTier.governance = "Governance"

-- `DefaultRoutingPolicy::choose`, of the risk tier of the intent.
abbrev pub default_tier : RiskTier → RoutingTier
default_tier RiskTier.governance = high
default_tier RiskTier.write = standard
default_tier RiskTier.delegation = standard
default_tier RiskTier.read = low
default_tier RiskTier.advisory = low

-- The overrides of `LearnedRoutingPolicy`, by the names of the intent type and the risk tier.
abbrev pub Overrides : Type 0
Overrides = List ((String × String) × RoutingTier)

unfoldable pub get_override : String → String → Overrides → Option RoutingTier
get_override intent_type risk_tier [] = none
get_override intent_type risk_tier (((i, r), tier) ∷ rest) =
    if str_eq i intent_type && str_eq r risk_tier
    then some tier
    else get_override intent_type risk_tier rest

-- `LearnedRoutingPolicy::set`
unfoldable pub set_override : String → String → RoutingTier → Overrides → Overrides
set_override intent_type risk_tier tier [] = ((intent_type, risk_tier), tier) ∷ []
set_override intent_type risk_tier tier (((i, r), old) ∷ rest) =
    if str_eq i intent_type && str_eq r risk_tier
    then ((intent_type, risk_tier), tier) ∷ rest
    else ((i, r), old) ∷ set_override intent_type risk_tier tier rest

abbrev pub or_tier : Option RoutingTier → RoutingTier → RoutingTier
or_tier none tier = tier
or_tier (some t) tier = t

module _ (F : Float) where
  unfoldable pub choose_learned : Overrides → IntentEnvelope F → RoutingTier
  unfolding get_override
  choose_learned overrides i =
      or_tier (get_override (debug_name i.intent_type) (risk_name i.risk_tier) overrides)
        (default_tier i.risk_tier)

  pub record ModelPricing : Type 0 where
    pub model_prefix : String
    pub input_per_mtok : F.Carrier
    pub output_per_mtok : F.Carrier

  abbrev pub cost_of : Option ModelPricing → ℕ → ℕ → F.Carrier
  cost_of none input_tokens output_tokens = zero_float F
  cost_of (some p) input_tokens output_tokens =
      F.div
        (F.add (F.mul (F.from_u64 input_tokens) p.input_per_mtok)
          (F.mul (F.from_u64 output_tokens) p.output_per_mtok))
        (F.ratio 1000000 1)

  unfoldable pub calculate_cost : List ModelPricing → String → ℕ → ℕ → F.Carrier
  calculate_cost pricing_table model input_tokens output_tokens =
      cost_of (find (λ p. starts_with p.model_prefix model) pricing_table) input_tokens
        output_tokens

  -- The stop reason and the tool call are left out.
  pub record ChatResponse : Type 0 where
    pub content : String
    pub tokens_in : ℕ  -- u32
    pub tokens_out : ℕ  -- u32
    pub cost_usd : F.Carrier
    pub model : String

pub data LlmError : Type 0 where
  provider invalid_request auth_error : String → LlmError
  budget_exceeded timeout : LlmError
  rate_limited : ℕ → LlmError

module _ (F : Float) (Request W : Type 0) where
  -- `Result<ChatResponse, LLMError>` and `Result<ChatResponse, CallBudgetError>`.
  pub data Answer : Type 0 where
    answer : ChatResponse F → Answer
    failure : LlmError → Answer

  pub data CallResult : Type 0 where
    response : ChatResponse F → CallResult
    exhausted : CallResult
    provider_error : LlmError → CallResult

  abbrev pub Provider : Type 0
  Provider = Request → W → Answer × W

  -- What the call does after the provider has answered.
  unfoldable pub settle : Answer × W → BudgetContract F → CallResult × BudgetContract F × W
  settle (failure e, w) remaining = (provider_error e, remaining, w)
  settle (answer resp, w) remaining = (
    response resp,
    record remaining {
      max_tokens = remaining.max_tokens - (resp.tokens_in + resp.tokens_out);
      max_cost_usd = max_float F (F.sub remaining.max_cost_usd resp.cost_usd) (zero_float F);
    },
    w,
  )

  -- `CallBudget::call`; the subtraction of the tokens saturates.
  unfoldable pub call :
      Provider → Request → BudgetContract F → W → CallResult × BudgetContract F × W
  unfolding settle
  call chat req remaining w =
      if remaining.max_tokens == 0 || F.le remaining.max_cost_usd (zero_float F)
      then (exhausted, remaining, w)
      else settle (chat req w) remaining
