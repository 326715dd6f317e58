-- ===== src/Llm/Spending.antt =====
-- What a sequence of calls of core/crates/aaf-llm/src/budget.rs spends.
use agentic_application_fram.Base.{
  ℕ, ◌+◌, ◌-◌, ◌==◌, ◌≡◌, refl, Bool, true, false, ◌||◌, List, [], ◌∷◌, if◌then◌else◌, arith, ◌≤◌,
  ◌⊎◌, inl, inr,
}
use agentic_application_fram.Float.{Float, zero_float}
use agentic_application_fram.Contracts.Intent.{BudgetContract}
use agentic_application_fram.Llm.{
  Answer, answer, failure, CallResult, response, exhausted, provider_error, Provider, settle, call,
}

module _ (F : Float) (Request W : Type 0) (ask : Provider F Request W) where
  -- The results of a sequence of calls, the budget that is left, and the world.
  unfoldable pub calls :
      List Request → BudgetContract F → W → List (CallResult F Request W) × BudgetContract F × W
  calls [] remaining w = ([], remaining, w)
  calls (req ∷ reqs) remaining w =
      let (result, left, v) = call F Request W ask req remaining w in
      let (results, end, u) = calls reqs left v in (result ∷ results, end, u)

  -- The tokens of the responses.
  abbrev pub tokens : CallResult F Request W → ℕ
  tokens (response r) = r.tokens_in + r.tokens_out
  tokens exhausted = 0
  tokens (provider_error e) = 0

  unfoldable pub total : List (CallResult F Request W) → ℕ
  total [] = 0
  total (r ∷ results) = tokens r + total results

  settle-tokens :
      (x : Answer F Request W × W) (remaining : BudgetContract F)
      → (settle F Request W x remaining).1.max_tokens
        ≡ remaining.max_tokens - tokens (settle F Request W x remaining).0
  unfolding settle
  settle-tokens (answer r, w) remaining = refl
  settle-tokens (failure e, w) remaining = omega arith

  either-tokens :
      (b : Bool) (x : Answer F Request W × W) (remaining : BudgetContract F) (w : W)
      → (if b then (exhausted, remaining, w) else settle F Request W x remaining).1.max_tokens
        ≡ remaining.max_tokens
          - tokens (if b then (exhausted, remaining, w) else settle F Request W x remaining).0
  either-tokens true x remaining w = omega arith
  either-tokens false x remaining w = settle-tokens x remaining

  call-tokens :
      (req : Request) (remaining : BudgetContract F) (w : W)
      → (call F Request W ask req remaining w).1.max_tokens
        ≡ remaining.max_tokens - tokens (call F Request W ask req remaining w).0
  unfolding call
  call-tokens req remaining w =
      either-tokens (remaining.max_tokens == 0 || F.le remaining.max_cost_usd (zero_float F))
        (ask req w) remaining w

  calls-left :
      (reqs : List Request) (remaining : BudgetContract F) (w : W)
      → (calls reqs remaining w).1.max_tokens
        ≡ remaining.max_tokens - total (calls reqs remaining w).0
  unfolding calls total
  calls-left [] remaining w = omega arith
  calls-left (req ∷ reqs) remaining w =
      let (result, left, v) = call F Request W ask req remaining w in
      omega (arith, call-tokens req remaining w, calls-left reqs left v)

  -- A budget with no tokens or no cost left.
  pub Spent : BudgetContract F → Type 0
  Spent remaining = (remaining.max_tokens ≡ 0) ⊎ (F.le remaining.max_cost_usd (zero_float F) ≡ true)

  abbrev pub refusals : List Request → List (CallResult F Request W)
  refusals [] = []
  refusals (req ∷ reqs) = exhausted ∷ refusals reqs

  call-Spent :
      (req : Request) (remaining : BudgetContract F) (w : W)
      → Spent remaining
      → call F Request W ask req remaining w ≡ (exhausted, remaining, w)
  unfolding call Spent
  call-Spent req remaining w (inl e) = ground (arith, e)
  call-Spent req remaining w (inr e) = ground (arith, e)

  calls-Spent :
      (reqs : List Request) (remaining : BudgetContract F) (w : W)
      → Spent remaining
      → calls reqs remaining w ≡ (refusals reqs, remaining, w)
  unfolding calls
  calls-Spent [] remaining w h = refl
  calls-Spent (req ∷ reqs) remaining w h =
      rw (call-Spent req remaining w h, calls-Spent reqs remaining w h) refl

  abbrev pub tokens_of : Answer F Request W → ℕ
  tokens_of (answer r) = r.tokens_in + r.tokens_out
  tokens_of (failure e) = 0

  settle-bound :
      (m : ℕ) (x : Answer F Request W × W) (remaining : BudgetContract F)
      → tokens_of x.0 ≤ m
      → tokens (settle F Request W x remaining).0 ≤ m
  unfolding settle
  settle-bound m (answer r, w) remaining h = h
  settle-bound m (failure e, w) remaining h = omega arith

  module _ (m : ℕ) (bounded : (req : Request) (w : W) → tokens_of (ask req w).0 ≤ m) where
    -- The most that calls on a number of tokens take.
    abbrev pub most : ℕ → ℕ
    most n = if n == 0 then 0 else n - 1 + m

    call-bound :
        (req : Request) (remaining : BudgetContract F) (w : W)
        → tokens (call F Request W ask req remaining w).0
          ≤ (if remaining.max_tokens == 0 then 0 else m)
    unfolding call
    call-bound req remaining w =
        ground (arith, settle-bound m (ask req w) remaining (bounded req w))

    calls-bound :
        (reqs : List Request) (remaining : BudgetContract F) (w : W)
        → total (calls reqs remaining w).0 ≤ most remaining.max_tokens
    unfolding calls total
    calls-bound [] remaining w = omega arith
    calls-bound (req ∷ reqs) remaining w =
        let (result, left, v) = call F Request W ask req remaining w in
        ground
          (arith, call-tokens req remaining w, call-bound req remaining w, calls-bound reqs left v)

    pub record Spends (reqs : List Request) (remaining : BudgetContract F) (w : W) : Type 0 where
      pub left :
          (calls reqs remaining w).1.max_tokens
          ≡ remaining.max_tokens - total (calls reqs remaining w).0
      pub overrun : total (calls reqs remaining w).0 ≤ most remaining.max_tokens
      pub refused : Spent remaining → calls reqs remaining w ≡ (refusals reqs, remaining, w)

    -- If no response takes more than m tokens, then after any sequence of calls the tokens that are
    -- left are those of the budget less those of all responses, or none where these are more. All
    -- responses take nothing on an empty budget, and on one of n tokens at most n - 1 + m. On a budget without tokens or without cost every
    -- call is refused, and neither the budget nor the world changes: the provider is not asked.
    pub calls-Spends :
        (reqs : List Request) (remaining : BudgetContract F) (w : W) → Spends reqs remaining w
    calls-Spends reqs remaining w = record {
      left = calls-left reqs remaining w;
      overrun = calls-bound reqs remaining w;
      refused = calls-Spent reqs remaining w;
    }
