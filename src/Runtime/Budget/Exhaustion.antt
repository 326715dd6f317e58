-- ===== src/Runtime/Budget/Exhaustion.antt =====
-- core/crates/aaf-runtime/src/budget.rs: sequences of charges.
use agentic_application_fram.Base.{
  ◌∙◌, ap, ℕ, ◌+◌, ◌≤◌, ◌<◌, ◌≡◌, refl, min, none, some, List, [], ◌∷◌, arith, u64_max,
  saturating_add,
}
use agentic_application_fram.Float.{Float}
use agentic_application_fram.Contracts.Intent.{BudgetContract}
use agentic_application_fram.Runtime.Budget.{tokens, BudgetState, new, consume, exhausted, charge}

module _ (F : Float) where
  -- The arguments of one call of `charge`.
  pub record Charge : Type 0 where
    pub spent_tokens : ℕ
    pub cost_usd : F.Carrier
    pub elapsed_ms : ℕ

  -- The tracker after a sequence of calls.
  unfoldable pub charge_all : List Charge → BudgetState F → BudgetState F
  charge_all [] s = s
  charge_all (c ∷ cs) s = charge_all cs (charge F c.spent_tokens c.cost_usd c.elapsed_ms s).0

  unfoldable pub total : (Charge → ℕ) → List Charge → ℕ
  total f [] = 0
  total f (c ∷ cs) = f c + total f cs

  -- The counters are integers of 64 bits.
  abbrev pub FitsU64 : BudgetState F → Type 0
  FitsU64 s = (s.used_tokens ≤ u64_max) × (s.used_ms ≤ u64_max)

  record Totals (cs : List Charge) (s t : BudgetState F) : Type 0 where
    initial : t.initial ≡ s.initial
    spent : t.used_tokens ≡ min (s.used_tokens + total Charge.spent_tokens cs) u64_max
    elapsed : t.used_ms ≡ min (s.used_ms + total Charge.elapsed_ms cs) u64_max

  add_total : (a b c : ℕ) → min (saturating_add a b + c) u64_max ≡ min (a + (b + c)) u64_max
  unfolding saturating_add
  add_total a b c = ground arith

  saturating_add-FitsU64 : (a b : ℕ) → saturating_add a b ≤ u64_max
  unfolding saturating_add
  saturating_add-FitsU64 a b = ground arith

  charge_all-Totals :
      (cs : List Charge) (s : BudgetState F) → FitsU64 s → Totals cs s (charge_all cs s)
  unfolding charge_all total charge consume
  charge_all-Totals [] s h = record {
    initial = refl;
    spent = ground (arith, h.0);
    elapsed = ground (arith, h.1);
  }
  charge_all-Totals (c ∷ cs) s h =
      let rest =
        charge_all-Totals cs (consume F c.spent_tokens c.cost_usd c.elapsed_ms s)
          (saturating_add-FitsU64 _ _, saturating_add-FitsU64 _ _) in
      record {
        initial = rest.initial;
        spent = rest.spent ∙ add_total s.used_tokens c.spent_tokens _;
        elapsed = rest.elapsed ∙ add_total s.used_ms c.elapsed_ms _;
      }

  below_limit :
      {n limit used initial : ℕ}
      → used ≡ min (0 + n) u64_max
      → initial ≡ limit
      → used ≤ initial
      → limit < u64_max
      → n ≤ limit
  below_limit e i h b = ground arith

  still_over :
      (n cost : ℕ) {used limit initial after : ℕ}
      → limit < used
      → used ≤ u64_max
      → after ≡ min (used + n) u64_max
      → initial ≡ limit
      → initial < saturating_add after cost
  unfolding saturating_add
  still_over n cost over fits e i = ground arith

  -- What the answer `none` says of the counters.
  within :
      (s : BudgetState F)
      → exhausted F s ≡ none
      → (s.used_tokens ≤ s.initial.max_tokens) × (s.used_ms ≤ s.initial.max_latency_ms)
  unfolding exhausted
  within s h = ground arith

  -- The tokens and the milliseconds of any charges against a new tracker are in the budget if the
  -- last charge leaves it within the budget, where the two limits are below the largest value of
  -- 64 bits.
  pub charges_fit :
      (budget : BudgetContract F) (cs : List Charge)
      → budget.max_tokens < u64_max
      → budget.max_latency_ms < u64_max
      → exhausted F (charge_all cs (new F budget)) ≡ none
      → (total Charge.spent_tokens cs ≤ budget.max_tokens)
        × (total Charge.elapsed_ms cs ≤ budget.max_latency_ms)
  unfolding new
  charges_fit budget cs b b' h = (
    below_limit totals.spent (ap BudgetContract.max_tokens totals.initial) counters.0 b,
    below_limit totals.elapsed (ap BudgetContract.max_latency_ms totals.initial) counters.1 b',
  )
    where
      totals : Totals cs (new F budget) (charge_all cs (new F budget))
      totals = charge_all-Totals cs (new F budget) (omega arith, omega arith)

      counters :
          ((charge_all cs (new F budget)).used_tokens
            ≤ (charge_all cs (new F budget)).initial.max_tokens)
          × ((charge_all cs (new F budget)).used_ms
              ≤ (charge_all cs (new F budget)).initial.max_latency_ms)
      counters = within (charge_all cs (new F budget)) h

  tokens_over :
      (s : BudgetState F)
      → s.initial.max_tokens < s.used_tokens
      → exhausted F s ≡ some (tokens s.initial.max_tokens)
  unfolding exhausted
  tokens_over s over = ground arith

  -- Once the tokens are over the budget, every later charge is refused with the token error,
  -- whatever was charged in between.
  pub refused_forever :
      (s : BudgetState F) (cs : List Charge) (c : Charge)
      → FitsU64 s
      → s.initial.max_tokens < s.used_tokens
      → (charge F c.spent_tokens c.cost_usd c.elapsed_ms (charge_all cs s)).1
        ≡ some (tokens s.initial.max_tokens)
  unfolding charge consume
  refused_forever s cs c h over =
      tokens_over _ (
        still_over _ c.spent_tokens over h.0 totals.spent
          (ap BudgetContract.max_tokens totals.initial))
      ∙ ap (λ b. some (tokens b.max_tokens)) totals.initial
    where
      totals : Totals cs s (charge_all cs s)
      totals = charge_all-Totals cs s h
