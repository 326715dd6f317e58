-- ===== src/Contracts/Intent.antt =====
-- core/crates/aaf-contracts/src/intent.rs: the envelope of an intent. Its fields `constraints`,
-- `deadline`, `approval_policy`, `output_contract` and `entities_in_context` are left out: no
-- modelled code reads them.
use agentic_application_fram.Base.{
  ℕ, ◌+◌, ◌%◌, ◌^◌, ◌≤◌, ◌≡◌, ◌↔◌, String, Option, not, ◌||◌, List, [], ◌∷◌, arith, ltb, length,
  trim, is_empty, if◌then◌else◌,
}
use agentic_application_fram.Float.{Float, zero_float}

abbrev pub max_depth : ℕ
max_depth = 5

pub data IntentType : Type 0 where
  transactional_intent analytical_intent planning_intent delegation_intent : IntentType
  governance_intent : IntentType

pub data RiskTier : Type 0 where
  read write advisory delegation governance : RiskTier

pub record Requester : Type 0 where
  pub user_id : String
  pub role : String
  pub scopes : List String
  pub tenant : Option String

pub data ContractError : Type 0 where
  missing_field : String → ContractError
  depth_exceeded : ℕ → ℕ → ContractError
  invalid_budget : ContractError

-- `Result<A, ContractError>`
pub data Checked {ℓ} (A : Type ℓ) : Type ℓ where
  ok : A → Checked A
  err : ContractError → Checked A

module _ (F : Float) where
  pub record BudgetContract : Type 0 where
    pub max_tokens : ℕ  -- u64
    pub max_cost_usd : F.Carrier
    pub max_latency_ms : ℕ  -- u64

  unfoldable pub validate_budget : BudgetContract → Checked (Unit {0})
  validate_budget b =
      if not (F.is_finite b.max_cost_usd) || F.lt b.max_cost_usd (zero_float F)
      then err invalid_budget
      else ok tt

  pub record IntentEnvelope : Type 0 where
    pub intent_id : String
    pub intent_type : IntentType
    pub requester : Requester
    pub goal : String
    pub domain : String
    pub budget : BudgetContract
    pub risk_tier : RiskTier
    pub trace_id : String
    pub depth : ℕ  -- u32
    pub created_at : ℕ

  unfoldable pub validate : IntentEnvelope → Checked (Unit {0})
  unfolding validate_budget
  validate i =
      if is_empty (trim i.goal)
      then err (missing_field "goal")
      else if is_empty (trim i.domain)
      then err (missing_field "domain")
      else if ltb max_depth i.depth
      then err (depth_exceeded i.depth max_depth)
      else validate_budget i.budget

  -- The fresh id is an argument.
  unfoldable pub delegate : String → IntentEnvelope → Checked IntentEnvelope
  delegate intent_id i =
      let child = record i { intent_id = intent_id; depth = (i.depth + 1) % 2 ^ 32 } in
      if ltb max_depth child.depth then err (depth_exceeded child.depth max_depth) else ok child

  -- A chain of delegations, each with its fresh id.
  pub delegate_along : List String → IntentEnvelope → Checked IntentEnvelope
  delegate_along [] i = ok i
  delegate_along (id ∷ ids) i = elim (delegate id i) [
    | ok child ↦ delegate_along ids child
    | err e ↦ err e
  ]

  abbrev pub Succeeds : Checked IntentEnvelope → Type 0
  Succeeds (ok _) = Unit
  Succeeds (err _) = ⊥

  delegate_lem :
      (id : String) (i : IntentEnvelope)
      → i.depth ≤ max_depth
      → delegate id i ≡ (
          if ltb max_depth (i.depth + 1)
          then err (depth_exceeded (i.depth + 1) max_depth)
          else ok (record i { intent_id = id; depth = i.depth + 1 }))
  unfolding delegate
  delegate_lem id i h = ground arith

  -- From an intent within the depth limit a chain of delegations succeeds exactly when its length
  -- keeps the depth within the limit of 5.
  pub delegate_along_iff :
      (ids : List String) (i : IntentEnvelope)
      → i.depth ≤ max_depth
      → Succeeds (delegate_along ids i) ↔ (i.depth + length ids ≤ max_depth)
  unfolding delegate_along
  delegate_along_iff [] i h = ground arith
  delegate_along_iff (id ∷ ids) i h = ground (
    arith,
    delegate_lem id i h,
    delegate_along_iff ids (record i { intent_id = id; depth = i.depth + 1 }),
  )

  -- A delegated intent is valid wherever the one that it comes from is.
  pub validate-delegate :
      (id : String) (i child : IntentEnvelope)
      → validate i ≡ ok tt
      → delegate id i ≡ ok child
      → validate child ≡ ok tt
  unfolding validate delegate
  validate-delegate id i child valid made = ground (arith)
