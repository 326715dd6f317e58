-- ===== src/Surface.antt =====
-- core/crates/aaf-surface/src/proposal.rs and lifecycle.rs: proposals of changes and their review. JSON
-- values are a parameter. The fresh id and the clock are arguments.
pub mod Lifecycle
use agentic_application_fram.Base.{
  ℕ, String, Option, none, some, Bool, true, false, not, ◌&&◌, List, [], ◌∷◌, if◌then◌else◌, length,
}
use agentic_application_fram.Contracts.Capability.{EntityRefLite, is_none}

pub data UiKind : Type 0 where
  diff form card banner : UiKind

pub record UiHints : Type 0 where
  pub kind : UiKind
  pub priority : ℕ  -- u8
  pub dismissable : Bool

abbrev pub default_hints : UiHints
default_hints = record { kind = card; priority = 50; dismissable = true }

pub data ApprovalState : Type 0 where
  draft proposed app_review accepted rejected transformed expired : ApprovalState

-- The errors of these operations. The names of the states stand for their texts.
pub data SurfaceError : Type 0 where
  missing_compensation : ℕ → SurfaceError
  illegal_transition : ApprovalState → ApprovalState → SurfaceError

-- The reference to a compensating capability.
pub record CompensationRef : Type 0 where
  pub capability : String

-- `matches!((self.approval_state, next), ..)`
abbrev pub is_edge : ApprovalState → ApprovalState → Bool
is_edge draft proposed = true
is_edge proposed app_review = true
is_edge app_review accepted = true
is_edge app_review rejected = true
is_edge app_review transformed = true
is_edge app_review expired = true
is_edge _ _ = false

abbrev pub is_nil {ℓ} : {A : Type ℓ} → List A → Bool
is_nil [] = true
is_nil (_ ∷ _) = false

module _ (Value : Type 0) where
  pub record StateMutationProposal : Type 0 where
    pub entity_ref : EntityRefLite
    pub field_path : String
    pub from_value : Value
    pub to_value : Value
    pub preview_renderer_hint : Option String
    pub reversible : Bool
    pub compensation_ref : CompensationRef

  pub record ActionProposal : Type 0 where
    pub proposal_id : String
    pub intent_id : String
    pub trace_id : String
    pub tenant_id : String
    pub summary : String
    pub rationale : String
    pub mutations : List StateMutationProposal
    pub artifacts : List String
    pub ui_hints : UiHints
    pub compensation_ref : Option CompensationRef
    pub expires_at : ℕ
    pub approval_state : ApprovalState
    pub created_at : ℕ

  -- `Result<ActionProposal, SurfaceError>`
  pub data Built : Type 0 where
    ok : ActionProposal → Built
    err : SurfaceError → Built

  -- The arguments of `build`.
  pub record Draft : Type 0 where
    pub intent_id : String
    pub trace_id : String
    pub tenant_id : String
    pub summary : String
    pub rationale : String
    pub mutations : List StateMutationProposal
    pub artifacts : List String
    pub ui_hints : UiHints
    pub compensation_ref : Option CompensationRef
    pub expires_at : ℕ

  abbrev pub drafted : String → ℕ → Draft → ActionProposal
  drafted proposal_id now d = record {
    proposal_id = proposal_id;
    intent_id = d.intent_id;
    trace_id = d.trace_id;
    tenant_id = d.tenant_id;
    summary = d.summary;
    rationale = d.rationale;
    mutations = d.mutations;
    artifacts = d.artifacts;
    ui_hints = d.ui_hints;
    compensation_ref = d.compensation_ref;
    expires_at = d.expires_at;
    approval_state = draft;
    created_at = now;
  }

  unfoldable pub build : String → ℕ → Draft → Built
  build proposal_id now d =
      if not (is_nil d.mutations) && is_none d.compensation_ref
      then err (missing_compensation (length d.mutations))
      else ok (drafted proposal_id now d)

  -- The operations answer with their error, where there is one, and the proposal after them.
  unfoldable pub transition_to :
      ApprovalState → ActionProposal → Option SurfaceError × ActionProposal
  transition_to next p =
      if not (is_edge p.approval_state next)
      then (some (illegal_transition p.approval_state next), p)
      else (none, record p { approval_state = next })

  -- `?` between two steps.
  abbrev pub and_then :
      Option SurfaceError × ActionProposal
      → (ActionProposal → Option SurfaceError × ActionProposal)
      → Option SurfaceError × ActionProposal
  and_then (some e, p) f = (some e, p)
  and_then (none, p) f = f p

  unfoldable pub publish : ActionProposal → Option SurfaceError × ActionProposal
  unfolding transition_to
  publish p = and_then (transition_to proposed p) (transition_to app_review)

  abbrev pub accept : ActionProposal → Option SurfaceError × ActionProposal
  accept p = transition_to accepted p

  abbrev pub reject : ActionProposal → Option SurfaceError × ActionProposal
  reject p = transition_to rejected p

  abbrev pub transform : ActionProposal → Option SurfaceError × ActionProposal
  transform p = transition_to transformed p

  abbrev pub expire : ActionProposal → Option SurfaceError × ActionProposal
  expire p = transition_to expired p
