-- ===== src/Policy/Approval.antt =====
-- core/crates/aaf-policy/src/approval.rs: the requests for a human approval and their decisions.
use Prim.Native.String.{◌++◌ as str_append}
use agentic_application_fram.Base.{
  ℕ, ◌≡◌, ◌≢◌, ◌↔◌, ◌∙◌, refl, ap, String, Option, none, some, Bool, true, false, Bool-cases, inl,
  inr, List, [], ◌∷◌, Assoc, lookup, insert, adjust, lookup-insert, lookup-adjust, map_option,
  Holds, Holds-insert, Holds-adjust, if◌then◌else◌, str_eq, arith,
}
use agentic_application_fram.Contracts.Policy.{PolicyViolation}

pub data ApprovalState : Type 0 where
  pending approved rejected expired : ApprovalState

pub record ApprovalRequest : Type 0 where
  pub request_id : String
  pub intent_id : String
  pub reason : String
  pub violations : List PolicyViolation
  pub state : ApprovalState
  pub created_at : ℕ
  pub resolved_at : Option ℕ

abbrev pub ApprovalWorkflow : Type 0
ApprovalWorkflow = Assoc ApprovalRequest

abbrev pub request_of : String → String
request_of intent_id = str_append "appr-" intent_id

-- The clock is an argument.
unfoldable pub open_request :
    ℕ → String → String → List PolicyViolation → ApprovalWorkflow → ApprovalWorkflow × String
open_request now intent_id reason violations wf =
    let request_id = request_of intent_id in
    (
      insert request_id
          (record {
            request_id = request_id;
            intent_id = intent_id;
            reason = reason;
            violations = violations;
            state = pending;
            created_at = now;
            resolved_at = none;
          })
          wf,
      request_id,
    )

abbrev pub decision_of : Bool → ApprovalState
decision_of b = if b then approved else rejected

abbrev pub settle : ℕ → Bool → ApprovalRequest → ApprovalRequest
settle now b r = record r { state = decision_of b; resolved_at = some now }

unfoldable pub resolve :
    ℕ → String → Bool → ApprovalWorkflow → ApprovalWorkflow × Option ApprovalState
resolve now request_id b wf = (
  adjust request_id (settle now b) wf,
  elim (lookup request_id wf) [ none ↦ none | some r ↦ some (decision_of b) ],
)

abbrev pub get : String → ApprovalWorkflow → Option ApprovalRequest
get request_id wf = lookup request_id wf

-- One call of a client, with the clock at its moment.
pub data Call : Type 0 where
  opening : ℕ → String → String → List PolicyViolation → Call
  resolving : ℕ → String → Bool → Call

unfoldable pub perform_all : List Call → ApprovalWorkflow → ApprovalWorkflow
perform_all [] wf = wf
perform_all (opening now intent_id reason violations ∷ cs) wf =
    perform_all cs (open_request now intent_id reason violations wf).0
perform_all (resolving now request_id b ∷ cs) wf = perform_all cs (resolve now request_id b wf).0

-- The contract of one request: opened, it is pending; then the last decision counts, approved for
-- yes and rejected for no, until it is opened again.
unfoldable pub replay : String → List Call → Option ApprovalState → Option ApprovalState
replay id [] st = st
replay id (opening now intent_id reason violations ∷ cs) st =
    replay id cs (if str_eq (request_of intent_id) id then some pending else st)
replay id (resolving now request_id b ∷ cs) st =
    replay id cs
      (if str_eq request_id id then map_option (λ s. if b then approved else rejected) st else st)

abbrev pub state_of : String → ApprovalWorkflow → Option ApprovalState
state_of id wf = map_option ApprovalRequest.state (get id wf)

state_of-open :
    (now : ℕ) (intent_id reason id : String) (violations : List PolicyViolation)
    (wf : ApprovalWorkflow)
    → state_of id (open_request now intent_id reason violations wf).0
      ≡ (if str_eq (request_of intent_id) id then some pending else state_of id wf)
unfolding open_request
state_of-open now intent_id reason id violations wf =
    elim (Bool-cases (str_eq (request_of intent_id) id)) [
      | inl e ↦ rw (lookup-insert, e) refl
      | inr e ↦ rw (lookup-insert, e) refl
    ]

state_of-resolve :
    (now : ℕ) (request_id id : String) (b : Bool) (wf : ApprovalWorkflow)
    → state_of id (resolve now request_id b wf).0 ≡ (
        if str_eq request_id id
        then map_option (λ s. if b then approved else rejected) (state_of id wf)
        else state_of id wf)
unfolding resolve
state_of-resolve now request_id id b wf = elim (Bool-cases (str_eq request_id id)) [
  | inl e ↦ rw (lookup-adjust, e) (by_request (lookup id wf))
  | inr e ↦ rw (lookup-adjust, e) refl
]
  where
    by_request :
        (o : Option ApprovalRequest)
        → map_option ApprovalRequest.state (map_option (settle now b) o)
          ≡ map_option (λ s. if b then approved else rejected) (map_option ApprovalRequest.state o)
    by_request none = refl
    by_request (some r) = refl

-- After any calls, the state of every request is the one that its contract gives for these calls: a
-- request is pending when it is opened, and after a decision it is approved or rejected as the
-- last one says. A decision about a request that was never opened changes nothing.
pub perform_all-refines-replay :
    (id : String) (cs : List Call) (wf : ApprovalWorkflow)
    → state_of id (perform_all cs wf) ≡ replay id cs (state_of id wf)
unfolding perform_all replay
perform_all-refines-replay id [] wf = refl
perform_all-refines-replay id (opening now intent_id reason violations ∷ cs) wf =
    perform_all-refines-replay id cs _
    ∙ ap (replay id cs) (state_of-open now intent_id reason id violations wf)
perform_all-refines-replay id (resolving now request_id b ∷ cs) wf =
    perform_all-refines-replay id cs _ ∙ ap (replay id cs) (state_of-resolve now request_id id b wf)

-- A request has no time of resolution exactly while it is pending, and it is never expired.
pub record IsValid (r : ApprovalRequest) : Type 0 where
  pub unresolved : (r.resolved_at ≡ none) ↔ (r.state ≡ pending)
  pub unexpired : r.state ≢ expired

settle-IsValid : (now : ℕ) (b : Bool) (r : ApprovalRequest) → IsValid r → IsValid (settle now b r)
settle-IsValid now true r h = record { unresolved = ground arith; unexpired = ground arith }
settle-IsValid now false r h = record { unresolved = ground arith; unexpired = ground arith }

-- Every request of the workflow is valid.
pub record AllValid (wf : ApprovalWorkflow) : Type 0 where
  pub at : (id : String) → Holds IsValid (lookup id wf)

open-AllValid :
    (now : ℕ) (intent_id reason : String) (violations : List PolicyViolation)
    (wf : ApprovalWorkflow)
    → AllValid wf
    → AllValid (open_request now intent_id reason violations wf).0
unfolding open_request
open-AllValid now intent_id reason violations wf h = record {
  at = λ id.
      Holds-insert IsValid (request_of intent_id) id _ wf
        (record { unresolved = ground arith; unexpired = ground arith }) (h.at id);
}

resolve-AllValid :
    (now : ℕ) (request_id : String) (b : Bool) (wf : ApprovalWorkflow)
    → AllValid wf
    → AllValid (resolve now request_id b wf).0
unfolding resolve
resolve-AllValid now request_id b wf h = record {
  at = λ id. Holds-adjust IsValid request_id id (settle now b) wf (settle-IsValid now b) (h.at id);
}

-- From a workflow whose requests are all valid, every request is valid after any calls: it has no
-- time of resolution exactly while it is pending, and its state is never Expired.
pub perform_all-AllValid_requests :
    (cs : List Call) (wf : ApprovalWorkflow) → AllValid wf → AllValid (perform_all cs wf)
unfolding perform_all
perform_all-AllValid_requests [] wf h = h
perform_all-AllValid_requests (opening now intent_id reason violations ∷ cs) wf h =
    perform_all-AllValid_requests cs _ (open-AllValid now intent_id reason violations wf h)
perform_all-AllValid_requests (resolving now request_id b ∷ cs) wf h =
    perform_all-AllValid_requests cs _ (resolve-AllValid now request_id b wf h)
