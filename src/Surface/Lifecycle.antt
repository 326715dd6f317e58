-- ===== src/Surface/Lifecycle.antt =====
-- What holds along every sequence of the operations of core/crates/aaf-surface/src/lifecycle.rs.
use mathlib.Core.Path.{subst}
use agentic_application_fram.Base.{
  ℕ, ◌≡◌, refl, ap, sym, ◌∙◌, inl, inr, String, Option, none, some, Bool, true, false, List, [],
  ◌∷◌, if◌then◌else◌, arith, Bool-cases,
}
use agentic_application_fram.Contracts.Capability.{is_none}
use agentic_application_fram.Surface.{
  ApprovalState, draft, proposed, app_review, accepted, rejected, transformed, expired,
  SurfaceError, is_edge, is_nil, ActionProposal, Draft, build, ok, err, drafted, transition_to,
  and_then, publish, accept, reject, transform, expire,
}

-- The edges of the review, by their two ends.
pub data Edge : ApprovalState → ApprovalState → Type 0 where
  proposing : Edge draft proposed
  presenting : Edge proposed app_review
  accepting_it : Edge app_review accepted
  rejecting_it : Edge app_review rejected
  transforming_it : Edge app_review transformed
  expiring_it : Edge app_review expired

-- The ways along these edges.
pub data Review : ApprovalState → ApprovalState → Type 0 where
  stay : {s : ApprovalState} → Review s s
  go : {s t u : ApprovalState} → Edge s t → Review t u → Review s u

pub data Op : Type 0 where
  publishing accepting rejecting transforming expiring : Op

-- The code allows no other step than these.
edge-Edge : (s t : ApprovalState) → is_edge s t ≡ true → Edge s t
edge-Edge draft draft h = absurd (ground arith)
edge-Edge draft proposed h = proposing
edge-Edge draft app_review h = absurd (ground arith)
edge-Edge draft accepted h = absurd (ground arith)
edge-Edge draft rejected h = absurd (ground arith)
edge-Edge draft transformed h = absurd (ground arith)
edge-Edge draft expired h = absurd (ground arith)
edge-Edge proposed draft h = absurd (ground arith)
edge-Edge proposed proposed h = absurd (ground arith)
edge-Edge proposed app_review h = presenting
edge-Edge proposed accepted h = absurd (ground arith)
edge-Edge proposed rejected h = absurd (ground arith)
edge-Edge proposed transformed h = absurd (ground arith)
edge-Edge proposed expired h = absurd (ground arith)
edge-Edge app_review draft h = absurd (ground arith)
edge-Edge app_review proposed h = absurd (ground arith)
edge-Edge app_review app_review h = absurd (ground arith)
edge-Edge app_review accepted h = accepting_it
edge-Edge app_review rejected h = rejecting_it
edge-Edge app_review transformed h = transforming_it
edge-Edge app_review expired h = expiring_it
edge-Edge accepted draft h = absurd (ground arith)
edge-Edge accepted proposed h = absurd (ground arith)
edge-Edge accepted app_review h = absurd (ground arith)
edge-Edge accepted accepted h = absurd (ground arith)
edge-Edge accepted rejected h = absurd (ground arith)
edge-Edge accepted transformed h = absurd (ground arith)
edge-Edge accepted expired h = absurd (ground arith)
edge-Edge rejected draft h = absurd (ground arith)
edge-Edge rejected proposed h = absurd (ground arith)
edge-Edge rejected app_review h = absurd (ground arith)
edge-Edge rejected accepted h = absurd (ground arith)
edge-Edge rejected rejected h = absurd (ground arith)
edge-Edge rejected transformed h = absurd (ground arith)
edge-Edge rejected expired h = absurd (ground arith)
edge-Edge transformed draft h = absurd (ground arith)
edge-Edge transformed proposed h = absurd (ground arith)
edge-Edge transformed app_review h = absurd (ground arith)
edge-Edge transformed accepted h = absurd (ground arith)
edge-Edge transformed rejected h = absurd (ground arith)
edge-Edge transformed transformed h = absurd (ground arith)
edge-Edge transformed expired h = absurd (ground arith)
edge-Edge expired draft h = absurd (ground arith)
edge-Edge expired proposed h = absurd (ground arith)
edge-Edge expired app_review h = absurd (ground arith)
edge-Edge expired accepted h = absurd (ground arith)
edge-Edge expired rejected h = absurd (ground arith)
edge-Edge expired transformed h = absurd (ground arith)
edge-Edge expired expired h = absurd (ground arith)

module _ (Value : Type 0) where
  unfoldable pub perform : Op → ActionProposal Value → Option SurfaceError × ActionProposal Value
  unfolding publish
  perform publishing p = publish Value p
  perform accepting p = accept Value p
  perform rejecting p = reject Value p
  perform transforming p = transform Value p
  perform expiring p = expire Value p

  unfoldable pub perform_all : List Op → ActionProposal Value → ActionProposal Value
  unfolding perform
  perform_all [] p = p
  perform_all (op ∷ ops) p = perform_all ops (perform op p).1

  -- A later state of the same proposal.
  pub record Follows (p q : ActionProposal Value) : Type 0 where
    pub same : record q { approval_state = p.approval_state } ≡ p
    pub path : Review p.approval_state q.approval_state

  abbrev drafting : ApprovalState → ActionProposal Value → ActionProposal Value
  drafting s q = record q { approval_state = s }

  Review-trans : {s t u : ApprovalState} → Review s t → Review t u → Review s u
  Review-trans stay q = q
  Review-trans (go e p) q = go e (Review-trans p q)

  Follows-refl : (p : ActionProposal Value) → Follows p p
  Follows-refl p = record { same = refl; path = stay }

  Follows-trans : (p q r : ActionProposal Value) → Follows p q → Follows q r → Follows p r
  Follows-trans p q r h k = record {
    same = ap (drafting p.approval_state) k.same ∙ h.same;
    path = Review-trans h.path k.path;
  }

  transition-Follows :
      (next : ApprovalState) (p : ActionProposal Value) → Follows p (transition_to Value next p).1
  unfolding transition_to
  transition-Follows next p = elim (Bool-cases (is_edge p.approval_state next)) [
    | inl edge ↦
        rw edge (record { same = refl; path = go (edge-Edge p.approval_state next edge) stay })
    | inr other ↦ rw other (Follows-refl p)
  ]

  and_then-Follows :
      (p : ActionProposal Value) (x : Option SurfaceError × ActionProposal Value)
      (next : ApprovalState)
      → Follows p x.1
      → Follows p (and_then Value x (transition_to Value next)).1
  and_then-Follows p (some e, q) next h = h
  and_then-Follows p (none, q) next h = Follows-trans p q _ h (transition-Follows next q)

  perform-Follows : (op : Op) (p : ActionProposal Value) → Follows p (perform op p).1
  unfolding perform publish
  perform-Follows publishing p =
      and_then-Follows p (transition_to Value proposed p) app_review (transition-Follows proposed p)
  perform-Follows accepting p = transition-Follows accepted p
  perform-Follows rejecting p = transition-Follows rejected p
  perform-Follows transforming p = transition-Follows transformed p
  perform-Follows expiring p = transition-Follows expired p

  perform_all-Follows : (ops : List Op) (p : ActionProposal Value) → Follows p (perform_all ops p)
  unfolding perform_all
  perform_all-Follows [] p = Follows-refl p
  perform_all-Follows (op ∷ ops) p =
      Follows-trans p (perform op p).1 _ (perform-Follows op p)
        (perform_all-Follows ops (perform op p).1)

  pub record Reviewed (d : Draft Value) (p : ActionProposal Value) : Type 0 where
    pub mutations : p.mutations ≡ d.mutations
    pub compensation : p.compensation_ref ≡ d.compensation_ref
    pub compensated : is_nil p.mutations ≡ false → is_none p.compensation_ref ≡ false
    pub path : Review draft p.approval_state

  built :
      (b : Bool) (e : SurfaceError) (q p : ActionProposal Value)
      → (if b then err e else ok q) ≡ ok p
      → (b ≡ false) × (q ≡ p)
  built true e q p h = absurd (ground arith)
  built false e q p h = (refl, ground arith)

  build-ok :
      (id : String) (now : ℕ) (d : Draft Value) (p : ActionProposal Value)
      → build Value id now d ≡ ok p
      → Reviewed d p
  unfolding build
  build-ok id now d p h =
      let made = built _ _ (drafted Value id now d) p h in
      subst (Reviewed d) made.1 (record {
        mutations = refl;
        compensation = refl;
        compensated = λ e. ground (arith, made.0);
        path = stay;
      })

  -- A proposal that was built keeps its changes and its compensation through every sequence of
  -- operations, and declares a compensation if it has changes. Its state goes from draft over
  -- proposed and the review of the application to one of the four outcomes, along these edges only.
  pub build-Reviewed :
      (id : String) (now : ℕ) (d : Draft Value) (p : ActionProposal Value) (ops : List Op)
      → build Value id now d ≡ ok p
      → Reviewed d (perform_all ops p)
  build-Reviewed id now d p ops h =
      let start = build-ok id now d p h in
      let after = perform_all-Follows ops p in
      record {
        mutations = ap (λ x. x.mutations) after.same ∙ start.mutations;
        compensation = ap (λ x. x.compensation_ref) after.same ∙ start.compensation;
        compensated = λ e.
            ap (λ x. is_none x.compensation_ref) after.same
            ∙ start.compensated (sym (ap (λ x. is_nil x.mutations) after.same) ∙ e);
        path = Review-trans start.path after.path;
      }

  -- The four outcomes.
  abbrev pub is_settled : ApprovalState → Bool
  is_settled draft = false
  is_settled proposed = false
  is_settled app_review = false
  is_settled accepted = true
  is_settled rejected = true
  is_settled transformed = true
  is_settled expired = true

  no_edge : (s t : ApprovalState) → is_settled s ≡ true → Edge s t → ⊥
  no_edge draft t h e = ground arith
  no_edge proposed t h e = ground arith
  no_edge app_review t h e = ground arith
  no_edge accepted t h e = elim e [ ]
  no_edge rejected t h e = elim e [ ]
  no_edge transformed t h e = elim e [ ]
  no_edge expired t h e = elim e [ ]

  Review-settled : (s t : ApprovalState) → is_settled s ≡ true → Review s t → t ≡ s
  Review-settled s t h stay = refl
  Review-settled s t h (go {t = u} e p) = absurd (no_edge s u h e)

  -- No operation changes a proposal that has reached an outcome.
  pub settled_stays :
      (ops : List Op) (p : ActionProposal Value)
      → is_settled p.approval_state ≡ true
      → perform_all ops p ≡ p
  settled_stays ops p h =
      let after = perform_all-Follows ops p in
      let same = Review-settled p.approval_state (perform_all ops p).approval_state h after.path in
      ap (λ s. drafting s (perform_all ops p)) same ∙ after.same
