-- ===== src/Identity/Revocation.antt =====
-- What core/crates/aaf-identity/src/revocation.rs answers after a sequence of revocations.
use mathlib.Core.List.{append_assoc, append-nil}
use mathlib.Core.Path.{subst}
use mathlib.Core.Sum.{inl-injective}
use agentic_application_fram.Base.{
  ℕ, ◌≡◌, ◌⊎◌, refl, ap, sym, ◌∙◌, inl, inr, String, none, Bool, true, false, ◌&&◌, ◌||◌, List, [],
  ◌∷◌, ◌++◌, if◌then◌else◌, str_eq, any, arith, eq_iff,
}
use agentic_application_fram.Identity.{
  RevocationKind, RevocationBody, did, prompt_hash, tool_version, manifest_hash, token_jti, kind_eq,
  RevocationEntry, InMemoryRevocationRegistry, new, holds, index_insert, revoke, is_revoked, list,
  Keys, issue, verify, signed,
}

unfoldable pub revoke_all :
    List RevocationEntry → InMemoryRevocationRegistry → InMemoryRevocationRegistry
revoke_all [] r = r
revoke_all (e ∷ es) r = revoke_all es (revoke e r)

-- Whether an entry names the target.
abbrev pub names : RevocationKind → String → RevocationEntry → Bool
names kind target e = kind_eq e.kind kind && str_eq e.target target

kind_eq_same : (k j : RevocationKind) → kind_eq k j ≡ true → k ≡ j
kind_eq_same did j h = ground arith
kind_eq_same prompt_hash j h = ground arith
kind_eq_same tool_version j h = ground arith
kind_eq_same manifest_hash j h = ground arith
kind_eq_same token_jti j h = ground arith

matching :
    (kind k : RevocationKind) (target t : String) (index : List (RevocationKind × String))
    → (kind_eq k kind && str_eq t target) ≡ true
    → holds k t index ≡ holds kind target index
matching kind k target t index h =
    ap (λ j. holds j t index) (kind_eq_same k kind (ground arith))
    ∙ ap (λ u. holds kind u index) ((eq_iff t target).0 (ground arith))

-- An index that holds a key already is kept.
inserted :
    (b m : Bool) (kind k : RevocationKind) (target t : String)
    (index : List (RevocationKind × String))
    → holds k t index ≡ b
    → (kind_eq k kind && str_eq t target) ≡ m
    → holds kind target (if b then index else (k, t) ∷ index) ≡ (m || holds kind target index)
unfolding holds
inserted false m kind k target t index h e = ap (λ x. x || holds kind target index) e
inserted true false kind k target t index h e = refl
inserted true true kind k target t index h e = sym (matching kind k target t index e) ∙ h

holds-insert :
    (kind k : RevocationKind) (target t : String) (index : List (RevocationKind × String))
    → holds kind target (index_insert k t index)
      ≡ ((kind_eq k kind && str_eq t target) || holds kind target index)
unfolding index_insert
holds-insert kind k target t index = inserted _ _ kind k target t index refl refl

-- The index and the entries after more revocations.
revoked_then :
    (kind : RevocationKind) (target : String) (es : List RevocationEntry)
    (r : InMemoryRevocationRegistry)
    → is_revoked kind target (revoke_all es r)
      ≡ (any (names kind target) es || is_revoked kind target r)
unfolding revoke_all is_revoked revoke any
revoked_then kind target [] r = refl
revoked_then kind target (e ∷ es) r =
    revoked_then kind target es (revoke e r)
    ∙ (ground (arith, holds-insert kind e.kind target e.target r.index))

entries_then :
    (es : List RevocationEntry) (r : InMemoryRevocationRegistry)
    → (revoke_all es r).entries ≡ r.entries ++ es
unfolding revoke_all revoke
entries_then [] r = sym (append-nil _)
entries_then (e ∷ es) r = entries_then es (revoke e r) ∙ append_assoc r.entries (e ∷ []) es

-- After a sequence of revocations a target is revoked exactly if an entry of its kind names it, and
-- the list holds the entries in the order in which they came.
pub is_revoked_iff :
    (kind : RevocationKind) (target : String) (es : List RevocationEntry)
    → (is_revoked kind target (revoke_all es new) ≡ any (names kind target) es)
      × (list (revoke_all es new) ≡ es)
unfolding is_revoked
is_revoked_iff kind target es =
    (revoked_then kind target es new ∙ (ground arith), entries_then es new)

module _ (K : Keys)
    (accepts : (signer hash signature : String)
      → K.sign signer hash ≡ inl signature
      → K.verify signer hash signature ≡ none) where
  signed-verifies :
      (body : RevocationBody) (x : String ⊎ K.Error) (e : RevocationEntry)
      → K.sign body.signer (K.canonical_hash body) ≡ x
      → signed K body x ≡ inl e
      → verify K e ≡ none
  unfolding signed verify
  signed-verifies body (inr error) e s h = absurd (ground arith)
  signed-verifies body (inl signature) e s h =
      subst (λ f. verify K f ≡ none) (inl-injective _ _ h)
        (accepts body.signer (K.canonical_hash body) signature s)

  -- If the verifier accepts what the signer signs, every entry that is issued verifies.
  pub verify-issue :
      (kind : RevocationKind) (target reason : String) (now : ℕ) (signer : String)
      (e : RevocationEntry)
      → issue K kind target reason now signer ≡ inl e
      → verify K e ≡ none
  unfolding issue
  verify-issue kind target reason now signer e h = signed-verifies _ _ e refl h
