-- ===== src/Identity.antt =====
-- core/crates/aaf-identity/src/revocation.rs: the registry of revocations in memory. Signatures and the
-- hash of the canonical bytes are parameters: the signer and the verifier are trait objects.
pub mod Revocation
use agentic_application_fram.Base.{
  ℕ, ◌⊎◌, inl, inr, String, Option, none, some, Bool, true, false, ◌&&◌, ◌||◌, List, [], ◌∷◌, ◌++◌,
  if◌then◌else◌, str_eq,
}

pub data RevocationKind : Type 0 where
  did prompt_hash tool_version manifest_hash token_jti : RevocationKind

-- The derived equality.
abbrev pub kind_eq : RevocationKind → RevocationKind → Bool
kind_eq did did = true
kind_eq prompt_hash prompt_hash = true
kind_eq tool_version tool_version = true
kind_eq manifest_hash manifest_hash = true
kind_eq token_jti token_jti = true
kind_eq _ _ = false

pub record RevocationBody : Type 0 where
  pub kind : RevocationKind
  pub target : String
  pub reason : String
  pub revoked_at : ℕ
  pub signer : String

pub record RevocationEntry : Type 0 where
  pub kind : RevocationKind
  pub target : String
  pub reason : String
  pub revoked_at : ℕ
  pub signer : String
  pub signature : String

-- The keys outside: `sign` of a signer, with its error, and whether `verify` accepts a signature.
pub record Keys : Type 1 where
  pub Error : Type 0
  pub canonical_hash : RevocationBody → String
  pub sign : String → String → String ⊎ Error
  pub verify : String → String → String → Option Error

module _ (K : Keys) where
  unfoldable pub signed : RevocationBody → String ⊎ K.Error → RevocationEntry ⊎ K.Error
  signed body (inr e) = inr e
  signed body (inl signature) = inl (record {
    kind = body.kind;
    target = body.target;
    reason = body.reason;
    revoked_at = body.revoked_at;
    signer = body.signer;
    signature = signature;
  })

  -- The clock is an argument.
  unfoldable pub issue : RevocationKind → String → String → ℕ → String → RevocationEntry ⊎ K.Error
  unfolding signed
  issue kind target reason now signer_did =
      let body : RevocationBody = record {
        kind = kind;
        target = target;
        reason = reason;
        revoked_at = now;
        signer = signer_did;
      } in
      signed body (K.sign signer_did (K.canonical_hash body))

  unfoldable pub verify : RevocationEntry → Option K.Error
  verify e =
      K.verify e.signer
        (K.canonical_hash (record {
          kind = e.kind;
          target = e.target;
          reason = e.reason;
          revoked_at = e.revoked_at;
          signer = e.signer;
        }))
        e.signature

pub record InMemoryRevocationRegistry : Type 0 where
  pub entries : List RevocationEntry
  pub index : List (RevocationKind × String)

abbrev pub new : InMemoryRevocationRegistry
new = record { entries = []; index = [] }

-- `contains` of the index.
unfoldable pub holds : RevocationKind → String → List (RevocationKind × String) → Bool
holds kind target [] = false
holds kind target ((k, t) ∷ index) = (kind_eq k kind && str_eq t target) || holds kind target index

-- `insert` of the index.
unfoldable pub index_insert :
    RevocationKind → String → List (RevocationKind × String) → List (RevocationKind × String)
unfolding holds
index_insert kind target index = if holds kind target index then index else (kind, target) ∷ index

unfoldable pub revoke : RevocationEntry → InMemoryRevocationRegistry → InMemoryRevocationRegistry
unfolding index_insert
revoke entry r = record {
  entries = r.entries ++ entry ∷ [];
  index = index_insert entry.kind entry.target r.index;
}

unfoldable pub is_revoked : RevocationKind → String → InMemoryRevocationRegistry → Bool
unfolding holds
is_revoked kind target r = holds kind target r.index

abbrev pub list : InMemoryRevocationRegistry → List RevocationEntry
list r = r.entries
