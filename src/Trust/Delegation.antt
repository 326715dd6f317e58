-- ===== src/Trust/Delegation.antt =====
-- core/crates/aaf-trust/src/delegation.rs: the trust that is left along a chain of delegations.
use agentic_application_fram.Base.{
  min, ◌≡◌, ◌↔◌, List, [], ◌∷◌, Option, none, some, arith, leb, if◌then◌else◌, All,
}
use agentic_application_fram.Contracts.Trust.{AutonomyLevel, as_u8, from_u8}

-- `InsufficientTrust`, with the level that is required and the effective one.
pub record InsufficientTrust : Type 0 where
  pub required : AutonomyLevel
  pub effective : AutonomyLevel

unfoldable pub effective_trust : AutonomyLevel → AutonomyLevel → AutonomyLevel
effective_trust delegator delegatee = from_u8 (min (as_u8 delegator) (as_u8 delegatee))

-- `none` is `Ok(())`.
unfoldable pub require : AutonomyLevel → AutonomyLevel → Option InsufficientTrust
require required effective =
    if leb (as_u8 required) (as_u8 effective)
    then none
    else some (record { required = required; effective = effective })

-- The trust that is left at the end of a chain of delegations.
pub chain_trust : AutonomyLevel → List AutonomyLevel → AutonomyLevel
chain_trust a [] = a
chain_trust a (b ∷ bs) = chain_trust (effective_trust a b) bs

as_u8-effective_trust :
    (a b : AutonomyLevel) → as_u8 (effective_trust a b) ≡ min (as_u8 a) (as_u8 b)
unfolding effective_trust as_u8 from_u8
as_u8-effective_trust a b = ground arith

require-effective_trust :
    (r a b : AutonomyLevel)
    → (require r (effective_trust a b) ≡ none) ↔ ((require r a ≡ none) × (require r b ≡ none))
unfolding require
require-effective_trust r a b = ground (arith, as_u8-effective_trust a b)

-- A requirement is met at the end of a chain of delegations exactly when every agent of the chain
-- meets it by itself.
pub require-chain_trust :
    (r a : AutonomyLevel) (bs : List AutonomyLevel)
    → (require r (chain_trust a bs) ≡ none)
      ↔ ((require r a ≡ none) × All (λ b. require r b ≡ none) bs)
unfolding chain_trust
require-chain_trust r a [] = (λ h. (h, tt), λ h. h.0)
require-chain_trust r a (b ∷ bs) =
    let rest = require-chain_trust r (effective_trust a b) bs in
    let here = require-effective_trust r a b in
    (
      λ h. let both = here.0 (rest.0 h).0 in (both.0, (both.1, (rest.0 h).1)),
      λ h. rest.1 (here.1 (h.0, h.1.0), h.1.1),
    )
