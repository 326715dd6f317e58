-- ===== src/Runtime/Node/Rollback.antt =====
-- core/crates/aaf-runtime/src/compensation.rs: how a rollback of the compensation chain ends.
use agentic_application_fram.Base.{
  ℕ, suc, ◌+◌, ◌≡◌, refl, ap, String, List, [], ◌∷◌, ◌++◌, Assoc, insert, length, arith,
}
use agentic_application_fram.Float.{Float}
use agentic_application_fram.Contracts.Intent.{IntentEnvelope}
use agentic_application_fram.Runtime.Node.{
  Node, NodeOutput, NodeResult, ok, err, RuntimeError, compensation_failed, CompensationChain,
  Compensated, all, failed, after_compensator, rollback_from, rollback,
}

module _ (F : Float) (W : Type 0) (intent : IntentEnvelope F) where
  -- A compensator of the chain failed, and those queued before it are left. (The chain is kept with
  -- its last element first.)
  pub record Stopped (chain left : CompensationChain F W) (e : RuntimeError) : Type 0 where
    pub undone : CompensationChain F W
    pub id : String
    pub compensator : Node F W
    pub cause : RuntimeError
    pub given : Assoc (NodeOutput F)
    pub world : W
    pub parts : chain ≡ undone ++ (id, compensator) ∷ left
    pub fails : (compensator.run intent given world).0 ≡ err cause
    pub error : e ≡ compensation_failed id cause

  -- Either the chain is drained, with one output for each compensator, or it has stopped.
  abbrev pub Ends : ℕ → CompensationChain F W → CompensationChain F W → Compensated F W → Type 0
  Ends n chain left (all outs) = (left ≡ []) × (length outs ≡ n + length chain)
  Ends n chain left (failed e) = Stopped chain left e

  Ends-longer :
      (id : String) (comp : Node F W) (n : ℕ) (chain left : CompensationChain F W)
      (c : Compensated F W)
      → Ends (suc n) chain left c
      → Ends n ((id, comp) ∷ chain) left c
  Ends-longer id comp n chain left (all outs) h = (h.0, omega (arith, h.1))
  Ends-longer id comp n chain left (failed e) h = record {
    undone = (id, comp) ∷ h.undone;
    id = h.id;
    compensator = h.compensator;
    cause = h.cause;
    given = h.given;
    world = h.world;
    parts = ap (λ l. (id, comp) ∷ l) h.parts;
    fails = h.fails;
    error = h.error;
  }

  -- The result of one compensator, where the rest of the loop ends in one of those ways.
  after_compensator-Ends :
      (id : String) (comp : Node F W) (chain : CompensationChain F W) (prior : Assoc (NodeOutput F))
      (outs : List (NodeOutput F)) (w w' : W) (r : NodeResult F)
      → (comp.run intent prior w).0 ≡ r
      → ((o : NodeOutput F)
          → let rest = rollback_from F W intent chain (insert id o prior) (o ∷ outs) w' in
            Ends (suc (length outs)) chain rest.0 rest.1)
      → let x = after_compensator F W (rollback_from F W intent chain) chain id prior outs r w' in
        Ends (length outs) ((id, comp) ∷ chain) x.0 x.1
  unfolding after_compensator
  after_compensator-Ends id comp chain prior outs w w' (ok o) e rest =
      Ends-longer id comp (length outs) chain _ _ (rest o)
  after_compensator-Ends id comp chain prior outs w w' (err cause) e rest = record {
    undone = [];
    id = id;
    compensator = comp;
    cause = cause;
    given = prior;
    world = w;
    parts = refl;
    fails = e;
    error = refl;
  }

  rollback_from-Ends :
      (chain : CompensationChain F W) (prior : Assoc (NodeOutput F)) (outs : List (NodeOutput F))
      (w : W)
      → let x = rollback_from F W intent chain prior outs w in Ends (length outs) chain x.0 x.1
  unfolding rollback_from
  rollback_from-Ends [] prior outs w = (refl, omega arith)
  rollback_from-Ends ((id, comp) ∷ chain) prior outs w =
      after_compensator-Ends id comp chain prior outs w (comp.run intent prior w).1 _ refl
        (λ o. rollback_from-Ends chain (insert id o prior) (o ∷ outs) _)

  -- A rollback that succeeds has drained the chain and returns one output for each compensator. One
  -- that fails has stopped at a compensator that failed: its error names that compensator's step and
  -- carries the cause, and the compensators queued before it are left in the chain.
  pub rollback-Ends :
      (chain : CompensationChain F W) (w : W)
      → Ends 0 chain (rollback F W intent chain w).0 (rollback F W intent chain w).1
  unfolding rollback
  rollback-Ends chain w = rollback_from-Ends chain [] [] w
