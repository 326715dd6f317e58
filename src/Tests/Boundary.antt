-- ===== src/Tests/Boundary.antt =====
-- The parts at the edge of the framework at concrete inputs: a proposal, revocations, entities, calls
-- of a model, and the renaming of fields.
use agentic_application_fram.Base.{
  ℕ, ◌-◌, ◌≡◌, refl, String, none, some, true, false, [], ◌∷◌, Assoc, lookup, any, ◌≤◌, FirstWith,
  arith,
}
use agentic_application_fram.Surface.{Draft, build, drafted, ok, default_hints}
use agentic_application_fram.Surface.Lifecycle.{
  publishing, accepting, expiring, Reviewed, perform_all, build-Reviewed,
}
use agentic_application_fram.Identity.{
  RevocationKind, did, prompt_hash, RevocationEntry, InMemoryRevocationRegistry, is_revoked, list,
}
use agentic_application_fram.Identity as Identity
use agentic_application_fram.Identity.Revocation.{revoke_all, names, is_revoked_iff}
use agentic_application_fram.Ontology.{Entity, Classification, initial, references, exactly_one}
use agentic_application_fram.Ontology.Upserts.{
  Closed, Later, upsert_all, upsert_all-Closed, upsert_all-Later,
}
use agentic_application_fram.Llm.{Provider, answer}
use agentic_application_fram.Llm.Spending.{tokens_of, Spends, calls-Spends}
use agentic_application_fram.Sidecar.{object, rename}
use agentic_application_fram.Sidecar.Renaming.{rename-rename}
use agentic_application_fram.Federation.{
  FederationAgreement, Router, EntityAccessRule, writing, internal_cap, agreement_for,
  with_entity_rules, enforce_capability, has_entity_rules,
}
use agentic_application_fram.Federation.Boundary.{Between, Within, enforce-Within}
use agentic_application_fram.Tests.Planner.{refund}
use agentic_application_fram.Tests.Samples.{thousandths, sample_budget}

abbrev request : Draft ℕ
request = record {
  intent_id = "int-1";
  trace_id = "tr-1";
  tenant_id = "acme";
  summary = "refund";
  rationale = "the order was late";
  mutations =
      record {
        entity_ref = record { entity_id = "commerce.Order"; tenant = some "acme" };
        field_path = "status";
        from_value = 0;
        to_value = 1;
        preview_renderer_hint = none;
        reversible = true;
        compensation_ref = record { capability = "cap-undo" };
      }
      ∷ [];
  artifacts = [];
  ui_hints = default_hints;
  compensation_ref = some (record { capability = "cap-undo" });
  expires_at = 9000;
}

was_built : build ℕ "prop-1" 1000 request ≡ ok (drafted ℕ "prop-1" 1000 request)
unfolding build
was_built = refl

build-Reviewed_example :
    Reviewed ℕ request
      (perform_all ℕ (publishing ∷ accepting ∷ expiring ∷ []) (drafted ℕ "prop-1" 1000 request))
build-Reviewed_example =
    build-Reviewed ℕ "prop-1" 1000 request (drafted ℕ "prop-1" 1000 request)
      (publishing ∷ accepting ∷ expiring ∷ []) was_built

abbrev stolen_key : RevocationEntry
stolen_key = record {
  kind = did;
  target = "did:aaf:mallory";
  reason = "stolen key";
  revoked_at = 1000;
  signer = "did:aaf:root";
  signature = "5160";
}

is_revoked_iff_example :
    (is_revoked did "did:aaf:mallory" (revoke_all (stolen_key ∷ []) Identity.new)
      ≡ any (names did "did:aaf:mallory") (stolen_key ∷ []))
    × (list (revoke_all (stolen_key ∷ []) Identity.new) ≡ stolen_key ∷ [])
is_revoked_iff_example = is_revoked_iff did "did:aaf:mallory" (stolen_key ∷ [])

abbrev customer : Entity
customer = record {
  id = "crm.Customer";
  version = initial;
  description = "a customer";
  classification = Classification.pii;
  fields = [];
  relations = [];
  owner_service = none;
}

abbrev order : Entity
order = record {
  id = "commerce.Order";
  version = initial;
  description = "an order";
  classification = Classification.internal;
  fields = [];
  relations =
      record {
        kind = references;
        from = "commerce.Order";
        to = "crm.Customer";
        cardinality = exactly_one;
        description = "";
      }
      ∷ [];
  owner_service = none;
}

abbrev lower_customer : Entity
lower_customer = record customer { classification = Classification.public }

empty-Closed : Closed []
unfolding lookup
empty-Closed = λ id. tt

upsert_all-Closed_example : Closed (upsert_all ((customer, false) ∷ (order, false) ∷ []) [])
upsert_all-Closed_example =
    upsert_all-Closed ((customer, false) ∷ (order, false) ∷ []) [] empty-Closed

customer_there : lookup "crm.Customer" (("crm.Customer", customer) ∷ []) ≡ some customer
unfolding lookup
customer_there = refl

upsert_all-Later_example : Later false customer (
    lookup "crm.Customer" (
      upsert_all ((order, false) ∷ (lower_customer, false) ∷ []) (("crm.Customer", customer) ∷ [])))
upsert_all-Later_example =
    upsert_all-Later false ((order, false) ∷ (lower_customer, false) ∷ []) "crm.Customer" customer
      (("crm.Customer", customer) ∷ []) ((λ e. refl), ((λ e. refl), tt)) customer_there

-- A provider that counts its calls.
abbrev counting : Provider thousandths String ℕ
counting req n = (
  answer (record {
    content = req;
    tokens_in = 600;
    tokens_out = 100;
    cost_usd = 1000001;
    model = "m";
  }),
  n,
)

counting-bounded :
    (req : String) (w : ℕ) → tokens_of thousandths String ℕ counting (counting req w).0 ≤ 700
counting-bounded req w = omega arith

calls-Spends_example :
    Spends thousandths String ℕ counting 700 counting-bounded ("a" ∷ "b" ∷ "c" ∷ []) sample_budget 0
calls-Spends_example =
    calls-Spends thousandths String ℕ counting 700 counting-bounded ("a" ∷ "b" ∷ "c" ∷ [])
      sample_budget 0

abbrev there : Assoc String
there = ("name", "account_name") ∷ []

abbrev back : Assoc String
back = ("account_name", "name") ∷ []

abbrev fields : Assoc ℕ
fields = ("name", 1) ∷ ("size", 2) ∷ []

rename-rename_example : rename ℕ (rename ℕ (object fields) there) back ≡ object fields
unfolding lookup
rename-rename_example = rename-rename ℕ there back fields (refl, (refl, tt)) (refl, (refl, tt))

abbrev order_rule : EntityAccessRule
order_rule = record {
  entity_id = "commerce.Order";
  op = writing;
  max_classification = some internal_cap;
  tenant = some "acme";
}

abbrev cells : Router
cells = record {
  cells = [];
  agreements = with_entity_rules ("cell-japan" ∷ "cell-eu" ∷ []) [] (order_rule ∷ []) ∷ [];
}

let_through : enforce_capability thousandths "cell-japan" "cell-eu" refund cells ≡ none
unfolding enforce_capability agreement_for agentic_application_fram.Base.find
let_through = refl

enforce-Within_example :
    (a : FederationAgreement) × FirstWith (Between "cell-japan" "cell-eu") a cells.agreements
    × (has_entity_rules a.entity_rules ≡ true → Within thousandths a refund)
enforce-Within_example = enforce-Within thousandths "cell-japan" "cell-eu" refund cells let_through
