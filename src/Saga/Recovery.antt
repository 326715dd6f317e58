-- ===== src/Saga/Recovery.antt =====
-- core/crates/aaf-saga/src/recovery.rs: which recovery a failure gets.
use agentic_application_fram.Base.{
  ℕ, String, Option, none, some, false, List, [], ◌∷◌, ◌++◌, ◌≡◌, inl, inr, refl, ap, All, str_eq,
  eq_iff, if◌then◌else◌, Bool-cases,
}
use agentic_application_fram.Saga.Definition.{
  OnFailure, RecoveryAction, RecoveryRule, full_compensation, parse_u32,
}

pub data RecoveryDecision : Type 0 where
  apply : RecoveryRule → RecoveryDecision
  fallback : RecoveryAction → RecoveryDecision

decide_rules : String → List RecoveryRule → RecoveryDecision
decide_rules tag [] = fallback full_compensation
decide_rules tag (rule ∷ rules) =
    let rest = decide_rules tag rules in if str_eq rule.condition tag then apply rule else rest

unfoldable pub decide : String → Option OnFailure → RecoveryDecision
unfolding decide_rules
decide tag none = fallback full_compensation
decide tag (some policy) = decide_rules tag policy.rules

abbrev Misses : String → RecoveryRule → Type 0
Misses tag rule = str_eq rule.condition tag ≡ false

-- The rule that comes first among those whose condition is the tag.
pub record FirstMatch (tag : String) (rules : List RecoveryRule) (rule : RecoveryRule)
    : Type 0 where
  pub before : List RecoveryRule
  pub after : List RecoveryRule
  pub parts : rules ≡ before ++ rule ∷ after
  pub missed : All (Misses tag) before
  pub matched : rule.condition ≡ tag

-- What a policy with these rules decides for a tag.
pub data Decides (tag : String) (rules : List RecoveryRule) : RecoveryDecision → Type 0 where
  first : (rule : RecoveryRule) → FirstMatch tag rules rule → Decides tag rules (apply rule)
  nothing : All (Misses tag) rules → Decides tag rules (fallback full_compensation)

decides_later :
    (tag : String) (rule : RecoveryRule) (rules : List RecoveryRule) {d : RecoveryDecision}
    → Misses tag rule
    → Decides tag rules d
    → Decides tag (rule ∷ rules) d
decides_later tag rule rules miss (first r m) = first r (record {
  before = rule ∷ m.before;
  after = m.after;
  parts = ap (λ l. rule ∷ l) m.parts;
  missed = (miss, m.missed);
  matched = m.matched;
})
decides_later tag rule rules miss (nothing all) = nothing (miss, all)

decide_rules-Decides :
    (tag : String) (rules : List RecoveryRule) → Decides tag rules (decide_rules tag rules)
unfolding decide_rules
decide_rules-Decides tag [] = nothing tt
decide_rules-Decides tag (rule ∷ rules) = elim (Bool-cases (str_eq rule.condition tag)) [
  | inl hit ↦ rw hit (
      first rule (record {
        before = [];
        after = rules;
        parts = refl;
        missed = tt;
        matched = (eq_iff rule.condition tag).0 hit;
      }))
  | inr miss ↦ rw miss (decides_later tag rule rules miss (decide_rules-Decides tag rules))
]

abbrev pub rules_of : Option OnFailure → List RecoveryRule
rules_of none = []
rules_of (some policy) = policy.rules

-- The decision for a failure tag is the first rule whose condition is the tag, or a fallback to
-- full compensation where no rule of the step's policy has that condition or it has no policy.
pub decide-Decides :
    (tag : String) (policy : Option OnFailure) → Decides tag (rules_of policy) (decide tag policy)
unfolding decide
decide-Decides tag none = nothing tt
decide-Decides tag (some policy) = decide_rules-Decides tag policy.rules

abbrev pub action_of : RecoveryDecision → RecoveryAction
action_of (apply rule) = rule.action
action_of (fallback a) = a

numbers : List String → List ℕ
unfolding parse_u32
numbers [] = []
numbers (s ∷ ss) = elim (parse_u32 s) [ none ↦ numbers ss | some n ↦ n ∷ numbers ss ]

unfoldable pub preserve_set : RecoveryDecision → List ℕ
unfolding numbers
preserve_set (apply rule) = numbers rule.preserve
preserve_set (fallback a) = []
