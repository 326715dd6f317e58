-- ===== src/Saga/Definition.antt =====
-- core/crates/aaf-saga/src/definition.rs and state.rs: the parsed form of a saga, and its states.
use Prim.Native.Char.{code}
use agentic_application_fram.Base.{
  ℕ, ◌+◌, ◌-◌, ◌*◌, String, Option, none, some, Bool, true, false, ◌&&◌, List, [], ◌∷◌, leb, ◌==◌,
  if◌then◌else◌, u32_max,
}

pub data StepKind : Type 0 where
  deterministic agent approval : StepKind

pub data CompensationType : Type 0 where
  mandatory best_effort no_compensation : CompensationType

abbrev pub default_compensation : CompensationType
default_compensation = best_effort

pub data RecoveryAction : Type 0 where
  pause_and_ask_user retry_with_alternative partial_compensation : RecoveryAction
  full_compensation skip : RecoveryAction

pub record RecoveryRule : Type 0 where
  pub condition : String
  pub action : RecoveryAction
  pub preserve : List String

pub record OnFailure : Type 0 where
  pub strategy : String
  pub rules : List RecoveryRule

pub record SagaStep : Type 0 where
  pub step : ℕ  -- u32
  pub name : String
  pub kind : StepKind
  pub capability : String
  pub compensation : Option String
  pub compensation_type : CompensationType
  pub on_failure : Option OnFailure

pub record SagaDefinition : Type 0 where
  pub name : String
  pub description : Option String
  pub steps : List SagaStep

pub data SagaState : Type 0 where
  initiated running step_failed analyzing recovery_selected : SagaState
  in_partial_compensation waiting_for_input resumed in_full_compensation : SagaState
  failed completed : SagaState

unfoldable pub is_terminal : SagaState → Bool
is_terminal completed = true
is_terminal failed = true
is_terminal _ = false

-- `str::parse::<u32>`: an optional plus sign, then at least one digit, within range.
codes : String → List ℕ
codes String.[] = []
codes (String.◌∷◌ c s) = code c ∷ codes s

parse_digits : ℕ → List ℕ → Option ℕ
parse_digits n [] = some n
parse_digits n (c ∷ cs) =
    let m = n * 10 + (c - 48) in
    let rest = parse_digits m cs in if leb 48 c && leb c 57 && leb m u32_max then rest else none

parse_codes : List ℕ → Option ℕ
unfolding parse_digits
parse_codes [] = none
parse_codes (c ∷ []) = if c == 43 then none else parse_digits 0 (c ∷ [])
parse_codes (c ∷ d ∷ cs) = if c == 43 then parse_digits 0 (d ∷ cs) else parse_digits 0 (c ∷ d ∷ cs)

unfoldable pub parse_u32 : String → Option ℕ
unfolding codes parse_codes
parse_u32 s = parse_codes (codes s)
