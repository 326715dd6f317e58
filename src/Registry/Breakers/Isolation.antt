-- ===== src/Registry/Breakers/Isolation.antt =====
-- Sequences of calls on the breaker registry of core/crates/aaf-registry/src/circuit_breaker.rs.
use agentic_application_fram.Base.{
  ℕ, ◌+◌, ◌≤◌, ◌<◌, ◌≡◌, ◌↔◌, ◌∙◌, refl, not, String, Option, none, some, Bool, true, false, List,
  [], ◌∷◌, arith, str_eq, eq_iff, if◌then◌else◌, lookup, adjust, map_option, lookup-insert,
  lookup-adjust, u32_max, Option-cases, inl, inr, All, Holds, Holds-adjust, Holds-insert,
}
use agentic_application_fram.Registry.CircuitBreaker.{
  BreakerLevel, BreakerConfig, BreakerInner, open_state, is_open, effective_state, new,
}
use agentic_application_fram.Registry.CircuitBreaker.Invariant.{
  IsValid, new-IsValid, record_failure-IsValid, record_success-IsValid, effective_state-IsValid,
}
use agentic_application_fram.Registry.Breakers.{
  Breakers, register, record_failure, record_success, allows, snapshot, all_snapshots, force_open,
  force_close, force_open_one, force_close_one, resolve,
}

-- One call of a client, with the clock at its moment.
pub data Call : Type 0 where
  add : String → BreakerLevel → BreakerConfig → Call
  failure : ℕ → String → Option String → Call
  success : ℕ → String → Call
  ask : ℕ → String → Call
  look : ℕ → String → Call
  look_at_all : ℕ → Call
  open_by_hand : ℕ → String → String → Call
  close_by_hand : String → Call

pub perform : Call → Breakers → Breakers
perform (add key level config) r = register key level config r
perform (failure now key reason) r = (record_failure now key reason r).0
perform (success now key) r = record_success now key r
perform (ask now key) r = (allows now key r).0
perform (look now key) r = (snapshot now key r).0
perform (look_at_all now) r = (all_snapshots now r).0
perform (open_by_hand now key reason) r = force_open now key reason r
perform (close_by_hand key) r = force_close key r

pub perform_all : List Call → Breakers → Breakers
perform_all [] r = r
perform_all (c ∷ cs) r = perform_all cs (perform c r)

-- Whether a call is about a key; the dashboard's snapshot is about every key.
abbrev pub touches : Call → String → Bool
touches (add key _ _) j = str_eq key j
touches (failure _ key _) j = str_eq key j
touches (success _ key) j = str_eq key j
touches (ask _ key) j = str_eq key j
touches (look _ key) j = str_eq key j
touches (look_at_all _) j = true
touches (open_by_hand _ key _) j = str_eq key j
touches (close_by_hand key) j = str_eq key j

lookup-adjust_other :
    (key j : String) (f : BreakerInner → BreakerInner) (r : Breakers)
    → str_eq key j ≡ false
    → lookup j (adjust key f r) ≡ lookup j r
lookup-adjust_other key j f r h = lookup-adjust key j f r ∙ (rw h)

lookup-register :
    (key j : String) (l : BreakerLevel) (c : BreakerConfig) (r : Breakers)
    → lookup j (register key l c r) ≡ (
        if str_eq key j
        then some (elim (lookup key r) [ none ↦ new l c | some b ↦ b ])
        else lookup j r)
unfolding register
lookup-register key j l c r = ground (arith, eq_iff key j, lookup-insert key j (new l c) r)

-- A call about one key leaves the breaker of every other key as it was.
pub perform-isolated :
    (c : Call) (j : String) (r : Breakers)
    → touches c j ≡ false
    → lookup j (perform c r) ≡ lookup j r
unfolding perform record_failure record_success allows snapshot force_open force_close
perform-isolated (add key l k) j r h = lookup-register key j l k r ∙ (rw h)
perform-isolated (look_at_all _) j r h = cc
perform-isolated (failure now key why) j r h = lookup-adjust_other key j _ r h
perform-isolated (success now key) j r h = lookup-adjust_other key j _ r h
perform-isolated (ask now key) j r h = lookup-adjust_other key j _ r h
perform-isolated (look now key) j r h = lookup-adjust_other key j _ r h
perform-isolated (open_by_hand now key why) j r h = lookup-adjust_other key j _ r h
perform-isolated (close_by_hand key) j r h = lookup-adjust_other key j _ r h

lookup-all_snapshots :
    (now : ℕ) (j : String) (r : Breakers)
    → lookup j (all_snapshots now r).0 ≡ map_option (resolve now) (lookup j r)
unfolding all_snapshots lookup
lookup-all_snapshots now j [] = refl
lookup-all_snapshots now j ((key, b) ∷ r) = ground (arith, lookup-all_snapshots now j r)

-- Every breaker of the registry is valid.
pub record AllValid (r : Breakers) : Type 0 where
  pub at : (j : String) → Holds IsValid (lookup j r)

-- A threshold is a `u32`.
abbrev pub Fits : Call → Type 0
Fits (add _ _ c) = c.failure_threshold ≤ u32_max
Fits _ = Unit

resolve-IsValid : (now : ℕ) (b : BreakerInner) → IsValid b → IsValid (resolve now b)
unfolding resolve
resolve-IsValid now b h = effective_state-IsValid now b h

force_open_one-IsValid :
    (now : ℕ) (why : String) (b : BreakerInner) → IsValid b → IsValid (force_open_one now why b)
unfolding force_open_one
force_open_one-IsValid now why b h = ground arith

force_close_one-IsValid : (b : BreakerInner) → IsValid b → IsValid (force_close_one b)
unfolding force_close_one
force_close_one-IsValid b h = ground arith

adjust-AllValid :
    (key : String) (f : BreakerInner → BreakerInner) (r : Breakers)
    → ((b : BreakerInner) → IsValid b → IsValid (f b))
    → AllValid r
    → AllValid (adjust key f r)
adjust-AllValid key f r keep h = record { at = λ j. Holds-adjust IsValid key j f r keep (h.at j) }

register-AllValid :
    (key : String) (l : BreakerLevel) (k : BreakerConfig) (r : Breakers)
    → k.failure_threshold ≤ u32_max
    → AllValid r
    → AllValid (register key l k r)
unfolding register
register-AllValid key l k r fits h = elim (Option-cases (lookup key r)) [
  | inl e ↦
      rw (e, register)
        (record {
          at = λ j. Holds-insert IsValid key j (new l k) r (new-IsValid l k fits) (h.at j);
        })
  | inr (b, e) ↦ rw (e, register) h
]

Holds-resolve :
    (now : ℕ) (o : Option BreakerInner)
    → Holds IsValid o
    → Holds IsValid (map_option (resolve now) o)
Holds-resolve now none h = tt
Holds-resolve now (some b) h = resolve-IsValid now b h

perform-AllValid : (c : Call) (r : Breakers) → Fits c → AllValid r → AllValid (perform c r)
unfolding perform record_failure record_success allows snapshot force_open force_close
perform-AllValid (add key l k) r fits h = register-AllValid key l k r fits h
perform-AllValid (look_at_all now) r fits h = record {
  at = λ j. rw lookup-all_snapshots (Holds-resolve now (lookup j r) (h.at j));
}
perform-AllValid (failure now key why) r fits h =
    adjust-AllValid key _ r (record_failure-IsValid now why) h
perform-AllValid (success now key) r fits h = adjust-AllValid key _ r (record_success-IsValid now) h
perform-AllValid (ask now key) r fits h = adjust-AllValid key _ r (resolve-IsValid now) h
perform-AllValid (look now key) r fits h = adjust-AllValid key _ r (resolve-IsValid now) h
perform-AllValid (open_by_hand now key why) r fits h =
    adjust-AllValid key _ r (force_open_one-IsValid now why) h
perform-AllValid (close_by_hand key) r fits h = adjust-AllValid key _ r force_close_one-IsValid h

-- From a registry whose breakers are all valid, and after any calls whose thresholds are of type
-- u32, every breaker is valid:
-- a closed one holds no failure or fewer than its threshold, and it has an opening time exactly
-- when it is not closed.
pub perform_all-AllValid :
    (cs : List Call) (r : Breakers) → All Fits cs → AllValid r → AllValid (perform_all cs r)
unfolding perform_all
perform_all-AllValid [] r fits h = h
perform_all-AllValid (c ∷ cs) r fits h =
    perform_all-AllValid cs (perform c r) fits.1 (perform-AllValid c r fits.0 h)

-- Less than the cooldown has passed since the opening, or no opening time is known.
abbrev pub StillHot : ℕ → ℕ → Option ℕ → Type 0
StillHot now cooldown none = Unit
StillHot now cooldown (some opened) = now < opened + cooldown

abbrev pub Refuses : ℕ → Option BreakerInner → Type 0
Refuses now none = ⊥
Refuses now (some b) = (b.state ≡ open_state) × StillHot now b.config.cooldown b.opened_at

refused_of :
    (now : ℕ) (b : BreakerInner)
    → (not (is_open (effective_state now b).1) ≡ false) ↔ Refuses now (some b)
unfolding effective_state
refused_of now b = ground arith

-- A request is refused exactly when a breaker is registered under its key, is open, and has not
-- been open for its cooldown; a key without a breaker is let through.
pub refused_iff :
    (now : ℕ) (key : String) (r : Breakers)
    → ((allows now key r).1 ≡ false) ↔ Refuses now (lookup key r)
unfolding allows
refused_iff now key r = elim (Option-cases (lookup key r)) [
  | inl e ↦ rw (e, allows) (ground arith)
  | inr (b, e) ↦ rw (e, allows) (refused_of now b)
]
