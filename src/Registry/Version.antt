-- ===== src/Registry/Version.antt =====
-- core/crates/aaf-registry/src/version.rs and health.rs: the comparison of versions and the health of
-- capabilities.
use Prim.Native.Char.{code}
use Prim.Native.String.{◌++◌ as str_append}
use agentic_application_fram.Base.{
  ℕ, ◌+◌, ◌-◌, ◌*◌, ◌^◌, ◌≡◌, refl, arith, String, Option, none, some, Bool, true, false, ◌&&◌,
  List, [], ◌∷◌, Assoc, lookup, insert, if◌then◌else◌, ltb, leb, ◌==◌, is_empty,
}

pub data VersionOrdering : Type 0 where
  older equal newer invalid : VersionOrdering

-- `trim_start_matches('v')`
unfoldable pub trim_v : String → String
trim_v String.[] = String.[]
trim_v (String.◌∷◌ c s) = let rest = trim_v s in if code c == 118 then rest else String.◌∷◌ c s

-- The first part of a text before a dot, and the parts after it.
abbrev pub split_char : Bool → String → String × List String → String × List String
split_char true c (part, parts) = (String.[], part ∷ parts)
split_char false c (part, parts) = (str_append c part, parts)

unfoldable pub split_dots : String → String × List String
split_dots String.[] = (String.[], [])
split_dots (String.◌∷◌ c s) = split_char (code c == 46) (String.◌∷◌ c String.[]) (split_dots s)

-- The digits of a number with what stands before them; `none` where one is no digit or the number
-- does not fit in 32 bits.
unfoldable pub digits_from : ℕ → String → Option ℕ
digits_from n String.[] = some n
digits_from n (String.◌∷◌ c s) =
    let rest = digits_from (n * 10 + (code c - 48)) s in
    if leb 48 (code c) && leb (code c) 57 && ltb (n * 10 + (code c - 48)) (2 ^ 32)
    then rest
    else none

unfoldable pub digits_of : String → Option ℕ
unfolding digits_from
digits_of s = if is_empty s then none else digits_from 0 s

-- `parse::<u32>()`, which takes one plus sign.
unfoldable pub parse_u32 : String → Option ℕ
unfolding digits_of
parse_u32 String.[] = none
parse_u32 (String.◌∷◌ c s) = if code c == 43 then digits_of s else digits_of (String.◌∷◌ c s)

pub record Triple : Type 0 where
  pub major : ℕ
  pub minor : ℕ
  pub patch : ℕ

abbrev pub third : List String → String
third [] = "0"
third (p ∷ _) = p

-- `?` on three numbers.
abbrev pub triple : Option ℕ → Option ℕ → Option ℕ → Option Triple
triple (some a) (some b) (some c) = some (record { major = a; minor = b; patch = c })
triple _ _ _ = none

abbrev pub from_parts : String → List String → Option Triple
from_parts major [] = none
from_parts major (minor ∷ rest) =
    triple (parse_u32 major) (parse_u32 minor) (parse_u32 (third rest))

unfoldable pub parse : String → Option Triple
unfolding split_dots parse_u32
parse s = let (major, rest) = split_dots (trim_v s) in from_parts major rest

-- The order of tuples.
unfoldable pub order : Triple → Triple → VersionOrdering
order a b =
    if ltb a.major b.major
    then older
    else if ltb b.major a.major
    then newer
    else if ltb a.minor b.minor
    then older
    else if ltb b.minor a.minor
    then newer
    else if ltb a.patch b.patch
    then older
    else if ltb b.patch a.patch
    then newer
    else equal

abbrev pub order_parsed : Option Triple → Option Triple → VersionOrdering
order_parsed (some a) (some b) = order a b
order_parsed _ _ = invalid

unfoldable pub compare : String → String → VersionOrdering
unfolding parse order
compare a b = order_parsed (parse a) (parse b)

pub data HealthStatus : Type 0 where
  healthy degraded unhealthy : HealthStatus

-- The health monitor.
abbrev pub set : String → HealthStatus → Assoc HealthStatus → Assoc HealthStatus
set id status inner = insert id status inner

abbrev pub or_healthy : Option HealthStatus → HealthStatus
or_healthy none = healthy
or_healthy (some s) = s

unfoldable pub get : String → Assoc HealthStatus → HealthStatus
get id inner = or_healthy (lookup id inner)

-- The answer with the two versions exchanged.
abbrev pub flip : VersionOrdering → VersionOrdering
flip older = newer
flip equal = equal
flip newer = older
flip invalid = invalid

order-flip : (a b : Triple) → order b a ≡ flip (order a b)
unfolding order
order-flip a b = ground arith

parsed-flip : (o p : Option Triple) → order_parsed p o ≡ flip (order_parsed o p)
parsed-flip none none = refl
parsed-flip none (some b) = refl
parsed-flip (some a) none = refl
parsed-flip (some a) (some b) = order-flip a b

-- The comparison with the versions exchanged gives the opposite answer.
pub compare-flip : (a b : String) → compare b a ≡ flip (compare a b)
unfolding compare
compare-flip a b = parsed-flip (parse a) (parse b)
