-- ===== src/Base/Words.antt =====
-- Operations on texts: `split_whitespace`, `contains` and `join`.
use Prim.Native.Nat.{ℕ, zero, suc, ◌/◌, ◌%◌}
use Prim.Native.Char.{code}
use Prim.Native.String.{String, ◌++◌ as str_append}
use mathlib.Core.Bool.{Bool, true, false, ◌&&◌, ◌||◌}
use mathlib.Core.List.{List, [], ◌∷◌}
use agentic_application_fram.Base.Tests.{ltb, ◌==◌, if◌then◌else◌}
use agentic_application_fram.Base.Trim.{is_empty, is_whitespace}

abbrev push_word : String → List String → List String
push_word w ws = if is_empty w then ws else w ∷ ws

-- The word that a text begins with, and the words after it.
abbrev add_char : Bool → String → String × List String → String × List String
add_char true c (w, ws) = ("", push_word w ws)
add_char false c (w, ws) = (str_append c w, ws)

unfoldable pub words_from : String → String × List String
words_from String.[] = ("", [])
words_from (String.◌∷◌ c s) =
    add_char (is_whitespace (code c)) (String.◌∷◌ c String.[]) (words_from s)

unfoldable pub split_whitespace : String → List String
unfolding words_from
split_whitespace s = let (w, ws) = words_from s in push_word w ws

unfoldable pub starts_with : String → String → Bool
starts_with String.[] s = true
starts_with (String.◌∷◌ c p) String.[] = false
starts_with (String.◌∷◌ c p) (String.◌∷◌ d s) = code c == code d && starts_with p s

unfoldable pub contains : String → String → Bool
unfolding starts_with
contains p String.[] = is_empty p
contains p (String.◌∷◌ d s) = starts_with p (String.◌∷◌ d s) || contains p s

unfoldable pub join : String → List String → String
join separator [] = ""
join separator (w ∷ []) = w
join separator (w ∷ v ∷ ws) = str_append w (str_append separator (join separator (v ∷ ws)))

-- The decimal digits of a number.
abbrev digit : ℕ → String
digit d =
    if d == 0
    then "0"
    else if d == 1
    then "1"
    else if d == 2
    then "2"
    else if d == 3
    then "3"
    else if d == 4
    then "4"
    else if d == 5
    then "5"
    else if d == 6
    then "6"
    else if d == 7
    then "7"
    else if d == 8
    then "8"
    else "9"

-- With the digits before the last one, of which a number has fewer than its value.
digits : ℕ → ℕ → String
digits zero n = digit n
digits (suc fuel) n =
    let before = digits fuel (n / 10) in
    if ltb n 10 then digit n else str_append before (digit (n % 10))

unfoldable pub decimal : ℕ → String
unfolding digits
decimal n = digits n n
