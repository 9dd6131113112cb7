-- ===== src/Utils/Prepare.antt =====
-- `prepare` of lib/utils.js, with the backtracking of its regular expressions.
pub mod Safety
pub mod Injection
use orientjs.Text.{Text, text_eq, is_digit}
use orientjs.Prelude.{
  ℕ, zero, suc, Bool, ◌&&◌, ◌||◌, Option, none, some, List, [], ◌∷◌, ◌++◌, leb, ◌==◌, if◌then◌else◌,
  length,
}
use orientjs.Utils.Encode.{Value, nothing, encode}
use orientjs.Utils.Quoting.{is_quote}

abbrev or_else : Option (Text × Text) → Option (Text × Text) → Option (Text × Text)
or_else none n = n
or_else (some r) n = some r

abbrev put_before : Text → Option (Text × Text) → Option (Text × Text)
put_before s none = none
put_before s (some (t, rest)) = some (s ++ t, rest)

-- `(\\[\s\S]|[^q])*q` at the start of a text: what it takes, and the rest. An escape is tried
-- first; where no closing quote can be found that way, the backslash is taken alone.
unfoldable pub match_literal : ℕ → Text → Option (Text × Text)
match_literal q [] = none
match_literal q (c ∷ []) = if c == q then some (c ∷ [], []) else none
match_literal q (c ∷ d ∷ t) =
    let pair = put_before (c ∷ d ∷ []) (match_literal q t) in
    let alone = put_before (c ∷ []) (match_literal q (d ∷ t)) in
    if c == q then some (c ∷ [], d ∷ t) else if c == b'\\' then or_else pair alone else alone

-- The literal that begins with the quote `c`, if there is one.
abbrev literal_at : ℕ → Text → Option (Text × Text)
literal_at c t = if is_quote c then put_before (c ∷ []) (match_literal c t) else none

-- `params[n++]`: behind the end it is undefined.
abbrev next_param : List Value → Value × List Value
next_param [] = (nothing, [])
next_param (v ∷ vs) = (v, vs)

-- The scan of `replace`, which goes on behind each match. The first number is the fuel.
array_fuel : ℕ → Text → List Value → Text
unfolding match_literal encode
array_fuel zero t ps = []
array_fuel (suc f) [] ps = []
array_fuel (suc f) (c ∷ t) ps =
    let (v, vs) = next_param ps in
    let filled = encode v ++ array_fuel f t vs in
    let copied = c ∷ array_fuel f t ps in
    elim (literal_at c t) [
      | some (lit, rest) ↦ lit ++ array_fuel f rest ps
      | none ↦ if c == b'?' then filled else copied
    ]

-- `prepareArray`. Each match takes a character at least.
unfoldable pub prepare_array : Text → List Value → Text
unfolding array_fuel
prepare_array query params = array_fuel (suc (length query)) query params

abbrev is_letter : ℕ → Bool
is_letter c = (leb b'A' c && leb c b'Z') || (leb b'a' c && leb c b'z')

-- [A-Za-z0-9_-]
abbrev is_name_char : ℕ → Bool
is_name_char c = is_letter c || is_digit c || c == b'_' || c == b'-'

span_name : Text → Text × Text
span_name [] = ([], [])
span_name (c ∷ t) =
    let (name, rest) = span_name t in if is_name_char c then (c ∷ name, rest) else ([], c ∷ t)

-- `:([A-Za-z][A-Za-z0-9_-]*)` at the start of a text: the name, and the rest.
match_name : Text → Option (Text × Text)
unfolding span_name
match_name (c ∷ d ∷ t) = if c == b':' && is_letter d then some (span_name (d ∷ t)) else none
match_name _ = none

-- `params[name]`, `none` where it is undefined.
unfoldable pub find_param : Text → List (Text × Value) → Option Value
unfolding text_eq
find_param k [] = none
find_param k ((j, v) ∷ ps) = if text_eq j k then some v else find_param k ps

-- `[^A-Za-z0-9]` and the name behind it.
abbrev name_at : ℕ → Text → Option (Text × Text)
unfolding match_name
name_at c t = if is_letter c || is_digit c then none else match_name t

-- What stands for a name: its value, or the text that was matched.
abbrev name_value : Text → Option Value → Text
name_value name none = b':' ∷ name
name_value name (some v) = encode v

object_fuel : ℕ → Text → List (Text × Value) → Text
unfolding match_literal name_at find_param encode
object_fuel zero t ps = []
object_fuel (suc f) [] ps = []
object_fuel (suc f) (c ∷ t) ps =
    let copied = c ∷ object_fuel f t ps in
    elim (literal_at c t) [
      | some (lit, rest) ↦ lit ++ object_fuel f rest ps
      | none ↦ elim (name_at c t) [
        | some (name, rest) ↦ c ∷ (name_value name (find_param name ps) ++ object_fuel f rest ps)
        | none ↦ copied
      ]
    ]

-- `prepareObject`
unfoldable pub prepare_object : Text → List (Text × Value) → Text
unfolding object_fuel
prepare_object query params = object_fuel (suc (length query)) query params

-- The parameters that a caller gives: none, an array, or an object.
pub data Params : Type 0 where
  absent : Params
  listed : List Value → Params
  named : List (Text × Value) → Params

unfoldable pub prepare : Text → Params → Text
unfolding prepare_array prepare_object
prepare query absent = query
prepare query (listed ps) = prepare_array query ps
prepare query (named ps) = prepare_object query ps
