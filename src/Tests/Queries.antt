-- ===== src/Tests/Queries.antt =====
-- Concrete runs of the query helpers and of the text format of records.
use orientjs.Prelude.{◌≡◌, refl, List, [], ◌∷◌, ◌++◌, some, none, arith, map}
use orientjs.Text.{Text, codes, text_eq}
use orientjs.Utils.Escape.{escape, read_literal, read_literal-escape}
use orientjs.Utils.Date.{UtcDate, InRange}
use orientjs.Utils.Parens.{Balanced}
use orientjs.Utils.Parens as Parens
use orientjs.Utils.Encode.{Value, number, string, array, empty, cons}
use orientjs.Utils.Prepare.{prepare_array}
use orientjs.Utils.Prepare.Safety.{fill, prepare_array-fill}
use orientjs.Utils.Prepare.Injection.{prepare_array_strings, prepare_array-Closed, fill_tokens}
use orientjs.Utils.Quoting.{
  Token, quoted, hole, plain, nil, single, Lexes, done, literal, mark, other, Closed,
}
use orientjs.Csv as Csv
use orientjs.Csv.Scan.{eat_string}
use orientjs.Csv.Keys.{HasKeys, HasDistinctKeys, string_fields}
use orientjs.Csv.Documents.{deserialize-serialize_document}
use orientjs.Csv.Serializer.{escape_string, serialize_value, encode_record_data}
use orientjs.Csv.Deserializer.{eat_value, eat_items, eat_scalar, deserialize}
use orientjs.Csv.RoundTrip.{
  strings, eat_string-escape_string, eat_value-serialize_value, eat_items_stuck,
}

read_literal-escape_example :
    read_literal (escape (codes "a\"b\\") ++ (b'"' ∷ codes " or 1"))
    ≡ some (codes "a\"b\\", codes " or 1")
read_literal-escape_example = read_literal-escape (codes "a\"b\\") (codes " or 1")

-- a = "?" ?
abbrev query : Text
query = codes "a \"?\" ?"

abbrev query_tokens : List Token
query_tokens = plain b'a' ∷ plain b' ' ∷ quoted b'"' (codes "?") ∷ plain b' ' ∷ hole ∷ []

query-Lexes : Lexes query query_tokens
query-Lexes = other b'a' refl refl (
    other b' ' refl refl
      (literal b'"' refl (single b'?' refl refl nil) refl (other b' ' refl refl (mark done))))

prepare_array_strings_example :
    Lexes
      (prepare_array query (map string (codes "x\"?" ∷ [])))
      (fill_tokens query_tokens (codes "x\"?" ∷ []))
prepare_array_strings_example = prepare_array_strings (codes "x\"?" ∷ []) query-Lexes

abbrev params : List Value
params = array (cons (string (codes "?")) (cons (number (codes "3")) empty)) ∷ []

prepare_array-fill_example : prepare_array query params ≡ fill query_tokens params
prepare_array-fill_example = prepare_array-fill params query-Lexes

prepare_array-Closed_example : Closed (prepare_array query params)
prepare_array-Closed_example =
    prepare_array-Closed params query-Lexes ((tt, (((refl, refl), tt), tt)), tt)

abbrev leap_day : UtcDate
leap_day = record {
  full_year = 2024;
  month = 1;
  day = 29;
  hours = 13;
  minutes = 5;
  seconds = 59;
  milliseconds = 7;
}

leap_day-InRange : InRange leap_day
leap_day-InRange = record {
  year_lt = omega arith;
  month_lt = omega arith;
  day_le = omega arith;
  hours_lt = omega arith;
  minutes_lt = omega arith;
  seconds_lt = omega arith;
  milliseconds_lt = omega arith;
}

-- (a)b
grouped-Balanced : Balanced (codes "(a)b")
grouped-Balanced =
    Parens.group (Parens.char b'a' refl refl refl Parens.nil) refl
      (Parens.char b'b' refl refl refl Parens.nil)

-- Numbers are kept as their text, there are no classes, a Bag is written as nothing, and
-- characters are ASCII.
abbrev plain_runtime : Csv.Runtime
plain_runtime = record {
  to_number = λ t. t;
  class_of = λ name. none;
  foreign_text = λ v. [];
  string_of = λ v. codes "[object Object]";
  encode_utf8 = λ t. t;
  decode_utf8 = λ b. b;
}

eat_string-escape_string_example :
    eat_string (escape_string (codes "a\"\\") ++ (b'"' ∷ codes ",b")) ≡ (codes "a\"\\", codes ",b")
eat_string-escape_string_example = eat_string-escape_string (codes "a\"\\") (codes ",b")

abbrev two_strings : List Text
two_strings = codes "a,b" ∷ codes "]\"" ∷ []

eat_value-serialize_value_example :
    eat_value plain_runtime 4
      (serialize_value plain_runtime (Csv.array (strings two_strings)) ++ codes ",x")
    ≡ some (Csv.array (strings two_strings), codes ",x")
eat_value-serialize_value_example =
    eat_value-serialize_value plain_runtime two_strings 3 (codes ",x") (omega arith)

eat_items_stuck_example : eat_items plain_runtime 8 b']' (codes "x]") ≡ none
unfolding eat_scalar
eat_items_stuck_example =
    eat_items_stuck plain_runtime b'x' (codes "]") 8 refl refl refl refl refl refl refl refl

abbrev city : Text × Text
city = (codes "city", codes "Rome, \"IT\"")

abbrev zip : Text × Text
zip = (codes "zip", codes "00100")

city_keys : HasKeys (city ∷ zip ∷ [])
city_keys = ground arith

city_distinct : HasDistinctKeys (city ∷ zip ∷ [])
unfolding text_eq
city_distinct = ((refl, tt), (tt, tt))

deserialize-serialize_document_example :
    deserialize plain_runtime 2 1
      (some (encode_record_data plain_runtime (string_fields (city ∷ zip ∷ []))))
    ≡ some (
        Csv.object
          (Csv.field (codes "@type") (Csv.string (codes "d")) (string_fields (city ∷ zip ∷ []))))
deserialize-serialize_document_example =
    deserialize-serialize_document plain_runtime city (zip ∷ []) 2 0 refl city_keys city_distinct
      (omega arith)
