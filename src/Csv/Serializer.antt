-- ===== src/Csv/Serializer.antt =====
-- lib/transport/binary/protocol33/serializer-csv.js. A document is given by its fields, with its
-- toOrient function, if it has one, applied.
use orientjs.Text.Decimal.{print_nat}
use orientjs.Text.{Text, codes, text_eq}
use orientjs.Prelude.{
  ℕ, Bool, true, false, ◌||◌, Option, none, some, List, [], ◌∷◌, ◌++◌, ◌==◌, if◌then◌else◌, suc,
}
use orientjs.Csv.{
  Value, undefined, null, boolean, number, string, date, record_id, array, object, bag, binary,
  Values, empty, cons, Fields, end, field, Runtime, find,
}
use orientjs.RecordId.{to_string}

-- `.replace(/\\/g, "\\\\").replace(/"/g, '\\"')`, the two replacements one after the other.
abbrev pub replace_char : ℕ → Text → Text → Text
replace_char c by [] = []
replace_char c by (d ∷ t) = (if d == c then by else d ∷ []) ++ replace_char c by t

unfoldable pub escape_string : Text → Text
escape_string t = replace_char b'"' (codes "\\\"") (replace_char b'\\' (codes "\\\\") t)

abbrev contains : ℕ → Text → Bool
contains c [] = false
contains c (d ∷ t) = d == c || contains c t

abbrev quote_text : Text → Text
quote_text t = b'"' ∷ (t ++ (b'"' ∷ []))

abbrev starts_with_at : Text → Bool
starts_with_at [] = false
starts_with_at (c ∷ t) = c == b'@'

-- `if (result[result.length - 1] === ',') result = result.slice(0, -1)`
unfoldable pub drop_last_comma : Text → Text
drop_last_comma [] = []
drop_last_comma (c ∷ []) = if c == b',' then [] else c ∷ []
drop_last_comma (c ∷ d ∷ t) = c ∷ drop_last_comma (d ∷ t)

-- `if (className !== '') result = className + '@' + result`; `none` is the empty string.
abbrev with_class : Option Text → Text → Text
with_class none t = t
with_class (some name) t = name ++ (b'@' ∷ t)

-- `value['@type'] && value['@type'].charAt(0) === 'd'`, for a type that is a string.
abbrev is_d : Option Value → Bool
is_d (some (string (c ∷ t))) = c == b'd'
is_d _ = false

-- A class name as it is put before `@`: only the string '' is left out.
abbrev class_text : Runtime → Value → Option Text
class_text env (string []) = none
class_text env (string (c ∷ t)) = some (c ∷ t)
class_text env undefined = some (codes "undefined")
class_text env null = some (codes "null")
class_text env (boolean true) = some (codes "true")
class_text env (boolean false) = some (codes "false")
class_text env (number t) = some t
class_text env (record_id r) = some (to_string r)
class_text env v = some (env.string_of v)

-- The class name: the last field called `@class`.
unfoldable pub class_name : Runtime → Option Text → Fields → Option Text
unfolding text_eq to_string
class_name env found end = found
class_name env found (field k v fs) =
    class_name env (if text_eq k (codes "@class") then class_text env v else found) fs

abbrev wrapped_key : Bool → Text → Text
wrapped_key is_map k = if is_map then quote_text k else k

abbrev pub is_skipped : Text → Value → Bool
is_skipped k undefined = true
is_skipped k _ = starts_with_at k

-- A value that is neither an array nor an object.
unfoldable pub scalar_text : Runtime → Value → Text
unfolding to_string escape_string
scalar_text env (boolean true) = codes "true"
scalar_text env (boolean false) = codes "false"
scalar_text env (number t) = if contains b'.' t then t ++ codes "d" else t
scalar_text env (string t) = quote_text (escape_string t)
scalar_text env (date t) = t ++ codes "t"
scalar_text env (record_id r) = to_string r
scalar_text env (bag t) = env.foreign_text (bag t)
scalar_text env (binary t) = env.foreign_text (binary t)
scalar_text env _ = []

-- `serializeDocument`, from the text of the fields.
unfoldable pub document_text : Runtime → Fields → Text → Text
unfolding class_name drop_last_comma
document_text env fs text = drop_last_comma (with_class (class_name env none fs) text)

-- `serializeObject`, from the texts of the fields without and with quotes round the keys.
unfoldable pub object_text : Runtime → Fields → Text → Text → Text
unfolding document_text find
object_text env fs bare quoted =
    if is_d (find (codes "@type") fs)
    then b'(' ∷ (document_text env fs bare ++ (b')' ∷ []))
    else b'{' ∷ (document_text env fs quoted ++ (b'}' ∷ []))

-- One field in the loop of `serializeDocument`, in front of the later ones.
abbrev pub field_text : Bool → Text → Value → Text → Text → Text
field_text is_map k v text rest =
    if is_skipped k v then rest else wrapped_key is_map k ++ (b':' ∷ (text ++ (b',' ∷ rest)))

module _ (env : Runtime) where
  unfoldable mutual
    unfolding scalar_text object_text

    -- `serializeValue`
    pub serialize_value : Value → Text
    serialize_value (array vs) = b'[' ∷ (serialize_items vs ++ (b']' ∷ []))
    serialize_value (object fs) =
        object_text env fs (serialize_fields false fs) (serialize_fields true fs)
    serialize_value v = scalar_text env v

    -- `serializeArray`, between its brackets.
    pub serialize_items : Values → Text
    serialize_items empty = []
    serialize_items (cons v empty) = serialize_item v
    serialize_items (cons v (cons w vs)) = serialize_item v ++ (b',' ∷ serialize_items (cons w vs))

    -- An item that is an object of any kind goes through `serializeObject`: an array there is
    -- written by its indices, and a date has no keys.
    pub serialize_item : Value → Text
    serialize_item (array vs) = b'{' ∷ (drop_last_comma (serialize_indexed 0 vs) ++ (b'}' ∷ []))
    serialize_item (object fs) =
        object_text env fs (serialize_fields false fs) (serialize_fields true fs)
    serialize_item (date t) = codes "{}"
    serialize_item v = scalar_text env v

    pub serialize_indexed : ℕ → Values → Text
    serialize_indexed i empty = []
    serialize_indexed i (cons v vs) =
        field_text true (print_nat i) v (serialize_value v) (serialize_indexed (suc i) vs)

    -- The loop of `serializeDocument` over the fields, each with a comma behind it.
    pub serialize_fields : Bool → Fields → Text
    serialize_fields is_map end = []
    serialize_fields is_map (field k v fs) =
        field_text is_map k v (serialize_value v) (serialize_fields is_map fs)

  -- `serializeDocument` of a record.
  unfoldable pub serialize_document : Fields → Text
  unfolding document_text serialize_fields
  serialize_document fs = document_text env fs (serialize_fields false fs)

  -- `encodeRecordData`
  unfoldable pub encode_record_data : Fields → List ℕ
  unfolding serialize_document
  encode_record_data fs = env.encode_utf8 (serialize_document fs)
