-- ===== src/Utils/Encode.antt =====
-- `encode` of lib/utils.js: a value as text for a query.
use orientjs.Text.{Text, codes}
use orientjs.Prelude.{Bool, true, false, [], ◌∷◌, ◌++◌}
use orientjs.RecordId.{RecordId, to_string}
use orientjs.Utils.Date.{UtcDate, get_orient_db_utc_date}
use orientjs.Utils.Escape.{escape}

-- A JavaScript value. `nothing` is null or undefined, `number` carries the text that `'' + n`
-- gives, `custom` an object with a toOrient function, by that function's result, and `fields` any
-- other object, by its own keys in their order.
mutual
  pub data Value : Type 0 where
    nothing : Value
    raw : Text → Value
    number : Text → Value
    boolean : Bool → Value
    string : Text → Value
    date : UtcDate → Value
    record_id : RecordId → Value
    custom : Value → Value
    array : Values → Value
    fields : Fields → Value

  pub data Values : Type 0 where
    empty : Values
    cons : Value → Values → Values

  pub data Fields : Type 0 where
    end : Fields
    field : Text → Value → Fields → Fields

abbrev pub quote_text : Text → Text
quote_text t = b'"' ∷ (t ++ b'"' ∷ [])

abbrev date_tail : Text
date_tail = codes "\", \"yyyy-MM-dd HH:mm:ss.SSS\", \"UTC\")"

unfoldable mutual
  unfolding escape to_string get_orient_db_utc_date

  pub encode : Value → Text
  encode nothing = codes "null"
  encode (raw t) = t
  encode (number t) = t
  encode (boolean true) = codes "true"
  encode (boolean false) = codes "false"
  encode (string t) = quote_text (escape t)
  encode (date d) = codes "date(\"" ++ (get_orient_db_utc_date d ++ date_tail)
  encode (record_id r) = to_string r
  encode (custom v) = encode v
  encode (array vs) = b'[' ∷ (encode_items vs ++ b']' ∷ [])
  encode (fields fs) = b'{' ∷ (encode_fields fs ++ b'}' ∷ [])

  -- The texts of the values, with a comma between each two.
  pub encode_items : Values → Text
  encode_items empty = []
  encode_items (cons v empty) = encode v
  encode_items (cons v (cons w vs)) = encode v ++ (b',' ∷ encode_items (cons w vs))

  pub encode_fields : Fields → Text
  encode_fields end = []
  encode_fields (field k v end) = quote_text (escape k) ++ (b':' ∷ encode v)
  encode_fields (field k v (field l w fs)) =
      quote_text (escape k) ++ (b':' ∷ (encode v ++ (b',' ∷ encode_fields (field l w fs))))
