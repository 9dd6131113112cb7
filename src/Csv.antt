-- ===== src/Csv.antt =====
-- The text format of records in lib/transport/binary/protocol33: the values, and what the
-- JavaScript runtime and the caller provide.
pub mod Serializer
pub mod Scan
pub mod Deserializer
pub mod RoundTrip
pub mod Keys
pub mod Documents
use orientjs.Text.{Text, text_eq}
use orientjs.Prelude.{Bool, Option, none, some, if◌then◌else◌, ℕ, List}
use orientjs.RecordId.{RecordId}

-- A JavaScript value. `number` and `date` carry the text of the number, as `'' + n` gives it.
-- `object` is any object by its own enumerable keys, in their order; the name of its class and
-- the mark of a record are the fields `@class` and `@type`. `undefined` is the value undefined,
-- `bag` a Bag by its text, `binary` a Buffer by its base64 text.
mutual
  pub data Value : Type 0 where
    null : Value
    undefined : Value
    boolean : Bool → Value
    number : Text → Value
    string : Text → Value
    date : Text → Value
    record_id : RecordId → Value
    array : Values → Value
    object : Fields → Value
    bag : Text → Value
    binary : Text → Value

  pub data Values : Type 0 where
    empty : Values
    cons : Value → Values → Values

  pub data Fields : Type 0 where
    end : Fields
    field : Text → Value → Fields → Fields

-- What the code takes from elsewhere: `to_number` gives, for the text of a numeral, the text of
-- the number that `+text` makes of it; `class_of` the transformer for a class name, if there is
-- one; `foreign_text` how a Bag or a Buffer is written, by its own keys; `string_of` gives the text of
-- `'' + value` for a value that is an object of any kind; `encode_utf8` is `Buffer.from(text, 'utf8')`
-- and `decode_utf8` is `buffer.toString('utf8')`.
pub record Runtime : Type 0 where
  pub to_number : Text → Text
  pub class_of : Text → Option (Fields → Value)
  pub foreign_text : Value → Text
  pub string_of : Value → Text
  pub encode_utf8 : Text → List ℕ
  pub decode_utf8 : List ℕ → Text

-- `fields[key]`
unfoldable pub find : Text → Fields → Option Value
unfolding text_eq
find k end = none
find k (field j v fs) = if text_eq j k then some v else find k fs

-- `fields[key] = value`
unfoldable pub set_field : Text → Value → Fields → Fields
unfolding text_eq
set_field k v end = field k v end
set_field k v (field j w fs) = if text_eq j k then field j v fs else field j w (set_field k v fs)
