-- ===== src/Binary.antt =====
-- lib/client/network/protocol37: the values of the binary record format, and what the JavaScript
-- runtime and the packages `signed-varint` and `node-biginteger` provide.
pub mod Write
pub mod Layout
pub mod Serializer
pub mod Parse
pub mod Deserializer
pub mod Kept
pub mod Reads
pub mod Written
pub mod Loops
pub mod Steps
pub mod Scalars
pub mod Containers
pub mod RoundTrip
pub mod Hazards
use orientjs.Text.{Text, codes, text_eq}
use orientjs.Buffer.{Bytes}
use orientjs.Prelude.{Bool, true, false, ℤ, pos, zero, Option, none, some, [], if◌then◌else◌, ℕ}

-- A JavaScript value. `integer` is a number that Number.isInteger accepts, `fraction` any other
-- number, by the eight bytes of its IEEE form. `raw` is a RawExpression by its text, `link` a
-- RecordID whose two fields are integers, `date` a Date by its time. `object` is any other object
-- by its own enumerable keys, in the order in which they were set, and `bag` an ORidBag or its
-- delegate, in the same way.
mutual
  pub data Value : Type 0 where
    null : Value
    undefined : Value
    boolean : Bool → Value
    integer : ℤ → Value
    fraction : Bytes → Value
    string : Text → Value
    raw : Text → Value
    link : ℤ → ℤ → Value
    date : ℤ → Value
    array : Values → Value
    object : Fields → Value
    bag : Fields → Value
    callable : Value
    symbol : Value

  pub data Values : Type 0 where
    empty : Values
    cons : Value → Values → Values

  pub data Fields : Type 0 where
    end : Fields
    field : Text → Value → Fields → Fields

-- `encode` is varint.encode on one argument, `none` where it throws; `decode` gives
-- varint.decode(buffer, offset) and varint.decode.bytes. `utf8` is Buffer.from on a string, and
-- `text_of` toString("utf8"); `read_float` and `read_double` make a number of four and of eight
-- bytes. `big_number` is BigInteger.fromBuffer with the sign 1 or, for `true`, -1, as
-- a number, and `divide` the division of numbers.
pub record Runtime : Type 0 where
  pub encode : Value → Option Bytes
  pub decode : Bytes → ℤ → Option (ℤ × ℤ)
  pub utf8 : Text → Bytes
  pub text_of : Bytes → Text
  pub read_float : Bytes → Value
  pub read_double : Bytes → Value
  pub big_number : Bool → Bytes → ℤ
  pub divide : ℤ → ℕ → Value

-- `fields[key]`
unfoldable pub find : Text → Fields → Option Value
unfolding text_eq
find k end = none
find k (field j v fs) = if text_eq j k then some v else find k fs

-- `fields[key] = value`
unfoldable pub set_field : Text → Value → Fields → Fields
unfolding text_eq
set_field k v end = field k v end
set_field k v (field j w fs) = if text_eq j k then field j v fs else field j w (set_field k v fs)

-- `values.push(value)`
unfoldable pub push : Value → Values → Values
push v empty = cons v empty
push v (cons w vs) = cons w (push v vs)

-- Whether JavaScript takes a value for true; NaN, under `fraction`, is not told apart.
abbrev pub truthy : Value → Bool
truthy null = false
truthy undefined = false
truthy (boolean b) = b
truthy (integer (pos zero)) = false
truthy (string []) = false
truthy _ = true

-- The delegates of bag.js: an OEmbeddedRidBag and an OSBTreeRidBag, each inside its ORidBag.
abbrev pub embedded_bag : Values → Value
embedded_bag vs = bag (field (codes "delegate") (bag (field (codes "entries") (array vs) end)) end)

abbrev pub tree_bag : ℤ → Value
tree_bag n = bag (
    field (codes "delegate")
      (bag (field (codes "size") (integer n) (field (codes "entries") (array empty) end))) end)
