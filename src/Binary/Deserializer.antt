-- ===== src/Binary/Deserializer.antt =====
-- lib/client/network/protocol37/deserializer-binary.js, from bags to documents. A parser gives the
-- value and how many bytes it read; `none` is an exception, or, on fuel, values nested too deep.
-- The name of a field, which only the error message takes, is left out.
use orientjs.Text.{Text, codes}
use orientjs.Buffer.{Bytes, read_int32_be, read_uint32_be}
use orientjs.Prelude.{
  ◌+ℤ◌, ◌-ℤ◌, ◌*ℤ◌, ℕ, zero, suc, ◌^◌, ◌||◌, Option, none, some, [], ◌∷◌, ltb, leb, ◌==◌,
  if◌then◌else◌, ◌>>=◌, ℤ, pos, negsuc, pos_part, eq_ℤ,
}
use orientjs.Binary.{
  Value, null, boolean, integer, string, date, array, object, Values, empty, Fields, end, field,
  Runtime, set_field, push, embedded_bag, tree_bag,
}
use orientjs.Binary.Parse.{
  at, read_int8, for_loop, parse_number, number_value, parse_string, parse_byte, parse_float,
  parse_double, parse_link, sized_links, parse_link_collection, parse_link_map, parse_decimal,
}

-- Whether embedded documents are read by `parseElement` or, with no reader, by `parseDocument`.
pub data Reader : Type 0 where
  element document : Reader

-- What stands behind a type.
pub data FieldType : Type 0 where
  nothing bool varint float double datetime text embedded collection embedded_map link_type :
      FieldType
  links link_map byte day decimal rid_bag : FieldType

-- The cases of `parseValue`; other types throw.
unfoldable pub field_type : ℤ → Option FieldType
field_type (negsuc zero) = some nothing
field_type (negsuc _) = none
field_type (pos n) =
    if n == 0
    then some bool
    else (if leb n 3
        then some varint
        else (if n == 4
            then some float
            else (if n == 5
                then some double
                else (if n == 6
                    then some datetime
                    else (if n == 7
                        then some text
                        else (if n == 9
                            then some embedded
                            else (if n == 10 || n == 11
                                then some collection
                                else (if n == 12
                                    then some embedded_map
                                    else (if n == 13
                                        then some link_type
                                        else (if n == 14 || n == 15
                                            then some links
                                            else (if n == 16
                                                then some link_map
                                                else (if n == 17
                                                    then some byte
                                                    else (if n == 19
                                                        then some day
                                                        else (if n == 21
                                                            then some decimal
                                                            else (if n == 22
                                                            then some rid_bag
                                                            else none)))))))))))))))

abbrev pub Rec : Type 0
Rec = Reader → ℤ → ℤ → Option (Value × ℤ)

-- `if (className.value !== "") record["@class"] = className.value`
abbrev pub with_class : Text → Fields
with_class [] = end
with_class (c ∷ name) = field (codes "@class") (string (c ∷ name)) end

-- `new Array(n)` throws at a number that is no length.
abbrev pub array_length : ℤ → Option ℕ
array_length (pos n) = if ltb n (2 ^ 32) then some n else none
array_length (negsuc n) = none

module _ (env : Runtime) (input : Bytes) where
  -- `parseRidBag`, its two longs and its type, and the rest of each form.
  abbrev pub parse_long : ℤ → Option ℤ
  parse_long offset = do
    low ← at read_uint32_be input (offset +ℤ pos 4)
    high ← at read_int32_be input offset
    some (pos 8)

  abbrev pub embedded_entries : ℤ → Option (Value × ℤ)
  embedded_entries offset = sized_links env input offset >>= λ r. some (embedded_bag r.0, r.1)

  abbrev pub tree_pointer : ℤ → Option (Value × ℤ)
  tree_pointer offset = do
    file ← parse_number env input offset
    let a = offset +ℤ file.1
    page ← parse_number env input a
    let b = a +ℤ page.1
    place ← parse_number env input b
    let c = b +ℤ place.1
    size ← parse_number env input c
    let d = c +ℤ size.1
    changes ← parse_number env input d
    some (tree_bag size.0, d +ℤ changes.1)

  unfoldable pub parse_rid_bag : ℤ → Option (Value × ℤ)
  unfolding read_uint32_be read_int32_be parse_byte parse_link for_loop push
  parse_rid_bag offset = do
    m ← parse_long offset
    let a = offset +ℤ m
    l ← parse_long a
    let b = a +ℤ l
    type ← parse_byte env input b
    let c = b +ℤ type.1
    r ← (if eq_ℤ type.0 (pos 1) then embedded_entries c else tree_pointer c)
    some (r.0, r.1 -ℤ offset)

  -- From here on `rec` is `parseValue`.
  module _ (rec : Rec) where
    -- A round of `parseFields`, which is one of `parseEmbeddedMap` too.
    abbrev pub field_round : Reader → Fields → ℤ → Option (Fields × ℤ)
    field_round reader fs offset = do
      key ← parse_string env input offset
      let here = offset +ℤ key.1
      type ← at read_int8 input here
      let behind = here +ℤ pos 1
      v ← rec reader type behind
      some (set_field key.0 v.0 fs, behind +ℤ v.1)

    -- `parseFields`: the record, and how many bytes were read.
    unfoldable pub parse_fields : Reader → Fields → ℤ → Option (Fields × ℤ)
    unfolding parse_string read_int8 set_field for_loop
    parse_fields reader record_fields offset = do
      n ← parse_number env input offset
      r ← for_loop (field_round reader) (pos_part n.0) record_fields (offset +ℤ n.1)
      some (r.0, r.1 -ℤ offset)

    -- `parseDocument`
    unfoldable pub parse_document : ℤ → Option (Value × ℤ)
    unfolding parse_string parse_fields
    parse_document offset = do
      name ← parse_string env input offset
      let here = offset +ℤ name.1
      r ← parse_fields document (with_class name.0) here
      some (object r.0, (here +ℤ r.1) -ℤ offset)

    -- `parseElement`: the text behind the fields is skipped.
    unfoldable pub parse_element : ℤ → Option (Value × ℤ)
    unfolding parse_string parse_fields
    parse_element offset = do
      r ← parse_fields element end offset
      let here = offset +ℤ r.1
      name ← parse_string env input here
      some (object r.0, (here +ℤ name.1) -ℤ offset)

    -- `parseEmbedded`
    abbrev pub parse_embedded : Reader → ℤ → Option (Value × ℤ)
    parse_embedded element offset = parse_element offset
    parse_embedded document offset = parse_document offset

    abbrev pub item_round : Reader → Values → ℤ → Option (Values × ℤ)
    item_round reader vs offset = do
      type ← at read_int8 input offset
      let here = offset +ℤ pos 1
      v ← rec reader type here
      some (push v.0 vs, here +ℤ v.1)

    -- `parseEmbeddedCollection`
    unfoldable pub parse_collection : Reader → ℤ → Option (Value × ℤ)
    unfolding read_int8 push for_loop
    parse_collection reader offset = do
      size ← parse_number env input offset
      n ← array_length size.0
      r ← for_loop (item_round reader) n empty (offset +ℤ size.1)
      some (array r.0, r.1 -ℤ offset)

    -- `parseEmbeddedMap`
    unfoldable pub parse_map : Reader → ℤ → Option (Value × ℤ)
    unfolding parse_string read_int8 set_field for_loop
    parse_map reader offset = do
      n ← parse_number env input offset
      r ← for_loop (field_round reader) (pos_part n.0) end (offset +ℤ n.1)
      some (object r.0, r.1 -ℤ offset)

    -- The branches of `parseValue`.
    unfoldable pub parse_type : Reader → FieldType → ℤ → Option (Value × ℤ)
    unfolding parse_byte parse_float parse_double parse_string parse_document parse_element
        parse_collection parse_map parse_link parse_link_collection parse_link_map parse_decimal
        parse_rid_bag
    parse_type reader nothing offset = some (null, pos 0)
    parse_type reader bool offset =
        parse_byte env input offset >>= λ r. some (boolean (eq_ℤ r.0 (pos 1)), r.1)
    parse_type reader varint offset = number_value env input integer offset
    parse_type reader float offset = parse_float env input offset
    parse_type reader double offset = parse_double env input offset
    parse_type reader datetime offset = number_value env input date offset
    parse_type reader text offset = parse_string env input offset >>= λ r. some (string r.0, r.1)
    parse_type reader embedded offset = parse_embedded reader offset
    parse_type reader collection offset = parse_collection reader offset
    parse_type reader embedded_map offset = parse_map reader offset
    parse_type reader link_type offset = parse_link env input offset
    parse_type reader links offset = parse_link_collection env input offset
    parse_type reader link_map offset = parse_link_map env input offset
    parse_type reader byte offset = parse_byte env input offset >>= λ r. some (integer r.0, r.1)
    parse_type reader day offset = number_value env input (λ z. date (z *ℤ 86400000)) offset
    parse_type reader decimal offset = parse_decimal env input offset
    parse_type reader rid_bag offset = parse_rid_bag offset

  -- `parseValue`, on fuel for the values inside one another.
  unfoldable pub parse_value : ℕ → Rec
  unfolding field_type parse_type
  parse_value zero reader type offset = none
  parse_value (suc f) reader type offset =
      field_type type >>= λ t. parse_type (parse_value f) reader t offset

-- `deserialize`, at a buffer: type 4 is a projection. The transformers of classes are not applied,
-- since nothing behind the switch is reached.
unfoldable pub deserialize : Runtime → ℕ → ℕ → Option Bytes → Option Value
unfolding parse_element parse_document parse_value
deserialize env f type none = some null
deserialize env f type (some input) =
    if type == 4
    then (parse_element env input (parse_value env input f) (pos 0) >>= λ r. some r.0)
    else (parse_document env input (parse_value env input f) (pos 0) >>= λ r. some r.0)
