-- ===== src/Binary/Serializer.antt =====
-- lib/client/network/protocol37/serializer-binary.js: the steps that it pushes to an operation.
-- `none` is an exception.
use orientjs.Prelude.{
  ℕ, suc, Bool, true, false, not, ◌&&◌, Option, none, some, List, [], ◌∷◌, ◌++◌, if◌then◌else◌,
  ◌>>=◌, ℤ, pos,
}
use orientjs.Text.{Text, codes, text_eq}
use orientjs.Buffer.{Bytes}
use orientjs.Operation.Write as Plain
use orientjs.Binary.{
  Value, null, undefined, boolean, integer, fraction, string, raw, link, date, array, object, bag,
  callable, symbol, Values, empty, cons, Fields, end, field, Runtime, find, truthy,
}
use orientjs.Binary.Write.{WriteOp, plain, double, write_varint, write_varint_string, buffer}

-- `writeByte` of a type; -1 is stored as 255.
abbrev pub byte_op : ℕ → WriteOp
byte_op n = plain (Plain.byte n)

-- The key is neither `@class` nor `@rid`.
unfoldable pub is_written : Text → Bool
unfolding text_eq
is_written k = not (text_eq k (codes "@class")) && not (text_eq k (codes "@rid"))

-- `fields.length`
unfoldable pub count_written : Fields → ℕ
unfolding is_written
count_written end = 0
count_written (field k v fs) = let n = count_written fs in if is_written k then suc n else n

unfoldable pub count : Values → ℕ
count empty = 0
count (cons v vs) = suc (count vs)

-- `val.cluster` and `val.position`, where `val` is no RecordID: `none` is the exception at null
-- and undefined.
unfoldable pub property : Text → Value → Option Value
unfolding find
property k null = none
property k undefined = none
property k (object fs) = elim (find k fs) [ none ↦ some undefined | some v ↦ some v ]
property k (bag fs) = elim (find k fs) [ none ↦ some undefined | some v ↦ some v ]
property k _ = some undefined

abbrev pub is_link : Value → Bool
is_link (link c p) = true
is_link _ = false

-- `value.length > 0 && value[0] instanceof RID`
abbrev pub starts_with_link : Values → Bool
starts_with_link empty = false
starts_with_link (cons v vs) = is_link v

-- `doc["@class"] || ""`, as a text for Buffer.from, which throws at a number or a boolean. (It
-- would make bytes of an array, a Buffer or a Date, which is left out here.)
abbrev pub class_text : Option Value → Option Text
class_text none = some []
class_text (some (string t)) = some t
class_text (some v) = if truthy v then none else some []

module _ (env : Runtime) where
  -- `writeLink`
  unfoldable pub write_link : Value → Option (List WriteOp)
  unfolding write_varint property
  write_link (link c p) = do
    x ← write_varint env (integer c)
    y ← write_varint env (integer p)
    some (x ∷ y ∷ [])
  write_link v = do
    c ← property (codes "cluster") v
    x ← write_varint env c
    p ← property (codes "position") v
    y ← write_varint env p
    some (x ∷ y ∷ [])

  unfoldable pub write_links : Values → Option (List WriteOp)
  unfolding write_link
  write_links empty = some []
  write_links (cons v vs) = do xs ← write_link v; ys ← write_links vs; some (xs ++ ys)

  -- The head of an array: its type and its length.
  abbrev pub array_head : ℕ → Values → Option (List WriteOp)
  array_head type vs = do
    n ← write_varint env (integer (pos (count vs)))
    some (byte_op type ∷ n ∷ [])

  -- `handleLinkList`
  unfoldable pub handle_link_list : Values → Option (List WriteOp)
  unfolding write_links count
  handle_link_list vs = do head ← array_head 14 vs; body ← write_links vs; some (head ++ body)

  -- A field of `writeObject`: the key, and the steps of the value.
  abbrev pub with_key : Text → Option (List WriteOp) → Option (List WriteOp)
  with_key k value = do x ← write_varint_string env (some k); ys ← value; some (x ∷ ys)

  abbrev pub count_op : Fields → Option WriteOp
  count_op fs = write_varint env (integer (pos (count_written fs)))

  abbrev pub behind : List WriteOp → Option (List WriteOp) → Option (List WriteOp)
  behind xs body = body >>= λ ys. some (xs ++ ys)

  -- `writeObject`, from the steps of its fields.
  abbrev pub object_of : Fields → Option (List WriteOp) → Option (List WriteOp)
  object_of fs body = count_op fs >>= λ n. behind (n ∷ []) body

  -- `serializeDocument`, from the steps of the fields.
  abbrev pub document_of : Fields → Option (List WriteOp) → Option (List WriteOp)
  document_of fs body = do
    name ← class_text (find (codes "@class") fs)
    x ← write_varint_string env (some name)
    behind (x ∷ []) (object_of fs body)

  -- The last two branches of `handleObject`, at `value["@class"]`.
  abbrev pub handle_class : Option Value → Fields → Option (List WriteOp) → Option (List WriteOp)
  handle_class none fs body = behind (byte_op 12 ∷ []) (object_of fs body)
  handle_class (some v) fs body =
      if truthy v
      then behind (byte_op 9 ∷ []) (document_of fs body)
      else behind (byte_op 12 ∷ []) (object_of fs body)

  -- `handleArray`, from the steps that `handleEmbeddedCollection` takes for the values.
  abbrev pub handle_array : Values → Option (List WriteOp) → Option (List WriteOp)
  handle_array vs body =
      if starts_with_link vs
      then handle_link_list vs
      else (array_head 10 vs >>= λ head. behind head body)

  abbrev pub string_ops : Text → Option (List WriteOp)
  string_ops t = write_varint_string env (some t) >>= λ x. some (byte_op 7 ∷ x ∷ [])

  abbrev pub number_ops : ℕ → ℤ → Option (List WriteOp)
  number_ops type z = write_varint env (integer z) >>= λ x. some (byte_op type ∷ x ∷ [])

  -- `writeValue`. A function pushes nothing.
  unfoldable mutual
    unfolding write_link handle_link_list write_varint write_varint_string count_written count
        is_written find

    pub write_value : Value → Option (List WriteOp)
    write_value null = some (byte_op 255 ∷ [])
    write_value undefined = some (byte_op 255 ∷ [])
    write_value (boolean b) = some (byte_op 0 ∷ plain (Plain.boolean b) ∷ [])
    write_value (integer z) = number_ops 3 z
    write_value (fraction b) = some (byte_op 5 ∷ double b ∷ [])
    write_value (string t) = string_ops t
    write_value (raw t) = string_ops t
    write_value (link c p) = behind (byte_op 13 ∷ []) (write_link (link c p))
    write_value (date z) = number_ops 6 z
    write_value (array vs) = handle_array vs (write_values vs)
    write_value (object fs) = handle_class (find (codes "@class") fs) fs (write_fields fs)
    write_value (bag fs) = handle_class (find (codes "@class") fs) fs (write_fields fs)
    write_value callable = some []
    write_value symbol = none

    pub write_values : Values → Option (List WriteOp)
    write_values empty = some []
    write_values (cons v vs) = write_value v >>= λ xs. behind xs (write_values vs)

    pub write_fields : Fields → Option (List WriteOp)
    write_fields end = some []
    write_fields (field k v fs) =
        let here = with_key k (write_value v) in
        let rest = write_fields fs in if is_written k then (here >>= λ xs. behind xs rest) else rest

  -- `serializeDocument` on a new operation: the steps, and the bytes.
  unfoldable pub document_ops : Fields → Option (List WriteOp)
  unfolding write_varint write_varint_string find write_fields count_written
  document_ops fs = document_of fs (write_fields fs)

  unfoldable pub serialize_document : Fields → Option Bytes
  unfolding document_ops buffer
  serialize_document fs = document_ops fs >>= buffer
