-- ===== src/Operation/Parse.antt =====
-- `canRead` and the `parse` methods of lib/transport/binary/protocol33/operation.js.
use orientjs.Text.{Text, codes}
use orientjs.Prelude.{
  ℕ, zero, suc, ◌+◌, Bool, true, false, not, ◌&&◌, Option, none, some, List, [], ◌∷◌, ltb, leb,
  ◌==◌, if◌then◌else◌, ◌>>=◌, length, get_elem?, take, drop, ℤ, pos, negsuc,
}
use orientjs.Buffer.{Bytes, read_uint8, read_int16_be, read_int32_be}
use orientjs.Bag.{read_long}
use orientjs.Operation.Heap.{
  Value, null, number, boolean, char, text, ref, bytes, Heap, plain, empty_array, request_error,
  set_field, push_item, field_of,
}
use orientjs.Operation.Machine.{
  Kind, byte, bytes_, int, short, long, string, array, record_, collection, error, read, call,
  Reader, absent, own, record_class, push, pop, call_reader, nil, Work, Client, queue, queue_all,
  pushed, allocated, with_field,
}
use orientjs.Operation.Callbacks.{run_reader, read_item}

-- The bytes of a block behind its length, as far as the buffer goes.
abbrev pub block_at : ℤ → Bytes → ℕ → Option Bytes
block_at (pos n) b o = some (take n (drop (o + 4) b))
block_at (negsuc n) b o = none

abbrev pub block_size : ℤ → ℕ
block_size (pos n) = n + 4
block_size (negsuc n) = 4

abbrev pub fits_block : Option ℤ → ℕ → ℕ → Bool
fits_block (some (pos n)) o length = leb (o + 4 + n) length
fits_block (some (negsuc n)) o length = true
fits_block none o length = false

-- `canRead`
unfoldable pub can_read : Kind → Bytes → ℕ → Bool
unfolding read_int32_be
can_read k b o = if ltb (length b) o then false else elim k [
  | array ↦ true
  | error ↦ true
  | byte ↦ leb (o + 1) (length b)
  | Kind.char ↦ leb (o + 1) (length b)
  | Kind.boolean ↦ leb (o + 1) (length b)
  | short ↦ leb (o + 2) (length b)
  | record_ ↦ leb (o + 2) (length b)
  | long ↦ leb (o + 8) (length b)
  | int ↦ leb (o + 4) (length b)
  | collection ↦ leb (o + 4) (length b)
  | bytes_ ↦ leb (o + 4) (length b) && fits_block (read_int32_be b o) o (length b)
  | string ↦ leb (o + 4) (length b) && fits_block (read_int32_be b o) o (length b)
]

-- What a `parse` method takes from the buffer.
pub data Raw : Type 0 where
  unsigned : ℕ → Raw
  signed : ℤ → Raw
  block : Option Bytes → Raw
  nothing : Raw

-- The part of a `parse` method that reads, with the number of bytes that it returns.
unfoldable pub read_raw : (ℕ → ℤ → ℤ) → Kind → Bytes → ℕ → Option (Raw × ℕ)
unfolding read_uint8 read_int16_be read_int32_be read_long
read_raw bits byte b o = read_uint8 b o >>= λ n. some (unsigned n, 1)
read_raw bits Kind.char b o = read_uint8 b o >>= λ n. some (unsigned n, 1)
read_raw bits Kind.boolean b o = read_uint8 b o >>= λ n. some (unsigned n, 1)
read_raw bits short b o = read_int16_be b o >>= λ z. some (signed z, 2)
read_raw bits int b o = read_int32_be b o >>= λ z. some (signed z, 4)
read_raw bits long b o = read_long bits b o >>= λ z. some (signed z, 8)
read_raw bits bytes_ b o = read_int32_be b o >>= λ z. some (block (block_at z b o), block_size z)
read_raw bits string b o = read_int32_be b o >>= λ z. some (block (block_at z b o), block_size z)
read_raw bits collection b o = read_int32_be b o >>= λ z. some (signed z, 4)
read_raw bits record_ b o = some (nothing, 0)
read_raw bits array b o = some (nothing, 0)
read_raw bits error b o = some (nothing, 0)

abbrev or_null : {D : Type 0} → (Bytes → Value D) → Option Bytes → Value D
or_null f none = null
or_null f (some b) = f b

-- The value that a `parse` method puts into the field.
abbrev value_of : {D : Type 0} → Kind → Raw → Value D
value_of Kind.char (unsigned n) = char n
value_of Kind.boolean (unsigned n) = boolean (not (n == 0))
value_of k (unsigned n) = number (pos n)
value_of k (signed z) = number z
value_of string (block b) = or_null text b
value_of k (block b) = or_null bytes b
value_of k nothing = null

-- The array in a field, if one stands there.
unfoldable pub array_in : {D : Type 0} → Option (Value D) → Heap D → Option ℕ
array_in (some (ref a)) h = get_elem? h a >>= λ x. elim x.items [ none ↦ none | some vs ↦ some a ]
array_in _ h = none

abbrev count_of : Raw → ℕ
count_of (signed (pos n)) = n
count_of _ = 0

module _ {R D : Type 0} where
  abbrev pub without_ops : Work R D → Work R D
  without_ops w = record w { ops = nil }

  -- A record is put into the array in its field, or into the field.
  abbrev place_record : Option ℕ → ℕ → ℕ → Text → Work R D → Work R D
  place_record none rec a k w = with_field a k (ref rec) w
  place_record (some l) rec a k w = record w { heap = push_item l (ref rec) w.heap }

  -- `parseRecord`
  unfoldable pub parse_record : ℕ → Text → Reader R D → Work R D → Work R D
  unfolding array_in field_of set_field push_item queue
  parse_record a k r w =
      let rec = length w.heap in
      let u = pushed rec (allocated plain (without_ops w)) in
      let placed = place_record (array_in (field_of a k w.heap) w.heap) rec a k u in
      queue (read short (codes "classId") (record_class a r w.ops)) placed

  -- The records of a collection are read one by one.
  unfoldable pub queue_records : ℕ → Text → Work R D → Work R D
  unfolding queue
  queue_records zero k w = w
  queue_records (suc n) k w = queue_records n k (queue (read record_ k absent) w)

  -- `if (reader)`
  abbrev queue_reader : Reader R D → ℕ → Work R D → Work R D
  queue_reader absent a w = w
  queue_reader r a w = queue (call (call_reader r a [])) w

  -- `parseCollection`
  unfoldable pub parse_collection : ℕ → ℕ → Text → Reader R D → Work R D → Work R D
  unfolding queue_records queue queue_all set_field
  parse_collection total a k r w =
      let records = length w.heap in
      let u = with_field a k (ref records) (allocated empty_array (without_ops w)) in
      queue_all w.ops (queue_reader r records (queue_records total k u))

  -- `parseError`, up to the call of its reader.
  unfoldable pub parse_error : ℕ → Text → Work R D → Work R D
  unfolding queue set_field read_item
  parse_error a k w =
      let previous = length w.heap in
      let err = suc previous in
      let u = allocated request_error (allocated empty_array (without_ops w)) in
      let v = with_field a k (ref err) (with_field err (codes "previous") (ref previous) u) in
      read_item err (queue (read byte (codes "id") absent) (pushed err v))

module _ {R D : Type 0} (client : Client R D) where
  -- The items of an array, each with an object of its own.
  unfoldable pub parse_items : List R → ℕ → Work R D → Option (Work R D)
  unfolding queue push_item
  parse_items [] arr w = some w
  parse_items (r ∷ rs) arr w =
      let child = length w.heap in
      let u = allocated plain w in
      let v = record u { heap = push_item arr (ref child) u.heap } in
      client.run r child [] (queue (call (push child)) v) >>= λ x.
      parse_items rs arr (queue (call pop) x)

  -- `parseArray`. Its reader is one of the single operations.
  unfoldable pub parse_array : ℕ → Text → Reader R D → Work R D → Option (Work R D)
  unfolding queue queue_all set_field parse_items
  parse_array a k (own r) w = do
    rs ← client.items r a w
    let arr = length w.heap
    let u = pushed arr (with_field a k (ref arr) (allocated empty_array (without_ops w)))
    x ← parse_items rs arr u
    some (queue_all w.ops (queue (call pop) x))
  parse_array a k _ w = none

  -- The part of a `parse` method behind the reading.
  unfoldable pub put : Kind → Raw → ℕ → Text → Reader R D → Work R D → Option (Work R D)
  unfolding parse_record parse_collection parse_array parse_error set_field run_reader
  put record_ raw a k r w = some (parse_record a k r w)
  put collection raw a k r w = some (parse_collection (count_of raw) a k r w)
  put array raw a k r w = parse_array a k r w
  put error raw a k r w = run_reader client r a k (parse_error a k w)
  put kind raw a k r w = run_reader client r a k (with_field a k (value_of kind raw) w)

  -- `this['parse' + type]`
  unfoldable pub parse :
      Kind → Bytes → ℕ → Option ℕ → Text → Reader R D → Work R D → Option (Work R D × ℕ)
  unfolding read_raw put
  parse kind b o top k r w = do
    (raw, n) ← read_raw client.bits kind b o
    a ← top
    u ← put kind raw a k r w
    some (u, n)
