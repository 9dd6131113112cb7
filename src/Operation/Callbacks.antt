-- ===== src/Operation/Callbacks.antt =====
-- The functions that lib/transport/binary/protocol33/operation.js calls while it reads: behind a
-- value, and as entries of `readOps`. `none` is an exception.
use orientjs.Text.{Text, codes}
use orientjs.Prelude.{
  ℕ, zero, suc, Option, none, some, [], ◌∷◌, ◌==◌, if◌then◌else◌, ◌>>=◌, length, drop, ℤ, pos,
  negsuc,
}
use orientjs.Buffer.{Bytes, read_uint8, read_int16_be, read_int32_be}
use orientjs.Bag.{read_long}
use orientjs.Operation.Heap.{
  Value, null, number, char, content, ref, bytes, no_class, request_error, set_field, push_item,
  field_of,
}
use orientjs.Operation.Machine.{
  Kind, byte, bytes_, int, short, long, string, Pushed, push_data, live_result, live_result_end,
  read, call, answer, Reader, absent, own, after_status, after_status_error, after_object,
  push_type, live_message, pushed_data, record_class, record_value, error_more, error_trace, Nop,
  enter_status, push, pop, call_reader, record_link, own_call, ReadOps, Work, Client, queue,
  queue_all, popped, pushed, allocated, with_field, read_error, is_number, is_nonzero,
}

-- The bytes that were read; `none` inside stands for null, and outside for anything else.
abbrev pub payload_of : {D : Type 0} → Option (Value D) → Option (Option Bytes)
payload_of (some (bytes b)) = some (some b)
payload_of (some null) = some none
payload_of _ = none

-- `Buffer.alloc(n)` with bytes copied over it.
unfoldable pub copied : ℕ → Bytes → Bytes
copied zero b = []
copied (suc n) [] = 0 ∷ copied n []
copied (suc n) (x ∷ b) = x ∷ copied n b

abbrev alloc_copied : ℤ → Bytes → Option Bytes
alloc_copied (pos n) b = some (copied n b)
alloc_copied (negsuc n) b = none

-- The class of a record that was read.
pub data RecordClass : Type 0 where
  no_record_class no_record link document unknown_class : RecordClass

abbrev class_of : {D : Type 0} → Option (Value D) → RecordClass
class_of (some (number (pos n))) = document
class_of (some (number (negsuc n))) =
    if n == 0
    then no_record_class
    else if n == 1
    then no_record
    else if n == 2
    then link
    else unknown_class
class_of _ = unknown_class

module _ {R D : Type 0} where
  -- The steps behind a record: its own reader, and those that were left.
  abbrev behind_record : ℕ → Text → Reader R D → ReadOps R D → Work R D → Work R D
  behind_record a k r rest w = queue_all rest (queue (call (call_reader r a k)) w)

  -- The steps of one error: `readItem`.
  unfoldable pub read_item : ℕ → Work R D → Work R D
  unfolding queue
  read_item err w =
      queue (read byte (codes "hasMore") (error_more err))
        (queue (read string (codes "message") absent) (queue (read string (codes "type") absent) w))

  -- `err.previous.push(prev)`
  abbrev push_previous : Option (Value D) → ℕ → Work R D → Work R D
  push_previous (some (ref p)) e w = record w { heap = push_item p (ref e) w.heap }
  push_previous _ e w = w

  -- A previous error takes the place of the one on the stack.
  unfoldable pub add_previous : ℕ → Work R D → Work R D
  unfolding read_item push_item field_of
  add_previous err w =
      let prev = length w.heap in
      let made = allocated request_error w in
      let linked = push_previous (field_of err (codes "previous") made.heap) prev made in
      read_item err (pushed prev (popped linked))

  -- The function behind `classId`, at the record `rec`. The object `a` is the one in which the
  -- record stands; `k` is the field of the record, which hides the name of the field of `a`.
  unfoldable pub with_class :
      RecordClass → ℕ → ℕ → Text → Reader R D → ReadOps R D → Work R D → Work R D
  unfolding set_field queue queue_all
  with_class no_record_class rec a k r rest w =
      behind_record a k r rest (popped (with_field rec (codes "value") no_class w))
  with_class no_record rec a k r rest w =
      behind_record a k r rest (popped (with_field rec (codes "value") null w))
  with_class link rec a k r rest w = queue (call (record_link a k r rest)) (
      queue (read long (codes "position") absent)
        (queue (read short (codes "cluster") absent) (with_field rec (codes "type") (char b'd') w)))
  with_class document rec a k r rest w =
      queue (read bytes_ (codes "value") (record_value a k r rest)) (
        queue (read int (codes "version") absent) (
          queue (read long (codes "position") absent) (
            queue (read short (codes "cluster") absent)
              (queue (read Kind.char (codes "type") absent) w))))
  with_class unknown_class rec a k r rest w = w

module _ {R D : Type 0} (client : Client R D) where
  -- A live message, from the bytes behind its first one.
  unfoldable pub live_row : Bytes → Option (Pushed D)
  unfolding read_uint8 read_int32_be read_int16_be read_long copied
  live_row b = do
    operation ← read_uint8 b 1
    token ← read_int32_be b 2
    type ← read_uint8 b 6
    version ← read_int32_be b 7
    cluster ← read_int16_be b 11
    position ← read_long client.bits b 13
    size ← read_int32_be b 21
    row ← alloc_copied size (drop 25 b)
    d ← client.deserialize (some row)
    some (live_result token operation d cluster position version)

  unfoldable pub live_answer : Bytes → Option (Pushed D)
  unfolding live_row read_uint8 read_int32_be
  live_answer b = read_uint8 b 0 >>= λ kind.
      if kind == 114
      then live_row b
      else (read_int32_be b 1 >>= λ token. some (live_result_end token))

  -- `data[key] = deserialize(data[key])`
  unfoldable pub deserialize_field : ℕ → Text → Work R D → Option (Work R D)
  unfolding field_of set_field
  deserialize_field a k w = do
    b ← payload_of (field_of a k w.heap)
    d ← client.deserialize b
    some (with_field a k (content d) w)

  -- `reader.call(this, object, field)`; the field of a call with one argument is the empty text.
  unfoldable pub run_reader : Reader R D → ℕ → Text → Work R D → Option (Work R D)
  unfolding queue queue_all field_of deserialize_field live_answer with_class add_previous
  run_reader absent a k w = some w
  run_reader (own r) a k w = client.run r a k w
  run_reader (after_status value j r) a k w =
      if is_number (pos 1) (field_of a (codes "code") w.heap)
      then some (read_error (codes "error") (after_status_error value j r) w)
      else (run_reader r value j w >>= λ u. some (popped u))
  run_reader (after_status_error value j r) a k w =
      run_reader r value j w >>= λ u. some (queue (call pop) u)
  run_reader (after_object r) a k w = deserialize_field a k w >>= run_reader r a k
  run_reader (push_type rest) a k w =
      if is_number (pos 81) (field_of a k w.heap)
      then some (queue (read bytes_ (codes "liveMessage") (live_message rest)) w)
      else some (queue (read bytes_ (codes "data") (pushed_data rest)) w)
  run_reader (live_message rest) a k w = do
    b ← payload_of (field_of a k w.heap)
    message ← b
    p ← live_answer message
    some (queue_all rest (queue (answer p) (popped w)))
  run_reader (pushed_data rest) a k w = do
    b ← payload_of (field_of a k w.heap)
    d ← client.deserialize b
    some (queue_all rest (queue (answer (push_data d)) (popped w)))
  run_reader (record_class c r rest) a k w =
      some (with_class (class_of (field_of a k w.heap)) a c k r rest w)
  run_reader (record_value c j r rest) a k w =
      deserialize_field a k w >>= λ u. some (behind_record c j r rest (popped u))
  run_reader (error_more err) a k w =
      if is_nonzero (field_of a (codes "hasMore") w.heap)
      then some (add_previous err w)
      else some (queue (read bytes_ (codes "javaStackTrace") error_trace) w)
  run_reader error_trace a k w = some (queue (call pop) w)

  -- A function in `readOps`, called at the object on the top of the stack. Those that use it throw
  -- where there is none.
  unfoldable pub run_nop : Nop R D → Option ℕ → Work R D → Option (Work R D)
  unfolding set_field run_reader queue queue_all
  run_nop (enter_status k value) top w =
      top >>= λ a. some (pushed value (with_field a k (ref value) w))
  run_nop (push a) top w = some (pushed a w)
  run_nop pop top w = some (popped w)
  run_nop (call_reader r a k) top w = run_reader r a k w
  run_nop (record_link a k r rest) top w = some (behind_record a k r rest (popped w))
  run_nop (own_call r) top w = top >>= λ a. client.run r a [] w
