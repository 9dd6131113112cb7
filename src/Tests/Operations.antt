-- ===== src/Tests/Operations.antt =====
-- Concrete runs of the operations of the binary protocol.
use orientjs.Prelude.{ℕ, ◌≤◌, ◌≡◌, refl, true, false, none, some, [], ◌∷◌, arith, pos, List, Option}
use orientjs.Text.{codes, Text}
use orientjs.Buffer.{Bytes}
use orientjs.Operation.Write.{WriteOp, byte, int, block, buffer}
use orientjs.Operation.Write.Concat.{concat, buffer-concat}
use orientjs.Operation.Heap.{Value, Heap, field_of, number, ref, plain}
use orientjs.Operation.Machine.{
  Kind, bytes_, read, absent, after_status, nil, cons, Work, Client, read_status, queue,
}
use orientjs.Operation.Parse.{can_read}
use orientjs.Operation.Consume.{finished, Result, reading, complete, Operation, returned, consume}
use orientjs.Operation.Offsets.{consume_inside}
use orientjs.Operation.RoundTrip.Answer.{steps, stored, reading_at, consume-buffer}
use orientjs.Operation.Chunks.{consume-append, consume-chunks}

buffer-concat_example :
    buffer (byte 1 ∷ int (pos 5) ∷ block (9 ∷ []) ∷ [])
    ≡ concat (byte 1 ∷ int (pos 5) ∷ block (9 ∷ []) ∷ [])
buffer-concat_example = buffer-concat (byte 1 ∷ int (pos 5) ∷ block (9 ∷ []) ∷ [])

abbrev client : Client ℕ ℕ
client = record {
  bits = λ low high. high;
  deserialize = λ b. some 0;
  run = λ r a k w. some w;
  items = λ r a w. none;
}

-- A block of two bytes behind another byte.
abbrev a_block : Bytes
a_block = 7 ∷ 0 ∷ 0 ∷ 0 ∷ 2 ∷ 8 ∷ 9 ∷ []

a_block_fits : can_read bytes_ a_block 1 ≡ true
unfolding can_read
a_block_fits = refl

-- An operation that expects a status and a short.
abbrev empty_work : Work ℕ ℕ
empty_work = record { ops = nil; stack = 0 ∷ []; heap = plain ∷ plain ∷ [] }

abbrev expecting : Operation ℕ ℕ
expecting = record {
  pending = true;
  work =
      queue (read Kind.short (codes "count") absent)
        (read_status false 1 (codes "status") absent empty_work);
}

-- It has read the first byte of its status.
abbrev half : Operation ℕ ℕ
half = record {
  pending = false;
  work = record {
    ops =
        cons (read Kind.int (codes "sessionId") (after_status 1 (codes "status") absent))
          (cons (read Kind.short (codes "count") absent) nil);
    stack = 1 ∷ 0 ∷ [];
    heap =
        record (plain) { fields = (codes "status", ref 1) ∷ [] }
        ∷ record (plain) { fields = (codes "code", number (pos 0)) ∷ [] }
        ∷ [];
  };
}

abbrev done : Operation ℕ ℕ
done = record {
  pending = false;
  work = record {
    ops = nil;
    stack = 0 ∷ [];
    heap =
        record (plain) { fields = (codes "status", ref 1) ∷ (codes "count", number (pos 5)) ∷ [] }
        ∷ record (plain) {
          fields = (codes "code", number (pos 0)) ∷ (codes "sessionId", number (pos 7)) ∷ [];
        }
        ∷ [];
  };
}

abbrev first_chunk : Bytes
first_chunk = 4 ∷ 0 ∷ 0 ∷ 0 ∷ []

abbrev second_chunk : Bytes
second_chunk = 0 ∷ 7 ∷ 0 ∷ 5 ∷ []

first_read : consume client 5 expecting first_chunk 1 ≡ some (returned half (reading 2 (some 0)))
unfolding consume read_status queue
first_read = refl

second_read :
    consume client 5 half (0 ∷ 0 ∷ 0 ∷ 7 ∷ 0 ∷ 5 ∷ []) 0
    ≡ some (returned done (complete 6 (some 0)))
unfolding consume
second_read = refl

consume_inside_example : (1 ≤ 2) × (2 ≤ 4)
consume_inside_example =
    consume_inside client 5 expecting half first_chunk 1 (reading 2 (some 0)) (omega arith)
      first_read

consume-append_example :
    consume client 5 half (0 ∷ 0 ∷ 0 ∷ 7 ∷ 0 ∷ 5 ∷ 3 ∷ []) 0
    ≡ some (returned done (complete 6 (some 0)))
consume-append_example =
    consume-append client 5 half (0 ∷ 0 ∷ 0 ∷ 7 ∷ 0 ∷ 5 ∷ []) (3 ∷ []) 0
      (returned done (complete 6 (some 0))) tt second_read

consume-chunks_example :
    consume client 10 expecting (4 ∷ 0 ∷ 0 ∷ 0 ∷ 0 ∷ 7 ∷ 0 ∷ 5 ∷ []) 1
    ≡ some (returned done (complete 8 (some 0)))
consume-chunks_example =
    consume-chunks client 5 5 expecting half first_chunk second_chunk 1 2 (some 0)
      (returned done (complete 6 (some 0))) (omega arith) first_read second_read

-- A count and a name, written and read.
abbrev count_and_name : List (Text × WriteOp)
count_and_name = (codes "count", int (pos 5)) ∷ (codes "name", block (8 ∷ 9 ∷ [])) ∷ []

abbrev count_and_name_bytes : Bytes
count_and_name_bytes = 0 ∷ 0 ∷ 0 ∷ 5 ∷ 0 ∷ 0 ∷ 0 ∷ 2 ∷ 8 ∷ 9 ∷ []

count_and_name_written : buffer (steps count_and_name) ≡ some count_and_name_bytes
unfolding buffer
count_and_name_written = refl

consume-buffer_example :
    consume client 3
      (record { pending = false; work = reading_at count_and_name 0 [] (plain ∷ []) })
      count_and_name_bytes
      0
    ≡ some (
        returned
          (record {
            pending = false;
            work = reading_at [] 0 [] (stored 0 count_and_name (plain ∷ []));
          })
          (finished (reading_at {R = ℕ} [] 0 [] (stored 0 count_and_name (plain ∷ []))) 10))
consume-buffer_example =
    consume-buffer client 0 [] (plain ∷ []) (codes "count", int (pos 5))
      ((codes "name", block (8 ∷ 9 ∷ [])) ∷ []) count_and_name_bytes (tt, (tt, tt))
      count_and_name_written

-- An error with neither type nor message, and a stack trace of one byte.
abbrev an_error : Bytes
an_error =
    1 ∷ 0 ∷ 0 ∷ 0 ∷ 0 ∷ 9 ∷ 255 ∷ 255 ∷ 255 ∷ 255 ∷ 255 ∷ 255 ∷ 255 ∷ 255 ∷ 0 ∷ 0 ∷ 0 ∷ 0 ∷ 1 ∷ 7
    ∷ []

abbrev heap_of : Option (Result ℕ ℕ) → Heap ℕ
heap_of (some (returned s c)) = s.work.heap
heap_of _ = []

-- The stack trace goes to the status, which is the object at the place 1, and not to the error.
stack_trace_on_status :
    (field_of 1 (codes "javaStackTrace") (heap_of (consume client 20 expecting an_error 0))
      ≡ some (Value.bytes (7 ∷ [])))
    × (field_of 1 (codes "error") (heap_of (consume client 20 expecting an_error 0)) ≡ some (ref 3))
    × (field_of 3 (codes "javaStackTrace") (heap_of (consume client 20 expecting an_error 0))
        ≡ none)
unfolding consume read_status queue field_of
stack_trace_on_status = (refl, refl, refl)
