-- ===== src/Operation/Machine.antt =====
-- The steps of reading an answer in lib/transport/binary/protocol33/operation.js. The functions
-- that the source queues or passes on are constructors here, one for each, with the variables that
-- the function closes over; those that the single operations bring are of the type `R`.
use orientjs.Text.{Text, codes}
use orientjs.Prelude.{
  ℕ, zero, Bool, true, false, Option, some, List, [], ◌∷◌, ◌++◌, if◌then◌else◌, ℤ, pos, eq_ℤ,
}
use orientjs.Buffer.{Bytes}
use orientjs.Operation.Heap.{Value, number, Object, Heap, set_field}

pub data Kind : Type 0 where
  byte bytes_ int short long string array record_ char boolean collection error : Kind

-- What a pushed message makes `consume` return.
pub data Pushed (D : Type 0) : Type 0 where
  push_data : D → Pushed D
  live_result : ℤ → ℕ → D → ℤ → ℤ → ℤ → Pushed D
  live_result_end : ℤ → Pushed D

mutual
  -- An entry of `readOps`: a value to read into a field, with the function to call behind it; a
  -- function; or the answer to a pushed message.
  pub data ReadOp (R D : Type 0) : Type 0 where
    read : Kind → Text → Reader R D → ReadOp R D
    call : Nop R D → ReadOp R D
    answer : Pushed D → ReadOp R D

  pub data Reader (R D : Type 0) : Type 0 where
    absent : Reader R D
    own : R → Reader R D
    after_status : ℕ → Text → Reader R D → Reader R D
    after_status_error : ℕ → Text → Reader R D → Reader R D
    after_object : Reader R D → Reader R D
    push_type : ReadOps R D → Reader R D
    live_message : ReadOps R D → Reader R D
    pushed_data : ReadOps R D → Reader R D
    record_class : ℕ → Reader R D → ReadOps R D → Reader R D
    record_value : ℕ → Text → Reader R D → ReadOps R D → Reader R D
    error_more : ℕ → Reader R D
    error_trace : Reader R D

  pub data Nop (R D : Type 0) : Type 0 where
    enter_status : Text → ℕ → Nop R D
    push : ℕ → Nop R D
    pop : Nop R D
    call_reader : Reader R D → ℕ → Text → Nop R D
    record_link : ℕ → Text → Reader R D → ReadOps R D → Nop R D
    own_call : R → Nop R D

  pub data ReadOps (R D : Type 0) : Type 0 where
    nil : ReadOps R D
    cons : ReadOp R D → ReadOps R D → ReadOps R D

-- `readOps`, `stack` with its top first, and the objects.
pub record Work (R D : Type 0) : Type 0 where
  pub ops : ReadOps R D
  pub stack : List ℕ
  pub heap : Heap D

-- What the code takes from elsewhere: the number with the given words, the deserializer with the
-- transformer functions of the operation, and the functions that the single operations bring: as
-- a reader, as a queued function, and as a reader of an array, whose items are functions again.
-- The object at the given place is their argument, with the field's name; `none` is an exception.
pub record Client (R D : Type 0) : Type 0 where
  pub bits : ℕ → ℤ → ℤ
  pub deserialize : Option Bytes → Option D
  pub run : R → ℕ → Text → Work R D → Option (Work R D)
  pub items : R → ℕ → Work R D → Option (List R)

abbrev tail_of : List ℕ → List ℕ
tail_of [] = []
tail_of (a ∷ s) = s

abbrev pub is_number : {D : Type 0} → ℤ → Option (Value D) → Bool
is_number z (some (number y)) = eq_ℤ y z
is_number z _ = false

-- Truthy, for a number that was read.
abbrev pub is_nonzero : {D : Type 0} → Option (Value D) → Bool
is_nonzero (some (number (pos zero))) = false
is_nonzero (some (number z)) = true
is_nonzero _ = false

module _ {R D : Type 0} where
  unfoldable pub append : ReadOps R D → ReadOps R D → ReadOps R D
  append nil qs = qs
  append (cons p ps) qs = cons p (append ps qs)

  -- `this.readOps.push(op)`, which is what the `readXYZ` methods do.
  unfoldable pub queue : ReadOp R D → Work R D → Work R D
  unfolding append
  queue p w = record w { ops = append w.ops (cons p nil) }

  -- `this.readOps.push.apply(this.readOps, ops)`
  unfoldable pub queue_all : ReadOps R D → Work R D → Work R D
  unfolding append
  queue_all ps w = record w { ops = append w.ops ps }

  -- `this.stack.pop()` and `this.stack.push(object)`
  abbrev pub popped : Work R D → Work R D
  popped w = record w { stack = tail_of w.stack }

  abbrev pub pushed : ℕ → Work R D → Work R D
  pushed a w = record w { stack = a ∷ w.stack }

  -- A new object, at the place behind the others.
  abbrev pub allocated : Object D → Work R D → Work R D
  allocated x w = record w { heap = w.heap ++ (x ∷ []) }

  abbrev pub with_field : ℕ → Text → Value D → Work R D → Work R D
  with_field a k v w = record w { heap = set_field a k v w.heap }

  -- `readStatus`: its steps, for the object `value` that it has made. `token` tells whether a token
  -- is read, `opCode` being neither 2 nor 3.
  unfoldable pub read_status : Bool → ℕ → Text → Reader R D → Work R D → Work R D
  unfolding queue
  read_status token value k r w =
      let start = queue (read byte (codes "code") absent) (queue (call (enter_status k value)) w) in
      let next = after_status value k r in
      if token
      then queue (read bytes_ (codes "token") next)
          (queue (read int (codes "sessionId") absent) start)
      else queue (read int (codes "sessionId") next) start

  -- `readError`
  abbrev pub read_error : Text → Reader R D → Work R D → Work R D
  read_error k r w = record w { ops = cons (read error k r) nil }

  -- `readObject`
  abbrev pub read_object : Text → Reader R D → Work R D → Work R D
  read_object k r = queue (read bytes_ k (after_object r))
