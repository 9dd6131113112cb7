-- ===== src/Operation/Consume.antt =====
-- `consume` of lib/transport/binary/protocol33/operation.js and its loop.
use orientjs.Text.{codes}
use orientjs.Prelude.{
  ℕ, zero, suc, ◌+◌, Bool, true, false, not, Option, none, some, List, [], ◌∷◌, ltb, ◌==◌,
  if◌then◌else◌, ◌>>=◌, length,
}
use orientjs.Buffer.{Bytes, read_uint8}
use orientjs.Operation.Heap.{Value, ref, plain, field_of}
use orientjs.Operation.Machine.{
  byte, int, Pushed, ReadOp, read, call, answer, absent, push_type, ReadOps, nil, cons, Work,
  Client, queue, pushed, allocated, is_nonzero,
}
use orientjs.Operation.Callbacks.{run_nop}
use orientjs.Operation.Parse.{can_read, parse, without_ops}

-- What `consume` returns, its result by the place of `stack[0]`.
pub data Consumed (D : Type 0) : Type 0 where
  reading : ℕ → Option ℕ → Consumed D
  complete : ℕ → Option ℕ → Consumed D
  failed : ℕ → Option ℕ → Consumed D
  pushed_to : Pushed D → ℕ → Consumed D

-- One round of the loop of `consume`: it goes on at an offset, it stops, or it throws.
pub data Turn (R D : Type 0) : Type 0 where
  go_on : Work R D → ℕ → Turn R D
  stop : Work R D → Consumed D → Turn R D
  throw : Turn R D

abbrev pub top_of : List ℕ → Option ℕ
top_of [] = none
top_of (a ∷ s) = some a

-- `stack[0]`, under all others.
abbrev pub bottom_of : List ℕ → Option ℕ
bottom_of [] = none
bottom_of (a ∷ []) = some a
bottom_of (a ∷ b ∷ s) = bottom_of (b ∷ s)

-- `stack[0].status.code`
unfoldable pub status_code : {R D : Type 0} → Work R D → Option (Value D)
unfolding field_of
status_code w = do
  root ← bottom_of w.stack
  status ← field_of root (codes "status") w.heap
  elim status [ ref a ↦ field_of a (codes "code") w.heap | _ ↦ none ]

module _ {R D : Type 0} where
  abbrev turn_to : ℕ → Option (Work R D) → Turn R D
  turn_to o none = throw
  turn_to o (some w) = go_on w o

  abbrev turn_by : ℕ → Option (Work R D × ℕ) → Turn R D
  turn_by o none = throw
  turn_by o (some (w, n)) = go_on w (o + n)

  -- The end of the loop.
  unfoldable pub finished : Work R D → ℕ → Consumed D
  unfolding status_code
  finished w o =
      if is_nonzero (status_code w)
      then failed o (bottom_of w.stack)
      else complete o (bottom_of w.stack)

module _ {R D : Type 0} (client : Client R D) where
  -- A round with the entry that `shift` took from `readOps`.
  unfoldable pub turn_op : ReadOp R D → Work R D → Bytes → ℕ → Turn R D
  unfolding run_nop can_read parse
  turn_op (call n) w b o = turn_to o (run_nop client n (top_of w.stack) w)
  turn_op (answer p) w b o = stop w (pushed_to p o)
  turn_op (read kind k r) w b o =
      if can_read kind b o
      then turn_by o (parse client kind b o (top_of w.stack) k r w)
      else stop (record w { ops = cons (read kind k r) w.ops }) (reading o (bottom_of w.stack))

  unfoldable pub turn : ReadOps R D → Work R D → Bytes → ℕ → Turn R D
  unfolding turn_op finished
  turn nil w b o = stop w (finished w o)
  turn (cons p ps) w b o = turn_op p (record w { ops = ps }) b o

  -- The loop, on fuel: the outer `none` is the lack of it, `throw` an exception.
  unfoldable pub loop : ℕ → Work R D → Bytes → ℕ → Option (Turn R D)
  unfolding turn
  loop zero w b o = none
  loop (suc f) w b o = elim (turn w.ops w b o) [
    | go_on u p ↦ loop f u b p
    | stop u c ↦ some (stop u c)
    | throw ↦ some throw
  ]

-- An operation that waits for its answer: `status` is PENDING or READING.
pub record Operation (R D : Type 0) : Type 0 where
  pub pending : Bool
  pub work : Work R D

pub data Result (R D : Type 0) : Type 0 where
  returned : Operation R D → Consumed D → Result R D
  thrown : Result R D

module _ {R D : Type 0} where
  -- A message that the server pushes is read first, into an object of its own.
  unfoldable pub begin_push : Work R D → Work R D
  unfolding queue
  begin_push w =
      let u = pushed (length w.heap) (allocated plain (without_ops w)) in
      queue (read byte (codes "type") (push_type w.ops))
        (queue (read int (codes "sessionId") absent) (queue (read byte (codes "code") absent) u))

  -- The first byte tells whether the answer is for this operation.
  abbrev pub begin : ℕ → Work R D → Work R D
  begin code w = if code == 3 then begin_push w else w

  abbrev pub result_of : Turn R D → Result R D
  result_of (stop u (pushed_to p o)) =
      returned (record { pending = true; work = u }) (pushed_to p o)
  result_of (stop u c) = returned (record { pending = false; work = u }) c
  result_of (go_on u o) = thrown
  result_of throw = thrown

module _ {R D : Type 0} (client : Client R D) where
  -- `consume` of an operation that is READING.
  unfoldable pub consume_reading : ℕ → ReadOps R D → Work R D → Bytes → ℕ → Option (Result R D)
  unfolding loop
  consume_reading f nil w b o =
      some (returned (record { pending = false; work = w }) (complete o (bottom_of w.stack)))
  consume_reading f (cons p ps) w b o = loop client f w b o >>= λ t. some (result_of t)

  -- `consume`; the result of an operation that has not begun to read is a new object, `none`.
  unfoldable pub consume : ℕ → Operation R D → Bytes → ℕ → Option (Result R D)
  unfolding consume_reading begin_push read_uint8
  consume f s b o =
      if not s.pending
      then consume_reading f s.work.ops s.work b o
      else if ltb (length b) (o + 1)
      then some (returned s (reading o none))
      else elim (read_uint8 b o) [
        | none ↦ some thrown
        | some code ↦ let w = begin code s.work in consume_reading f w.ops w b o
      ]
