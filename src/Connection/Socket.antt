-- ===== src/Connection/Socket.antt =====
-- The methods of a connection, and the handlers of its socket's events, in
-- lib/transport/binary/connection.js. `connected` and `negotiating` stand for `socket` and
-- `connecting`, and `flushing` holds the promises that a write to the socket will resolve. An
-- operation that is written is here by its bytes.
use orientjs.Prelude.{
  ℕ, Bool, true, false, not, ◌&&◌, ◌||◌, Option, none, List, [], ◌∷◌, ◌++◌, ◌==◌, if◌then◌else◌,
  zero, suc, ◌-◌, some, ◌>>=◌, length, drop,
}
use orientjs.Connection.{
  Bytes, Outcome, Event, Failure, Command, Processed, process, cancel_events, written, close_event,
  reconnect_event, error_event, destroyed, connection_error, resolved, rejected, server_error,
  unsupported_status, flushed, not_written,
}

pub record Connection (Op : Type 0) : Type 0 where
  pub connected : Bool
  pub negotiating : Bool
  pub closing : Bool
  pub reconnect_now : Bool
  pub queue : List (Command Op)
  pub writes : List Bytes
  pub remaining : Option Bytes
  pub timeout_triggered : Bool
  pub completed : List ℕ
  pub flushing : List ℕ

abbrev pub initial : {Op : Type 0} → Connection Op
initial = record {
  connected = false;
  negotiating = false;
  closing = false;
  reconnect_now = false;
  queue = [];
  writes = [];
  remaining = none;
  timeout_triggered = false;
  completed = [];
  flushing = [];
}

-- A connection after a call, with what it did.
abbrev pub Step : Type 0 → Type 0 → Type 0
Step Op R = Connection Op × List (Event R)

abbrev pub has : ℕ → List ℕ → Bool
has n [] = false
has n (m ∷ ms) = m == n || has n ms

-- A list without the first `n` in it.
abbrev pub erase : ℕ → List ℕ → List ℕ
erase n [] = []
erase n (m ∷ ms) = if m == n then ms else m ∷ erase n ms

-- The promises that `process` marks as completed: not those that an unknown error rejects.
abbrev pub completed_ids : {R : Type 0} → List (Event R) → List ℕ
completed_ids [] = []
completed_ids (resolved n r ∷ es) = n ∷ completed_ids es
completed_ids (rejected n (server_error e) ∷ es) = n ∷ completed_ids es
completed_ids (rejected n (unsupported_status k) ∷ es) = n ∷ completed_ids es
completed_ids (e ∷ es) = completed_ids es

module _ {Op R : Type 0} where
  -- The part of `_sendOp` for an operation that is queued. `REQUEST_DB_CLOSE` is not: see below.
  unfoldable pub send_op : Connection Op → Op → ℕ → Bytes → Step Op R
  send_op s op id bytes =
      let queue = s.queue ++ (record { op = op; id = id } ∷ []) in
      if s.connected
      then (record s { queue = queue }, written bytes ∷ [])
      else (record s { queue = queue; writes = s.writes ++ (bytes ∷ []) }, [])

  -- `_sendOp` of REQUEST_DB_CLOSE: its promise is not queued, but resolved by the callback of the
  -- write. With no socket, `self.socket.write` throws and the promise is rejected.
  unfoldable pub send_db_close : Connection Op → ℕ → Bytes → Step Op R
  send_db_close s id bytes =
      let t = record s { reconnect_now = true } in
      if s.connected
      then (record t { flushing = s.flushing ++ (id ∷ []) }, written bytes ∷ [])
      else (t, not_written id ∷ [])

  -- The callback of that write, `resolve`: an error that it is given settles the promise as well.
  unfoldable pub write_done : ℕ → Connection Op → Step Op R
  write_done id s =
      if has id s.flushing
      then (record s { flushing = erase id s.flushing }, flushed id ∷ [])
      else (s, [])

  -- `cancel`
  unfoldable pub cancel : Failure R → Connection Op → Step Op R
  unfolding cancel_events
  cancel f s = (record s { queue = [] }, cancel_events f s.queue)

  -- `destroySocket`
  unfoldable pub destroy_socket : Connection Op → Step Op R
  destroy_socket s =
      if s.connected
      then (record s { connected = false; negotiating = false }, destroyed ∷ [])
      else (s, [])

  -- One call after another.
  infixl 5 ◌then_do◌
  abbrev pub ◌then_do◌ : Step Op R → (Connection Op → Step Op R) → Step Op R
  a then_do f = ((f a.0).0, a.1 ++ (f a.0).1)

  abbrev pub emit : Event R → Connection Op → Step Op R
  emit e s = (s, e ∷ [])

  -- `handleSocketError`
  unfoldable pub handle_socket_error : Connection Op → Step Op R
  unfolding cancel destroy_socket
  handle_socket_error s =
      cancel (connection_error 2) s
      then_do destroy_socket
      then_do emit (error_event (connection_error 2))

  -- `handleSocketEnd`
  unfoldable pub handle_socket_end : Connection Op → Step Op R
  unfolding cancel destroy_socket
  handle_socket_end s =
      if s.reconnect_now
      then destroy_socket (record s { reconnect_now = false }) then_do emit reconnect_event
      else if s.closing
      then destroy_socket (record s { closing = false }) then_do emit close_event
      else cancel (connection_error 1) s
        then_do destroy_socket
        then_do emit (error_event (connection_error 1))

  -- `handleSocketClose`
  unfoldable pub handle_socket_close : Connection Op → Step Op R
  unfolding cancel destroy_socket
  handle_socket_close s =
      cancel (connection_error 3) s then_do destroy_socket then_do emit close_event

  -- `handleOperationTimeout`
  unfoldable pub handle_operation_timeout : Connection Op → Step Op R
  unfolding cancel destroy_socket
  handle_operation_timeout s = destroy_socket s then_do cancel (connection_error 1)

  -- The timer of operation `id`, if the connection has a timeout. A promise that `cancel` or an
  -- unknown error has rejected is not `completed`.
  unfoldable pub timer : ℕ → Connection Op → Step Op R
  unfolding handle_operation_timeout
  timer id s =
      if not (has id s.completed) && not s.timeout_triggered
      then handle_operation_timeout (record s { timeout_triggered = true })
      else (s, [])

  -- `close`: the queue is left as it is.
  unfoldable pub close : Connection Op → Step Op R
  close s = (record s { connected = false }, if s.connected then destroyed ∷ [] else [])

abbrev bytes_before : Option Bytes → Bytes → Bytes
bytes_before none b = b
bytes_before (some r) b = r ++ b

-- What was left of the data before, and the chunk.
abbrev pub buffer_of : {Op : Type 0} → Connection Op → Bytes → Bytes
buffer_of s b = bytes_before s.remaining b

-- The state behind one call of `process` on the buffer `b`.
abbrev pub after_process : {Op R : Type 0} → Connection Op → Bytes → Processed Op R → Connection Op
after_process s b p = record s {
  queue = p.queue;
  remaining = if length b - p.offset == 0 then none else some (drop p.offset b);
  completed = s.completed ++ completed_ids p.events;
}

module _ {Op R : Type 0} (consume : Op → Bytes → ℕ → Outcome R × Op) (fresh : Op) where
  -- `handleSocketData`. The first number is the fuel for the calls that it makes of itself, the
  -- second the fuel of each `process`; `none` means that one of them ran out.
  unfoldable pub handle_socket_data : ℕ → ℕ → Connection Op → Bytes → Option (Step Op R)
  unfolding process
  handle_socket_data zero g s chunk = none
  handle_socket_data (suc f) g s chunk =
      let b = buffer_of s chunk in
      process consume fresh g s.queue b 0 >>= λ p.
      let t = after_process s b p in
      let again = handle_socket_data f g t [] >>= λ u. some (u.0, p.events ++ u.1) in
      if length b - p.offset == 0 || p.still_reading then some (t, p.events) else again
