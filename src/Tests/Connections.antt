-- ===== src/Tests/Connections.antt =====
-- Concrete runs of the connection and of the pool.
use orientjs.Prelude.{
  take, ap, ℕ, ◌≡◌, ◌≤◌, ◌+◌, refl, true, false, some, none, List, [], ◌∷◌, ltb, length,
  if◌then◌else◌, arith, Bool-cases, inl, inr,
}
use orientjs.Connection.{
  Bytes, Outcome, complete, reading, Command, Processed, process, process_loop, settled, resolved,
  rejected, caller_error, Event, written, negotiated, connect_event, destroyed, reconnect_event,
  not_written, flushed,
}
use orientjs.Connection.Connecting.{connect, negotiate_protocol, protocol_of}
use orientjs.Connection.Closing.{occurrences}
use orientjs.Connection.Steps.{
  Runs, sends, receives, cancels, start, next, connects, negotiates, closes_db, writes_done,
  socket_event,
}
use orientjs.Connection.Termination.{Moves, process_total}
use orientjs.Connection.Socket.{
  Connection, initial, send_op, cancel, timer, handle_socket_data, send_db_close, write_done,
  handle_socket_end, destroy_socket,
}
use orientjs.Connection.History.{Runs_accounts}
use orientjs.Connection.Hazards.{timer_after_cancel, unsolicited_data_loops}
use orientjs.OperationQueue as Queue
use orientjs.OperationQueue.{OperationQueue}
use orientjs.OperationQueue.Process.{Agrees, process-process_loop}
use orientjs.Pool.{new_pool, dip, dips, dip_round_robin}

-- An operation that takes one byte and answers with its own number.
abbrev answer : ℕ → Bytes → ℕ → Outcome ℕ × ℕ
answer op b o = (if ltb o (length b) then complete (o + 1) op else reading o, op)

answer-Moves : (op : ℕ) (b : Bytes) (o : ℕ) → o ≤ length b → Moves (length b) o (answer op b o).0
answer-Moves op b o h = elim (Bool-cases (ltb o (length b))) [
  | inl e ↦ rw e (grind (arith, e))
  | inr e ↦ rw e (omega arith)
]

abbrev two_commands : List (Command ℕ)
two_commands = record { op = 7; id = 1 } ∷ record { op = 8; id = 2 } ∷ []

-- One byte has come for two commands.
abbrev one_answered : Processed ℕ ℕ
one_answered = record {
  queue = record { op = 8; id = 2 } ∷ [];
  events = resolved 1 7 ∷ [];
  offset = 1;
  still_reading = true;
}

one_byte : process answer 0 5 two_commands (9 ∷ []) 0 ≡ some one_answered
unfolding process
one_byte = refl

process_total_example :
    (p : Processed ℕ ℕ) × (process answer 0 5 two_commands (9 ∷ []) 0 ≡ some p)
    × (0 ≤ p.offset)
    × (p.offset ≤ 1)
process_total_example =
    process_total answer answer-Moves 0 5 two_commands (9 ∷ []) 0 (omega arith) (omega arith)

-- A connection is made and negotiated. Two operations are sent, one is answered, and the caller
-- cancels. The database is closed over the socket, the server ends it, and once more without it.
abbrev opened : Connection ℕ
opened = record (initial) { connected = true; negotiating = true }

abbrev ready : Connection ℕ
ready = record (initial) { connected = true }

abbrev sent_one : Connection ℕ
sent_one = record (ready) { queue = record { op = 7; id = 1 } ∷ [] }

abbrev sent_two : Connection ℕ
sent_two = record (ready) { queue = two_commands }

abbrev answered : Connection ℕ
answered = record (sent_two) { queue = record { op = 8; id = 2 } ∷ []; completed = 1 ∷ [] }

abbrev cancelled : Connection ℕ
cancelled = record (answered) { queue = [] }

abbrev closing_db : Connection ℕ
closing_db = record (cancelled) { reconnect_now = true; flushing = 3 ∷ [] }

abbrev ended : Connection ℕ
ended = record (closing_db) { reconnect_now = false; connected = false }

abbrev refused : Connection ℕ
refused = record (ended) { reconnect_now = true }

abbrev done : Connection ℕ
done = record (refused) { flushing = [] }

abbrev all_events : List (Event ℕ)
all_events =
    negotiated 33
    ∷ connect_event
    ∷ written (3 ∷ [])
    ∷ written (4 ∷ [])
    ∷ resolved 1 7
    ∷ rejected 2 (caller_error 5)
    ∷ written (5 ∷ [])
    ∷ destroyed
    ∷ reconnect_event
    ∷ not_written 4
    ∷ flushed 3
    ∷ []

is_negotiated :
    negotiate_protocol {R = ℕ} opened (0 ∷ 37 ∷ []) ≡ (ready, negotiated 33 ∷ connect_event ∷ [])
unfolding negotiate_protocol protocol_of
is_negotiated = refl

first_sent : send_op {R = ℕ} ready 7 1 (3 ∷ []) ≡ (sent_one, written (3 ∷ []) ∷ [])
unfolding send_op
first_sent = refl

second_sent : send_op {R = ℕ} sent_one 8 2 (4 ∷ []) ≡ (sent_two, written (4 ∷ []) ∷ [])
unfolding send_op
second_sent = refl

byte_received :
    handle_socket_data answer 0 2 5 sent_two (9 ∷ []) ≡ some (answered, resolved 1 7 ∷ [])
unfolding handle_socket_data
byte_received = refl

rest_cancelled :
    cancel {R = ℕ} (caller_error 5) answered ≡ (cancelled, rejected 2 (caller_error 5) ∷ [])
unfolding cancel
rest_cancelled = refl

db_closed : send_db_close {R = ℕ} cancelled 3 (5 ∷ []) ≡ (closing_db, written (5 ∷ []) ∷ [])
unfolding send_db_close
db_closed = refl

socket_ended : handle_socket_end {R = ℕ} closing_db ≡ (ended, destroyed ∷ reconnect_event ∷ [])
unfolding handle_socket_end destroy_socket
socket_ended = refl

close_refused : send_db_close {R = ℕ} ended 4 (5 ∷ []) ≡ (refused, not_written 4 ∷ [])
unfolding send_db_close
close_refused = refl

close_written : write_done {R = ℕ} 3 refused ≡ (done, flushed 3 ∷ [])
unfolding write_done
close_written = refl

is_opened : connect {R = ℕ} initial ≡ (opened, [])
unfolding connect
is_opened = refl

-- The first half of the history.
history : Runs answer 0 initial (1 ∷ 2 ∷ []) [] (take 5 all_events) answered
history =
    next
      (next
        (next
          (next (next start (connects is_opened refl refl) refl refl refl)
            (negotiates (0 ∷ 37 ∷ []) refl refl is_negotiated refl refl) refl refl refl)
          (sends 7 1 (3 ∷ []) first_sent refl refl) refl refl refl)
        (sends 8 2 (4 ∷ []) second_sent refl refl) refl refl refl)
      (receives 2 5 (9 ∷ []) byte_received refl refl) refl refl refl

closing_history : Runs answer 0 initial (1 ∷ 2 ∷ []) (3 ∷ 4 ∷ []) all_events done
closing_history =
    next
      (next
        (next
          (next (next history (cancels (caller_error 5) rest_cancelled refl refl) refl refl refl)
            (closes_db 3 (5 ∷ []) db_closed refl refl) refl refl refl)
          (socket_event (inr (inl socket_ended)) refl refl) refl refl refl)
        (closes_db 4 (5 ∷ []) close_refused refl refl) refl refl refl)
      (writes_done 3 close_written refl refl) refl refl refl

Runs_accounts_example :
    (◌≡◌ {A = List ℕ} (1 ∷ 2 ∷ []) (1 ∷ 2 ∷ []))
    × (occurrences 3 (4 ∷ 3 ∷ []) + occurrences 3 [] ≡ occurrences 3 (3 ∷ 4 ∷ []))
Runs_accounts_example = Runs_accounts answer 0 3 closing_history

abbrev live : Connection ℕ
live = record (initial) { connected = true; queue = record { op = 7; id = 1 } ∷ [] }

abbrev sent_later : Connection ℕ
sent_later = (send_op {R = ℕ} (cancel {R = ℕ} (caller_error 5) live).0 8 2 (4 ∷ [])).0

timer_after_cancel_example :
    ((timer {R = ℕ} 1 sent_later).0.connected ≡ false)
    × ((timer {R = ℕ} 1 sent_later).0.queue ≡ [])
    × (settled (timer {R = ℕ} 1 sent_later).1 ≡ 2 ∷ [])
timer_after_cancel_example =
    timer_after_cancel ℕ live (caller_error 5) 8 1 2 (4 ∷ []) refl refl refl

-- An operation that is complete at once and reads nothing.
abbrev nothing_read : ℕ → Bytes → ℕ → Outcome ℕ × ℕ
nothing_read op b o = (complete 0 op, op)

unsolicited_data_loops_example : handle_socket_data nothing_read 6 9 5 initial (1 ∷ []) ≡ none
unsolicited_data_loops_example =
    unsolicited_data_loops nothing_read 6 9 5 initial (1 ∷ []) 6 refl
      (λ e. absurd (omega (arith, ap length e))) refl

dip_round_robin_example :
    ((dip (λ n. n + 10) (dips (λ n. n + 10) 5 (new_pool (some 3)))).1 ≡ some 12)
    × ((dip (λ n. n + 10) (dips (λ n. n + 10) 5 (new_pool (some 3)))).0.connections
        ≡ 10 ∷ 11 ∷ 12 ∷ [])
dip_round_robin_example = dip_round_robin (λ n. n + 10) 2 5

-- One command is answered, the other waits.
abbrev waiting : OperationQueue ℕ
waiting = record { has_socket = true; items = two_commands; writes = []; remaining = none }

process-process_loop_example :
    Agrees
      (process_loop answer 3 two_commands (9 ∷ []) 0 false)
      (Queue.process answer two_commands (9 ∷ []) 0)
process-process_loop_example =
    process-process_loop answer 3 two_commands (9 ∷ []) 0 false tt (omega arith)
