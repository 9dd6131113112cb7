-- ===== src/Connection.antt =====
-- lib/transport/binary/connection.js: the queue of operations of one connection, and the data
-- and events of its socket. `consume` of an operation is an argument: it gives the outcome, with
-- the offset behind what was read, and the operation that is left.
-- Listeners of emitted events are taken not to call back into the connection, and promise
-- callbacks run later, as those of the source do.
pub mod Process
pub mod Termination
pub mod Socket
pub mod Connecting
pub mod Steps
pub mod Closing
pub mod Flushes
pub mod History
pub mod Hazards
use orientjs.Prelude.{ℕ, zero, suc, Bool, true, false, Option, none, some, List, [], ◌∷◌, ◌++◌}

abbrev pub Bytes : Type 0
Bytes = List ℕ

-- What `consume` returns, by the status in its first place. `failed` holds `result.status.error`,
-- and `unknown` any other status.
pub data Outcome (R : Type 0) : Type 0 where
  reading : ℕ → Outcome R
  push_data : ℕ → R → Outcome R
  complete : ℕ → R → Outcome R
  live_result : ℕ → ℕ → R → ℕ → Outcome R
  live_result_end : ℕ → ℕ → Outcome R
  failed : ℕ → Option R → Outcome R
  unknown : ℕ → ℕ → Outcome R

-- Why a promise is rejected, or which error the connection emits.
pub data Failure (R : Type 0) : Type 0 where
  server_error : R → Failure R
  unknown_error : Failure R
  unsupported_status : ℕ → Failure R
  connection_error : ℕ → Failure R
  caller_error : R → Failure R

-- What the connection does to others: the promise of a queued operation is settled, data is written
-- to the socket, an event is emitted, the socket is dropped. The promise of REQUEST_DB_CLOSE is
-- `flushed` (resolved by the write) or `not_written` (rejected, with no socket to write to); that of
-- `connect` is `negotiated`, with the protocol, or `not_negotiated`.
pub data Event (R : Type 0) : Type 0 where
  resolved : ℕ → R → Event R
  rejected : ℕ → Failure R → Event R
  written : Bytes → Event R
  update_config : R → Event R
  live_query_result : ℕ → ℕ → R → Event R
  live_query_end : ℕ → Event R
  error_event : Failure R → Event R
  close_event : Event R
  reconnect_event : Event R
  destroyed : Event R
  flushed : ℕ → Event R
  not_written : ℕ → Event R
  connect_event : Event R
  negotiated : ℕ → Event R
  not_negotiated : Event R

-- A queued operation, and the number of the promise that `send` returned for it.
pub record Command (Op : Type 0) : Type 0 where
  pub op : Op
  pub id : ℕ

-- `true` stands for READING, the one status that the caller of `process` tells apart.
pub record Processed (Op R : Type 0) : Type 0 where
  pub queue : List (Command Op)
  pub events : List (Event R)
  pub offset : ℕ
  pub still_reading : Bool

-- The promises of queued operations that were settled, in their order.
abbrev pub settled : {R : Type 0} → List (Event R) → List ℕ
settled [] = []
settled (resolved n r ∷ es) = n ∷ settled es
settled (rejected n f ∷ es) = n ∷ settled es
settled (e ∷ es) = settled es

-- The promises of REQUEST_DB_CLOSE that were settled.
abbrev pub closes_settled : {R : Type 0} → List (Event R) → List ℕ
closes_settled [] = []
closes_settled (flushed n ∷ es) = n ∷ closes_settled es
closes_settled (not_written n ∷ es) = n ∷ closes_settled es
closes_settled (e ∷ es) = closes_settled es

abbrev pub ids : {Op : Type 0} → List (Command Op) → List ℕ
ids [] = []
ids (c ∷ q) = c.id ∷ ids q

-- `cancel`: every queued promise is rejected, from the front.
unfoldable pub cancel_events : {Op R : Type 0} → Failure R → List (Command Op) → List (Event R)
cancel_events f [] = []
cancel_events f (c ∷ q) = rejected c.id f ∷ cancel_events f q

abbrev pub with_events :
    {Op R : Type 0} → List (Event R) → Option (Processed Op R) → Option (Processed Op R)
with_events es none = none
with_events es (some p) = some (record p { events = es ++ p.events })

-- `process` with an empty queue asks a new operation whether the server pushed something.
idle_outcome : {Op R : Type 0} → Outcome R → ℕ → Processed Op R
idle_outcome (push_data p r) o = record {
  queue = [];
  events = update_config r ∷ [];
  offset = p;
  still_reading = false;
}
idle_outcome (live_result token operation r p) o = record {
  queue = [];
  events = live_query_result token operation r ∷ [];
  offset = p;
  still_reading = false;
}
idle_outcome (live_result_end token p) o = record {
  queue = [];
  events = live_query_end token ∷ [];
  offset = p;
  still_reading = false;
}
idle_outcome (reading p) o = record { queue = []; events = []; offset = o; still_reading = true }
idle_outcome (complete p r) o = record {
  queue = [];
  events = [];
  offset = o;
  still_reading = false;
}
idle_outcome (failed p e) o = record { queue = []; events = []; offset = o; still_reading = false }
idle_outcome (unknown n p) o = record { queue = []; events = []; offset = o; still_reading = false }

module _ {Op R : Type 0} (consume : Op → Bytes → ℕ → Outcome R × Op) where
  -- The loop of `process`. The first argument is the fuel; `none` means that it ran out. `busy`
  -- tells whether the last status was READING.
  unfoldable pub process_loop : ℕ → List (Command Op) → Bytes → ℕ → Bool → Option (Processed Op R)
  unfolding cancel_events
  process_loop zero q b o busy = none
  process_loop (suc f) [] b o busy =
      some (record { queue = []; events = []; offset = o; still_reading = busy })
  process_loop (suc f) (c ∷ q) b o busy =
      let out = consume c.op b o in
      let item = record c { op = out.1 } in
      elim (out.0) [
        | reading p ↦
            some (record { queue = item ∷ q; events = []; offset = p; still_reading = true })
        | push_data p r ↦ with_events (update_config r ∷ []) (process_loop f (item ∷ q) b p false)
        | complete p r ↦ with_events (resolved c.id r ∷ []) (process_loop f q b p false)
        | live_result token operation r p ↦
            with_events (live_query_result token operation r ∷ [])
              (process_loop f (item ∷ q) b p false)
        | live_result_end token p ↦
            with_events (live_query_end token ∷ []) (process_loop f (item ∷ q) b p false)
        | failed p (some e) ↦
            with_events (rejected c.id (server_error e) ∷ []) (process_loop f q b p false)
        | failed p none ↦
            with_events
              (rejected c.id unknown_error
                ∷ (cancel_events unknown_error q ++ (error_event unknown_error ∷ [])))
              (process_loop f [] b p false)
        | unknown n p ↦
            with_events (rejected c.id (unsupported_status n) ∷ []) (process_loop f q b p false)
      ]

  unfoldable pub process : Op → ℕ → List (Command Op) → Bytes → ℕ → Option (Processed Op R)
  unfolding process_loop idle_outcome
  process fresh f [] b o = some (idle_outcome (consume fresh b o).0 o)
  process fresh f (c ∷ q) b o = process_loop f (c ∷ q) b o false
