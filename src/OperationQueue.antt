-- ===== src/OperationQueue.antt =====
-- lib/transport/binary/protocol33/operation-queue.js: a queue of operations with a socket of its
-- own. Outcomes, events and failures are those of Connection.
pub mod Process
use orientjs.Prelude.{
  ℕ, Bool, Option, none, some, List, [], ◌∷◌, ◌++◌, length, drop, ◌-◌, ◌==◌, if◌then◌else◌,
}
use orientjs.Connection.{
  Bytes, Outcome, reading, push_data, complete, live_result, live_result_end, failed, unknown,
  Failure, Event, Command, cancel_events, resolved, rejected, update_config, written, error_event,
  unknown_error, server_error, unsupported_status,
}

pub record OperationQueue (Op : Type 0) : Type 0 where
  pub has_socket : Bool
  pub items : List (Command Op)
  pub writes : List Bytes
  pub remaining : Option Bytes

-- What `process` leaves, does and returns.
pub record Drained (Op R : Type 0) : Type 0 where
  pub items : List (Command Op)
  pub events : List (Event R)
  pub offset : ℕ

module _ {Op R : Type 0} where
  -- `add`. REQUEST_DB_CLOSE is resolved at once, with the empty object `nothing`.
  unfoldable pub add :
      OperationQueue Op → Op → ℕ → Bytes → Bool → R → OperationQueue Op × List (Event R)
  add s op id bytes is_db_close nothing =
      let t = if s.has_socket then s else record s { writes = s.writes ++ (bytes ∷ []) } in
      let es = if s.has_socket then written bytes ∷ [] else [] in
      if is_db_close
      then (t, es ++ (resolved id nothing ∷ []))
      else (record t { items = t.items ++ (record { op = op; id = id } ∷ []) }, es)

  -- `cancel`
  unfoldable pub cancel : Failure R → OperationQueue Op → OperationQueue Op × List (Event R)
  unfolding cancel_events
  cancel f s = (record s { items = [] }, cancel_events f s.items)

  abbrev pub after : List (Event R) → Drained Op R → Drained Op R
  after es d = record d { events = es ++ d.events }

module _ {Op R : Type 0} (consume : Op → Bytes → ℕ → Outcome R × Op) where
  -- `process`. A live result is none of its statuses, and the token stands where it reads the
  -- offset; the numbers 6 and 7 are those statuses.
  unfoldable pub process : List (Command Op) → Bytes → ℕ → Drained Op R
  unfolding cancel_events
  process [] b o = record { items = []; events = []; offset = o }
  process (c ∷ q) b o =
      let out = consume c.op b o in
      let item = record c { op = out.1 } in
      elim (out.0) [
        | reading p ↦ record { items = item ∷ q; events = []; offset = p }
        | push_data p r ↦ record { items = item ∷ q; events = update_config r ∷ []; offset = p }
        | complete p r ↦ after (resolved c.id r ∷ []) (process q b p)
        | live_result token operation r p ↦
            after (rejected c.id (unsupported_status 6) ∷ []) (process q b token)
        | live_result_end token p ↦
            after (rejected c.id (unsupported_status 7) ∷ []) (process q b token)
        | failed p (some e) ↦ after (rejected c.id (server_error e) ∷ []) (process q b p)
        | failed p none ↦ record {
          items = [];
          events =
              rejected c.id unknown_error
              ∷ (cancel_events unknown_error q ++ (error_event unknown_error ∷ []));
          offset = p;
        }
        | unknown n p ↦ after (rejected c.id (unsupported_status n) ∷ []) (process q b p)
      ]

  abbrev joined : Option Bytes → Bytes → Bytes
  joined none chunk = chunk
  joined (some r) chunk = r ++ chunk

  -- `handleChunk`
  unfoldable pub handle_chunk : OperationQueue Op → Bytes → OperationQueue Op × List (Event R)
  unfolding process
  handle_chunk s chunk =
      let b = joined s.remaining chunk in
      let d = process s.items b 0 in
      let left = if length b - d.offset == 0 then none else some (drop d.offset b) in
      (record s { items = d.items; remaining = left }, d.events)
