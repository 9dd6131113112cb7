-- ===== src/Connection/Steps.antt =====
-- Histories of a connection of lib/transport/binary/connection.js: any row of calls of its methods,
-- events of its socket and callbacks, in any order.
use orientjs.Prelude.{ℕ, ◌≡◌, ◌⊎◌, true, some, List, [], ◌∷◌, ◌++◌}
use orientjs.Connection.{Bytes, Outcome, Event, Failure}
use orientjs.Connection.Socket.{
  Connection, send_op, send_db_close, write_done, cancel, handle_socket_error, handle_socket_end,
  handle_socket_close, timer, close, handle_socket_data,
}
use orientjs.Connection.Connecting.{connect, negotiate_protocol, negotiation_failed, flush_writes}

module _ {Op R : Type 0} (consume : Op → Bytes → ℕ → Outcome R × Op) (fresh : Op) where
  -- One call of a method, one event of the socket or one callback, from a connection to a
  -- connection, with the promises of queued operations that it makes, those of REQUEST_DB_CLOSE
  -- that it makes, and the events that it causes.
  pub data Happens : Connection Op → List ℕ → List ℕ → List (Event R) → Connection Op → Type 0 where
    sends :
        {s t : Connection Op} {es : List (Event R)} {made closes : List ℕ} (op : Op) (id : ℕ)
        (bytes : Bytes)
        → send_op s op id bytes ≡ (t, es)
        → made ≡ id ∷ []
        → closes ≡ []
        → Happens s made closes es t
    closes_db :
        {s t : Connection Op} {es : List (Event R)} {made closes : List ℕ} (id : ℕ) (bytes : Bytes)
        → send_db_close s id bytes ≡ (t, es)
        → made ≡ []
        → closes ≡ id ∷ []
        → Happens s made closes es t
    writes_done :
        {s t : Connection Op} {es : List (Event R)} {made closes : List ℕ} (id : ℕ)
        → write_done id s ≡ (t, es)
        → made ≡ []
        → closes ≡ []
        → Happens s made closes es t
    connects :
        {s t : Connection Op} {es : List (Event R)} {made closes : List ℕ}
        → connect s ≡ (t, es)
        → made ≡ []
        → closes ≡ []
        → Happens s made closes es t
    negotiates :
        {s t : Connection Op} {es : List (Event R)} {made closes : List ℕ} (chunk : Bytes)
        → s.connected ≡ true
        → s.negotiating ≡ true
        → negotiate_protocol s chunk ≡ (t, es)
        → made ≡ []
        → closes ≡ []
        → Happens s made closes es t
    negotiation_fails :
        {s t : Connection Op} {es : List (Event R)} {made closes : List ℕ}
        → s.connected ≡ true
        → s.negotiating ≡ true
        → negotiation_failed s ≡ (t, es)
        → made ≡ []
        → closes ≡ []
        → Happens s made closes es t
    flushes :
        {s t : Connection Op} {es : List (Event R)} {made closes : List ℕ}
        → flush_writes s ≡ (t, es)
        → made ≡ []
        → closes ≡ []
        → Happens s made closes es t
    cancels :
        {s t : Connection Op} {es : List (Event R)} {made closes : List ℕ} (f : Failure R)
        → cancel f s ≡ (t, es)
        → made ≡ []
        → closes ≡ []
        → Happens s made closes es t
    socket_event :
        {s t : Connection Op} {es : List (Event R)} {made closes : List ℕ}
        → (handle_socket_error s ≡ (t, es))
          ⊎ ((handle_socket_end s ≡ (t, es))
              ⊎ ((handle_socket_close s ≡ (t, es)) ⊎ (close s ≡ (t, es))))
        → made ≡ []
        → closes ≡ []
        → Happens s made closes es t
    times_out :
        {s t : Connection Op} {es : List (Event R)} {made closes : List ℕ} (id : ℕ)
        → timer id s ≡ (t, es)
        → made ≡ []
        → closes ≡ []
        → Happens s made closes es t
    receives :
        {s t : Connection Op} {es : List (Event R)} {made closes : List ℕ} (f g : ℕ) (chunk : Bytes)
        → handle_socket_data consume fresh f g s chunk ≡ some (t, es)
        → made ≡ []
        → closes ≡ []
        → Happens s made closes es t

  -- A row of them.
  pub data Runs (s : Connection Op)
      : List ℕ → List ℕ → List (Event R) → Connection Op → Type 0 where
    start : Runs s [] [] [] s
    next :
        {t u : Connection Op} {made new all closes new_closes all_closes : List ℕ}
        {es fs gs : List (Event R)}
        → Runs s made closes es t
        → Happens t new new_closes fs u
        → all ≡ made ++ new
        → all_closes ≡ closes ++ new_closes
        → gs ≡ es ++ fs
        → Runs s all all_closes gs u
