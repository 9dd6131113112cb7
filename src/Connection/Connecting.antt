-- ===== src/Connection/Connecting.antt =====
-- How a connection gets its socket, in lib/transport/binary/connection.js: `connect`, the listeners
-- of `negotiateConnection` and `negotiateProtocol`, and what they leave for the next tick. `send`
-- calls `connect` where there is no socket, and `_sendOp` once its promise is resolved.
use orientjs.Prelude.{ℕ, ◌+◌, ◌*◌, true, false, [], ◌∷◌, ◌==◌, if◌then◌else◌, ltb, map}
use orientjs.Connection.{Bytes, written, connect_event, negotiated, not_negotiated}
use orientjs.Connection.Socket.{Connection, Step}

-- The protocol for the version that the server gives: the module is protocol33, protocol28,
-- protocol26 or protocol19.
unfoldable pub protocol_of : ℕ → ℕ
protocol_of version =
    if ltb version 33
    then (if ltb version 28 then (if version == 26 then 26 else 19) else 28)
    else 33

module _ {Op R : Type 0} where
  -- `connect`: while a socket is there, or is being negotiated, it makes none.
  unfoldable pub connect : Connection Op → Step Op R
  connect s =
      if s.negotiating
      then (s, [])
      else if s.connected
      then (s, [])
      else (record s { connected = true; negotiating = true }, [])

  -- The first data of the socket, in `negotiateProtocol`. On less than two bytes, `readUInt16BE`
  -- throws. The bytes behind the version go to `handleSocketData` at the next tick.
  unfoldable pub negotiate_protocol : Connection Op → Bytes → Step Op R
  unfolding protocol_of
  negotiate_protocol s [] = (s, [])
  negotiate_protocol s (a ∷ []) = (s, [])
  negotiate_protocol s (a ∷ b ∷ rest) = (
    record s { negotiating = false },
    negotiated (protocol_of (a * 256 + b)) ∷ connect_event ∷ [],
  )

  -- The listeners of `error`, `close` and `end` while the connection is negotiated: the socket stays.
  unfoldable pub negotiation_failed : Connection Op → Step Op R
  negotiation_failed s = (record s { negotiating = false }, not_negotiated ∷ [])

  -- The tick behind the negotiation that writes what `_sendOp` kept; with no socket it throws.
  unfoldable pub flush_writes : Connection Op → Step Op R
  flush_writes s = if s.connected then (record s { writes = [] }, map written s.writes) else (s, [])
