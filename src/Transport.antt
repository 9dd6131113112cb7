-- ===== src/Transport.antt =====
-- lib/transport/binary/index.js: the servers that the transport knows, and its connection. Promises
-- are not modelled: each handler gives what it starts or answers. The logger, the timeout, the
-- credentials, which nothing here decides by, and the listeners' registration are left out.
pub mod Servers
pub mod Retries
pub mod Send
use orientjs.Text.{Text, codes, text_eq}
use orientjs.Prelude.{
  ℕ, zero, suc, ◌+◌, Bool, true, false, not, ◌&&◌, ◌||◌, Option, none, some, List, [], ◌∷◌, ◌++◌,
  ltb, ◌==◌, if◌then◌else◌, ◌>>=◌, length, ℤ, negsuc, eq_ℤ,
}

-- A server; `active` is false for undefined too.
pub record Server : Type 0 where
  pub host : Option Text
  pub port : Option ℕ
  pub active : Bool

-- `connecting`: false, or a promise that is pending, resolved or rejected.
pub data Connecting : Type 0 where
  idle pending resolved rejected : Connecting

-- `connections` counts the connections, or the connection pools, made so far.
pub record Transport : Type 0 where
  pub connecting : Connecting
  pub closing : Bool
  pub retries : ℕ
  pub max_retries : ℕ
  pub servers : List Server
  pub use_token : Bool
  pub token : Option Text
  pub session : ℤ
  pub pooled : Bool
  pub skip_connect : Bool
  pub auto_reconnection : Bool
  pub connections : ℕ

abbrev or_five : Option ℕ → ℕ
or_five none = 5
or_five (some zero) = 5
or_five (some (suc n)) = suc n

abbrev pub activated : List Server → List Server
activated [] = []
activated (s ∷ ss) = record s { active = true } ∷ activated ss

-- `configure`: the first server is that of the configuration itself.
unfoldable pub configure : Option ℕ → Server → List Server → Bool → Bool → Option Text → Transport
configure max own more pooled use_token token = record {
  connecting = idle;
  closing = false;
  retries = 0;
  max_retries = or_five max;
  servers = activated (own ∷ more);
  use_token = use_token;
  token = token;
  session = negsuc 0;
  pooled = pooled;
  skip_connect = false;
  auto_reconnection = false;
  connections = 1;
}

-- A listener of a member of the cluster.
pub record Listener : Type 0 where
  pub protocol : Text
  pub listen : Text

-- `address[0]` and `address[1]` of `listen.split(':')`.
abbrev pub before_colon : Text → Text
before_colon [] = []
before_colon (c ∷ t) = if c == b':' then [] else c ∷ before_colon t

abbrev pub behind_colon : Text → Option Text
behind_colon [] = none
behind_colon (c ∷ t) = if c == b':' then some (before_colon t) else behind_colon t

-- A server of a member: its last binary listener. `parse_int` is parseInt, none for NaN.
unfoldable pub server_of : (Text → Option ℕ) → Server → List Listener → Server
unfolding text_eq
server_of parse_int s [] = s
server_of parse_int s (l ∷ ls) =
    server_of parse_int
      (if text_eq l.protocol (codes "ONetworkProtocolBinary")
        then record {
          host = some (before_colon l.listen);
          port = behind_colon l.listen >>= parse_int;
          active = true;
        }
        else s)
      ls

-- The members that are not null, as servers.
unfoldable pub servers_of : (Text → Option ℕ) → List (Option (List Listener)) → List Server
unfolding server_of
servers_of parse_int [] = []
servers_of parse_int (none ∷ ms) = servers_of parse_int ms
servers_of parse_int (some ls ∷ ms) =
    server_of parse_int (record { host = none; port = none; active = false }) ls
    ∷ servers_of parse_int ms

-- The comparison of `bindServers`.
abbrev pub same_text : Option Text → Option Text → Bool
same_text none none = true
same_text (some a) (some b) = text_eq a b
same_text _ _ = false

abbrev pub same_number : Option ℕ → Option ℕ → Bool
same_number none none = true
same_number (some a) (some b) = a == b
same_number _ _ = false

unfoldable pub is_current : Server → Server → Bool
unfolding text_eq
is_current current a = same_text a.host current.host && same_number a.port current.port

-- `bindServers` at the event `update-config`. `sort` is Array.prototype.sort by a comparison, which
-- tells whether its first argument goes first. With no server `current.host` throws.
unfoldable pub update_config :
    ((Server → Server → Bool) → List Server → List Server)
    → (Text → Option ℕ)
    → List (Option (List Listener))
    → Transport
    → Option Transport
unfolding servers_of is_current
update_config sort parse_int members t = elim (t.servers) [
  | [] ↦ none
  | current ∷ rest ↦
      some
        (record t { servers = sort (λ a b. is_current current a) (servers_of parse_int members) })
]

-- `shiftServer`, the rounds of its loop: the first server is marked and moved to the end. `len`
-- has been counted down already. With no server `servers[0].active` throws.
abbrev pub first_active : List Server → Bool
first_active [] = false
first_active (s ∷ ss) = s.active

unfoldable pub shift_loop : ℕ → List Server → Option (List Server × Bool)
shift_loop len [] = none
shift_loop zero (s ∷ ss) = some (ss ++ (record s { active = false } ∷ []), false)
shift_loop (suc len) (s ∷ ss) =
    let moved = ss ++ (record s { active = false } ∷ []) in
    let again = shift_loop len moved in if first_active moved then some (moved, true) else again

unfoldable pub shift_server : List Server → Option (List Server × Bool)
unfolding shift_loop
shift_server [] = none
shift_server (s ∷ ss) = shift_loop (length ss) (s ∷ ss)

-- `reconnectTransport`: a new connection, and no session.
unfoldable pub reconnect : Transport → Transport
reconnect t = record t { session = negsuc 0; connecting = idle; connections = t.connections + 1 }

-- The same where a listener of `reset` calls `connect` at once, which sends the operation.
abbrev pub reset : Transport → Transport
reset t = let r = reconnect t in if r.skip_connect then r else record r { connecting = pending }

-- The event `error` of the connection: whether the transport emits it.
unfoldable pub on_error : Transport → Transport × Bool
unfolding reconnect
on_error t =
    let counted = record t { retries = t.retries + 1 } in
    if ltb t.max_retries t.retries then (counted, true) else (reconnect counted, false)

-- What `connect` answers: itself, the promise it has, one that connects anew after the event
-- `reset`, or the operation `connect` that it sends.
pub data ConnectAnswer : Type 0 where
  itself promised after_reset sent : ConnectAnswer

abbrev connect_idle : Connecting → Transport → Transport × ConnectAnswer
connect_idle idle t = (record t { connecting = pending }, sent)
connect_idle rejected t = (reset t, after_reset)
connect_idle _ t = (t, promised)

unfoldable pub connect : Transport → Transport × ConnectAnswer
unfolding reconnect
connect t =
    if not (eq_ℤ t.session (negsuc 0)) || t.skip_connect
    then (t, itself)
    else connect_idle t.connecting t

-- The answer to the operation `connect`.
unfoldable pub connected : ℤ → Option Text → Transport → Transport
connected session token t = record t {
  session = session;
  token = token;
  retries = 0;
  connecting = resolved;
}

-- Its failure: `refused` tells ECONNREFUSED. Where a server is left, the transport connects anew.
unfoldable pub connect_failed : Bool → Transport → Option (Transport × Bool)
unfolding shift_server reconnect
connect_failed false t = some (record t { connecting = rejected }, false)
connect_failed true t = shift_server t.servers >>= λ r. some (
  (if r.1
      then reset (record t { servers = r.0 })
      else record t { servers = r.0; connecting = rejected }),
  r.1,
)

-- `autoReconnect`: whether it goes on to connect, or has a promise of a call before.
unfoldable pub auto_reconnect : Transport → Option (Transport × Bool)
unfolding shift_server reconnect
auto_reconnect t =
    if t.auto_reconnection
    then some (t, true)
    else (shift_server t.servers >>= λ r. some (
      (if r.1
          then record (reconnect (record t { servers = r.0; auto_reconnection = true })) {
            connecting = pending;
          }
          else record t { servers = r.0; auto_reconnection = false }),
      r.1,
    ))

-- The promise of `autoReconnect` is fulfilled. Where it is rejected nothing changes.
unfoldable pub auto_reconnected : Transport → Transport
auto_reconnected t = record t { auto_reconnection = false }

-- `close`
unfoldable pub close : Transport → Transport
close t = record t { closing = true }
