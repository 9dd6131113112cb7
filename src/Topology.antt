-- ===== src/Topology.antt =====
-- lib/client/topology: the servers of a cluster (cluster.js), and the connecting of one (server.js).
-- The networks of a server, the logger, and what live queries emit are left out.
pub mod Reconfigure
pub mod Connecting
use orientjs.Text.{Text, text_eq}
use orientjs.Transport.{before_colon, behind_colon}
use orientjs.Prelude.{
  ℕ, ◌+◌, Bool, true, false, Option, none, some, List, [], ◌∷◌, ◌++◌, if◌then◌else◌,
}

-- `connecting`: null, or a promise that is pending, resolved or rejected.
pub data Promise : Type 0 where
  no_promise pending resolved rejected : Promise

-- An OServer: `host` and `port` of its configuration, as texts. `attempts` counts the calls of
-- `network.connect`, `listeners` the listeners of its error event.
pub record Server : Type 0 where
  pub host : Text
  pub port : Text
  pub connected : Bool
  pub connecting : Promise
  pub attempts : ℕ
  pub listeners : ℕ

unfoldable pub new_server : Text → Text → Server
new_server host port = record {
  host = host;
  port = port;
  connected = false;
  connecting = no_promise;
  attempts = 0;
  listeners = 0;
}

-- `${config.host}:${config.port}`
abbrev pub address : Server → Text
address s = s.host ++ (b':' ∷ s.port)

-- `_configureServers`: the configuration's own server comes first.
unfoldable pub configure : Text × Text → List (Text × Text) → List Server
unfolding new_server
configure (h, p) [] = new_server h p ∷ []
configure (h, p) (q ∷ qs) = new_server h p ∷ configure q qs

-- The object `mapped`, by its keys.
abbrev pub Mapped : Type 0
Mapped = List (Text × (Text × Text))

unfoldable pub set_key : Text → Text × Text → Mapped → Mapped
unfolding text_eq
set_key k v [] = (k, v) ∷ []
set_key k v ((j, w) ∷ m) =
    let rest = set_key k v m in if text_eq j k then (j, v) ∷ m else (j, w) ∷ rest

-- `delete mapped[k]`; a key stands there once.
unfoldable pub delete_key : Text → Mapped → Mapped
unfolding text_eq
delete_key k [] = []
delete_key k ((j, w) ∷ m) = let rest = delete_key k m in if text_eq j k then rest else (j, w) ∷ rest

-- `parse_int` is parseInt on a text or undefined, as the text of the number that it gives.
module _ (parse_int : Option Text → Text) where
  -- The entry of an address.
  abbrev pub entry : Text → Text × Text
  entry a = (before_colon a, parse_int (behind_colon a))

  -- `cfg.reduce`
  unfoldable pub mapped : List Text → Mapped → Mapped
  unfolding set_key
  mapped [] acc = acc
  mapped (a ∷ cfg) acc = mapped cfg (set_key a (entry a) acc)

-- The servers whose address is there already are taken off.
unfoldable pub without_known : List Server → Mapped → Mapped
unfolding delete_key
without_known [] m = m
without_known (s ∷ ss) m = without_known ss (delete_key (address s) m)

unfoldable pub new_servers : Mapped → List Server
unfolding new_server
new_servers [] = []
new_servers ((k, (h, p)) ∷ m) = new_server h p ∷ new_servers m

-- `connect` of a server; what its networks answer comes later.
abbrev pub connect_by : Promise → Server → Server
connect_by no_promise s = record s { connecting = pending; attempts = s.attempts + 1 }
connect_by pending s = s
connect_by resolved s = s
connect_by rejected s = s

unfoldable pub connect : Server → Server
connect s = connect_by s.connecting s

-- The networks are connected: listeners are added each time.
unfoldable pub connect_done : Server → Server
connect_done s = record s { connected = true; connecting = no_promise; listeners = s.listeners + 1 }

-- They could not be: the promise is rejected.
unfoldable pub connect_failed : Server → Server
connect_failed s = record s { connecting = rejected }

-- The event `error` of the network of a server.
unfoldable pub on_error : Server → Server
on_error s = record s { connected = false; connecting = no_promise }

-- What OCluster.connect does at the rejected promise, and what _reconfigureServers does there.
unfoldable pub caught : Server → Server
caught s = record s { connected = false }

unfoldable pub caught_again : Server → Server
caught_again s = record s { connected = false; connecting = no_promise }

-- `_reconfigureServers`: the servers, and `connect` of those that are not connected.
abbrev pub connect_all : List Server → List Server
connect_all [] = []
connect_all (s ∷ ss) = (if s.connected then s else connect s) ∷ connect_all ss

unfoldable pub reconfigure : (Option Text → Text) → List Text → List Server → List Server
unfolding mapped without_known new_servers connect
reconfigure parse_int cfg ss =
    connect_all (ss ++ new_servers (without_known ss (mapped parse_int cfg [])))

-- The default strategy: the first server that is connected.
unfoldable pub select : List Server → Option Server
select [] = none
select (s ∷ ss) = let rest = select ss in if s.connected then some s else rest
