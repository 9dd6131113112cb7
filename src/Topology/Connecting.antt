-- ===== src/Topology/Connecting.antt =====
-- A server of lib/client/topology/server.js whose first connection fails, and one that comes back.
use orientjs.Prelude.{ℕ, zero, suc, ◌+◌, ◌≡◌, refl, arith, ap, false}
use orientjs.Topology.{
  Server, no_promise, rejected, connect, connect_by, connect_done, connect_failed, on_error, caught,
}

-- One call of `connect` after the other.
unfoldable pub connects : ℕ → Server → Server
unfolding connect
connects zero s = s
connects (suc n) s = connect (connects n s)

-- One loss of the connection after the other, each followed by a new one.
unfoldable pub reconnects : ℕ → Server → Server
unfolding connect connect_done on_error
reconnects zero s = s
reconnects (suc n) s = connect_done (connect (on_error (reconnects n s)))

connects-rejected :
    (s : Server) (n : ℕ)
    → connects n (record s { connecting = rejected }) ≡ record s { connecting = rejected }
unfolding connects connect
connects-rejected s zero = refl
connects-rejected s (suc n) = ap connect (connects-rejected s n)

-- Of a server with no promise to connect, let the connection fail and OCluster.connect catch
-- that: however often `connect` is called afterwards, the server stays as it is, with the
-- rejected promise and one attempt more than before.
pub connects_stuck :
    (s : Server) (n : ℕ)
    → s.connecting ≡ no_promise
    → (connects n (caught (connect_failed (connect s))) ≡ caught (connect_failed (connect s)))
      × ((connect s).attempts ≡ s.attempts + 1)
      × ((caught (connect_failed (connect s))).attempts ≡ s.attempts + 1)
unfolding caught connect_failed
connects_stuck s n h =
    let one : (connect s).attempts ≡ s.attempts + 1 =
      unfold connect in ap (λ p. (connect_by p s).attempts) h in
    (connects-rejected (record (connect s) { connected = false }) n, one, one)

pub reconnects-listeners : (s : Server) (n : ℕ) → (reconnects n s).listeners ≡ s.listeners + n
unfolding reconnects connect connect_done on_error
reconnects-listeners s zero = omega arith
reconnects-listeners s (suc n) = omega (arith, reconnects-listeners s n)
