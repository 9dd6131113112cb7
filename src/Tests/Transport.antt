-- ===== src/Tests/Transport.antt =====
-- Concrete runs of the binary transport.
use orientjs.Prelude.{ℕ, ◌+◌, ◌≡◌, refl, Bool, true, false, none, some, [], ◌∷◌, ◌++◌, ltb}
use Prim.Native.Nat.{min}
use orientjs.Text.{codes}
use orientjs.Transport.{Server, Transport, configure, on_error, shift_server}
use orientjs.Transport.Servers.{deactivated, shift_server-next, shift_server_exhausted}
use orientjs.Transport.Retries.{errors, errors-emit}

abbrev server : ℕ → Bool → Server
server port active = record { host = some (codes "localhost"); port = some port; active = active }

shift_server-next_example :
    shift_server (server 2424 true ∷ server 2425 false ∷ server 2426 true ∷ server 2427 true ∷ [])
    ≡ some (
      server 2426 true
          ∷ ((server 2427 true ∷ []) ++ (deactivated (server 2424 true) ∷ server 2425 false ∷ [])),
      true,
    )
shift_server-next_example =
    shift_server-next (server 2424 true) (server 2426 true) (server 2425 false ∷ [])
      (server 2427 true ∷ []) (refl, tt) refl

shift_server_exhausted_example :
    shift_server (server 2424 true ∷ server 2425 false ∷ [])
    ≡ some (deactivated (server 2424 true) ∷ server 2425 false ∷ [], false)
shift_server_exhausted_example =
    shift_server_exhausted (server 2424 true) (server 2425 false ∷ []) (refl, tt)

abbrev started : Transport
started = configure (some 2) (server 2424 true) [] false false none

errors-emit_example :
    ((on_error (errors 3 started)).1 ≡ ltb started.max_retries 3)
    × ((errors 3 started).connections ≡ started.connections + min 3 (started.max_retries + 1))
errors-emit_example = errors-emit 3 started (unfold configure in refl)
