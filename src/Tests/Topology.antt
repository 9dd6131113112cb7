-- ===== src/Tests/Topology.antt =====
-- Concrete clusters.
use orientjs.Prelude.{◌+◌, ◌≡◌, refl, Option, none, some, List, [], ◌∷◌, ◌==◌, if◌then◌else◌}
use Prim.Native.Nat.{min}
use orientjs.Text.{Text, codes}
use orientjs.Topology.{Server, configure, new_server, reconfigure, connect, caught, connect_failed}
use orientjs.Topology.Reconfigure.{times, addresses, times-reconfigure}
use orientjs.Topology.Connecting.{connects, connects_stuck}

-- parseInt on the texts of the addresses below.
abbrev parse_int : Option Text → Text
parse_int none = codes "NaN"
parse_int (some t) = t

abbrev given : List Text
given = codes "b:2425" ∷ codes "a:2424" ∷ codes "b:2425" ∷ []

abbrev cluster : List Server
cluster = configure (codes "a", codes "2424") []

times-reconfigure_example :
    times (codes "b:2425") (addresses (reconfigure parse_int given cluster)) ≡ (
      if times (codes "b:2425") (addresses cluster) == 0
      then min 1 (times (codes "b:2425") given)
      else times (codes "b:2425") (addresses cluster))
times-reconfigure_example =
    times-reconfigure parse_int given cluster (codes "b:2425") (refl, (refl, (refl, tt)))

abbrev alone : Server
alone = new_server (codes "a") (codes "2424")

connects_stuck_example :
    (connects 3 (caught (connect_failed (connect alone))) ≡ caught (connect_failed (connect alone)))
    × ((connect alone).attempts ≡ alone.attempts + 1)
    × ((caught (connect_failed (connect alone))).attempts ≡ alone.attempts + 1)
connects_stuck_example = connects_stuck alone 3 (unfold new_server in refl)
