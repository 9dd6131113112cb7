-- ===== src/Tests/ClientPool.antt =====
-- Concrete runs of the pool of databases.
use orientjs.Prelude.{◌≡◌, refl, true, false, some, [], ◌∷◌, ◌++◌, arith}
use orientjs.ClientPool.{Pool, configure, acquire, release, drain, again}
use orientjs.ClientPool.Steps.{World, acquires, releases, Reachable, starts, steps}
use orientjs.ClientPool.Sound.{IsSound}
use orientjs.ClientPool.Reachable.{reachable-IsSound, drain_lost}
use orientjs.ClientPool.Order.{release_all, handed, pairs, release_all-pairs}

abbrev fresh : World
fresh = record { pool = configure (some 1); lent = []; lost = [] }

-- Client 10 gets the only database, client 11 waits and is served by the release.
abbrev one_lent : World
one_lent = record { pool = (acquire 10 (configure (some 1))).0; lent = 0 ∷ []; lost = [] }

one_lent-Reachable : Reachable one_lent
unfolding configure acquire
one_lent-Reachable = steps (starts (some 1)) (acquires 10 true fresh)

abbrev served : World
served = record { pool = release 0 (acquire 11 one_lent.pool).0; lent = []; lost = [] }

served-Reachable : Reachable served
unfolding configure acquire
served-Reachable =
    steps (steps one_lent-Reachable (acquires 11 true one_lent))
      (releases 0 [] [] (record one_lent { pool = (acquire 11 one_lent.pool).0 }) refl)

reachable-IsSound_example : IsSound served
reachable-IsSound_example = reachable-IsSound served-Reachable

abbrev one_lost : World
one_lost = record { pool = (acquire 10 (configure (some 1))).0; lent = []; lost = 0 ∷ [] }

one_lost-Reachable : Reachable one_lost
unfolding configure acquire
one_lost-Reachable = steps (starts (some 1)) (acquires 10 false fresh)

drain_lost_example : drain true one_lost.pool ≡ (one_lost.pool, again)
drain_lost_example = drain_lost true one_lost-Reachable (omega arith)

abbrev three_wait : Pool
three_wait = record (configure (some 1)) { waiting = (7 ∷ 8 ∷ []) ++ (9 ∷ []); ticks = [] }

release_all-pairs_example :
    (handed 3 (release_all (0 ∷ 1 ∷ []) three_wait) ≡ pairs (7 ∷ 8 ∷ []) (0 ∷ 1 ∷ []))
    × ((release_all (0 ∷ 1 ∷ []) three_wait).waiting ≡ 9 ∷ [])
    × ((release_all (0 ∷ 1 ∷ []) three_wait).available ≡ (configure (some 1)).available)
release_all-pairs_example =
    release_all-pairs (7 ∷ 8 ∷ []) (0 ∷ 1 ∷ []) (9 ∷ []) (configure (some 1)) 3 refl (omega arith)
