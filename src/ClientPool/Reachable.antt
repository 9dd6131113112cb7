-- ===== src/ClientPool/Reachable.antt =====
-- The pool of lib/client/pool/index.js in every state that its clients lead it to.
use orientjs.Prelude.{◌<◌, ◌≡◌, refl, inl, inr, Bool, false, arith, ◌==◌, Bool-cases, length}
use mathlib.Core.Path.{subst}
use orientjs.ClientPool.{again, drain, nonempty}
use orientjs.ClientPool.Steps.{
  World, Step, acquires, releases, ticks, times_out, closes, drains, Reachable, starts, steps,
}
use orientjs.ClientPool.Sound.{IsSound, IsSound-starts, IsSound-acquires, IsSound-closes}
use orientjs.ClientPool.Release.{IsSound-releases, IsSound-ticks, IsSound-times_out, IsSound-drains}

IsSound-step : {w v : World} → Step w v → IsSound w → IsSound v
IsSound-step (acquires client opens w) h =
    let p = w.pool in
    IsSound-acquires client p.count p.max p.created p.in_use p.available p.waiting p.closing opens
      p.ticks w.lent w.lost h
IsSound-step (releases d xs ys w e) h =
    let p = w.pool in
    IsSound-releases d p.count p.max p.created p.in_use p.available p.waiting xs ys p.closing
      p.ticks w.lost (subst (λ l. IsSound (record w { lent = l })) (e) h)
IsSound-step (ticks w) h =
    let p = w.pool in
    IsSound-ticks p.count p.max p.created p.in_use p.available p.waiting p.closing p.ticks w.lent
      w.lost h
IsSound-step (times_out client w) h =
    let p = w.pool in
    IsSound-times_out client p.count p.max p.created p.in_use p.available p.waiting p.closing
      p.ticks w.lent w.lost h
IsSound-step (closes w) h = IsSound-closes w h
IsSound-step (drains ok w) h =
    let p = w.pool in
    IsSound-drains ok p.count p.max p.created p.in_use p.available p.waiting p.closing p.ticks
      w.lent w.lost h

-- In every state that clients lead the pool of databases to, with acquire, release of a database
-- that they have, ticks, timeouts, close and draining, whether databases open and close or not:
-- `count` is the number of databases in the pool, on their way, with clients or lost; it is at
-- most the maximum; each database that was made is in at most one of these places; and clients
-- wait only while the pool has no database and may make none.
pub reachable-IsSound : {w : World} → Reachable w → IsSound w
reachable-IsSound (starts max) = IsSound-starts max
reachable-IsSound (steps r s) = IsSound-step s (reachable-IsSound r)

-- In every state that clients lead the pool to, once a database could not be opened for a client,
-- `_drainPool` changes nothing and calls itself again, so that `close` is never settled.
pub drain_lost :
    {w : World} (ok : Bool) → Reachable w → 0 < length w.lost → drain ok w.pool ≡ (w.pool, again)
unfolding drain
drain_lost {w} ok r h =
    let s = reachable-IsSound r in
    let other : (w.pool.count == length w.pool.available) ≡ false = ground (arith, s.counted) in
    elim (Bool-cases (nonempty w.pool.in_use)) [ inl e ↦ rw e refl | inr e ↦ rw (e, other) refl ]
