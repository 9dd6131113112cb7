-- ===== src/ClientPool.antt =====
-- lib/client/pool/index.js: the pool of databases that clients acquire and release. A database and
-- a client are known by a number. The EventEmitter, the logger and BasePool, which hands everything
-- to the package `generic-pool`, are left out.
pub mod Steps
pub mod Sound
pub mod Release
pub mod Reachable
pub mod Order
use orientjs.Prelude.{
  ℕ, zero, suc, ◌+◌, Bool, true, false, Option, none, some, List, [], ◌∷◌, ◌++◌, ltb, ◌==◌,
  if◌then◌else◌, length,
}

-- `created` counts the databases ever made, the next of which has this number. `ticks` has the
-- clients that process.nextTick is about to give a database to.
pub record Pool : Type 0 where
  pub count : ℕ
  pub max : ℕ
  pub in_use : List ℕ
  pub available : List ℕ
  pub waiting : List ℕ
  pub closing : Bool
  pub created : ℕ
  pub ticks : List (ℕ × ℕ)

-- `list.length > 0`
abbrev pub nonempty : List ℕ → Bool
nonempty [] = false
nonempty (x ∷ xs) = true

abbrev or_five : Option ℕ → ℕ
or_five none = 5
or_five (some zero) = 5
or_five (some (suc n)) = suc n

-- `configure`, for the `max` of the configuration.
unfoldable pub configure : Option ℕ → Pool
configure max = record {
  count = 0;
  max = or_five max;
  in_use = [];
  available = [];
  waiting = [];
  closing = false;
  created = 0;
  ticks = [];
}

-- What `acquire` answers: an error, a database that is being opened, or a promise.
pub data Answer : Type 0 where
  refused : Answer
  opening : ℕ → Answer
  queued : Answer

-- `createDB`
abbrev pub create_db : Pool → Pool
create_db p = record p {
  count = p.count + 1;
  available = p.available ++ (p.created ∷ []);
  created = p.created + 1;
}

-- `_acquireDB`, `.open()` on what it gives; undefined has no `open`.
abbrev pub acquire_db : List ℕ → Pool → Pool × Answer
acquire_db [] p = (p, refused)
acquire_db (d ∷ ds) p = (record p { available = ds }, opening d)

-- `_acquire`, by a client.
abbrev pub acquire_open : ℕ → Pool → Pool × Answer
acquire_open client p =
    let next = create_db p in
    if nonempty p.available
    then acquire_db p.available p
    else (if ltb p.count p.max
        then acquire_db next.available next
        else (record p { waiting = p.waiting ++ (client ∷ []) }, queued))

-- `acquire`
unfoldable pub acquire : ℕ → Pool → Pool × Answer
acquire client p = if p.closing then (p, refused) else acquire_open client p

-- `release`
abbrev release_to : List ℕ → ℕ → Pool → Pool
release_to [] d p = record p { available = p.available ++ (d ∷ []) }
release_to (client ∷ rest) d p = record p { waiting = rest; ticks = p.ticks ++ ((client, d) ∷ []) }

unfoldable pub release : ℕ → Pool → Pool
release d p = release_to p.waiting d p

-- What `release` leaves for the next tick: the promise of the client is resolved.
abbrev pub tick_of : List (ℕ × ℕ) → Pool → Pool × Option (ℕ × ℕ)
tick_of [] p = (p, none)
tick_of (t ∷ ts) p = (record p { ticks = ts }, some t)

unfoldable pub tick : Pool → Pool × Option (ℕ × ℕ)
tick p = tick_of p.ticks p

-- `waiting.splice(idx, 1)` at the index of a client.
unfoldable pub without : ℕ → List ℕ → List ℕ
without client [] = []
without client (c ∷ cs) = let rest = without client cs in if c == client then cs else c ∷ rest

unfoldable pub is_waiting : ℕ → List ℕ → Bool
is_waiting client [] = false
is_waiting client (c ∷ cs) = let rest = is_waiting client cs in if c == client then true else rest

-- `_checkWaiting`, and whether the promise of the client is rejected.
unfoldable pub check_waiting : ℕ → Pool → Pool × Bool
unfolding without is_waiting
check_waiting client p =
    if is_waiting client p.waiting
    then (record p { waiting = without client p.waiting }, true)
    else (p, false)

-- `close`
unfoldable pub close : Pool → Pool
close p = record p { closing = true }

-- What a call of `_drainPool` comes to: another call after 100 milliseconds, or the promise of
-- `close` settled, which `closes` tells: whether every database could be closed.
pub data Drained : Type 0 where
  again resolved rejected : Drained

abbrev pub settled : Bool → Pool → Pool × Drained
settled true p = (record p { count = 0; available = [] }, resolved)
settled false p = (p, rejected)

unfoldable pub drain : Bool → Pool → Pool × Drained
drain closes p =
    if nonempty p.in_use
    then (p, again)
    else (if p.count == length p.available then settled closes p else (p, again))
