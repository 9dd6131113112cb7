-- ===== src/ClientPool/Steps.antt =====
-- The pool of lib/client/pool/index.js among its clients: the steps that lead from one state to
-- another. A client releases a database that it has, once.
use orientjs.Prelude.{ℕ, ◌≡◌, Bool, true, some, List, [], ◌∷◌, ◌++◌, false, Option, none}
use orientjs.ClientPool.{
  Pool, configure, Answer, refused, opening, queued, acquire, release, tick, check_waiting, close,
  drain,
}

-- `lent` are the databases that clients have, `lost` those that could not be opened: the promise
-- of `open` was rejected, and nobody has the database to release it.
pub record World : Type 0 where
  pub pool : Pool
  pub lent : List ℕ
  pub lost : List ℕ

-- A database that is opened, and one that cannot be.
abbrev pub taken : Bool → ℕ → World → World
taken true d w = record w { lent = d ∷ w.lent }
taken false d w = record w { lost = d ∷ w.lost }

-- The answer to `acquire`, where `opens` tells whether the database can be opened.
abbrev pub answered : Bool → Pool × Answer → World → World
answered opens (p, opening d) w = taken opens d (record w { pool = p })
answered opens (p, refused) w = record w { pool = p }
answered opens (p, queued) w = record w { pool = p }

abbrev pub ticked : Pool × Option (ℕ × ℕ) → World → World
ticked (p, none) w = record w { pool = p }
ticked (p, some (client, d)) w = record w { pool = p; lent = d ∷ w.lent }

pub data Step : World → World → Type 0 where
  acquires :
      (client : ℕ) (opens : Bool) (w : World) → Step w (answered opens (acquire client w.pool) w)
  releases :
      (d : ℕ) (xs ys : List ℕ) (w : World)
      → w.lent ≡ xs ++ (d ∷ ys)
      → Step w (record w { pool = release d w.pool; lent = xs ++ ys })
  ticks : (w : World) → Step w (ticked (tick w.pool) w)
  times_out :
      (client : ℕ) (w : World) → Step w (record w { pool = (check_waiting client w.pool).0 })
  closes : (w : World) → Step w (record w { pool = close w.pool })
  drains : (ok : Bool) (w : World) → Step w (record w { pool = (drain ok w.pool).0 })

-- The worlds that a new pool leads to.
pub data Reachable : World → Type 0 where
  starts : (max : Option ℕ) → Reachable (record { pool = configure max; lent = []; lost = [] })
  steps : {w v : World} → Reachable w → Step w v → Reachable v
