-- ===== src/ClientPool/Sound.antt =====
-- What holds of the pool of lib/client/pool/index.js in every state that its clients lead it to.
use orientjs.Prelude.{
  ℕ, zero, suc, ◌+◌, ◌≤◌, ◌<◌, ◌≡◌, refl, ◌⊎◌, inl, Option, none, some, List, [], ◌∷◌, ◌++◌, arith,
  ltb, ◌==◌, if◌then◌else◌, length, Bool, true, false, inr, Bool-cases,
}
use orientjs.ClientPool.{configure, acquire, close}
use orientjs.ClientPool.Steps.{World, answered, taken}

-- How often a database stands in a list, and among the ticks.
unfoldable pub occurs : ℕ → List ℕ → ℕ
occurs i [] = 0
occurs i (d ∷ ds) = (if d == i then 1 else 0) + occurs i ds

unfoldable pub occurs_ticks : ℕ → List (ℕ × ℕ) → ℕ
occurs_ticks i [] = 0
occurs_ticks i ((c, d) ∷ ts) = (if d == i then 1 else 0) + occurs_ticks i ts

-- The places where a database is: in the pool, on its way to a client, with a client, or lost.
unfoldable pub places : ℕ → World → ℕ
unfolding occurs occurs_ticks
places i w =
    occurs i w.pool.available + occurs_ticks i w.pool.ticks + occurs i w.lent + occurs i w.lost

-- The databases outside the pool.
abbrev pub outside : World → ℕ
outside w = length w.pool.ticks + length w.lent + length w.lost

-- The count is that of the databases in the pool and outside, and no more than the maximum; each
-- database that was made is in at most one place, and no other in any; clients wait only while
-- the pool has no database and may make none.
pub record IsSound (w : World) : Type 0 where
  pub counted : w.pool.count ≡ length w.pool.available + outside w
  pub bounded : w.pool.count ≤ w.pool.max
  pub positive : 0 < w.pool.max
  pub once : (i : ℕ) → places i w ≤ (if ltb i w.pool.created then 1 else 0)
  pub full :
      (length w.pool.waiting ≡ 0) ⊎ ((length w.pool.available ≡ 0) × (w.pool.count ≡ w.pool.max))

pub occurs-append : (i : ℕ) (xs ys : List ℕ) → occurs i (xs ++ ys) ≡ occurs i xs + occurs i ys
unfolding occurs
occurs-append i [] ys = omega arith
occurs-append i (x ∷ xs) ys = omega (arith, occurs-append i xs ys)

pub occurs_ticks-append :
    (i : ℕ) (xs ys : List (ℕ × ℕ))
    → occurs_ticks i (xs ++ ys) ≡ occurs_ticks i xs + occurs_ticks i ys
unfolding occurs_ticks
occurs_ticks-append i [] ys = omega arith
occurs_ticks-append i ((c, d) ∷ xs) ys = omega (arith, occurs_ticks-append i xs ys)

pub IsSound-starts :
    (max : Option ℕ) → IsSound (record { pool = configure max; lent = []; lost = [] })
unfolding configure places occurs occurs_ticks
IsSound-starts none = record {
  counted = refl;
  bounded = omega arith;
  positive = omega arith;
  once = λ i. ground arith;
  full = inl refl;
}
IsSound-starts (some zero) = record {
  counted = refl;
  bounded = omega arith;
  positive = omega arith;
  once = λ i. ground arith;
  full = inl refl;
}
IsSound-starts (some (suc n)) = record {
  counted = refl;
  bounded = omega arith;
  positive = omega arith;
  once = λ i. ground arith;
  full = inl refl;
}

pub IsSound-closes : (w : World) → IsSound w → IsSound (record w { pool = close w.pool })
unfolding close places
IsSound-closes w s = record {
  counted = s.counted;
  bounded = s.bounded;
  positive = s.positive;
  once = s.once;
  full = s.full;
}

abbrev pub world :
    (c m n : ℕ) (u a q : List ℕ) (x : Bool) (ts : List (ℕ × ℕ)) (l s : List ℕ) → World
world c m n u a q x ts l s = record {
  pool = record {
    count = c;
    max = m;
    in_use = u;
    available = a;
    waiting = q;
    closing = x;
    created = n;
    ticks = ts;
  };
  lent = l;
  lost = s;
}

-- A database of the pool is taken, to a client or to be lost.
IsSound-take :
    (c m n d : ℕ) (u ds q : List ℕ) (x opens : Bool) (ts : List (ℕ × ℕ)) (l s : List ℕ)
    → IsSound (world c m n u (d ∷ ds) q x ts l s)
    → IsSound (taken opens d (world c m n u ds q x ts l s))
unfolding places occurs
IsSound-take c m n d u ds q x true ts l s h = record {
  counted = ground (arith, h.counted);
  bounded = h.bounded;
  positive = h.positive;
  once = λ i. ground (arith, h.once i);
  full = ground (arith, h.full);
}
IsSound-take c m n d u ds q x false ts l s h = record {
  counted = ground (arith, h.counted);
  bounded = h.bounded;
  positive = h.positive;
  once = λ i. ground (arith, h.once i);
  full = ground (arith, h.full);
}

-- One more database, where the pool has none and may make one.
IsSound-create :
    (c m n : ℕ) (u q : List ℕ) (x : Bool) (ts : List (ℕ × ℕ)) (l s : List ℕ)
    → c < m
    → IsSound (world c m n u [] q x ts l s)
    → IsSound (world (c + 1) m (n + 1) u (n ∷ []) q x ts l s)
unfolding places occurs
IsSound-create c m n u q x ts l s more h = record {
  counted = omega (arith, h.counted);
  bounded = omega arith;
  positive = h.positive;
  once = λ i. ground (arith, h.once i);
  full = ground (arith, h.full);
}

IsSound-wait :
    (client c m n : ℕ) (u q : List ℕ) (x : Bool) (ts : List (ℕ × ℕ)) (l s : List ℕ)
    → ltb c m ≡ false
    → IsSound (world c m n u [] q x ts l s)
    → IsSound (world c m n u [] (q ++ (client ∷ [])) x ts l s)
unfolding places
IsSound-wait client c m n u q x ts l s none_left h = record {
  counted = h.counted;
  bounded = h.bounded;
  positive = h.positive;
  once = h.once;
  full = inr (refl, ground (arith, h.bounded));
}

pub IsSound-acquires :
    (client c m n : ℕ) (u a q : List ℕ) (x opens : Bool) (ts : List (ℕ × ℕ)) (l s : List ℕ)
    → IsSound (world c m n u a q x ts l s)
    → IsSound (
        answered opens
          (acquire client (world c m n u a q x ts l s).pool)
          (world c m n u a q x ts l s))
unfolding acquire
IsSound-acquires client c m n u a q true opens ts l s h = h
IsSound-acquires client c m n u (d ∷ ds) q false opens ts l s h =
    IsSound-take c m n d u ds q false opens ts l s h
IsSound-acquires client c m n u [] q false opens ts l s h = elim (Bool-cases (ltb c m)) [
  | inl e ↦ rw e (
      IsSound-take (c + 1) m (n + 1) n u [] q false opens ts l s
        (IsSound-create c m n u q false ts l s (ground arith) h))
  | inr e ↦ rw e (IsSound-wait client c m n u q false ts l s e h)
]
