-- ===== src/ClientPool/Release.antt =====
-- The pool of lib/client/pool/index.js stays sound as databases are released and handed on, clients
-- time out, and it is drained.
use orientjs.Prelude.{
  ℕ, suc, ◌+◌, ◌≡◌, refl, inl, List, [], ◌∷◌, ◌++◌, arith, ◌==◌, if◌then◌else◌, length, Bool, true,
  false, inr, Bool-cases, length-append,
}
use orientjs.ClientPool.{release, tick, check_waiting, is_waiting, drain, settled}
use orientjs.ClientPool.Steps.{ticked}
use orientjs.ClientPool.Sound.{
  IsSound, world, occurs, occurs_ticks, occurs-append, occurs_ticks-append, places,
}

length-middle : (d : ℕ) (xs ys : List ℕ) → length (xs ++ (d ∷ ys)) ≡ suc (length (xs ++ ys))
length-middle d xs ys = omega (arith, length-append xs (d ∷ ys), length-append xs ys)

occurs-middle :
    (i d : ℕ) (xs ys : List ℕ)
    → occurs i (xs ++ (d ∷ ys)) ≡ (if d == i then 1 else 0) + occurs i (xs ++ ys)
unfolding occurs
occurs-middle i d xs ys = omega (arith, occurs-append i xs (d ∷ ys), occurs-append i xs ys)

pub IsSound-releases :
    (d c m n : ℕ) (u a q xs ys : List ℕ) (x : Bool) (ts : List (ℕ × ℕ)) (s : List ℕ)
    → IsSound (world c m n u a q x ts (xs ++ (d ∷ ys)) s)
    → IsSound (record (world c m n u a q x ts (xs ++ (d ∷ ys)) s) {
      pool = release d (world c m n u a q x ts (xs ++ (d ∷ ys)) s).pool;
      lent = xs ++ ys;
    })
unfolding release places occurs occurs_ticks
IsSound-releases d c m n u a [] xs ys x ts s h = record {
  counted = omega (arith, h.counted, length-append a (d ∷ []), length-middle d xs ys);
  bounded = h.bounded;
  positive = h.positive;
  once = λ i. omega (arith, h.once i, occurs-append i a (d ∷ []), occurs-middle i d xs ys);
  full = inl refl;
}
IsSound-releases d c m n u a (client ∷ q) xs ys x ts s h = record {
  counted = omega (arith, h.counted, length-append ts ((client, d) ∷ []), length-middle d xs ys);
  bounded = h.bounded;
  positive = h.positive;
  once = λ i.
      omega (arith, h.once i, occurs_ticks-append i ts ((client, d) ∷ []), occurs-middle i d xs ys);
  full = ground (arith, h.full);
}

pub IsSound-ticks :
    (c m n : ℕ) (u a q : List ℕ) (x : Bool) (ts : List (ℕ × ℕ)) (l s : List ℕ)
    → IsSound (world c m n u a q x ts l s)
    → IsSound (ticked (tick (world c m n u a q x ts l s).pool) (world c m n u a q x ts l s))
unfolding tick places occurs occurs_ticks
IsSound-ticks c m n u a q x [] l s h = h
IsSound-ticks c m n u a q x ((client, d) ∷ ts) l s h = record {
  counted = omega (arith, h.counted);
  bounded = h.bounded;
  positive = h.positive;
  once = λ i. omega (arith, h.once i);
  full = h.full;
}

without_none : (client : ℕ) (q : List ℕ) → length q ≡ 0 → is_waiting client q ≡ false
unfolding is_waiting
without_none client [] h = refl
without_none client (d ∷ q) h = absurd (omega arith)

pub IsSound-times_out :
    (client c m n : ℕ) (u a q : List ℕ) (x : Bool) (ts : List (ℕ × ℕ)) (l s : List ℕ)
    → IsSound (world c m n u a q x ts l s)
    → IsSound (record (world c m n u a q x ts l s) {
      pool = (check_waiting client (world c m n u a q x ts l s).pool).0;
    })
unfolding check_waiting places
IsSound-times_out client c m n u a q x ts l s h = elim (Bool-cases (is_waiting client q)) [
  | inl e ↦ rw e (record {
    counted = h.counted;
    bounded = h.bounded;
    positive = h.positive;
    once = h.once;
    full = ground (arith, h.full, without_none client q);
  })
  | inr e ↦ rw e h
]

IsSound-settled :
    (ok : Bool) (c m n : ℕ) (u a q : List ℕ) (x : Bool) (ts : List (ℕ × ℕ)) (l s : List ℕ)
    → (c == length a) ≡ true
    → IsSound (world c m n u a q x ts l s)
    → IsSound (record (world c m n u a q x ts l s) {
      pool = (settled ok (world c m n u a q x ts l s).pool).0;
    })
unfolding places occurs
IsSound-settled false c m n u a q x ts l s e h = h
IsSound-settled true c m n u a q x ts l s e h = record {
  counted = ground (arith, h.counted);
  bounded = omega arith;
  positive = h.positive;
  once = λ i. omega (arith, h.once i);
  full = inl (ground (arith, h.full, h.positive));
}

pub IsSound-drains :
    (ok : Bool) (c m n : ℕ) (u a q : List ℕ) (x : Bool) (ts : List (ℕ × ℕ)) (l s : List ℕ)
    → IsSound (world c m n u a q x ts l s)
    → IsSound (record (world c m n u a q x ts l s) {
      pool = (drain ok (world c m n u a q x ts l s).pool).0;
    })
unfolding drain places occurs
IsSound-drains ok c m n (i ∷ u) a q x ts l s h = h
IsSound-drains ok c m n [] a q x ts l s h = elim (Bool-cases (c == length a)) [
  | inl e ↦ rw e (IsSound-settled ok c m n [] a q x ts l s e h)
  | inr e ↦ rw e h
]
