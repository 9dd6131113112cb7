-- ===== src/Pool.antt =====
-- lib/transport/binary/connection-pool.js: connections that are created as they are needed and
-- used in turn. `index` is `none` for -1. The connections' own calls are in Connection.
use orientjs.Prelude.{
  ℕ, zero, suc, ◌+◌, ◌%◌, ◌<◌, ◌≡◌, refl, Option, none, some, List, [], ◌∷◌, ◌++◌, arith, leb,
  if◌then◌else◌, length, get_elem?, length-append, sym, ap, ◌∙◌, inl, inr, true, false, Bool-cases,
}
use Prim.Native.Nat.{min}
use native.Mathlib.Nat.{mod-eq_of_lt, mod-lt, mod-add-mod, mod_self}
use native.Mathlib.Numerals.{add-one}
use native.Mathlib.Decide.{dec_lt}

pub record Pool (C : Type 0) : Type 0 where
  pub max : ℕ
  pub index : Option ℕ
  pub connections : List C

-- The constructor, for the `max` of the configuration.
unfoldable pub new_pool : {C : Type 0} → Option ℕ → Pool C
new_pool none = record { max = 1; index = none; connections = [] }
new_pool (some zero) = record { max = 1; index = none; connections = [] }
new_pool (some (suc n)) = record { max = suc n; index = none; connections = [] }

abbrev next_index : Option ℕ → ℕ
next_index none = 0
next_index (some i) = i + 1

module _ {C : Type 0} (create : ℕ → C) where
  -- `dip`. `create` makes the connection that stands at a place of the pool.
  unfoldable pub dip : Pool C → Pool C × Option C
  dip p =
      let next = next_index p.index in
      let i = if leb p.max next then 0 else next in
      let grown = p.connections ++ (create (length p.connections) ∷ []) in
      let cs = if leb (length p.connections) i then grown else p.connections in
      (record p { index = some i; connections = cs }, get_elem? cs i)

  -- `n` calls of `dip`.
  unfoldable pub dips : ℕ → Pool C → Pool C
  unfolding dip
  dips zero p = p
  dips (suc n) p = (dip (dips n p)).0

-- `close`
unfoldable pub close : {C : Type 0} → Pool C → Pool C
close p = record p { index = none; connections = [] }

-- The connections that `create` makes, up to the place `n`.
abbrev pub created : {C : Type 0} → (ℕ → C) → ℕ → List C
created create zero = []
created create (suc n) = created create n ++ (create n ∷ [])

length-created : {C : Type 0} (create : ℕ → C) (n : ℕ) → length (created create n) ≡ n
length-created create zero = refl
length-created create (suc n) =
    omega (arith, length-append (created create n) (create n ∷ []), length-created create n)

get_elem?-snoc_old :
    {C : Type 0} (xs : List C) (x : C) (i : ℕ)
    → i < length xs
    → get_elem? (xs ++ (x ∷ [])) i ≡ get_elem? xs i
get_elem?-snoc_old [] x i h = elim h [ ]
get_elem?-snoc_old (y ∷ xs) x zero h = refl
get_elem?-snoc_old (y ∷ xs) x (suc i) h = get_elem?-snoc_old xs x i (omega arith)

get_elem?-snoc_new :
    {C : Type 0} (xs : List C) (x : C) → get_elem? (xs ++ (x ∷ [])) (length xs) ≡ some x
get_elem?-snoc_new [] x = refl
get_elem?-snoc_new (y ∷ xs) x = get_elem?-snoc_new xs x

get_elem?-created :
    {C : Type 0} (create : ℕ → C) (n i : ℕ)
    → i < n
    → get_elem? (created create n) i ≡ some (create i)
get_elem?-created create zero i h = elim h [ ]
get_elem?-created create (suc n) i h = elim (dec_lt i n) [
  | yes old ↦
      get_elem?-snoc_old (created create n) (create n) i (omega (arith, length-created create n))
      ∙ get_elem?-created create n i old
  | no new ↦
      let last : i ≡ length (created create n) = omega (arith, length-created create n) in
      rw last (
        get_elem?-snoc_new (created create n) (create n)
        ∙ ap (λ k. some (create k)) (sym (length-created create n)))
]

-- The place after `k % m`, in turn.
turn : (m k : ℕ) → (if leb (suc m) (k % suc m + 1) then 0 else k % suc m + 1) ≡ suc k % suc m
turn m k =
    let small = mod-lt k {m = suc m} (omega arith) in
    let step = mod-add-mod k (suc m) 1 in
    elim (dec_lt (k % suc m + 1) (suc m)) [
      | yes p ↦ ground (arith, mod-eq_of_lt p, add-one k)
      | no p ↦
          let whole : k % suc m + 1 ≡ suc m = omega arith in
          ground (arith, ap (λ r. r % suc m) whole, mod_self (suc m), add-one k)
    ]

-- The pool is not full yet: the next place is the first free one.
growing :
    (m k : ℕ)
    → leb (min (suc k) (suc m)) (suc k % suc m) ≡ true
    → (suc k % suc m ≡ min (suc k) (suc m))
      × (min (suc (suc k)) (suc m) ≡ suc (min (suc k) (suc m)))
growing m k h = elim (dec_lt (suc k) (suc m)) [
  | yes p ↦ (omega (arith, mod-eq_of_lt p), omega arith)
  | no p ↦ absurd (ground (arith, mod-lt (suc k) {m = suc m} (omega arith)))
]

-- The pool is full.
full :
    (m k : ℕ)
    → leb (min (suc k) (suc m)) (suc k % suc m) ≡ false
    → min (suc (suc k)) (suc m) ≡ min (suc k) (suc m)
full m k h = elim (dec_lt (suc k) (suc m)) [
  | yes p ↦ absurd (ground (arith, mod-eq_of_lt p))
  | no p ↦ omega arith
]

module _ {C : Type 0} (create : ℕ → C) where
  abbrev filled : ℕ → ℕ → ℕ → Pool C
  filled m i n = record { max = m; index = some i; connections = created create n }

  -- The pool behind `n` calls.
  abbrev expected : ℕ → ℕ → Pool C
  expected m zero = record { max = m; index = none; connections = [] }
  expected m (suc n) = filled m (n % m) (min (suc n) m)

  dip-expected :
      (m n : ℕ)
      → dip create (expected (suc m) n) ≡ (expected (suc m) (suc n), some (create (n % suc m)))
  unfolding dip
  dip-expected m zero = ground (arith, mod-eq_of_lt {n = 0} {m = suc m} (omega arith))
  dip-expected m (suc k) =
      rw (turn m k, length-created create (min (suc k) (suc m)))
        (elim (Bool-cases (leb (min (suc k) (suc m)) (suc k % suc m))) [
          | inl e ↦
              let (place, more) = growing m k e in
              rw e (
                rw more (
                  ap (λ c. (filled (suc m) (suc k % suc m) (suc (min (suc k) (suc m))), c))
                    (get_elem?-created create (suc (min (suc k) (suc m))) (suc k % suc m)
                      (omega arith))))
          | inr e ↦ rw e (
              rw (full m k e) (
                ap (λ c. (filled (suc m) (suc k % suc m) (min (suc k) (suc m)), c))
                  (get_elem?-created create (min (suc k) (suc m)) (suc k % suc m) (ground arith))))
        ])

  dips-expected : (m n : ℕ) → dips create n (new_pool (some (suc m))) ≡ expected (suc m) n
  unfolding dips new_pool
  dips-expected m zero = refl
  dips-expected m (suc n) =
      ap (λ p. (dip create p).0) (dips-expected m n) ∙ ap (λ r. r.0) (dip-expected m n)

-- The call number n + 1 of `dip` on a new pool gives the connection at place `n % max`, and the
-- pool then has made the first min (n + 1, max) connections and no other.
pub dip_round_robin :
    {C : Type 0} (create : ℕ → C) (m n : ℕ)
    → let p = dips create n (new_pool (some (suc m))) in
      ((dip create p).1 ≡ some (create (n % suc m)))
      × ((dip create p).0.connections ≡ created create (min (suc n) (suc m)))
dip_round_robin create m n =
    rw (dips-expected create m n) (rw (dip-expected create m n) (refl, refl))
