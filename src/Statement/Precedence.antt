-- ===== src/Statement/Precedence.antt =====
-- What the conditions of a statement in lib/db/statement.js mean to a reader for whom AND binds
-- closer than OR.
use orientjs.Prelude.{
  ◌≡◌, refl, Option, none, some, List, [], ◌∷◌, ◌++◌, sym, ap, ◌∙◌, All, inl, inr, Option-cases,
}
use mathlib.Core.List.{append_assoc}
use orientjs.Text.{Text, codes}
use orientjs.Statement.Params.{Supply, join}
use orientjs.Statement.Where.{
  Operator, and, or, Condition, missing, text, object, Clause, keyword, Accumulator, accumulate,
  accumulate_some, condition_text, reduce_clause, reduce_clauses, where_text,
}

-- Conditions that are put together.
pub data Tree : Type 0 where
  leaf : Text → Tree
  node : Operator → Tree → Tree → Tree

pub data Level : Type 0 where
  atom conjunction disjunction : Level

abbrev spaced : Text → Text → Text → Text
spaced s k r = s ++ (b' ' ∷ (k ++ (b' ' ∷ r)))

-- How a reader takes a text apart, each condition of the caller being one unit.
pub data Reads : Level → Tree → Text → Type 0 where
  unit : (c : Text) → Reads atom (leaf c) c
  parens : {t : Tree} {s : Text} → Reads disjunction t s → Reads atom t (b'(' ∷ (s ++ (b')' ∷ [])))
  one_atom : {t : Tree} {s : Text} → Reads atom t s → Reads conjunction t s
  both :
      {t u : Tree} {s r : Text}
      → Reads conjunction t s
      → Reads atom u r
      → Reads conjunction (node and t u) (spaced s (codes "AND") r)
  one_conjunction : {t : Tree} {s : Text} → Reads conjunction t s → Reads disjunction t s
  either :
      {t u : Tree} {s r : Text}
      → Reads disjunction t s
      → Reads conjunction u r
      → Reads disjunction (node or t u) (spaced s (codes "OR") r)

-- The conditions that the clauses give, with their operators, in their order.
unfoldable pub given : List Clause → Supply → List (Operator × Text)
unfolding condition_text
given [] s = []
given (x ∷ xs) s =
    let (c, u) = condition_text x.condition x.comparison s in
    let rest = given xs u in elim c [ none ↦ rest | some t ↦ (x.op, t) ∷ rest ]

-- Each condition is put to all those before it.
unfoldable pub from_left : Tree → List (Operator × Text) → Tree
from_left t [] = t
from_left t ((op, c) ∷ cs) = from_left (node op t (leaf c)) cs

abbrev pub IsGiven : Clause → Type 0
IsGiven x = elim x.condition [ missing ↦ ⊥ | text t ↦ Unit | object obj ↦ Unit ]

abbrev level_of : Operator → Level
level_of and = conjunction
level_of or = disjunction

-- What the accumulator holds for the conditions so far.
abbrev Holds : Option Tree → Accumulator → Type 0
Holds none a = (a.last ≡ none) × (a.parts ≡ [])
Holds (some t) a =
    (op : Operator) × (a.last ≡ some op)
    × (p : Text) × (ps : List Text) × (a.parts ≡ p ∷ ps)
    × Reads (level_of op) t (join (b' ' ∷ []) (p ∷ ps))

join_two :
    (p : Text) (ps : List Text) (k c : Text)
    → join (b' ' ∷ []) ((p ∷ ps) ++ (k ∷ c ∷ [])) ≡ spaced (join (b' ' ∷ []) (p ∷ ps)) k c
unfolding join
join_two p [] k c = refl
join_two p (q ∷ ps) k c =
    ap (λ x. p ++ (b' ' ∷ x)) (join_two q ps k c)
    ∙ sym (append_assoc p (b' ' ∷ join (b' ' ∷ []) (q ∷ ps)) (b' ' ∷ (k ++ (b' ' ∷ c))))

abbrev extended : Option Tree → Operator → Text → Tree
extended none op c = leaf c
extended (some t) op c = node op t (leaf c)

lifted : (op : Operator) {t : Tree} {s : Text} → Reads atom t s → Reads (level_of op) t s
lifted and r = one_atom r
lifted or r = one_conjunction (one_atom r)

-- A further condition behind some.
accumulate_more :
    (o op : Operator) (t : Tree) (c p : Text) (ps : List Text)
    → Reads (level_of o) t (join (b' ' ∷ []) (p ∷ ps))
    → Holds (some (node op t (leaf c))) (accumulate op c (some o) (p ∷ ps))
unfolding accumulate
accumulate_more and and t c p ps r = (
  and,
  refl,
  p,
  ps ++ (keyword and ∷ c ∷ []),
  refl,
  rw (join_two p ps (codes "AND") c) (both r (unit c)),
)
accumulate_more or or t c p ps r = (
  or,
  refl,
  p,
  ps ++ (keyword or ∷ c ∷ []),
  refl,
  rw (join_two p ps (codes "OR") c) (either r (one_atom (unit c))),
)
accumulate_more and or t c p ps r = (
  or,
  refl,
  _,
  keyword or ∷ c ∷ [],
  refl,
  either (one_conjunction (one_atom (parens (one_conjunction r)))) (one_atom (unit c)),
)
accumulate_more or and t c p ps r =
    (and, refl, _, keyword and ∷ c ∷ [], refl, both (one_atom (parens r)) (unit c))

accumulate-Holds :
    (t : Option Tree) (op : Operator) (c : Text) (a : Accumulator)
    → Holds t a
    → Holds (some (extended t op c)) (accumulate op c a.last a.parts)
unfolding accumulate
accumulate-Holds none op c a (l, p) = rw (l, p) (op, refl, c, [], refl, lifted op (unit c))
accumulate-Holds (some t) op c a (o, l, p, ps, e, r) = rw (l, e) (accumulate_more o op t c p ps r)

abbrev folded : Option Tree → List (Operator × Text) → Option Tree
folded t [] = t
folded t ((op, c) ∷ cs) = some (from_left (extended t op c) cs)

folded-some : (t : Tree) (cs : List (Operator × Text)) → folded (some t) cs ≡ some (from_left t cs)
unfolding from_left
folded-some t [] = refl
folded-some t ((op, c) ∷ cs) = refl

reduce_clause_given :
    (op : Operator) (c : Condition) (k : Text) (a : Accumulator) (s : Supply)
    → IsGiven (record { op = op; condition = c; comparison = k })
    → reduce_clause (record { op = op; condition = c; comparison = k }) a s
      ≡ (accumulate_some op (condition_text c k s).0 a, (condition_text c k s).1)
unfolding reduce_clause condition_text
reduce_clause_given op missing k a s g = absurd g
reduce_clause_given op (text t) k a s g = refl
reduce_clause_given op (object obj) k a s g = refl

reduce_clauses-Holds :
    (xs : List Clause) (t : Option Tree) (a : Accumulator) (s : Supply)
    → All IsGiven xs
    → Holds t a
    → Holds (folded t (given xs s)) (reduce_clauses xs a s).0
unfolding reduce_clauses given
reduce_clauses-Holds [] t a s g h = h
reduce_clauses-Holds (x ∷ xs) t a s (g, gs) h =
    rw (reduce_clauses, reduce_clause_given x.op x.condition x.comparison a s g)
      (let u = (condition_text x.condition x.comparison s).1 in
        elim (Option-cases (condition_text x.condition x.comparison s).0) [
          | inl e ↦ rw (given, e) (reduce_clauses-Holds xs t a u gs h)
          | inr (c, e) ↦
              rw (given, e)
                (let next = accumulate-Holds t x.op c a h in
                  let rest =
                    reduce_clauses-Holds xs (some (extended t x.op c))
                      (accumulate x.op c a.last a.parts) u gs next in
                  rw (folded-some (extended t x.op c) (given xs u)) at rest)
        ])

disjoined : (op : Operator) {t : Tree} {s : Text} → Reads (level_of op) t s → Reads disjunction t s
disjoined and r = one_conjunction r
disjoined or r = r

-- For clauses none of whose conditions is null or undefined, which give a condition at least, the
-- text behind WHERE, read with AND closer than OR and each condition as a unit, puts each
-- condition to all those before it, in their order and by its operator.
pub where_text-Reads :
    (xs : List Clause) (s : Supply) (op : Operator) (c : Text) (cs : List (Operator × Text))
    → All IsGiven xs
    → given xs s ≡ (op, c) ∷ cs
    → Reads disjunction (from_left (leaf c) cs) (where_text xs s).0
unfolding where_text
where_text-Reads xs s op c cs g e =
    let (o, l, p, ps, e', r) =
      rw e at
        (reduce_clauses-Holds xs none (record { last = none; parts = [] }) s g (refl, refl)) in
    rw e' (disjoined o r)
