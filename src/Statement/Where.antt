-- ===== src/Statement/Where.antt =====
-- The conditions of a statement in lib/db/statement.js: `whereClause`, and how `buildStatement`
-- puts them together.
use orientjs.Prelude.{Bool, true, false, Option, none, some, List, [], ◌∷◌, ◌++◌, if◌then◌else◌}
use orientjs.Text.{Text, codes}
use orientjs.Statement.Params.{Supply, Object, object_to_condition, join}

pub data Operator : Type 0 where
  and or : Operator

pub data Condition : Type 0 where
  missing : Condition
  text : Text → Condition
  object : Object → Condition

-- An entry of `state.where`, with the comparison that its object is for.
pub record Clause : Type 0 where
  pub op : Operator
  pub condition : Condition
  pub comparison : Text

-- `op.toUpperCase()`
abbrev pub keyword : Operator → Text
keyword and = codes "AND"
keyword or = codes "OR"

-- The accumulator: the last operator, and the parts of the text.
pub record Accumulator : Type 0 where
  pub last : Option Operator
  pub parts : List Text

abbrev pub same_op : Operator → Operator → Bool
same_op and and = true
same_op or or = true
same_op _ _ = false

-- `'(' + accumulator[1].join(' ') + ')'`, with what comes behind it.
abbrev regrouped : Operator → Text → List Text → List Text
regrouped op c [] = c ∷ []
regrouped op c ps = (b'(' ∷ (join (b' ' ∷ []) ps ++ (b')' ∷ []))) ∷ keyword op ∷ c ∷ []

-- What one more condition makes of the accumulator.
unfoldable pub accumulate : Operator → Text → Option Operator → List Text → Accumulator
unfolding join
accumulate op c none ps = record { last = some op; parts = ps ++ (c ∷ []) }
accumulate op c (some o) ps =
    if same_op o op
    then record { last = some o; parts = ps ++ (keyword op ∷ c ∷ []) }
    else record { last = some op; parts = regrouped op c ps }

-- The text of a condition, `none` being false, with the parameters for its values.
unfoldable pub condition_text : Condition → Text → Supply → Option Text × Supply
unfolding object_to_condition
condition_text missing op s = (none, s)
condition_text (text c) op s = (some c, s)
condition_text (object obj) op s = object_to_condition obj op s

abbrev pub accumulate_some : Operator → Option Text → Accumulator → Accumulator
accumulate_some op none a = a
accumulate_some op (some c) a = accumulate op c a.last a.parts

-- The function that `reduce` calls.
unfoldable pub reduce_clause : Clause → Accumulator → Supply → Accumulator × Supply
unfolding accumulate condition_text
reduce_clause x a s = elim x.condition [
  | missing ↦ (record a { last = some x.op }, s)
  | text t ↦ (accumulate x.op t a.last a.parts, s)
  | object obj ↦
      let (c, u) = condition_text (object obj) x.comparison s in (accumulate_some x.op c a, u)
]

unfoldable pub reduce_clauses : List Clause → Accumulator → Supply → Accumulator × Supply
unfolding reduce_clause
reduce_clauses [] a s = (a, s)
reduce_clauses (x ∷ xs) a s = let (b, t) = reduce_clause x a s in reduce_clauses xs b t

-- The text behind WHERE or WHILE.
unfoldable pub where_text : List Clause → Supply → Text × Supply
unfolding reduce_clauses join
where_text xs s =
    let (a, t) = reduce_clauses xs (record { last = none; parts = [] }) s in
    (join (b' ' ∷ []) a.parts, t)
