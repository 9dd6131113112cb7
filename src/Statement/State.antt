-- ===== src/Statement/State.antt =====
-- The state of a statement in lib/db/statement.js and the methods that fill it. A clause whose
-- length the source tests is a list, and `none` is a clause that was never called where the
-- source tells that from an empty one.
use orientjs.Prelude.{
  ℕ, Bool, true, false, Option, none, some, List, [], ◌∷◌, ◌++◌, ℤ, pos, ◌-◌, ◌&&◌, ◌||◌, leb,
  if◌then◌else◌,
}
use orientjs.Text.{Text, codes, text_eq}
use orientjs.Utils.Encode.{Value}
use orientjs.Statement.Params.{Supply, Object, SetValue, add_params}
use orientjs.Statement.Where.{Operator, and, Condition, Clause}

-- A string, or another value by its text.
pub data Name : Type 0 where
  text : Text → Name
  other : Text → Name

-- What `from` and `to` take. A function gives the text of the statement that it fills, from the
-- index that the statement starts with.
pub data Source : Type 0 where
  name : Name → Source
  list : List Text → Source
  statement : Text → Source
  built : (ℕ → Text) → Source

pub data Sort : Type 0 where
  by : Name → Sort
  fields : List (Text × Text) → Sort

pub data SetItem : Type 0 where
  text : Text → SetItem
  object : List (Text × SetValue) → SetItem

-- What `let` and `if` bind.
pub data Bound : Type 0 where
  branch : List (ℕ → Text) → Bound
  built : (ℕ → Text) → Bound
  statement : Text → Bound
  text : Text → Bound

pub data Returned : Type 0 where
  list : List Text → Returned
  fields : List (Text × Text) → Returned
  value : Text → Returned

-- `_state`. A number is 0 where it is not given and the source does not tell the two apart.
pub record State : Type 0 where
  pub supply : Supply
  pub create : List Text
  pub traverse : Option (List Text)
  pub select : List Text
  pub update : Option (List Text)
  pub insert : Bool
  pub deletion : Option (List Text)
  pub sources : List Source
  pub bcommon : List (Text × Bound)
  pub targets : List Source
  pub into : List Name
  pub settings : List SetItem
  pub content : List Text
  pub increment : List (Text × Text)
  pub addition : List (Text × List (Option Value))
  pub removal : List (Text × List (Option Value))
  pub put : List (Text × Object)
  pub upsert : Bool
  pub returned : Option Returned
  pub clauses : List Clause
  pub group : List Name
  pub order : List Sort
  pub maxdepth : Option (List ℕ)
  pub unwind : List Text
  pub limit : ℤ
  pub strategy : Option Text
  pub skip : ℤ
  pub lock : Option (List Text)
  pub rollback : Bool
  pub sleep : ℕ
  pub commit : Option ℕ
  pub retry : ℕ
  pub wait : ℕ

-- `new Statement(db)`
abbrev pub new_statement : State
new_statement = record {
  supply = record { params = []; param_index = 0 };
  create = [];
  traverse = none;
  select = [];
  update = none;
  insert = false;
  deletion = none;
  sources = [];
  bcommon = [];
  targets = [];
  into = [];
  settings = [];
  content = [];
  increment = [];
  addition = [];
  removal = [];
  put = [];
  upsert = false;
  returned = none;
  clauses = [];
  group = [];
  order = [];
  maxdepth = none;
  unwind = [];
  limit = pos 0;
  strategy = none;
  skip = pos 0;
  lock = none;
  rollback = false;
  sleep = 0;
  commit = none;
  retry = 0;
  wait = 0;
}

-- `args`, or the defaults where it is undefined.
abbrev args_of : List Text → Option (List Text) → List Text
args_of defaults none = defaults
args_of defaults (some ts) = ts

abbrev pushed : {A : Type 0} → List A → Option (List A) → Option (List A)
pushed ts none = some ts
pushed ts (some us) = some (us ++ ts)

-- `select` and `traverse`, which stand for `*` without an argument.
abbrev pub select : Option (List Text) → State → State
select args s = record s { select = s.select ++ args_of (codes "*" ∷ []) args }

abbrev pub traverse : Option (List Text) → State → State
traverse args s = record s { traverse = pushed (args_of (codes "*" ∷ []) args) s.traverse }

abbrev pub update : List Text → State → State
update args s = record s { update = pushed args s.update }

abbrev pub insert : State → State
insert s = record s { insert = true }

abbrev pub delete : List Text → State → State
delete args s = record s { deletion = pushed args s.deletion }

abbrev pub create : List Text → State → State
create args s = record s { create = s.create ++ args }

abbrev pub from : Source → State → State
from x s = record s { sources = s.sources ++ (x ∷ []) }

abbrev pub set : List SetItem → State → State
set args s = record s { settings = s.settings ++ args }

-- `increment`; the number is 1 where it is undefined.
abbrev pub increment : Text → Option Text → State → State
increment property none s = record s { increment = s.increment ++ ((property, codes "1") ∷ []) }
increment property (some n) s = record s { increment = s.increment ++ ((property, n) ∷ []) }

abbrev pub add : Text → List (Option Value) → State → State
add property values s = record s { addition = s.addition ++ ((property, values) ∷ []) }

abbrev pub remove : Text → List (Option Value) → State → State
remove property values s = record s { removal = s.removal ++ ((property, values) ∷ []) }

abbrev pub put : Text → Object → State → State
put property kvs s = record s { put = s.put ++ ((property, kvs) ∷ []) }

abbrev with_params : Option Object → State → State
with_params none s = s
with_params (some kvs) s = record s { supply = add_params kvs s.supply }

-- `whereClause`: where, while, and, or, like, gt, gte, lt, lte, ne, is, in, instanceOf and
-- containsText are this with an operator and a comparison of their own.
unfoldable pub where_clause : Operator → Text → Condition → Option Object → State → State
unfolding add_params
where_clause op comparison c params s = with_params params (record s {
  clauses = s.clauses ++ (record { op = op; condition = c; comparison = comparison } ∷ []);
})

-- `upsert`; its parameters count only with a condition.
unfoldable pub upsert : Option (Condition × Text) → Option Object → State → State
unfolding where_clause
upsert none params s = record s { upsert = true }
upsert (some (c, comparison)) params s =
    where_clause and comparison c params (record s { upsert = true })

-- `let` and `if`
abbrev pub bind : Text → Bound → State → State
bind k x s = record s { bcommon = s.bcommon ++ ((k, x) ∷ []) }

abbrev pub to : List Source → State → State
to args s = record s { targets = s.targets ++ args }

abbrev pub into : List Name → State → State
into args s = record s { into = s.into ++ args }

-- `content`, for texts that JSON.stringify gives.
abbrev pub content : List Text → State → State
content args s = record s { content = s.content ++ args }

abbrev pub group : List Name → State → State
group args s = record s { group = s.group ++ args }

abbrev pub order : List Sort → State → State
order args s = record s { order = s.order ++ args }

abbrev pub maxdepth : List ℕ → State → State
maxdepth args s = record s { maxdepth = pushed args s.maxdepth }

abbrev pub unwind : List Text → State → State
unwind args s = record s { unwind = s.unwind ++ args }

abbrev pub skip : ℤ → State → State
skip n s = record s { skip = n }

abbrev pub limit : ℤ → State → State
limit n s = record s { limit = n }

abbrev pub lock : List Text → State → State
lock args s = record s { lock = pushed args s.lock }

abbrev pub rollback : State → State
rollback s = record s { rollback = true }

abbrev or_zero : Option ℕ → ℕ
or_zero none = 0
or_zero (some n) = n

abbrev or_one : Option ℕ → ℕ
or_one none = 1
or_one (some n) = n

abbrev pub sleep : Option ℕ → State → State
sleep ms s = record s { sleep = or_zero ms }

-- `commit`, which makes the statement a transaction.
abbrev pub commit : Option ℕ → State → State
commit retry_limit s = record s { commit = some (or_zero retry_limit) }

abbrev pub retry : Option ℕ → State → State
retry retry_limit s = record s { retry = or_one retry_limit }

abbrev pub wait : Option ℕ → State → State
wait wait_limit s = record s { wait = or_one wait_limit }

abbrev pub return : Returned → State → State
return x s = record s { returned = some x }

-- `toUpperCase` on ASCII.
abbrev upper : Text → Text
upper [] = []
upper (c ∷ t) = (if leb b'a' c && leb c b'z' then c - 32 else c) ∷ upper t

-- `strategy`, on a string: another name changes nothing.
unfoldable pub strategy : Text → State → State
unfolding text_eq
strategy t s =
    if text_eq (upper t) (codes "DEPTH_FIRST") || text_eq (upper t) (codes "BREADTH_FIRST")
    then record s { strategy = some (upper t) }
    else s
