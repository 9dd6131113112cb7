-- ===== src/Statement/Params.antt =====
-- The parameters of a statement in lib/db/statement.js: `paramify`, `addParam`, `addParams`, and
-- the objects whose values become parameters, `_objectToCondition` and `_objectToSet`.
use orientjs.Prelude.{
  ℕ, suc, Bool, ◌&&◌, ◌||◌, Option, none, some, List, [], ◌∷◌, ◌++◌, leb, if◌then◌else◌, true,
  false,
}
use orientjs.Text.{Text, codes, text_eq, is_digit}
use orientjs.Text.Decimal.{print_nat}
use orientjs.Utils.Encode.{Value, nothing}

-- `values.join(separator)`
unfoldable pub join : Text → List Text → Text
join s [] = []
join s (t ∷ []) = t
join s (t ∷ u ∷ ts) = t ++ (s ++ join s (u ∷ ts))

abbrev pub is_alphanumeric : ℕ → Bool
is_alphanumeric c = is_digit c || (leb b'A' c && leb c b'Z') || (leb b'a' c && leb c b'z')

-- `paramify`
unfoldable pub paramify : Text → Text
paramify [] = []
paramify (c ∷ t) = let rest = paramify t in if is_alphanumeric c then c ∷ rest else rest

-- The parameters and the index of the next one. A parameter that is undefined is no entry.
pub record Supply : Type 0 where
  pub params : List (Text × Value)
  pub param_index : ℕ

unfoldable pub remove_param : Text → List (Text × Value) → List (Text × Value)
unfolding text_eq
remove_param k [] = []
remove_param k ((j, v) ∷ ps) =
    let rest = remove_param k ps in if text_eq j k then rest else (j, v) ∷ rest

-- `params[key] = value`
unfoldable pub put_param : Text → Option Value → List (Text × Value) → List (Text × Value)
unfolding text_eq remove_param
put_param k none ps = remove_param k ps
put_param k (some v) [] = (k, v) ∷ []
put_param k (some v) ((j, w) ∷ ps) =
    let rest = put_param k (some v) ps in if text_eq j k then (j, v) ∷ ps else (j, w) ∷ rest

-- `addParam`
abbrev pub add_param : Text → Option Value → Supply → Supply
add_param k v s = record s { params = put_param k v s.params }

-- An object by its own keys in their order; `none` is undefined.
abbrev pub Object : Type 0
Object = List (Text × Option Value)

-- `addParams`
unfoldable pub add_params : Object → Supply → Supply
unfolding put_param
add_params [] s = s
add_params ((k, v) ∷ kvs) s = add_params kvs (add_param k v s)

-- `'param' + paramify(key) + (this._state.paramIndex++)`
unfoldable pub param_name : Text → ℕ → Text
unfolding paramify print_nat
param_name k n = codes "param" ++ (paramify k ++ print_nat n)

-- A parameter of its own for a value.
abbrev pub supply : Text → Option Value → Supply → Text × Supply
supply k v s =
    let name = param_name k s.param_index in
    (name, record (add_param name v s) { param_index = suc s.param_index })

-- `operator === '!=' || operator === '<>' || operator === 'NOT'`
abbrev pub is_negative : Text → Bool
is_negative op = text_eq op (codes "!=") || text_eq op (codes "<>") || text_eq op (codes "NOT")

abbrev null_condition : Text → Text → Text
null_condition op k = if is_negative op then k ++ codes " IS NOT NULL" else k ++ codes " IS NULL"

abbrev param_condition : Text → Text → Text → Text
param_condition op k name = k ++ (b' ' ∷ (op ++ (codes " :" ++ name)))

-- `obj[key] === null`
abbrev pub is_null : Option Value → Bool
is_null (some nothing) = true
is_null _ = false

-- The loop of `_objectToCondition`.
unfoldable pub conditions : Text → Object → Supply → List Text × Supply
unfolding param_name put_param text_eq
conditions op [] s = ([], s)
conditions op ((k, v) ∷ kvs) s = elim (is_null v) [
  | true ↦ let (cs, t) = conditions op kvs s in (null_condition op k ∷ cs, t)
  | false ↦
      let (name, u) = supply k v s in
      let (cs, t) = conditions op kvs u in (param_condition op k name ∷ cs, t)
]

abbrev parenthesized : Text → Text
parenthesized t = b'(' ∷ (t ++ b')' ∷ [])

abbrev all_conditions : List Text → Option Text
all_conditions [] = none
all_conditions (c ∷ []) = some c
all_conditions (c ∷ d ∷ cs) = some (parenthesized (join (codes " AND ") (c ∷ d ∷ cs)))

-- `_objectToCondition`; `none` is false.
unfoldable pub object_to_condition : Object → Text → Supply → Option Text × Supply
unfolding conditions join
object_to_condition obj op s = let (cs, t) = conditions op obj s in (all_conditions cs, t)

-- A value of `set`. A function gives the text of the statement that it fills, from the index that
-- the statement starts with; a statement and a record id are given by their texts.
pub data SetValue : Type 0 where
  undefined : SetValue
  built : (ℕ → Text) → SetValue
  statement : Text → SetValue
  rid : Text → SetValue
  value : Value → SetValue

-- The loop of `_objectToSet`.
unfoldable pub expressions : List (Text × SetValue) → Supply → List Text × Supply
unfolding param_name put_param
expressions [] s = ([], s)
expressions ((k, undefined) ∷ kvs) s = expressions kvs s
expressions ((k, built f) ∷ kvs) s =
    let (es, t) = expressions kvs s in
    ((k ++ (codes " = (" ++ (f s.param_index ++ codes ")"))) ∷ es, t)
expressions ((k, statement x) ∷ kvs) s =
    let (es, t) = expressions kvs s in ((k ++ (codes " = (" ++ (x ++ codes ")"))) ∷ es, t)
expressions ((k, rid x) ∷ kvs) s =
    let (es, t) = expressions kvs s in ((k ++ (codes " = " ++ x)) ∷ es, t)
expressions ((k, value v) ∷ kvs) s =
    let (name, u) = supply k (some v) s in
    let (es, t) = expressions kvs u in ((k ++ (codes " = :" ++ name)) ∷ es, t)

abbrev all_expressions : List Text → Option Text
all_expressions [] = none
all_expressions (e ∷ es) = some (join (codes ", ") (e ∷ es))

-- `_objectToSet`; `none` is false.
unfoldable pub object_to_set : List (Text × SetValue) → Supply → Option Text × Supply
unfolding expressions join
object_to_set obj s = let (es, t) = expressions obj s in (all_expressions es, t)
