-- ===== src/Statement/Build.antt =====
-- `buildStatement` of lib/db/statement.js: the parts of the text in their order, and the
-- parameters that they make.
use orientjs.Prelude.{ℕ, Option, none, some, List, [], ◌∷◌, ◌++◌, map, if◌then◌else◌}
use orientjs.Text.{Text, codes, text_eq}
use orientjs.Utils.Encode.{Value, quote_text}
use orientjs.Utils.Escape.{escape}
use orientjs.Utils.Parens.{requires_parens}
use orientjs.Statement.Params.{join, Supply, Object, supply, param_name, put_param, object_to_set}
use orientjs.Statement.State.{Name, Source, name, Sort, by, SetItem, Bound, branch, State}

abbrev comma : Text
comma = codes ", "

abbrev in_parens : Text → Text
in_parens t = b'(' ∷ (t ++ (b')' ∷ []))

-- A keyword with what stands behind it, unless there is nothing.
abbrev pub listed : Text → List Text → List Text
listed k [] = []
listed k (t ∷ ts) = k ∷ join comma (t ∷ ts) ∷ []

unfoldable pub name_text : Name → Text
unfolding requires_parens
name_text (Name.text t) = if requires_parens (some t) then in_parens t else t
name_text (Name.other t) = t

unfoldable pub source_text : ℕ → Source → Text
unfolding name_text join
source_text n (name x) = name_text x
source_text n (Source.list ts) = b'[' ∷ (join (b',' ∷ []) ts ++ (b']' ∷ []))
source_text n (Source.statement t) = in_parens t
source_text n (Source.built f) = in_parens (f n)

-- An object gives a blank part for each of its keys, which `new Array(length)` makes.
abbrev sort_parts : List (Text × Text) → List Text × List Text
sort_parts [] = ([], [])
sort_parts ((k, v) ∷ kvs) = let (es, ps) = sort_parts kvs in ([] ∷ es, k ∷ v ∷ ps)

unfoldable pub sort_text : Sort → Text
unfolding name_text join
sort_text (by x) = name_text x
sort_text (Sort.fields kvs) = let (es, ps) = sort_parts kvs in join (b' ' ∷ []) (es ++ ps)

abbrev branch_text : ℕ → Text → List (ℕ → Text) → Text
branch_text n k fs =
    codes "IF( "
    ++ (k ++ (codes ") {\n\t" ++ (join (codes "\n\t") (map (λ f. f n) fs) ++ codes "\n}\n")))

abbrev let_line : Text → Text → Text
let_line k t = codes "LET " ++ (k ++ (codes " = " ++ (t ++ codes "\n")))

-- An entry of `let` or `if` in a transaction.
unfoldable pub batch_text : ℕ → Text × Bound → Text
unfolding join
batch_text n (k, branch fs) = branch_text n k fs
batch_text n (k, Bound.built f) = let_line k (f n)
batch_text n (k, Bound.statement t) = let_line k t
batch_text n (k, Bound.text t) = let_line k t

-- An entry of `let` or `if` outside of one.
unfoldable pub bound_text : ℕ → Text × Bound → Text
unfolding join requires_parens
bound_text n (k, branch fs) = branch_text n k fs
bound_text n (k, Bound.built f) = k ++ (codes " = " ++ in_parens (f n))
bound_text n (k, Bound.statement t) = k ++ (codes " = " ++ in_parens t)
bound_text n (k, Bound.text t) =
    k ++ (codes " = " ++ (if requires_parens (some t) then in_parens t else t))

-- BEGIN and the batch of a transaction.
unfoldable pub begin_parts : State → List Text
unfolding batch_text join
begin_parts s = elim s.commit [
  | none ↦ []
  | some n ↦ codes "BEGIN\n" ∷ elim s.bcommon [
    | [] ↦ []
    | x ∷ xs ↦ join (b' ' ∷ []) (map (batch_text s.supply.param_index) (x ∷ xs)) ∷ []
  ]
]

abbrev delete_parts : Option (List Text) → List Text
delete_parts none = []
delete_parts (some []) = codes "DELETE" ∷ []
delete_parts (some (t ∷ ts)) = (codes "DELETE " ++ join (b' ' ∷ []) (t ∷ ts)) ∷ []

abbrev or_empty : Option (List Text) → List Text
or_empty none = []
or_empty (some ts) = ts

abbrev first_parts : List (List Text) → List Text
first_parts [] = []
first_parts ([] ∷ ps) = first_parts ps
first_parts ((p ∷ q) ∷ ps) = p ∷ q

-- The command: the first of the clauses that is there.
unfoldable pub command_parts : State → List Text
unfolding join
command_parts s = first_parts (
    (elim s.create [ [] ↦ [] | t ∷ ts ↦ (codes "CREATE " ++ join (b' ' ∷ []) (t ∷ ts)) ∷ [] ])
    ∷ listed (codes "TRAVERSE") (or_empty s.traverse)
    ∷ listed (codes "SELECT") s.select
    ∷ listed (codes "UPDATE") (or_empty s.update)
    ∷ (if s.insert then codes "INSERT" ∷ [] else [])
    ∷ delete_parts s.deletion
    ∷ [])

unfoldable pub let_parts : State → List Text
unfolding bound_text join
let_parts s = elim s.commit [
  | some n ↦ []
  | none ↦ elim s.bcommon [
    | [] ↦ []
    | x ∷ xs ↦
        (codes "LET " ++ join (b',' ∷ []) (map (bound_text s.supply.param_index) (x ∷ xs))) ∷ []
  ]
]

abbrev kept : Option Text → List Text → List Text
kept none ts = ts
kept (some []) ts = ts
kept (some (c ∷ t)) ts = (c ∷ t) ∷ ts

-- The texts of the arguments of `set`; false and the empty text are left out.
unfoldable pub set_texts : List SetItem → Supply → List Text × Supply
unfolding object_to_set
set_texts [] s = ([], s)
set_texts (SetItem.text t ∷ xs) s = let (ts, u) = set_texts xs s in (kept (some t) ts, u)
set_texts (SetItem.object kvs ∷ xs) s =
    let (t, u) = object_to_set kvs s in let (ts, v) = set_texts xs u in (kept t ts, v)

-- `field = :name` for each of the values.
unfoldable pub value_texts : Text → List (Option Value) → Supply → List Text × Supply
unfolding param_name put_param
value_texts field [] s = ([], s)
value_texts field (v ∷ vs) s =
    let (n, u) = supply field v s in
    let (ts, w) = value_texts field vs u in ((field ++ (codes " = :" ++ n)) ∷ ts, w)

unfoldable pub add_texts : List (Text × List (Option Value)) → Supply → List Text × Supply
unfolding value_texts join
add_texts [] s = ([], s)
add_texts ((field, vs) ∷ xs) s =
    let (ts, u) = value_texts field vs s in
    let (rest, w) = add_texts xs u in (join comma ts ∷ rest, w)

abbrev removed_text : Text → List Text → Text
removed_text field [] = field
removed_text field (t ∷ ts) = join comma (t ∷ ts)

unfoldable pub remove_texts : List (Text × List (Option Value)) → Supply → List Text × Supply
unfolding value_texts join
remove_texts [] s = ([], s)
remove_texts ((field, vs) ∷ xs) s =
    let (ts, u) = value_texts field vs s in
    let (rest, w) = remove_texts xs u in (removed_text field ts ∷ rest, w)

-- `objectToAdd[key]`
unfoldable pub value_at : Text → Object → Option Value
unfolding text_eq
value_at k [] = none
value_at k ((j, v) ∷ kvs) = if text_eq j k then v else value_at k kvs

-- The keys are escaped, and the escaped keys are looked up.
unfoldable pub put_entries : Text → Object → Object → Supply → List Text × Supply
unfolding param_name put_param escape value_at
put_entries property obj [] s = ([], s)
put_entries property obj ((k, v) ∷ kvs) s =
    let key = escape k in
    let (n, u) = supply (property ++ key) (value_at key obj) s in
    let (ts, w) = put_entries property obj kvs u in
    ((property ++ (codes " = " ++ (quote_text key ++ (codes ", :" ++ n)))) ∷ ts, w)

unfoldable pub put_texts : List (Text × Object) → Supply → List Text × Supply
unfolding put_entries join
put_texts [] s = ([], s)
put_texts ((property, obj) ∷ xs) s =
    let (ts, u) = put_entries property obj obj s in
    let (rest, w) = put_texts xs u in (join comma ts ∷ rest, w)
