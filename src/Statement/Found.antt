-- ===== src/Statement/Found.antt =====
-- The values of an object in lib/db/statement.js stand in the parameters under the names that
-- the text has for them.
use orientjs.Prelude.{
  ℕ, suc, ◌<◌, ◌≡◌, refl, ◌∙◌, ◌≢◌, inl, inr, true, false, Option, none, some, List, [], ◌∷◌, arith,
  Bool-cases, All, ap, if◌then◌else◌,
}
use orientjs.Text.{Text, text_eq, text_eq_iff}
use orientjs.Utils.Encode.{Value}
use orientjs.Utils.Prepare.{find_param}
use orientjs.Statement.Params.{
  is_null, Supply, put_param, remove_param, param_name, supply, SetValue, undefined, built,
  statement, rid, value, Object, conditions, object_to_condition, expressions, object_to_set,
}
use orientjs.Statement.Names.{HasNoNumber, param_name_injective}

text_eq_self : (k : Text) → text_eq k k ≡ true
text_eq_self k = (text_eq_iff k k).1 refl

text_eq_other : (j k : Text) → j ≢ k → text_eq j k ≡ false
text_eq_other j k h = elim (Bool-cases (text_eq j k)) [
  | inl e ↦ absurd (h ((text_eq_iff j k).0 e))
  | inr e ↦ e
]

find_param-remove_param :
    (k : Text) (ps : List (Text × Value)) → find_param k (remove_param k ps) ≡ none
unfolding find_param remove_param
find_param-remove_param k [] = refl
find_param-remove_param k ((j, v) ∷ ps) = elim (Bool-cases (text_eq j k)) [
  | inl e ↦ rw e (find_param-remove_param k ps)
  | inr e ↦ rw e (rw e (find_param-remove_param k ps))
]

find_param-put_param :
    (k : Text) (v : Option Value) (ps : List (Text × Value)) → find_param k (put_param k v ps) ≡ v
unfolding find_param put_param
find_param-put_param k none ps = find_param-remove_param k ps
find_param-put_param k (some v) [] = rw (text_eq_self k)
find_param-put_param k (some v) ((j, w) ∷ ps) = elim (Bool-cases (text_eq j k)) [
  | inl e ↦ rw e (rw e)
  | inr e ↦ rw e (rw e (find_param-put_param k (some v) ps))
]

find_param_removed :
    (j k : Text) (ps : List (Text × Value))
    → j ≢ k
    → find_param k (remove_param j ps) ≡ find_param k ps
unfolding find_param remove_param
find_param_removed j k [] h = refl
find_param_removed j k ((i, w) ∷ ps) h = elim (Bool-cases (text_eq i j)) [
  | inl e ↦
      let same = (text_eq_iff i j).0 e in
      let apart = text_eq_other i k (rw (← same) at h) in
      rw (e, apart) (find_param_removed j k ps h)
  | inr e ↦
      rw (e, find_param) (ap (λ x. if text_eq i k then some w else x) (find_param_removed j k ps h))
]

pub find_param_other :
    (j k : Text) (v : Option Value) (ps : List (Text × Value))
    → j ≢ k
    → find_param k (put_param j v ps) ≡ find_param k ps
unfolding find_param put_param
find_param_other j k none ps h = find_param_removed j k ps h
find_param_other j k (some v) [] h = rw (text_eq_other j k h)
find_param_other j k (some v) ((i, w) ∷ ps) h = elim (Bool-cases (text_eq i j)) [
  | inl e ↦
      let same = (text_eq_iff i j).0 e in
      let apart = text_eq_other i k (rw (← same) at h) in rw (e, apart)
  | inr e ↦
      rw (e, find_param)
        (ap (λ x. if text_eq i k then some w else x) (find_param_other j k (some v) ps h))
]

-- Values that become parameters one after the other.
abbrev pub supply_all : Object → Supply → Supply
supply_all [] s = s
supply_all ((k, v) ∷ kvs) s = supply_all kvs (supply k v s).1

-- Each value stands in the parameters under its name.
abbrev pub Found : List (Text × Value) → Object → ℕ → Type 0
Found ps [] n = Unit
Found ps ((k, v) ∷ kvs) n = (find_param (param_name k n) ps ≡ v) × Found ps kvs (suc n)

supply_all_keeps :
    (kvs : Object) (s : Supply) (k : Text) (n : ℕ)
    → All (λ kv. HasNoNumber kv.0) kvs
    → HasNoNumber k
    → n < s.param_index
    → find_param (param_name k n) (supply_all kvs s).params ≡ find_param (param_name k n) s.params
supply_all_keeps [] s k n g h l = refl
supply_all_keeps ((j, v) ∷ kvs) s k n (g, gs) h l =
    let other : param_name j s.param_index ≢ param_name k n =
      λ e. let same = param_name_injective j k s.param_index n g h e in omega arith in
    supply_all_keeps kvs (supply j v s).1 k n gs h (omega arith)
    ∙ find_param_other (param_name j s.param_index) (param_name k n) v s.params other

supply_all-Found :
    (kvs : Object) (s : Supply)
    → All (λ kv. HasNoNumber kv.0) kvs
    → Found (supply_all kvs s).params kvs s.param_index
supply_all-Found [] s g = tt
supply_all-Found ((k, v) ∷ kvs) s (g, gs) = (
  supply_all_keeps kvs (supply k v s).1 k s.param_index gs g (omega arith)
      ∙ find_param-put_param (param_name k s.param_index) v s.params,
  supply_all-Found kvs (supply k v s).1 gs,
)

-- The parts of an object that become parameters.
abbrev pub valued : List (Text × SetValue) → Object
valued [] = []
valued ((k, value v) ∷ kvs) = (k, some v) ∷ valued kvs
valued ((k, undefined) ∷ kvs) = valued kvs
valued ((k, built f) ∷ kvs) = valued kvs
valued ((k, statement x) ∷ kvs) = valued kvs
valued ((k, rid x) ∷ kvs) = valued kvs

pub expressions-supply_all :
    (kvs : List (Text × SetValue)) (s : Supply) → (expressions kvs s).1 ≡ supply_all (valued kvs) s
unfolding expressions
expressions-supply_all [] s = refl
expressions-supply_all ((k, value v) ∷ kvs) s = expressions-supply_all kvs (supply k (some v) s).1
expressions-supply_all ((k, undefined) ∷ kvs) s = expressions-supply_all kvs s
expressions-supply_all ((k, built f) ∷ kvs) s = expressions-supply_all kvs s
expressions-supply_all ((k, statement x) ∷ kvs) s = expressions-supply_all kvs s
expressions-supply_all ((k, rid x) ∷ kvs) s = expressions-supply_all kvs s

-- If what the names have of the keys does not end in a digit, then after `_objectToSet` each
-- value of the object that becomes a parameter stands under the name that its key and its index
-- give.
pub object_to_set-Found :
    (obj : List (Text × SetValue)) (s : Supply)
    → All (λ kv. HasNoNumber kv.0) (valued obj)
    → Found (object_to_set obj s).1.params (valued obj) s.param_index
unfolding object_to_set
object_to_set-Found obj s g = rw expressions-supply_all (supply_all-Found (valued obj) s g)

-- The parts of an object that become parameters in a condition.
abbrev pub not_null : Object → Object
not_null [] = []
not_null ((k, v) ∷ kvs) = let rest = not_null kvs in if is_null v then rest else (k, v) ∷ rest

pub conditions-supply_all :
    (op : Text) (kvs : Object) (s : Supply) → (conditions op kvs s).1 ≡ supply_all (not_null kvs) s
unfolding conditions
conditions-supply_all op [] s = refl
conditions-supply_all op ((k, v) ∷ kvs) s = elim (Bool-cases (is_null v)) [
  | inl e ↦ rw (conditions, e) (conditions-supply_all op kvs s)
  | inr e ↦ rw (conditions, e) (conditions-supply_all op kvs (supply k v s).1)
]

-- If what the names have of the keys does not end in a digit, then after `_objectToCondition`
-- each value of the object that is not null stands under the name that its key and its index
-- give.
pub object_to_condition-Found :
    (obj : Object) (op : Text) (s : Supply)
    → All (λ kv. HasNoNumber kv.0) (not_null obj)
    → Found (object_to_condition obj op s).1.params (not_null obj) s.param_index
unfolding object_to_condition
object_to_condition-Found obj op s g =
    rw conditions-supply_all (supply_all-Found (not_null obj) s g)
