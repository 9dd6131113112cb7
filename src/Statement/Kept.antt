-- ===== src/Statement/Kept.antt =====
-- The parameters of the caller in lib/db/statement.js, under `buildStatement`.
use orientjs.Prelude.{
  ℕ, ◌≡◌, refl, ◌∙◌, ◌≢◌, Bool, true, false, ◌&&◌, Option, none, List, [], ◌∷◌, ◌++◌, ◌==◌,
}
use orientjs.Text.{Text, codes}
use orientjs.Utils.Encode.{Value}
use orientjs.Utils.Escape.{escape}
use orientjs.Utils.Prepare.{find_param}
use orientjs.Statement.Params.{
  Supply, Object, param_name, supply, object_to_set, object_to_condition,
}
use orientjs.Statement.Where.{
  Condition, missing, text, object, Clause, Accumulator, condition_text, reduce_clause,
  reduce_clauses, where_text,
}
use orientjs.Statement.Found.{
  find_param_other, supply_all, expressions-supply_all, conditions-supply_all, valued, not_null,
}
use orientjs.Statement.State.{SetItem, State}
use orientjs.Statement.Build.{
  set_texts, value_texts, add_texts, remove_texts, value_at, put_entries, put_texts,
}
use orientjs.Statement.Print.{where_parts, build_statement}

unfoldable pub begins_with : Text → Text → Bool
begins_with [] t = true
begins_with (c ∷ s) [] = false
begins_with (c ∷ s) (d ∷ t) = c == d && begins_with s t

-- A name that `buildStatement` cannot make.
abbrev pub IsOwn : Text → Type 0
IsOwn k = begins_with (codes "param") k ≡ false

IsOwn-param_name : (j : Text) (n : ℕ) (k : Text) → IsOwn k → param_name j n ≢ k
unfolding begins_with param_name
IsOwn-param_name j n k own e = let same = rw (← e) at own in cc

module _ (k : Text) (own : IsOwn k) where
  abbrev Keeps : Supply → Supply → Type 0
  Keeps s t = find_param k t.params ≡ find_param k s.params

  supply-Keeps : (j : Text) (v : Option Value) (s : Supply) → Keeps s (supply j v s).1
  supply-Keeps j v s =
      find_param_other (param_name j s.param_index) k v s.params
        (IsOwn-param_name j s.param_index k own)

  supply_all-Keeps : (kvs : Object) (s : Supply) → Keeps s (supply_all kvs s)
  supply_all-Keeps [] s = refl
  supply_all-Keeps ((j, v) ∷ kvs) s = supply_all-Keeps kvs (supply j v s).1 ∙ supply-Keeps j v s

  set_texts-Keeps : (xs : List SetItem) (s : Supply) → Keeps s (set_texts xs s).1
  unfolding set_texts object_to_set
  set_texts-Keeps [] s = refl
  set_texts-Keeps (SetItem.text t ∷ xs) s = set_texts-Keeps xs s
  set_texts-Keeps (SetItem.object kvs ∷ xs) s =
      set_texts-Keeps xs (object_to_set kvs s).1
      ∙ rw expressions-supply_all (supply_all-Keeps (valued kvs) s)

  value_texts-Keeps :
      (field : Text) (vs : List (Option Value)) (s : Supply) → Keeps s (value_texts field vs s).1
  unfolding value_texts
  value_texts-Keeps field [] s = refl
  value_texts-Keeps field (v ∷ vs) s =
      value_texts-Keeps field vs (supply field v s).1 ∙ supply-Keeps field v s

  add_texts-Keeps :
      (xs : List (Text × List (Option Value))) (s : Supply) → Keeps s (add_texts xs s).1
  unfolding add_texts
  add_texts-Keeps [] s = refl
  add_texts-Keeps ((field, vs) ∷ xs) s =
      add_texts-Keeps xs (value_texts field vs s).1 ∙ value_texts-Keeps field vs s

  remove_texts-Keeps :
      (xs : List (Text × List (Option Value))) (s : Supply) → Keeps s (remove_texts xs s).1
  unfolding remove_texts
  remove_texts-Keeps [] s = refl
  remove_texts-Keeps ((field, vs) ∷ xs) s =
      remove_texts-Keeps xs (value_texts field vs s).1 ∙ value_texts-Keeps field vs s

  put_entries-Keeps :
      (p : Text) (obj kvs : Object) (s : Supply) → Keeps s (put_entries p obj kvs s).1
  unfolding put_entries
  put_entries-Keeps p obj [] s = refl
  put_entries-Keeps p obj ((j, v) ∷ kvs) s =
      let next = supply (p ++ escape j) (value_at (escape j) obj) s in
      put_entries-Keeps p obj kvs next.1 ∙ supply-Keeps (p ++ escape j) (value_at (escape j) obj) s

  put_texts-Keeps : (xs : List (Text × Object)) (s : Supply) → Keeps s (put_texts xs s).1
  unfolding put_texts
  put_texts-Keeps [] s = refl
  put_texts-Keeps ((p, obj) ∷ xs) s =
      put_texts-Keeps xs (put_entries p obj obj s).1 ∙ put_entries-Keeps p obj obj s

  condition-Keeps : (op : Text) (c : Condition) (s : Supply) → Keeps s (condition_text c op s).1
  unfolding condition_text object_to_condition
  condition-Keeps op missing s = refl
  condition-Keeps op (text t) s = refl
  condition-Keeps op (object obj) s = rw conditions-supply_all (supply_all-Keeps (not_null obj) s)

  reduce_clause-Keeps :
      (x : Clause) (a : Accumulator) (s : Supply) → Keeps s (reduce_clause x a s).1
  unfolding reduce_clause
  reduce_clause-Keeps x a s = go x.condition
    where
      go : (c : Condition) → Keeps s (reduce_clause (record x { condition = c }) a s).1
      go missing = refl
      go (text t) = refl
      go (object obj) = condition-Keeps x.comparison (object obj) s

  reduce_clauses-Keeps :
      (xs : List Clause) (a : Accumulator) (s : Supply) → Keeps s (reduce_clauses xs a s).1
  unfolding reduce_clauses
  reduce_clauses-Keeps [] a s = refl
  reduce_clauses-Keeps (x ∷ xs) a s =
      let (b, u) = reduce_clause x a s in
      reduce_clauses-Keeps xs (reduce_clause x a s).0 (reduce_clause x a s).1
      ∙ reduce_clause-Keeps x a s

  where_parts-Keeps : (st : State) (s : Supply) → Keeps s (where_parts st s).1
  unfolding where_parts where_text
  where_parts-Keeps st s = go st.clauses
    where
      go : (xs : List Clause) → Keeps s (where_parts (record st { clauses = xs }) s).1
      go [] = refl
      go (x ∷ xs) = reduce_clauses-Keeps (x ∷ xs) (record { last = none; parts = [] }) s

-- `buildStatement` leaves every parameter whose name does not begin with `param` as it was,
-- whatever the clauses of the statement are.
pub build_statement-find_param :
    (k : Text) (st : State)
    → IsOwn k
    → find_param k (build_statement st).1.params ≡ find_param k st.supply.params
unfolding build_statement
build_statement-find_param k st own =
    let u = (set_texts st.settings st.supply).1 in
    let v = (add_texts st.addition u).1 in
    let w = (remove_texts st.removal v).1 in
    let x = (put_texts st.put w).1 in
    where_parts-Keeps k own st x
    ∙ put_texts-Keeps k own st.put w
    ∙ remove_texts-Keeps k own st.removal v
    ∙ add_texts-Keeps k own st.addition u
    ∙ set_texts-Keeps k own st.settings st.supply
