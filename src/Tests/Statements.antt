-- ===== src/Tests/Statements.antt =====
-- Concrete runs of the statement builder.
use orientjs.Prelude.{◌≡◌, refl, some, List, [], ◌∷◌, arith, none}
use orientjs.Text.{Text, codes}
use orientjs.Utils.Encode.{number, nothing}
use orientjs.Statement.Params.{Supply, Object, param_name, paramify, SetValue, value, rid}
use orientjs.Utils.Prepare.{find_param}
use orientjs.Statement.State.{State, new_statement, select, from, where_clause, name, Name}
use orientjs.Statement.Print.{to_string, build_statement}
use orientjs.Statement.Kept.{IsOwn, begins_with, build_statement-find_param}
use orientjs.Statement.Where.{Operator, and, or, missing, text, object, Clause, where_text}
use orientjs.Statement.Precedence.{Reads, disjunction, leaf, given, from_left, where_text-Reads}
use orientjs.Statement.Names.{HasNoNumber, param_name_collision}

abbrev no_params : Supply
no_params = record { params = []; param_index = 0 }

abbrev clauses : List Clause
clauses =
    record { op = and; condition = text (codes "a = 1"); comparison = codes "=" }
    ∷ record {
      op = or;
      condition = object ((codes "b", some (number (codes "2"))) ∷ []);
      comparison = codes ">";
    }
    ∷ record { op = and; condition = text (codes "c = 3"); comparison = codes "=" }
    ∷ []

-- The first condition, and those behind it.
abbrev behind_first : List (Operator × Text)
behind_first = (or, codes "b > :paramb0") ∷ (and, codes "c = 3") ∷ []

clauses_given : given clauses no_params ≡ (and, codes "a = 1") ∷ behind_first
unfolding given
clauses_given = refl

clauses_text : (where_text clauses no_params).0 ≡ codes "((a = 1) OR b > :paramb0) AND c = 3"
unfolding where_text
clauses_text = refl

where_text-Reads_example :
    Reads disjunction
      (from_left (leaf (codes "a = 1")) behind_first)
      (where_text clauses no_params).0
where_text-Reads_example =
    where_text-Reads clauses no_params and (codes "a = 1") behind_first (tt, (tt, (tt, tt)))
      clauses_given

-- The parameter of `a1` at index 1 and that of `a` at index 11.
param_name_collision_example : param_name (codes "a1") 1 ≡ param_name (codes "a") 11
param_name_collision_example =
    param_name_collision (codes "a") 1 1 (omega arith) (omega arith) (omega arith)

x-HasNoNumber : HasNoNumber (codes "x")
unfolding paramify
x-HasNoNumber = refl

y-HasNoNumber : HasNoNumber (codes "y")
unfolding paramify
y-HasNoNumber = refl

abbrev two_values : List (Text × SetValue)
two_values =
    (codes "x", value (number (codes "7")))
    ∷ (codes "r", rid (codes "#5:1"))
    ∷ (codes "y", value nothing)
    ∷ []

abbrev two_conditions : Object
two_conditions = (codes "x", some (number (codes "7"))) ∷ (codes "y", some nothing) ∷ []

-- A statement of the caller, with a parameter of its own.
abbrev a_query : State
a_query =
    where_clause and (codes "=") (object ((codes "b", some (number (codes "2"))) ∷ []))
      (some ((codes "mine", some (number (codes "9"))) ∷ []))
      (from (name (Name.text (codes "V"))) (select none new_statement))

a_query_text : to_string a_query ≡ codes "SELECT * FROM V WHERE b = 2"
unfolding to_string where_clause
a_query_text = refl

mine_IsOwn : IsOwn (codes "mine")
unfolding begins_with
mine_IsOwn = refl

build_statement-find_param_example :
    find_param (codes "mine") (build_statement a_query).1.params
    ≡ find_param (codes "mine") a_query.supply.params
build_statement-find_param_example = build_statement-find_param (codes "mine") a_query mine_IsOwn

-- A null condition sets the operator, and the next condition stands behind an operator alone.
dangling_operator :
    (where_text
      (record { op = and; condition = missing; comparison = codes "=" }
        ∷ record { op = and; condition = text (codes "a = 1"); comparison = codes "=" }
        ∷ [])
      no_params).0
    ≡ codes "AND a = 1"
unfolding where_text
dangling_operator = refl
