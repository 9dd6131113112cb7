-- ===== src/Statement/Print.antt =====
-- `buildStatement` of lib/db/statement.js as a whole, `toString`, and the statements that a
-- function fills.
use orientjs.Prelude.{
  ℕ, zero, suc, Bool, true, false, ◌||◌, Option, none, some, List, [], ◌∷◌, ◌++◌, map, ◌==◌,
  if◌then◌else◌, ℤ, pos,
}
use orientjs.Text.{Text, codes}
use orientjs.Text.Decimal.{print_nat, print_int}
use orientjs.Utils.Encode.{quote_text}
use orientjs.Utils.Escape.{escape}
use orientjs.Utils.Prepare.{prepare, named}
use orientjs.Statement.Params.{join, Supply}
use orientjs.Statement.Where.{where_text}
use orientjs.Statement.State.{Returned, list, value, State, new_statement}
use orientjs.Statement.Build.{
  name_text, source_text, sort_text, begin_parts, command_parts, let_parts, set_texts, add_texts,
  remove_texts, put_texts, listed,
}

-- An increment of a property.
abbrev increment_text : Text × Text → Text
increment_text (property, n) = escape property ++ (codes " = " ++ n)

-- `encodeReturnObject`
unfoldable pub return_fields : List (Text × Text) → List Text
unfolding escape
return_fields [] = []
return_fields ((k, v) ∷ kvs) = (quote_text (escape k) ++ (b':' ∷ v)) ∷ return_fields kvs

unfoldable pub return_parts : Option Returned → List Text
unfolding return_fields join
return_parts none = []
return_parts (some (list ts)) = codes "RETURN" ∷ (b'[' ∷ (join (b',' ∷ []) ts ++ (b']' ∷ []))) ∷ []
return_parts (some (Returned.fields kvs)) =
    codes "RETURN" ∷ (b'{' ∷ (join (b',' ∷ []) (return_fields kvs) ++ (b'}' ∷ []))) ∷ []
return_parts (some (value [])) = []
return_parts (some (value (c ∷ t))) = codes "RETURN" ∷ (c ∷ t) ∷ []

abbrev is_there : Option (List Text) → Bool
is_there none = false
is_there (some ts) = true

-- `state.update || state.insert || state.delete`
abbrev is_change : State → Bool
is_change s = is_there s.update || s.insert || is_there s.deletion

abbrev condition_keyword : Option (List Text) → Text
condition_keyword (some (t ∷ ts)) = codes "WHILE"
condition_keyword _ = codes "WHERE"

unfoldable pub where_parts : State → Supply → List Text × Supply
unfolding where_text
where_parts s u = elim s.clauses [
  | [] ↦ ([], u)
  | x ∷ xs ↦ let (t, w) = where_text (x ∷ xs) u in (condition_keyword s.traverse ∷ t ∷ [], w)
]

-- `+n`, behind its keyword unless it is 0.
abbrev number_parts : Text → ℕ → List Text
number_parts k zero = []
number_parts k (suc n) = (k ++ print_nat (suc n)) ∷ []

abbrev integer_parts : Text → ℤ → List Text
integer_parts k (pos zero) = []
integer_parts k z = (k ++ print_int z) ∷ []

-- `state.maxdepth >= 0`, where a list of one number counts as the number, and an empty one as 0.
abbrev maxdepth_parts : Option (List ℕ) → List Text
maxdepth_parts (some []) = codes "MAXDEPTH " ∷ []
maxdepth_parts (some (n ∷ [])) = (codes "MAXDEPTH " ++ print_nat n) ∷ []
maxdepth_parts _ = []

abbrev strategy_parts : Option Text → Bool → List Text
strategy_parts (some t) true = (codes "STRATEGY " ++ t) ∷ []
strategy_parts _ _ = []

abbrev lock_parts : Option (List Text) → List Text
lock_parts none = []
lock_parts (some ts) = (codes "LOCK " ++ join (b',' ∷ []) ts) ∷ []

-- COMMIT and RETRY.
unfoldable pub end_parts : Option ℕ → ℕ → List Text
unfolding print_nat
end_parts none retry = number_parts (codes "RETRY ") retry
end_parts (some zero) retry =
    codes "\nCOMMIT" ∷ (number_parts (codes "RETRY ") retry ++ (codes "\n" ∷ []))
end_parts (some (suc n)) retry =
    codes "\nCOMMIT" ∷ (number_parts (codes "RETRY ") (suc n) ++ (codes "\n" ∷ []))

-- The parts behind the conditions.
unfoldable pub tail_parts : State → List Text
unfolding name_text sort_text print_nat print_int end_parts return_parts join
tail_parts s =
    listed (codes "GROUP BY") (map name_text s.group)
    ++ (listed (codes "ORDER BY") (map sort_text s.order)
        ++ (maxdepth_parts s.maxdepth
            ++ ((elim s.unwind [
              | [] ↦ []
              | t ∷ ts ↦ (codes "UNWIND " ++ join (codes ", ") (t ∷ ts)) ∷ []
            ])
                ++ (integer_parts (codes "LIMIT ") s.limit
                    ++ (strategy_parts s.strategy (is_there s.traverse)
                        ++ (integer_parts (codes "SKIP ") s.skip
                            ++ (lock_parts s.lock
                                ++ ((if s.rollback then codes "\n\t ROLLBACK \n" ∷ [] else [])
                                    ++ ((if s.sleep == 0
                                          then []
                                          else (codes "\n\t SLEEP "
                                              ++ (print_nat s.sleep ++ codes " \n"))
                                            ∷ [])
                                        ++ (end_parts s.commit s.retry
                                            ++ (number_parts (codes "WAIT ") s.wait
                                                ++ (if is_change s
                                                    then []
                                                    else return_parts s.returned))))))))))))

-- The parts in front of the first parameters.
unfoldable pub front_parts : State → List Text
unfolding begin_parts command_parts source_text let_parts name_text
front_parts s =
    begin_parts s
    ++ (command_parts s
        ++ (listed (codes "FROM") (map (source_text s.supply.param_index) s.sources)
            ++ (let_parts s
                ++ (listed (codes "TO") (map (source_text s.supply.param_index) s.targets)
                    ++ listed (codes "INTO") (map name_text s.into)))))

abbrev content_parts : List Text → List Text
content_parts [] = []
content_parts (t ∷ ts) = codes "CONTENT" ∷ t ∷ []

-- `buildStatement`: the text, and the parameters with those that were made for it.
unfoldable pub build_statement : State → Text × Supply
unfolding front_parts set_texts escape add_texts remove_texts put_texts where_parts tail_parts
    return_parts join
build_statement s =
    let (sets, u) = set_texts s.settings s.supply in
    let (adds, v) = add_texts s.addition u in
    let (removes, w) = remove_texts s.removal v in
    let (puts, x) = put_texts s.put w in
    let (conditions, y) = where_parts s x in
    (
      join (b' ' ∷ []) (
          front_parts s
          ++ (listed (codes "SET") sets
              ++ (content_parts s.content
                  ++ (listed (codes "INCREMENT") (map increment_text s.increment)
                      ++ (listed (codes "ADD") adds
                          ++ (listed (codes "REMOVE") removes
                              ++ (listed (codes "PUT") puts
                                  ++ ((if s.upsert then codes "UPSERT" ∷ [] else [])
                                      ++ ((if is_change s then return_parts s.returned else [])
                                          ++ (conditions ++ tail_parts s)))))))))),
      y,
    )

-- `toString`
unfoldable pub to_string : State → Text
unfolding build_statement prepare
to_string s = let (t, u) = build_statement s in prepare t (named u.params)

-- What a function that fills a statement stands for.
unfoldable pub child : (State → State) → ℕ → Text
unfolding to_string
child f n =
    to_string (f (record (new_statement) { supply = record { params = []; param_index = n } }))
