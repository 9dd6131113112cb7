-- ===== src/Csv/Deserializer.antt =====
-- The recursive part of lib/transport/binary/protocol33/deserializer-csv.js, on fuel: `none` means
-- that the fuel ran out, as it does for every fuel where the source loops without end.
use orientjs.Text.{Text, codes, is_digit}
use orientjs.Prelude.{
  ℕ, zero, suc, true, false, ◌||◌, Option, none, some, [], ◌∷◌, ◌==◌, if◌then◌else◌, ◌>>=◌, List,
}
use orientjs.Csv.{
  Value, null, boolean, string, record_id, array, object, Values, empty, cons, Fields, end, field,
  Runtime, find, set_field,
}
use orientjs.Csv.Scan.{eat_string, eat_key, eat_first_key, eat_number, eat_rid, eat_bag, eat_binary}

-- The spaces at the start are skipped.
unfoldable pub skip_spaces : Text → Text
skip_spaces [] = []
skip_spaces (c ∷ t) = let rest = skip_spaces t in if c == b' ' then rest else c ∷ t

-- `input.slice(0, n) === word`, and what follows the word.
unfoldable pub strip_word : Text → Text → Option Text
strip_word [] t = some t
strip_word (c ∷ w) [] = none
strip_word (c ∷ w) (d ∷ t) = let rest = strip_word w t in if c == d then rest else none

abbrev word_or : Value → Text → Option Text → Value × Text
word_or v t none = (null, t)
word_or v t (some rest) = (v, rest)

abbrev as_string : Text × Text → Value × Text
as_string (s, t) = (string s, t)

-- The kinds of value that are read without a call of `eatValue`; `none` is one of the others.
unfoldable pub eat_scalar : Runtime → ℕ → Text → Value × Text
unfolding eat_string eat_rid eat_bag eat_binary eat_number strip_word
eat_scalar env c t =
    if c == b'"'
    then as_string (eat_string t)
    else if c == b'#'
    then (record_id (eat_rid t).0, (eat_rid t).1)
    else if c == b'%'
    then eat_bag t
    else if c == b'_'
    then eat_binary t
    else if c == b'-' || is_digit c
    then eat_number env (c ∷ t)
    else if c == b'n'
    then word_or null (c ∷ t) (strip_word (codes "null") (c ∷ t))
    else if c == b't'
    then word_or (boolean true) (c ∷ t) (strip_word (codes "true") (c ∷ t))
    else if c == b'f'
    then word_or (boolean false) (c ∷ t) (strip_word (codes "false") (c ∷ t))
    else (null, c ∷ t)

-- `classes[record['@class']](record)`, where there is such a transformer.
abbrev transform_by : Runtime → Fields → Option Value → Value
transform_by env fs (some (string (c ∷ name))) = elim (env.class_of (c ∷ name)) [
  | none ↦ object fs
  | some make ↦ make fs
]
transform_by env fs _ = object fs

unfoldable pub transform : Runtime → Fields → Value
unfolding find
transform env fs = transform_by env fs (find (codes "@class") fs)

abbrev pub new_record : Fields
new_record = field (codes "@type") (string (codes "d")) end

module _ (env : Runtime) where
  unfoldable mutual
    unfolding skip_spaces eat_scalar eat_key eat_first_key set_field transform

    -- `eatValue`
    pub eat_value : ℕ → Text → Option (Value × Text)
    eat_value zero t = none
    eat_value (suc f) t = elim (skip_spaces t) [
      | [] ↦ some (null, [])
      | c ∷ u ↦
          let items = eat_items f b']' u >>= λ r. some (array r.0, r.1) in
          let set = eat_items f b'>' u >>= λ r. some (array r.0, r.1) in
          let map = eat_fields f b'}' end u >>= λ r. some (object r.0, r.1) in
          let embedded = eat_record f u in
          if c == b','
          then some (null, c ∷ u)
          else if c == b'['
          then items
          else if c == b'<'
          then set
          else if c == b'{'
          then map
          else if c == b'('
          then embedded
          else some (eat_scalar env c u)
    ]

    -- The loop of `eatArray` and of `eatSet`, up to the closing character.
    pub eat_items : ℕ → ℕ → Text → Option (Values × Text)
    eat_items zero close t = none
    eat_items (suc f) close [] = some (empty, [])
    eat_items (suc f) close (c ∷ t) =
        let more = eat_value f (if c == b',' then t else c ∷ t) >>= λ r.
        eat_items f close r.1 >>= λ q. some (cons r.0 q.0, q.1) in
        if c == close then some (empty, t) else more

    -- The loop of `eatMap`, and the last one of `eatRecord`.
    pub eat_fields : ℕ → ℕ → Fields → Text → Option (Fields × Text)
    eat_fields zero close m t = none
    eat_fields (suc f) close m [] = some (m, [])
    eat_fields (suc f) close m (c ∷ t) =
        let again = eat_fields f close m t in
        let more = eat_field f close m (eat_key (if c == b',' then t else c ∷ t)) in
        if c == b' ' then again else if c == close then some (m, t) else more

    -- The value behind a key, and the fields behind it.
    pub eat_field : ℕ → ℕ → Fields → Text × Text → Option (Fields × Text)
    eat_field zero close m k = none
    eat_field (suc f) close m (k, []) = some (set_field k null m, [])
    eat_field (suc f) close m (k, c ∷ t) =
        eat_value f (c ∷ t) >>= λ r. eat_fields f close (set_field k r.0 m) r.1

    -- `eatRecord`
    pub eat_record : ℕ → Text → Option (Value × Text)
    eat_record zero t = none
    eat_record (suc f) t = elim (skip_spaces t) [
      | [] ↦ eat_record_fields f new_record ([], [])
      | c ∷ u ↦
          let first = eat_first_key (c ∷ u) in
          let named =
            eat_class_fields f (set_field (codes "@class") (string first.key) new_record)
              first.rest in
          let unnamed = eat_record_fields f new_record (first.key, first.rest) in
          if c == b')'
          then some (object new_record, u)
          else if first.is_class_name
          then named
          else unnamed
    ]

    -- Behind a class name: no field, or a first key, which was read with the spaces before it.
    pub eat_class_fields : ℕ → Fields → Text → Option (Value × Text)
    eat_class_fields zero m t = none
    eat_class_fields (suc f) m t =
        let fields = eat_record_fields f m (eat_key t) in
        elim (skip_spaces t) [
          | [] ↦ fields
          | c ∷ u ↦ if c == b')' then some (object m, u) else fields
        ]

    -- The first value and the later fields.
    pub eat_record_fields : ℕ → Fields → Text × Text → Option (Value × Text)
    eat_record_fields zero m k = none
    eat_record_fields (suc f) m (k, t) = eat_value f t >>= λ r.
        eat_fields f b')' (set_field k r.0 m) r.1 >>= λ q. some (transform env q.0, q.1)

  -- The loop of `deserialize` behind its first value; a text with no comma in front ends it. The
  -- second number is the fuel of each `eat_value`.
  unfoldable pub document_fields : ℕ → ℕ → Fields → Text → Option Fields
  unfolding eat_key set_field eat_value
  document_fields zero g m t = none
  document_fields (suc f) g m [] = some m
  document_fields (suc f) g m (c ∷ t) =
      let (k, u) = eat_key t in
      let valued = eat_value g u >>= λ r. document_fields f g (set_field k r.0 m) r.1 in
      if c == b',' then elim u [ [] ↦ some (set_field k null m) | d ∷ v ↦ valued ] else some m

  -- `deserialize` from the record so far and the first key.
  unfoldable pub document_value : ℕ → ℕ → Fields → Text × Text → Option Value
  unfolding document_fields eat_value set_field transform
  document_value f g m (k, u) = eat_value g u >>= λ r.
      document_fields f g (set_field k r.0 m) r.1 >>= λ fs. some (transform env fs)

  -- `deserialize` behind the decoding of its input.
  unfoldable pub deserialize_text : ℕ → ℕ → Text → Option Value
  unfolding document_value eat_first_key eat_key set_field
  deserialize_text f g t =
      let first = eat_first_key t in
      let named = set_field (codes "@class") (string first.key) new_record in
      if first.is_class_name
      then document_value f g named (eat_key first.rest)
      else document_value f g new_record (first.key, first.rest)

  -- `deserialize`; `none` is no buffer.
  unfoldable pub deserialize : ℕ → ℕ → Option (List ℕ) → Option Value
  unfolding deserialize_text
  deserialize f g none = some null
  deserialize f g (some b) = deserialize_text f g (env.decode_utf8 b)
