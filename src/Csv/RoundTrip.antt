-- ===== src/Csv/RoundTrip.antt =====
-- Strings and arrays of strings between serializer-csv.js and deserializer-csv.js of
-- lib/transport/binary/protocol33, and the loop of `eatArray` at a character it cannot read.
use mathlib.Core.List.{append_assoc}
use orientjs.Text.{Text, codes}
use orientjs.Prelude.{
  ℕ, ◌≡◌, refl, ap, List, [], ◌∷◌, ◌++◌, ◌==◌, false, some, none, arith, ◌<◌, length, zero, suc,
  ◌∙◌, if◌then◌else◌, ◌>>=◌,
}
use orientjs.Csv.{null, string, array, Values, empty, cons, Runtime}
use orientjs.Csv.Scan.{eat_string}
use orientjs.Csv.Serializer.{
  escape_string, serialize_value, serialize_items, serialize_item, scalar_text,
}
use orientjs.Csv.Deserializer.{eat_value, eat_items, eat_scalar, skip_spaces}

-- What `escape_string` puts for one character.
abbrev escaped_char : ℕ → Text
escaped_char c = if c == b'\\' then codes "\\\\" else if c == b'"' then codes "\\\"" else c ∷ []

escape_string_cons : (c : ℕ) (t : Text) → escape_string (c ∷ t) ≡ escaped_char c ++ escape_string t
unfolding escape_string
escape_string_cons c t = ground arith

eat_string-escaped_char :
    (c : ℕ) (u : Text) → eat_string (escaped_char c ++ u) ≡ (c ∷ (eat_string u).0, (eat_string u).1)
unfolding eat_string
eat_string-escaped_char c [] = ground arith
eat_string-escaped_char c (d ∷ u) = ground arith

-- A string between its quotes is read back as it was, and reading stops behind the closing quote,
-- whatever stands there.
pub eat_string-escape_string :
    (s rest : Text) → eat_string (escape_string s ++ (b'"' ∷ rest)) ≡ (s, rest)
eat_string-escape_string [] [] = unfold eat_string escape_string in refl
eat_string-escape_string [] (d ∷ rest) = unfold eat_string escape_string in refl
eat_string-escape_string (c ∷ s) rest = rw (
  escape_string_cons c s,
  append_assoc (escaped_char c) (escape_string s) _,
  eat_string-escaped_char,
  eat_string-escape_string s rest,
)

-- An array of strings.
abbrev pub strings : List Text → Values
strings [] = empty
strings (s ∷ ss) = cons (string s) (strings ss)

-- The items behind the first one, each behind its comma.
abbrev comma_items : Runtime → List Text → Text
comma_items env [] = []
comma_items env (s ∷ ss) = b',' ∷ serialize_items env (strings (s ∷ ss))

-- A string in its quotes, and what follows it.
abbrev pub quoted : Text → Text → Text
quoted s rest = b'"' ∷ (escape_string s ++ (b'"' ∷ rest))

pub eat_value-quoted :
    (env : Runtime) (f : ℕ) (s rest : Text)
    → eat_value env (suc f) (quoted s rest) ≡ some (string s, rest)
unfolding eat_value eat_scalar skip_spaces
eat_value-quoted env f s rest = rw (eat_string-escape_string s rest)

eat_items-quoted :
    (env : Runtime) (f : ℕ) (s rest : Text)
    → eat_items env (suc (suc f)) b']' (quoted s rest)
      ≡ (eat_items env (suc f) b']' rest >>= λ q. some (cons (string s) q.0, q.1))
unfolding eat_items
eat_items-quoted env f s rest =
    ap (λ r. r >>= λ r. eat_items env (suc f) b']' r.1 >>= λ q. some (cons r.0 q.0, q.1))
      (eat_value-quoted env f s rest)

eat_items-comma :
    (env : Runtime) (f : ℕ) (s rest : Text)
    → eat_items env (suc (suc f)) b']' (b',' ∷ quoted s rest)
      ≡ eat_items env (suc (suc f)) b']' (quoted s rest)
unfolding eat_items
eat_items-comma env f s rest = refl

serialize_items_cons :
    (env : Runtime) (s : Text) (ss : List Text) (rest : Text)
    → serialize_items env (strings (s ∷ ss)) ++ rest ≡ quoted s (comma_items env ss ++ rest)
unfolding serialize_items serialize_item scalar_text
serialize_items_cons env s [] rest = ap (◌∷◌ b'"') (append_assoc (escape_string s) (b'"' ∷ []) rest)
serialize_items_cons env s (r ∷ ss) rest =
    append_assoc (quoted s []) (comma_items env (r ∷ ss)) rest
    ∙ ap (◌∷◌ b'"') (append_assoc (escape_string s) (b'"' ∷ []) _)

eat_items-comma_items :
    (env : Runtime) (ss : List Text) (f : ℕ) (rest : Text)
    → length ss < f
    → eat_items env f b']' (comma_items env ss ++ (b']' ∷ rest)) ≡ some (strings ss, rest)
eat_items-comma_items env ss zero rest h = absurd (omega arith)
eat_items-comma_items env [] (suc f) rest h = unfold eat_items in refl
eat_items-comma_items env (s ∷ ss) (suc zero) rest h = absurd (omega arith)
eat_items-comma_items env (s ∷ ss) (suc (suc f)) rest h =
    ap (λ t. eat_items env (suc (suc f)) b']' (b',' ∷ t))
      (serialize_items_cons env s ss (b']' ∷ rest))
    ∙ eat_items-comma env f s _
    ∙ eat_items-quoted env f s _
    ∙ rw (eat_items-comma_items env ss (suc f) rest (omega arith))

eat_items-serialize_items :
    (env : Runtime) (ss : List Text) (f : ℕ) (rest : Text)
    → length ss < f
    → eat_items env f b']' (serialize_items env (strings ss) ++ (b']' ∷ rest))
      ≡ some (strings ss, rest)
eat_items-serialize_items env ss zero rest h = absurd (omega arith)
eat_items-serialize_items env [] (suc f) rest h = unfold eat_items serialize_items in refl
eat_items-serialize_items env (s ∷ ss) (suc zero) rest h = absurd (omega arith)
eat_items-serialize_items env (s ∷ ss) (suc (suc f)) rest h =
    ap (eat_items env (suc (suc f)) b']') (serialize_items_cons env s ss (b']' ∷ rest))
    ∙ eat_items-quoted env f s _
    ∙ rw (eat_items-comma_items env ss (suc f) rest (omega arith))

-- An array of strings that `serializeValue` writes is read back by `eatValue` as it was, up to
-- its closing bracket, with more fuel than there are strings for the items.
pub eat_value-serialize_value :
    (env : Runtime) (ss : List Text) (f : ℕ) (rest : Text)
    → length ss < f
    → eat_value env (suc f) (serialize_value env (array (strings ss)) ++ rest)
      ≡ some (array (strings ss), rest)
unfolding eat_value serialize_value skip_spaces
eat_value-serialize_value env ss f rest h = rw (
  append_assoc (serialize_items env (strings ss)) (b']' ∷ []) rest,
  eat_items-serialize_items env ss f rest h,
)

eat_items-at_value :
    (env : Runtime) (c : ℕ) (t : Text) (f : ℕ)
    → (c == b',') ≡ false
    → (c == b']') ≡ false
    → eat_items env (suc f) b']' (c ∷ t) ≡ (
        eat_value env f (c ∷ t) >>= λ r. eat_items env f b']' r.1 >>= λ q. some (cons r.0 q.0, q.1))
unfolding eat_items
eat_items-at_value env c t f k z = rw (z, k)

eat_value_stuck :
    (env : Runtime) (c : ℕ) (t : Text) (f : ℕ)
    → (c == b' ') ≡ false
    → (c == b',') ≡ false
    → (c == b'[') ≡ false
    → (c == b'<') ≡ false
    → (c == b'{') ≡ false
    → (c == b'(') ≡ false
    → eat_scalar env c t ≡ (null, c ∷ t)
    → eat_value env (suc f) (c ∷ t) ≡ some (null, c ∷ t)
unfolding eat_value
eat_value_stuck env c t f s k a b d e h =
    let stays : skip_spaces (c ∷ t) ≡ c ∷ t = unfold skip_spaces in rw s in
    rw (stays, eat_value)
      (rw (k, eat_value)
        (rw (a, eat_value) (rw (b, eat_value) (rw (d, eat_value) (rw (e, eat_value) (rw h))))))

-- In an array, at a character other than a space, a comma, a closing bracket and the four opening
-- ones, at which the reader of scalars gives null and leaves the input as it is, no fuel is
-- enough for the loop of `eatArray`.
pub eat_items_stuck :
    (env : Runtime) (c : ℕ) (t : Text) (f : ℕ)
    → (c == b' ') ≡ false
    → (c == b',') ≡ false
    → (c == b']') ≡ false
    → (c == b'[') ≡ false
    → (c == b'<') ≡ false
    → (c == b'{') ≡ false
    → (c == b'(') ≡ false
    → eat_scalar env c t ≡ (null, c ∷ t)
    → eat_items env f b']' (c ∷ t) ≡ none
eat_items_stuck env c t zero s k z a b d e h = unfold eat_items in refl
eat_items_stuck env c t (suc zero) s k z a b d e h =
    rw (eat_items-at_value env c t zero k z) (unfold eat_value in refl)
eat_items_stuck env c t (suc (suc f)) s k z a b d e h = rw (
  eat_items-at_value env c t (suc f) k z,
  eat_value_stuck env c t f s k a b d e h,
  eat_items_stuck env c t (suc f) s k z a b d e h,
)
