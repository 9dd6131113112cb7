-- ===== src/Csv/Scan.antt =====
-- The parts of lib/transport/binary/protocol33/deserializer-csv.js that read keys, strings,
-- numbers and record ids.
use orientjs.Text.Decimal.{match_signed, to_number}
use orientjs.Text.{Text, span_digits, codes, is_digit}
use orientjs.Prelude.{
  ℕ, Bool, true, false, ◌||◌, [], ◌∷◌, ◌++◌, ◌==◌, if◌then◌else◌, drop, Option, none, some, ◌>>=◌,
  ℤ, pos,
}
use orientjs.Csv.{Value, number, date, bag, binary, Runtime}
use orientjs.RecordId.{RecordId}

-- `eatString`, behind the opening quote: the text, and what stands behind the closing one.
unfoldable pub eat_string : Text → Text × Text
eat_string [] = ([], [])
eat_string (c ∷ []) = if c == b'\\' || c == b'"' then ([], []) else (c ∷ [], [])
eat_string (c ∷ d ∷ t) =
    let (escaped, behind) = eat_string t in
    let (more, rest) = eat_string (d ∷ t) in
    if c == b'\\'
    then (d ∷ escaped, behind)
    else if c == b'"'
    then ([], d ∷ t)
    else (c ∷ more, rest)

-- Up to the first `:`, which is dropped.
unfoldable pub to_colon : Text → Text × Text
to_colon [] = ([], [])
to_colon (c ∷ t) = let (key, rest) = to_colon t in if c == b':' then ([], t) else (c ∷ key, rest)

abbrev pub without_first : Text × Text → Text × Text
without_first (k, r) = (k, drop 1 r)

-- `eatKey`
unfoldable pub eat_key : Text → Text × Text
unfolding eat_string to_colon
eat_key [] = ([], [])
eat_key (c ∷ t) = if c == b'"' then without_first (eat_string t) else to_colon (c ∷ t)

pub record FirstKey : Type 0 where
  pub key : Text
  pub rest : Text
  pub is_class_name : Bool

-- Up to the first `@` or `:`, which is dropped.
unfoldable pub to_at_or_colon : Text → FirstKey
to_at_or_colon [] = record { key = []; rest = []; is_class_name = false }
to_at_or_colon (c ∷ t) =
    let k = to_at_or_colon t in
    if c == b'@'
    then record { key = []; rest = t; is_class_name = true }
    else if c == b':'
    then record { key = []; rest = t; is_class_name = false }
    else record k { key = c ∷ k.key }

abbrev plain_key : Text × Text → FirstKey
plain_key (k, r) = record { key = k; rest = r; is_class_name = false }

-- `eatFirstKey`
unfoldable pub eat_first_key : Text → FirstKey
unfolding eat_string to_at_or_colon
eat_first_key [] = record { key = []; rest = []; is_class_name = false }
eat_first_key (c ∷ t) =
    if c == b'"' then plain_key (without_first (eat_string t)) else to_at_or_colon (c ∷ t)

abbrev optional_sign : (ℕ → Bool) → Text → Text × Text
optional_sign p [] = ([], [])
optional_sign p (c ∷ t) = if p c then (c ∷ [], t) else ([], c ∷ t)

abbrev is_sign : ℕ → Bool
is_sign c = c == b'-' || c == b'+'

-- `head` and the digits, if there are any; otherwise nothing is taken of `whole`.
abbrev digits_or_none : Text → Text → Text × Text → Text × Text
digits_or_none whole head ([], rest) = ([], whole)
digits_or_none whole head (d ∷ ds, rest) = (head ++ (d ∷ ds), rest)

-- `([eE][-+]?[0-9]+)?`: what it takes, and the rest.
exponent : Text → Text × Text
unfolding span_digits
exponent [] = ([], [])
exponent (c ∷ t) =
    let (s, u) = optional_sign is_sign t in
    if c == b'e' || c == b'E' then digits_or_none (c ∷ t) (c ∷ s) (span_digits u) else ([], c ∷ t)

-- `(\.[0-9]+)?`
fraction : Text → Text × Text
unfolding span_digits
fraction [] = ([], [])
fraction (c ∷ t) =
    if c == b'.' then digits_or_none (c ∷ t) (c ∷ []) (span_digits t) else ([], c ∷ t)

abbrev join : Text → Text × Text → Text × Text
join a (b, rest) = (a ++ b, rest)

-- `none` where nothing was taken.
abbrev taken : Text → Text × Text → Option (Text × Text)
taken sign ([], rest) = none
taken sign (c ∷ t, rest) = some (join (sign ++ (c ∷ t)) (exponent rest))

-- /^[-+]?[0-9]*\.?[0-9]+([eE][-+]?[0-9]+)?/: digits with a fraction if one can follow, or a
-- fraction alone, then an exponent if one can follow.
unfoldable pub match_number : Text → Option (Text × Text)
unfolding span_digits fraction exponent
match_number t =
    let (s, u) = optional_sign is_sign t in
    let (ds, v) = span_digits u in taken s (join ds (fraction v))

abbrev is_type_suffix : ℕ → Bool
is_type_suffix c = c == b'b' || c == b's' || c == b'l' || c == b'f' || c == b'd' || c == b'c'

-- The suffix of a number: `a` and `t` make it a date.
eat_suffix : Text → Text → Value × Text
eat_suffix n [] = (number n, [])
eat_suffix n (c ∷ t) =
    if c == b'a' || c == b't'
    then (date n, t)
    else if is_type_suffix c
    then (number n, t)
    else (number n, c ∷ t)

-- `eatNumber`. Where no numeral is found, the number is `+''`, and nothing is consumed.
unfoldable pub eat_number : Runtime → Text → Value × Text
unfolding match_number eat_suffix
eat_number env t = elim (match_number t) [
  | none ↦ eat_suffix (codes "0") t
  | some (n, rest) ↦ eat_suffix (env.to_number n) rest
]

abbrev if_whole : Text → ℤ → Option ℤ
if_whole [] z = some z
if_whole (d ∷ u) z = none

-- `+text` for a text of digits and minus signs; `none` is NaN.
rid_number : Text → Option ℤ
unfolding match_signed to_number
rid_number [] = some (pos 0)
rid_number (c ∷ t) = match_signed (c ∷ t) >>= λ m. if_whole m.rest (to_number m.minus m.digits)

abbrev is_rid_char : ℕ → Bool
is_rid_char c = c == b'-' || is_digit c

-- The characters of one number of a record id.
span_rid : Text → Text × Text
span_rid [] = ([], [])
span_rid (c ∷ t) =
    let (n, rest) = span_rid t in if is_rid_char c then (c ∷ n, rest) else ([], c ∷ t)

-- The loop of `eatRID`, from the start on: the first `:` ends the cluster.
rid_of : Text × Text → RecordId × Text
unfolding span_rid rid_number
rid_of (n, []) = (record { cluster = none; position = rid_number n }, [])
rid_of (n, c ∷ t) =
    let (m, rest) = span_rid t in
    if c == b':'
    then (record { cluster = rid_number n; position = rid_number m }, rest)
    else (record { cluster = none; position = rid_number n }, c ∷ t)

-- `eatRID`, behind the `#`.
unfoldable pub eat_rid : Text → RecordId × Text
unfolding rid_of
eat_rid t = rid_of (span_rid t)

to_semicolon : Text → Text × Text
to_semicolon [] = ([], [])
to_semicolon (c ∷ t) =
    let (b, rest) = to_semicolon t in if c == b';' then ([], t) else (c ∷ b, rest)

-- Up to `;`, which is dropped: `eatBag`, with RID bags enabled.
unfoldable pub eat_bag : Text → Value × Text
unfolding to_semicolon
eat_bag t = let (b, rest) = to_semicolon t in (bag b, rest)

abbrev ends_binary : ℕ → Bool
ends_binary c = c == b'_' || c == b',' || c == b')' || c == b'>' || c == b'}' || c == b']'

to_binary_end : Text → Text × Text
to_binary_end [] = ([], [])
to_binary_end (c ∷ t) =
    let (b, rest) = to_binary_end t in if ends_binary c then ([], t) else (c ∷ b, rest)

-- `eatBinary`
unfoldable pub eat_binary : Text → Value × Text
unfolding to_binary_end
eat_binary t = let (b, rest) = to_binary_end t in (binary b, rest)
