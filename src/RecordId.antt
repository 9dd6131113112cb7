-- ===== src/RecordId.antt =====
-- lib/recordid.js: record ids such as #12:3, their textual form, and the tests on them.
-- A number field is an integer, and `none` where it is null or undefined. One object stands for
-- every reference to it, so that `rid === this` is covered by the comparison of the fields.
pub mod Grammar
pub mod Equality
pub mod Temporary
use orientjs.Prelude.{
  Bool, true, false, ◌&&◌, [], ◌∷◌, ◌++◌, Option, none, some, ◌==◌, if◌then◌else◌, ◌>>=◌, ℤ, pos,
  negsuc, ltb_ℤ, eq_ℤ,
}
use orientjs.Text.{Text, codes, text_eq}
use orientjs.Text.Decimal.{Signed, match_signed, print_int, to_number}

pub record RecordId : Type 0 where
  pub cluster : Option ℤ
  pub position : Option ℤ

-- What a caller hands over. `object` is any other object, by the fields `cluster` and `position`;
-- `doc` one that has an `@rid` too; `other` is null, undefined, a number or a boolean.
mutual
  pub data Input : Type 0 where
    text : Text → Input
    array : Inputs → Input
    rid : RecordId → Input
    object : Option ℤ → Option ℤ → Input
    doc : Input → Option ℤ → Option ℤ → Input
    other : Input

  pub data Inputs : Type 0 where
    nil : Inputs
    cons : Input → Inputs → Inputs

-- One record id, an array of results, or `false`.
mutual
  pub data Parsed : Type 0 where
    one : RecordId → Parsed
    many : ParsedList → Parsed
    failed : Parsed

  pub data ParsedList : Type 0 where
    end : ParsedList
    item : Parsed → ParsedList → ParsedList

-- `'' + n` for a field; JavaScript prints a number from 10 ^ 21 on with an exponent.
unfoldable pub print_field : Option ℤ → Text
unfolding print_int
print_field none = codes "null"
print_field (some z) = print_int z

-- RecordID.prototype.toString
unfoldable pub to_string : RecordId → Text
unfolding print_field
to_string r = b'#' ∷ (print_field r.cluster ++ (b':' ∷ print_field r.position))

-- RecordID.toRid
unfoldable pub to_rid : ℤ → ℤ → Text
unfolding print_int
to_rid cluster position = b'#' ∷ (print_int cluster ++ (b':' ∷ print_int position))

-- The text goes on with `:`, and what follows it.
after_colon : Text → Option Text
after_colon [] = none
after_colon (c ∷ t) = if c == b':' then some t else none

-- `$`
at_end : Signed → Option Signed
at_end m = elim m.rest [ [] ↦ some m | _ ∷ _ ↦ none ]

-- The two groups of /^#(-?\d+):(-?\d+)$/.
unfoldable pub match_groups : Text → Option (Signed × Signed)
unfolding match_signed after_colon at_end
match_groups [] = none
match_groups (c ∷ t) =
    if c == b'#'
    then (do
      m ← match_signed t
      u ← after_colon m.rest
      n ← match_signed u
      k ← at_end n
      some (m, k))
    else none

-- new RecordID(o) at an object: a null field stays null.
abbrev pub of_fields : Option ℤ → Option ℤ → RecordId
of_fields c p = record { cluster = c; position = p }

of_groups : Signed × Signed → RecordId
unfolding to_number
of_groups (m, n) = of_fields (some (to_number m.minus m.digits)) (some (to_number n.minus n.digits))

abbrev parsed_or_failed : Option (Signed × Signed) → Parsed
parsed_or_failed none = failed
parsed_or_failed (some g) = one (of_groups g)

-- The object branch of RecordID.parse.
parse_fields : Option ℤ → Option ℤ → Parsed
parse_fields (some c) (some p) = one (of_fields (some c) (some p))
parse_fields _ _ = failed

-- `.filter(item => item)` keeps what is not `false`.
keep : Parsed → ParsedList → ParsedList
keep failed rest = rest
keep p rest = item p rest

-- RecordID.parse
unfoldable mutual
  unfolding match_groups of_groups parse_fields keep

  pub parse : Input → Parsed
  parse (text t) = parsed_or_failed (match_groups t)
  parse (array xs) = many (parse_all xs)
  parse (rid r) = parse_fields r.cluster r.position
  parse (object c p) = parse_fields c p
  parse (doc _ c p) = parse_fields c p
  parse other = failed

  pub parse_all : Inputs → ParsedList
  parse_all nil = end
  parse_all (cons x xs) = keep (parse x) (parse_all xs)

abbrev parsed_or_null : Option (Signed × Signed) → Parsed
parsed_or_null none = one (of_fields none none)
parsed_or_null (some g) = one (of_groups g)

-- The constructor, called with or without `new`. What cannot be parsed has null fields.
unfoldable mutual
  unfolding match_groups of_groups

  pub construct : Input → Parsed
  construct (text t) = parsed_or_null (match_groups t)
  construct (array xs) = many (construct_all xs)
  construct (rid r) = one (of_fields r.cluster r.position)
  construct (object c p) = one (of_fields c p)
  construct (doc _ c p) = one (of_fields c p)
  construct other = one (of_fields none none)

  pub construct_all : Inputs → ParsedList
  construct_all nil = end
  construct_all (cons x xs) = item (construct x) (construct_all xs)

abbrev pub is_number : Option ℤ → Bool
is_number none = false
is_number (some z) = true

abbrev number_lt : Option ℤ → ℤ → Bool
number_lt none z = false
number_lt (some y) z = ltb_ℤ y z

-- RecordID.prototype.isValid
unfoldable pub is_valid : RecordId → Bool
is_valid r = is_number r.cluster && is_number r.position

-- RecordID.prototype.isTemporary
unfoldable pub is_temporary : RecordId → Bool
is_temporary r = number_lt r.position (negsuc 0)

abbrev same_field : Option ℤ → Option ℤ → Bool
same_field none none = true
same_field (some a) (some b) = eq_ℤ a b
same_field _ _ = false

abbrev same_fields : RecordId → RecordId → Bool
same_fields r s = same_field s.cluster r.cluster && same_field s.position r.position

-- The last test of `equals`. An array has no fields `cluster` and `position`.
abbrev equals_parsed : RecordId → Parsed → Bool
equals_parsed r (one s) = same_fields r s
equals_parsed r (many _) = false
equals_parsed r failed = false

-- RecordID.prototype.equals
unfoldable pub equals : RecordId → Input → Bool
unfolding to_string text_eq parse
equals r (text t) = text_eq (to_string r) t
equals r (doc x c p) = equals r x
equals r (rid s) = same_fields r s
equals r (object c p) = equals_parsed r (parse (object c p))
equals r (array xs) = equals_parsed r (parse (array xs))
equals r other = equals_parsed r (parse other)

abbrev is_some {ℓ} : {A : Type ℓ} → Option A → Bool
is_some none = false
is_some (some a) = true

-- RecordID.isValid; an empty array is not valid.
unfoldable mutual
  unfolding is_valid match_groups

  pub input_is_valid : Input → Bool
  input_is_valid (text t) = is_some (match_groups t)
  input_is_valid (array nil) = false
  input_is_valid (array (cons x xs)) = input_is_valid x && inputs_are_valid xs
  input_is_valid (rid r) = is_valid r
  input_is_valid (object c p) = is_number c && is_number p
  input_is_valid (doc _ c p) = is_number c && is_number p
  input_is_valid other = false

  pub inputs_are_valid : Inputs → Bool
  inputs_are_valid nil = true
  inputs_are_valid (cons x xs) = input_is_valid x && inputs_are_valid xs

-- /^#(-?\d+):(-\d+)$/.test(t)
abbrev temporary_groups : Option (Signed × Signed) → Bool
temporary_groups none = false
temporary_groups (some (m, n)) = n.minus

-- RecordID.isTemporary
unfoldable mutual
  unfolding is_temporary match_groups

  pub input_is_temporary : Input → Bool
  input_is_temporary (text t) = temporary_groups (match_groups t)
  input_is_temporary (array nil) = false
  input_is_temporary (array (cons x xs)) = input_is_temporary x && inputs_are_temporary xs
  input_is_temporary (rid r) = is_temporary r
  input_is_temporary (object c p) = number_lt c (pos 0) && number_lt p (negsuc 0)
  input_is_temporary (doc _ c p) = number_lt c (pos 0) && number_lt p (negsuc 0)
  input_is_temporary other = false

  pub inputs_are_temporary : Inputs → Bool
  inputs_are_temporary nil = true
  inputs_are_temporary (cons x xs) = input_is_temporary x && inputs_are_temporary xs
