-- ===== src/Utils/Prepare/Injection.antt =====
-- Parameters cannot break out of a query that `prepare` of lib/utils.js fills in.
use orientjs.Text.Decimal.{print_nat, print_nat-IsDigits, print_int}
use orientjs.Text.{Text, is_digit, IsDigits, codes}
use orientjs.Prelude.{
  ℕ, suc, ◌≡◌, refl, true, [], ◌∷◌, arith, All, ℤ, pos, negsuc, zero, ◌+◌, ◌/◌, ◌<◌, ◌⊎◌, inl, inr,
  Option, none, some, All-append, false, List, ◌++◌, map,
}
use mathlib.Core.List.{append_assoc}
use orientjs.RecordId.{RecordId, to_string, print_field}
use orientjs.Utils.Date.{
  UtcDate, get_orient_db_utc_date, InRange, pad-last_digits, last_digits, pad,
}
use orientjs.Utils.Encode.{
  Value, nothing, raw, number, boolean, string, date, record_id, custom, array, fields, Values,
  empty, cons, Fields, end, field, encode, encode_items, encode_fields, quote_text,
}
use orientjs.Utils.Escape.{escape, escape-Body}
use orientjs.Utils.Prepare.{next_param, prepare_array}
use orientjs.Utils.Prepare.Safety.{fill, prepare_array-fill}
use orientjs.Utils.Quoting.{
  Token, quoted, hole, plain, Body, Lexes, done, literal, mark, other, Closed, Closed-append,
  Closed-plain, Closed-literal, IsPlainChar, IsInner, Body-inner, Closed-known, Body-known,
}

-- A value without a raw expression, which `encode` passes on as it stands: a number is printed
-- without quotes and place holders, and a date has a year of four digits at most.
abbrev mutual
  pub HasNoRaw : Value → Type 0
  HasNoRaw nothing = Unit
  HasNoRaw (raw t) = ⊥
  HasNoRaw (number t) = All IsPlainChar t
  HasNoRaw (boolean b) = Unit
  HasNoRaw (string t) = Unit
  HasNoRaw (date d) = InRange d
  HasNoRaw (record_id r) = Unit
  HasNoRaw (custom v) = HasNoRaw v
  HasNoRaw (array vs) = HoldNoRaw vs
  HasNoRaw (fields fs) = HaveNoRaw fs

  pub HoldNoRaw : Values → Type 0
  HoldNoRaw empty = Unit
  HoldNoRaw (cons v vs) = HasNoRaw v × HoldNoRaw vs

  pub HaveNoRaw : Fields → Type 0
  HaveNoRaw end = Unit
  HaveNoRaw (field k v fs) = HasNoRaw v × HaveNoRaw fs

digit-IsPlainChar : (c : ℕ) → is_digit c ≡ true → IsPlainChar c
digit-IsPlainChar c h = ground arith

digits-plain : (t : Text) → IsDigits t → All IsPlainChar t
digits-plain [] h = tt
digits-plain (c ∷ t) h = (digit-IsPlainChar c h.0, digits-plain t h.1)

print_int-plain : (z : ℤ) → All IsPlainChar (print_int z)
unfolding print_int
print_int-plain (pos n) = digits-plain (print_nat n) (print_nat-IsDigits n)
print_int-plain (negsuc n) =
    ((refl, refl), digits-plain (print_nat (suc n)) (print_nat-IsDigits (suc n)))

print_field-plain : (o : Option ℤ) → All IsPlainChar (print_field o)
unfolding print_field
print_field-plain none = ((refl, refl), ((refl, refl), ((refl, refl), ((refl, refl), tt))))
print_field-plain (some z) = print_int-plain z

to_string-plain : (r : RecordId) → All IsPlainChar (to_string r)
unfolding to_string
to_string-plain r = (
  (refl, refl),
  All-append IsPlainChar (print_field r.cluster) _ (print_field-plain r.cluster)
      ((refl, refl), print_field-plain r.position),
)

last_digits-IsInner : (k n : ℕ) → All IsInner (last_digits k n)
last_digits-IsInner zero n = tt
last_digits-IsInner (suc k) n =
    All-append IsInner (last_digits k (n / 10)) _ (last_digits-IsInner k (n / 10))
      ((ground arith, ground arith), tt)

pad-IsInner :
    (n size : ℕ) → n < 10000 → (size ≡ 2) ⊎ ((size ≡ 3) ⊎ (size ≡ 4)) → All IsInner (pad n size)
pad-IsInner n size h w = rw (pad-last_digits n size h w) (last_digits-IsInner size n)

date-IsInner : (d : UtcDate) → InRange d → All IsInner (get_orient_db_utc_date d)
unfolding get_orient_db_utc_date
date-IsInner d r =
    All-append IsInner (pad d.full_year 4) _
      (pad-IsInner d.full_year 4 (omega arith) (inr (inr refl)))
      (
        (refl, refl),
        All-append IsInner (pad (d.month + 1) 2) _
            (pad-IsInner (d.month + 1) 2 (omega arith) (inl refl))
            (
              (refl, refl),
              All-append IsInner (pad d.day 2) _ (pad-IsInner d.day 2 (omega arith) (inl refl)) (
                (refl, refl),
                All-append IsInner (pad d.hours 2) _
                    (pad-IsInner d.hours 2 (omega arith) (inl refl))
                    (
                      (refl, refl),
                      All-append IsInner (pad d.minutes 2) _
                          (pad-IsInner d.minutes 2 (omega arith) (inl refl))
                          (
                            (refl, refl),
                            All-append IsInner (pad d.seconds 2) _
                                (pad-IsInner d.seconds 2 (omega arith) (inl refl))
                                (
                                  (refl, refl),
                                  pad-IsInner d.milliseconds 3 (omega arith) (inr (inl refl)),
                                ),
                          ),
                    ),
              ),
            ),
      )

Closed-quote_text : (t : Text) → Body b'"' t → Closed (quote_text t)
Closed-quote_text t b = Closed-literal t b

-- `x` closed with the character `c` in front, or with one behind.
Closed-cons : (c : ℕ) {t : Text} → IsPlainChar c → Closed t → Closed (c ∷ t)
Closed-cons c h t = Closed-append (Closed-plain (c ∷ []) (h, tt)) t

Closed-within :
    (c d : ℕ) {t : Text} → IsPlainChar c → IsPlainChar d → Closed t → Closed (c ∷ (t ++ d ∷ []))
Closed-within c d h k t = Closed-cons c h (Closed-append t (Closed-plain (d ∷ []) (k, tt)))

date-Closed : (d : UtcDate) → InRange d → Closed (encode (date d))
unfolding encode
date-Closed d r =
    let moment = Closed-literal (get_orient_db_utc_date d) (Body-inner _ (date-IsInner d r)) in
    let format = Closed-literal (codes "yyyy-MM-dd HH:mm:ss.SSS") (Body-known _ refl) in
    let zone = Closed-literal (codes "UTC") (Body-known _ refl) in
    let comma = Closed-known (codes ", ") refl in
    let tail = Closed-append comma (
      Closed-append format
        (Closed-append comma (Closed-append zone (Closed-known (codes ")") refl)))) in
    let whole = Closed-append (Closed-known (codes "date(") refl) (Closed-append moment tail) in
    rw (append_assoc (get_orient_db_utc_date d) (b'"' ∷ [])) at whole

mutual
  unfolding encode encode_items encode_fields

  value-Closed : (v : Value) → HasNoRaw v → Closed (encode v)
  value-Closed nothing h = Closed-known (codes "null") refl
  value-Closed (raw t) h = absurd h
  value-Closed (number t) h = Closed-plain t h
  value-Closed (boolean true) h = Closed-known (codes "true") refl
  value-Closed (boolean false) h = Closed-known (codes "false") refl
  value-Closed (string t) h = Closed-literal (escape t) (escape-Body t)
  value-Closed (date d) h = date-Closed d h
  value-Closed (record_id r) h = Closed-plain (to_string r) (to_string-plain r)
  value-Closed (custom v) h = value-Closed v h
  value-Closed (array vs) h =
      Closed-within b'[' b']' (refl, refl) (refl, refl) (encode_items-Closed vs h)
  value-Closed (fields fs) h =
      Closed-within b'{' b'}' (refl, refl) (refl, refl) (encode_fields-Closed fs h)

  encode_items-Closed : (vs : Values) → HoldNoRaw vs → Closed (encode_items vs)
  encode_items-Closed empty h = Closed-plain [] tt
  encode_items-Closed (cons v empty) h = value-Closed v h.0
  encode_items-Closed (cons v (cons w vs)) h =
      Closed-append (value-Closed v h.0)
        (Closed-cons b',' (refl, refl) (encode_items-Closed (cons w vs) h.1))

  encode_fields-Closed : (fs : Fields) → HaveNoRaw fs → Closed (encode_fields fs)
  encode_fields-Closed end h = Closed-plain [] tt
  encode_fields-Closed (field k v end) h =
      Closed-append (Closed-literal (escape k) (escape-Body k))
        (Closed-cons b':' (refl, refl) (value-Closed v h.0))
  encode_fields-Closed (field k v (field l w fs)) h =
      Closed-append (Closed-literal (escape k) (escape-Body k)) (
        Closed-cons b':' (refl, refl)
          (Closed-append (value-Closed v h.0)
            (Closed-cons b',' (refl, refl) (encode_fields-Closed (field l w fs) h.1))))

-- The code of a value without raw expressions falls into whole literals and characters outside of
-- them, whatever its strings hold.
pub encode-Closed : (v : Value) → HasNoRaw v → Closed (encode v)
encode-Closed v h = value-Closed v h

next_param-HasNoRaw :
    (ps : List Value)
    → All HasNoRaw ps
    → HasNoRaw (next_param ps).0 × All HasNoRaw (next_param ps).1
next_param-HasNoRaw [] h = (tt, tt)
next_param-HasNoRaw (v ∷ ps) h = h

-- The tokens of a query filled with strings: each hole is one literal with the escaped string.
unfoldable pub fill_tokens : List Token → List Text → List Token
unfolding escape
fill_tokens [] ps = []
fill_tokens (quoted q b ∷ ts) ps = quoted q b ∷ fill_tokens ts ps
fill_tokens (plain c ∷ ts) ps = plain c ∷ fill_tokens ts ps
fill_tokens (hole ∷ ts) [] = map plain (codes "null") ++ fill_tokens ts []
fill_tokens (hole ∷ ts) (p ∷ ps) = quoted b'"' (escape p) ∷ fill_tokens ts ps

fill-Closed :
    {t : Text} {ts : List Token} (ps : List Value)
    → Lexes t ts
    → All HasNoRaw ps
    → Closed (fill ts ps)
unfolding fill
fill-Closed ps done h = Closed-plain [] tt
fill-Closed ps (literal q e k s l) h =
    let rest = fill-Closed ps l h in
    record {
      tokens = quoted q _ ∷ rest.tokens;
      lexes = literal q e k refl rest.lexes;
      no_hole = rest.no_hole;
    }
fill-Closed ps (mark l) h =
    let (first, others) = next_param-HasNoRaw ps h in
    Closed-append (value-Closed (next_param ps).0 first) (fill-Closed (next_param ps).1 l others)
fill-Closed ps (other c e k l) h = Closed-cons c (e, k) (fill-Closed ps l h)

fill-Lexes :
    {t : Text} {ts : List Token} (ps : List Text)
    → Lexes t ts
    → Lexes (fill ts (map string ps)) (fill_tokens ts ps)
unfolding fill fill_tokens
fill-Lexes ps done = done
fill-Lexes ps (literal q e k s l) = literal q e k refl (fill-Lexes ps l)
fill-Lexes [] (mark l) =
    other _ refl refl (other _ refl refl (other _ refl refl (other _ refl refl (fill-Lexes [] l))))
fill-Lexes (p ∷ ps) (mark l) =
    literal b'"' refl (escape-Body p) (append_assoc (escape p) (b'"' ∷ []) _) (fill-Lexes ps l)
fill-Lexes ps (other c e k l) = other c e k (fill-Lexes ps l)

-- A query that falls into tokens is closed once `prepareArray` has filled it with values that
-- hold no RawExpression, no date past the year 9999, and no number printed with a quote or a
-- place holder in it: no literal is left open, and no place holder is left, whatever the strings
-- and keys in the values are.
pub prepare_array-Closed :
    {query : Text} {ts : List Token} (ps : List Value)
    → Lexes query ts
    → All HasNoRaw ps
    → Closed (prepare_array query ps)
prepare_array-Closed ps l h = rw (prepare_array-fill ps l) (fill-Closed ps l h)

-- A query that falls into tokens has the same tokens once it is filled with strings, but for the
-- place holders: each is one double-quoted literal with the escaped string of its turn, or null
-- where the strings run out.
pub prepare_array_strings :
    {query : Text} {ts : List Token} (ps : List Text)
    → Lexes query ts
    → Lexes (prepare_array query (map string ps)) (fill_tokens ts ps)
prepare_array_strings ps l = rw (prepare_array-fill (map string ps) l) (fill-Lexes ps l)
