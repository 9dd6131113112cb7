-- ===== src/Csv/Documents.antt =====
-- Documents of strings from serializer-csv.js to deserializer-csv.js of
-- lib/transport/binary/protocol33.
use mathlib.Core.List.{append_assoc}
use orientjs.Prelude.{
  ◌>>=◌, ℕ, ◌≡◌, refl, ap, sym, ◌∙◌, List, [], ◌∷◌, ◌++◌, false, Option, none, some, zero, suc,
  arith, ◌<◌, length, drop,
}
use orientjs.Text.{Text, codes, text_eq}
use orientjs.Csv.{string, object, Fields, field, Runtime, find, set_field}
use orientjs.Csv.Scan.{eat_key, eat_first_key, to_colon, to_at_or_colon}
use orientjs.Csv.Serializer.{
  escape_string, drop_last_comma, class_name, document_text, scalar_text, field_text,
  serialize_value, serialize_fields, serialize_document, encode_record_data,
}
use orientjs.Csv.Deserializer.{
  document_fields, document_value, deserialize, deserialize_text, transform, new_record,
}
use orientjs.Csv.Keys.{
  IsKey, HasKeys, HasDistinctKeys, string_fields, with_strings, text_eq-class, find-with_strings,
  with_strings-joined, new_record-AreMissing,
}
use orientjs.Csv.RoundTrip.{quoted, eat_value-quoted}

-- The fields, each behind a comma.
abbrev comma_fields : List (Text × Text) → Text
comma_fields [] = []
comma_fields (p ∷ ps) = b',' ∷ (p.0 ++ (b':' ∷ quoted p.1 (comma_fields ps)))

drop_last_comma-snoc : (t : Text) → drop_last_comma (t ++ (b',' ∷ [])) ≡ t
unfolding drop_last_comma
drop_last_comma-snoc [] = refl
drop_last_comma-snoc (c ∷ []) = refl
drop_last_comma-snoc (c ∷ d ∷ t) = ap (◌∷◌ c) (drop_last_comma-snoc (d ∷ t))

to_colon-key : (k u : Text) → IsKey k → to_colon (k ++ (b':' ∷ u)) ≡ (k, u)
unfolding to_colon
to_colon-key [] u h = refl
to_colon-key (c ∷ k) u h = rw ((h.0).0, to_colon-key k u h.1)

eat_key-key : (k u : Text) → IsKey k → eat_key (k ++ (b':' ∷ u)) ≡ (k, u)
unfolding eat_key
eat_key-key [] u h = to_colon-key [] u h
eat_key-key (c ∷ k) u h = rw ((h.0).2, to_colon-key (c ∷ k) u h)

to_at_or_colon-key :
    (k u : Text)
    → IsKey k
    → to_at_or_colon (k ++ (b':' ∷ u)) ≡ record { key = k; rest = u; is_class_name = false }
unfolding to_at_or_colon
to_at_or_colon-key [] u h = refl
to_at_or_colon-key (c ∷ k) u h = rw ((h.0).1, (h.0).0, to_at_or_colon-key k u h.1)

eat_first_key-key :
    (k u : Text)
    → IsKey k
    → eat_first_key (k ++ (b':' ∷ u)) ≡ record { key = k; rest = u; is_class_name = false }
unfolding eat_first_key
eat_first_key-key [] u h = to_at_or_colon-key [] u h
eat_first_key-key (c ∷ k) u h = rw ((h.0).2, to_at_or_colon-key (c ∷ k) u h)

class_name-strings :
    (env : Runtime) (found : Option Text) (ps : List (Text × Text))
    → HasKeys ps
    → class_name env found (string_fields ps) ≡ found
unfolding class_name
class_name-strings env found [] h = refl
class_name-strings env found (p ∷ ps) h =
    rw (text_eq-class p.0 h.0, class_name) (class_name-strings env found ps h.1)

field_text-key :
    (k t rest : Text) (v : Text)
    → IsKey k
    → field_text false k (string v) t rest ≡ k ++ (b':' ∷ (t ++ (b',' ∷ rest)))
field_text-key [] t rest v h = refl
field_text-key (c ∷ k) t rest v h = rw ((h.0).1)

serialize_fields-strings :
    (env : Runtime) (ps : List (Text × Text))
    → HasKeys ps
    → b',' ∷ serialize_fields env false (string_fields ps) ≡ comma_fields ps ++ (b',' ∷ [])
unfolding serialize_fields serialize_value scalar_text
serialize_fields-strings env [] h = refl
serialize_fields-strings env (p ∷ ps) h =
    let e = escape_string p.1 in
    let inside =
      append_assoc e (b'"' ∷ []) (b',' ∷ serialize_fields env false (string_fields ps))
      ∙ ap (λ t. e ++ (b'"' ∷ t)) (serialize_fields-strings env ps h.1)
      ∙ sym (append_assoc e (b'"' ∷ comma_fields ps) (b',' ∷ [])) in
    rw (field_text-key p.0 _ _ p.1 h.0) (
      ap (◌∷◌ b',') (
        ap (λ t. p.0 ++ (b':' ∷ b'"' ∷ t)) inside
        ∙ sym (append_assoc p.0 (b':' ∷ quoted p.1 (comma_fields ps)) (b',' ∷ []))))

document_fields-comma_fields :
    (env : Runtime) (ps : List (Text × Text)) (f g : ℕ) (m : Fields)
    → HasKeys ps
    → length ps < f
    → document_fields env f (suc g) m (comma_fields ps) ≡ some (with_strings m ps)
unfolding document_fields with_strings
document_fields-comma_fields env ps zero g m h l = absurd (omega arith)
document_fields-comma_fields env [] (suc f) g m h l = refl
document_fields-comma_fields env (p ∷ ps) (suc f) g m h l =
    let u = quoted p.1 (comma_fields ps) in
    rw (eat_key-key p.0 u h.0, eat_key-key p.0 u h.0)
      (ap (λ r. r >>= λ r. document_fields env f (suc g) (set_field p.0 r.0 m) r.1)
          (eat_value-quoted env g p.1 (comma_fields ps))
        ∙ document_fields-comma_fields env ps f g (set_field p.0 (string p.1) m) h.1 (omega arith))

serialize_document-strings :
    (env : Runtime) (p : Text × Text) (ps : List (Text × Text))
    → HasKeys (p ∷ ps)
    → serialize_document env (string_fields (p ∷ ps)) ≡ p.0 ++ (b':' ∷ quoted p.1 (comma_fields ps))
unfolding serialize_document document_text
serialize_document-strings env p ps h =
    let body = p.0 ++ (b':' ∷ quoted p.1 (comma_fields ps)) in
    let text : serialize_fields env false (string_fields (p ∷ ps)) ≡ body ++ (b',' ∷ []) =
      ap (drop 1) (serialize_fields-strings env (p ∷ ps) h) in
    rw (class_name-strings env none (p ∷ ps) h, text) (drop_last_comma-snoc body)

transform-strings :
    (env : Runtime) (ps : List (Text × Text))
    → HasKeys ps
    → transform env (with_strings new_record ps) ≡ object (with_strings new_record ps)
unfolding transform
transform-strings env ps h = rw (find-with_strings new_record ps h (unfold find text_eq in refl))

document_value-strings :
    (env : Runtime) (p : Text × Text) (ps : List (Text × Text)) (f g : ℕ)
    → HasKeys (p ∷ ps)
    → length ps < f
    → document_value env f (suc g) new_record (p.0, quoted p.1 (comma_fields ps))
      ≡ some (object (with_strings new_record (p ∷ ps)))
unfolding document_value with_strings
document_value-strings env p ps f g h l =
    ap
      (λ r. r >>= λ r. document_fields env f (suc g) (set_field p.0 r.0 new_record) r.1 >>= λ fs.
        some (transform env fs))
      (eat_value-quoted env g p.1 (comma_fields ps))
    ∙ ap (λ r. r >>= λ fs. some (transform env fs))
        (document_fields-comma_fields env ps f g (set_field p.0 (string p.1) new_record) h.1 l)
    ∙ ap some (transform-strings env (p ∷ ps) h)

deserialize_text-strings :
    (env : Runtime) (p : Text × Text) (ps : List (Text × Text)) (f g : ℕ)
    → HasKeys (p ∷ ps)
    → HasDistinctKeys (p ∷ ps)
    → length ps < f
    → deserialize_text env f (suc g) (serialize_document env (string_fields (p ∷ ps)))
      ≡ some (object (field (codes "@type") (string (codes "d")) (string_fields (p ∷ ps))))
unfolding deserialize_text
deserialize_text-strings env p ps f g h d l =
    rw
      (
        serialize_document-strings env p ps h,
        eat_first_key-key p.0 (quoted p.1 (comma_fields ps)) h.0,
      )
      (document_value-strings env p ps f g h l
        ∙ ap (λ m. some (object m))
            (with_strings-joined new_record (p ∷ ps) d (new_record-AreMissing (p ∷ ps) h)))

-- A document of strings, of one field at least and with distinct keys free of `:`, `@` and `"`,
-- whose text (by `serializeDocument`) UTF-8 keeps, is written by `encodeRecordData` and read back
-- by `deserialize` as the record of type d with the same fields in the same order, with more fuel
-- than there are fields behind the first.
pub deserialize-serialize_document :
    (env : Runtime) (p : Text × Text) (ps : List (Text × Text)) (f g : ℕ)
    → (let text = serialize_document env (string_fields (p ∷ ps)) in
        env.decode_utf8 (env.encode_utf8 text) ≡ text)
    → HasKeys (p ∷ ps)
    → HasDistinctKeys (p ∷ ps)
    → length ps < f
    → deserialize env f (suc g) (some (encode_record_data env (string_fields (p ∷ ps))))
      ≡ some (object (field (codes "@type") (string (codes "d")) (string_fields (p ∷ ps))))
unfolding deserialize encode_record_data
deserialize-serialize_document env p ps f g kept h d l =
    ap (deserialize_text env f (suc g)) kept ∙ deserialize_text-strings env p ps f g h d l
