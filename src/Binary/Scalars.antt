-- ===== src/Binary/Scalars.antt =====
-- Values with no values inside, as lib/client/network/protocol37/serializer-binary.js writes them and
-- deserializer-binary.js reads them.
use orientjs.Prelude.{ℕ, suc, refl, [], ◌∷◌, ℤ, ◌≡◌, ap, ◌∙◌, Bool, true, false, some, length, pos}
use orientjs.Text.{Text}
use orientjs.Buffer.{Bytes, to_signed}
use orientjs.Operation.Write as Plain
use orientjs.Binary.{
  Value, null, boolean, integer, fraction, string, link, date, Values, Fields, Runtime,
}
use orientjs.Binary.Write.{varint, plain, double}
use orientjs.Binary.Layout.{encoded, concat}
use orientjs.Binary.Serializer.{
  byte_op, count_written, count, write_value, write_values, write_fields,
}
use orientjs.Binary.Kept.{Lawful, IsExact, IsKeptText, IsKeptLink, append_fields}
use orientjs.Binary.Written.{Written, Makes-one, Makes-cons, Makes-append, Written-behind}
use orientjs.Binary.Reads.{
  Gives, link_bytes, text_bytes, Gives-number, Gives-text, Gives-link, Gives-double, read_int8_at,
}
use orientjs.Binary.Loops.{append_values, Iterates}
use orientjs.Binary.Steps.{write_varint-exact, write_varint_string-kept, Written-link}
use orientjs.Binary.Parse.{parse_byte}
use orientjs.Binary.Deserializer.{
  document, field_type, parse_type, parse_value, field_round, item_round,
}

module _ (env : Runtime) (law : Lawful env) where
  open law use {number_bytes, encode_exact}

  -- The steps make a type and the bytes of the value, which are read back with fuel `f`.
  abbrev pub Returns : ℕ → Value → Type 0
  Returns f v =
      (t : ℕ) × (y : Bytes) × Written (write_value env v) (t ∷ y)
      × Gives (λ b o. parse_value env b f document (to_signed 256 t) o) y v

  abbrev pub ReturnsValues : ℕ → Values → Values → Type 0
  ReturnsValues f acc vs =
      (x : Bytes) × Written (write_values env vs) x
      × Iterates (λ b. item_round env b (parse_value env b f) document) (count vs) acc
          (append_values acc vs) x

  abbrev pub ReturnsFields : ℕ → Fields → Fields → Type 0
  ReturnsFields f acc fs =
      (x : Bytes) × Written (write_fields env fs) x
      × Iterates (λ b. field_round env b (parse_value env b f) document) (count_written fs) acc
          (append_fields acc fs) x

  pub Returns-null : (f : ℕ) → Returns (suc f) null
  unfolding write_value parse_value field_type parse_type concat encoded
  Returns-null f = (255, [], (byte_op 255 ∷ [], refl, (refl, (tt, tt))), λ b rest o e. refl)

  pub Returns-integer : (f : ℕ) (z : ℤ) → IsExact z → Returns (suc f) (integer z)
  unfolding write_value parse_value field_type parse_type encoded
  Returns-integer f z h = (
    3,
    number_bytes z,
    (
      byte_op 3 ∷ varint (number_bytes z) ∷ [],
      rw (write_varint-exact env law z h) refl,
      Makes-cons _ _ (3 ∷ []) (number_bytes z) tt refl (Makes-one _ _ tt refl),
    ),
    λ b rest o e. rw (Gives-number env law z h b rest o e) refl,
  )

  pub Returns-date : (f : ℕ) (z : ℤ) → IsExact z → Returns (suc f) (date z)
  unfolding write_value parse_value field_type parse_type encoded
  Returns-date f z h = (
    6,
    number_bytes z,
    (
      byte_op 6 ∷ varint (number_bytes z) ∷ [],
      rw (write_varint-exact env law z h) refl,
      Makes-cons _ _ (6 ∷ []) (number_bytes z) tt refl (Makes-one _ _ tt refl),
    ),
    λ b rest o e. rw (Gives-number env law z h b rest o e) refl,
  )

  pub Returns-boolean : (f : ℕ) (c : Bool) → Returns (suc f) (boolean c)
  unfolding write_value parse_value field_type parse_type parse_byte concat encoded
  Returns-boolean f true = (
    0,
    1 ∷ [],
    (byte_op 0 ∷ plain (Plain.boolean true) ∷ [], refl, (refl, (tt, (tt, tt)))),
    λ b rest o e. rw (read_int8_at b rest o 1 e) refl,
  )
  Returns-boolean f false = (
    0,
    0 ∷ [],
    (byte_op 0 ∷ plain (Plain.boolean false) ∷ [], refl, (refl, (tt, (tt, tt)))),
    λ b rest o e. rw (read_int8_at b rest o 0 e) refl,
  )

  pub Returns-fraction :
      (f : ℕ) (d : Bytes)
      → length d ≡ 8
      → env.read_double d ≡ fraction d
      → Returns (suc f) (fraction d)
  unfolding write_value parse_value field_type parse_type encoded
  Returns-fraction f d h same = (
    5,
    d,
    (byte_op 5 ∷ double d ∷ [], refl, Makes-cons _ _ (5 ∷ []) d tt refl (Makes-one _ _ h refl)),
    λ b rest o e. Gives-double env d h b rest o e ∙ ap (λ v. some (v, pos (length d))) same,
  )

  pub Returns-string : (f : ℕ) (s : Text) → IsKeptText env s → Returns (suc f) (string s)
  unfolding write_value parse_value field_type parse_type encoded
  Returns-string f s h =
      let (w, e, n, m) = write_varint_string-kept env law s h in
      (
        7,
        text_bytes env law s,
        (
          byte_op 7 ∷ w ∷ [],
          rw e refl,
          Makes-append (byte_op 7 ∷ []) (w ∷ []) (7 ∷ []) _ (Makes-one _ _ tt refl) m,
        ),
        λ b rest o e. rw (Gives-text env law s h b rest o e) refl,
      )

  pub Returns-link : (f : ℕ) (c p : ℤ) → IsKeptLink c p → Returns (suc f) (link c p)
  unfolding write_value parse_value field_type parse_type encoded
  Returns-link f c p h = (
    13,
    link_bytes env law c p,
    Written-behind (byte_op 13 ∷ []) _ (13 ∷ []) _ (Makes-one _ _ tt refl)
        (Written-link env law c p h),
    λ b rest o e. Gives-link env law c p h b rest o e,
  )
