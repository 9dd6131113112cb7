-- ===== src/Binary/Containers.antt =====
-- Arrays, maps and documents, as lib/client/network/protocol37/serializer-binary.js writes them and
-- deserializer-binary.js reads them, from what holds of the values inside.
use mathlib.Core.List.{append_assoc}
use orientjs.Prelude.{
  ℕ, suc, ◌+◌, refl, [], ◌∷◌, ℤ, ◌^◌, ◌<◌, ◌≡◌, ap, ◌∙◌, true, false, Option, some, ◌++◌, arith,
  ltb, length, drop, length-append, pos, minus_start, none, List,
}
use orientjs.Text.{Text, codes, text_eq}
use orientjs.Buffer.{Bytes}
use orientjs.Binary.{string, array, object, Values, empty, Fields, end, field, Runtime, find}
use orientjs.Binary.Write.{WriteOp, varint}
use orientjs.Binary.Layout.{encoded}
use orientjs.Binary.Serializer.{
  byte_op, is_written, count_written, count, starts_with_link, handle_link_list, write_value,
  write_fields,
}
use orientjs.Binary.Kept.{Lawful, IsKeptText, AreLinks, AreKeptFields, append_fields}
use orientjs.Binary.Written.{Makes, Written, Makes-one, Makes-cons, Makes-append, Written-behind}
use orientjs.Binary.Reads.{Gives, text_bytes, Gives-number, Gives-text, advance}
use orientjs.Binary.Loops.{Iterates}
use orientjs.Binary.Steps.{write_varint-exact, write_varint_string-kept, links_lem}
use orientjs.Binary.Parse.{for_loop, link_round, parse_link_collection}
use orientjs.Binary.Deserializer.{
  document, field_type, parse_type, parse_value, field_round, item_round, parse_collection,
}
use orientjs.Binary.Scalars.{Returns, ReturnsValues, ReturnsFields}
use orientjs.Binary.Deserializer.{with_class, parse_document, parse_fields, parse_map}
use orientjs.Binary.Serializer.{document_of, class_text}

module _ (env : Runtime) (law : Lawful env) where
  open law use {number_bytes, encode_exact}

  -- The size of an array and its items.
  pub Makes-head :
      (t n : ℕ)
      → t < 256
      → n < 2 ^ 32
      → Makes (byte_op t ∷ varint (number_bytes (pos n)) ∷ []) (t ∷ number_bytes (pos n))
  unfolding encoded
  Makes-head t n h k =
      Makes-cons (byte_op t) _ (t ∷ []) (number_bytes (pos n)) tt
        (ap (λ c. some (c ∷ [])) (omega arith)) (Makes-one _ _ tt refl)

  -- A loop behind the number of its rounds.
  pub sized :
      {S : Type 0} (round : Bytes → S → ℤ → Option (S × ℤ)) (n : ℕ) (s t : S) (x b rest : Bytes)
      (o : ℕ)
      → n < 2 ^ 32
      → Iterates round n s t x
      → drop o b ≡ (number_bytes (pos n) ++ x) ++ rest
      → (env.decode b (pos o) ≡ some (pos n, pos (length (number_bytes (pos n)))))
        × (for_loop (round b) n s (pos (o + length (number_bytes (pos n))))
            ≡ some (t, pos (o + length (number_bytes (pos n) ++ x))))
  sized round n s t x b rest o h loops e =
      let k = number_bytes (pos n) in
      let e' : drop o b ≡ k ++ (x ++ rest) = e ∙ append_assoc k x rest in
      let total : (o + length k) + length x ≡ o + length (k ++ x) =
        omega (arith, length-append k x) in
      (
        Gives-number env law (pos n) (omega arith) b (x ++ rest) o e',
        loops b rest (o + length k) (advance k b (x ++ rest) o e')
            ∙ ap (λ i. some (t, pos i)) total,
      )

  pub Returns-links :
      (f : ℕ) (vs : Values)
      → count vs < 2 ^ 32
      → starts_with_link vs ≡ true
      → AreLinks vs
      → Returns env law (suc f) (array vs)
  unfolding write_value parse_value field_type parse_type parse_link_collection handle_link_list
  Returns-links f vs h first ls =
      let (x, (ws, e, m), loops) = links_lem env law vs empty ls in
      let k = number_bytes (pos (count vs)) in
      (
        14,
        k ++ x,
        (
          byte_op 14 ∷ varint k ∷ ws,
          rw (first, write_varint-exact env law (pos (count vs)) (omega arith), e) refl,
          Makes-append (byte_op 14 ∷ varint k ∷ []) ws (14 ∷ k) x
              (Makes-head 14 (count vs) (omega arith) h) m,
        ),
        λ b rest o e.
            let (n, l) = sized (link_round env) (count vs) empty vs x b rest o h loops e in
            rw (n, l, minus_start o (length (k ++ x))) refl,
      )

  pub Returns-array :
      (f : ℕ) (vs : Values)
      → count vs < 2 ^ 32
      → starts_with_link vs ≡ false
      → ReturnsValues env law f empty vs
      → Returns env law (suc f) (array vs)
  unfolding write_value parse_value field_type parse_type parse_collection
  Returns-array f vs h first (x, (ws, e, m), loops) =
      let k = number_bytes (pos (count vs)) in
      let round = λ (b : Bytes). item_round env b (parse_value env b f) document in
      let short : ltb (count vs) (2 ^ 32) ≡ true = ground arith in
      (
        10,
        k ++ x,
        (
          byte_op 10 ∷ varint k ∷ ws,
          rw (first, write_varint-exact env law (pos (count vs)) (omega arith), e) refl,
          Makes-append (byte_op 10 ∷ varint k ∷ []) ws (10 ∷ k) x
              (Makes-head 10 (count vs) (omega arith) h) m,
        ),
        λ b rest o e.
            let (n, l) = sized round (count vs) empty vs x b rest o h loops e in
            rw (n, short, l, minus_start o (length (k ++ x))) refl,
      )

  -- No field of such an object is the class.
  pub find-class_none : (fs : Fields) → AreKeptFields env fs → find (codes "@class") fs ≡ none
  unfolding find AreKeptFields is_written
  find-class_none end h = refl
  find-class_none (field k v fs) (h, _, _, hs) =
      let other : text_eq k (codes "@class") ≡ false = ground arith in
      rw other (find-class_none fs hs)

  pub Returns-map :
      (f : ℕ) (fs : Fields)
      → count_written fs < 2 ^ 32
      → AreKeptFields env fs
      → ReturnsFields env law f end fs
      → Returns env law (suc f) (object fs)
  unfolding write_value parse_value field_type parse_type parse_map
  Returns-map f fs h kept (x, (ws, e, m), loops) =
      let k = number_bytes (pos (count_written fs)) in
      let round = λ (b : Bytes). field_round env b (parse_value env b f) document in
      (
        12,
        k ++ x,
        (
          byte_op 12 ∷ varint k ∷ ws,
          rw
              (
                find-class_none fs kept,
                write_varint-exact env law (pos (count_written fs)) (omega arith),
                e,
              )
              refl,
          Makes-append (byte_op 12 ∷ varint k ∷ []) ws (12 ∷ k) x
              (Makes-head 12 (count_written fs) (omega arith) h) m,
        ),
        λ b rest o e.
            let (n, l) = sized round (count_written fs) end fs x b rest o h loops e in
            rw (n, l, minus_start o (length (k ++ x))) refl,
      )

  -- The fields of a document behind its class, which is left out where the text is empty.
  pub Gives-document :
      (f n : ℕ) (name : Text) (fs : Fields) (x : Bytes)
      → IsKeptText env name
      → n < 2 ^ 32
      → Iterates (λ b. field_round env b (parse_value env b f) document) n (with_class name) fs x
      → Gives
          (λ b o. parse_document env b (parse_value env b f) o)
          (text_bytes env law name ++ (number_bytes (pos n) ++ x))
          (object fs)
  unfolding parse_document parse_fields
  Gives-document f n name fs x hn h loops b rest o e =
      let c = text_bytes env law name in
      let y = number_bytes (pos n) ++ x in
      let round = λ (b : Bytes). field_round env b (parse_value env b f) document in
      let e' : drop o b ≡ c ++ (y ++ rest) = e ∙ append_assoc c y rest in
      let (size, l) =
        sized round n (with_class name) fs x b rest (o + length c) h loops
          (advance c b (y ++ rest) o e') in
      let total : (o + length c) + length y ≡ o + length (c ++ y) =
        omega (arith, length-append c y) in
      rw
        (
          Gives-text env law name hn b (y ++ rest) o e',
          size,
          l,
          minus_start (o + length c) (length y),
          total,
          minus_start o (length (c ++ y)),
        )
        refl

  -- `serializeDocument`, from the steps of the fields.
  pub Written-document :
      (name : Text) (fs : Fields) (body : Option (List WriteOp)) (x : Bytes)
      → class_text (find (codes "@class") fs) ≡ some name
      → IsKeptText env name
      → count_written fs < 2 ^ 32
      → Written body x
      → Written
          (document_of env fs body)
          (text_bytes env law name ++ (number_bytes (pos (count_written fs)) ++ x))
  unfolding encoded
  Written-document name fs body x class hn h (ws, e, m) =
      let (w, ew, n, mw) = write_varint_string-kept env law name hn in
      let k = number_bytes (pos (count_written fs)) in
      (
        w ∷ varint k ∷ ws,
        rw (class, ew, write_varint-exact env law (pos (count_written fs)) (omega arith), e) refl,
        Makes-append (w ∷ []) (varint k ∷ ws) _ (k ++ x) mw
            (Makes-cons (varint k) ws k x tt refl m),
      )

  pub Returns-embedded :
      (f a : ℕ) (c : Text) (fs : Fields)
      → IsKeptText env (a ∷ c)
      → count_written fs < 2 ^ 32
      → ReturnsFields env law f (with_class (a ∷ c)) fs
      → Returns env law (suc f) (object (field (codes "@class") (string (a ∷ c)) fs))
  unfolding write_value write_fields count_written find is_written text_eq parse_value field_type
      parse_type
  Returns-embedded f a c fs hn h (x, w, loops) = (
    9,
    text_bytes env law (a ∷ c) ++ (number_bytes (pos (count_written fs)) ++ x),
    Written-behind (byte_op 9 ∷ []) _ (9 ∷ []) _ (Makes-one _ _ tt (unfold encoded in refl))
        (Written-document (a ∷ c) (field (codes "@class") (string (a ∷ c)) fs) _ x refl hn h w),
    λ b rest o e.
        Gives-document f (count_written fs) (a ∷ c) (append_fields (with_class (a ∷ c)) fs) x hn h
          loops b rest o e,
  )
