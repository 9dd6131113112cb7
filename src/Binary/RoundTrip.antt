-- ===== src/Binary/RoundTrip.antt =====
-- A document that lib/client/network/protocol37/serializer-binary.js writes is read back by
-- deserializer-binary.js.
use mathlib.Core.List.{append-nil}
use mathlib.Core.Path.{subst}
use orientjs.Prelude.{
  ℕ, suc, ◌+◌, refl, [], ◌∷◌, ◌<◌, ◌≡◌, ◌∙◌, false, some, ◌++◌, arith, zero, inl, inr, sym, ◌==◌,
}
use orientjs.Text.{codes, text_eq}
use orientjs.Buffer.{Bytes}
use orientjs.Binary.{
  Value, null, boolean, integer, fraction, string, link, date, array, object, Values, empty, cons,
  Fields, end, field, Runtime, find, push,
}
use orientjs.Binary.Serializer.{is_written, count_written, count, write_values, write_fields}
use orientjs.Binary.Kept.{
  Lawful, AreNew, IsKept, AreKept, AreKeptFields, IsKeptObject, append_fields,
}
use orientjs.Binary.Written.{Written, Makes-append, Written-behind, Written-none}
use orientjs.Binary.Reads.{Gives, text_bytes}
use orientjs.Binary.Loops.{
  Iterates-none, Iterates-cons, push-append, append_values-empty, append_fields-end,
  append_fields_assoc,
}
use orientjs.Binary.Steps.{write_varint_string-kept, Steps-field, Steps-item}
use orientjs.Binary.Deserializer.{document, parse_value, field_round, item_round}
use orientjs.Binary.Scalars.{
  Returns, ReturnsValues, ReturnsFields, Returns-null, Returns-boolean, Returns-integer,
  Returns-fraction, Returns-string, Returns-link, Returns-date,
}
use orientjs.Binary.Containers.{
  Returns-links, Returns-array, Returns-map, Returns-embedded, Written-document, Gives-document,
  find-class_none,
}
use orientjs.Binary.{undefined, raw, bag, callable, symbol}
use orientjs.Binary.Layout.{buffer-concat_steps}
use orientjs.Binary.Serializer.{document_ops, serialize_document}
use orientjs.Binary.Deserializer.{parse_document, deserialize}

-- How many arrays and objects a value has, itself counted.
unfoldable mutual
  pub size : Value → ℕ
  size (array vs) = suc (size_values vs)
  size (object fs) = suc (size_fields fs)
  size _ = 0

  pub size_values : Values → ℕ
  size_values empty = 0
  size_values (cons v vs) = size v + size_values vs

  pub size_fields : Fields → ℕ
  size_fields end = 0
  size_fields (field k v fs) = size v + size_fields fs

module _ (env : Runtime) (law : Lawful env) where
  mutual
    unfolding IsKept AreKept AreKeptFields IsKeptObject AreNew size size_values size_fields
        write_values write_fields count count_written

    value_lem : (v : Value) (f : ℕ) → size v < f → IsKept env v → Returns env law f v
    value_lem v zero h k = absurd (omega arith)
    value_lem null (suc f) h k = Returns-null env law f
    value_lem undefined (suc f) h k = absurd k
    value_lem (boolean c) (suc f) h k = Returns-boolean env law f c
    value_lem (integer z) (suc f) h k = Returns-integer env law f z k
    value_lem (fraction d) (suc f) h k = Returns-fraction env law f d k.0 k.1
    value_lem (string t) (suc f) h k = Returns-string env law f t k
    value_lem (raw t) (suc f) h k = absurd k
    value_lem (link c p) (suc f) h k = Returns-link env law f c p k
    value_lem (date z) (suc f) h k = Returns-date env law f z k
    value_lem (array vs) (suc f) h (n, inl (first, ls)) = Returns-links env law f vs n first ls
    value_lem (array vs) (suc f) h (n, inr (first, ks)) =
        Returns-array env law f vs n first (values_lem vs f empty (omega arith) ks)
    value_lem (object end) (suc f) h k =
        Returns-map env law f end (omega arith) tt (fields_lem end f end (omega arith) tt tt)
    value_lem (object (field k v fs)) (suc f) h (inl (same, (a, c, class, hc), new, n, ks)) =
        let new' : AreNew (field (codes "@class") (string (a ∷ c)) end) fs =
          subst (λ w. AreNew (field (codes "@class") w end) fs) (class)
            (subst (λ j. AreNew (field j v end) fs) (same) new) in
        rw (same, class)
          (Returns-embedded env law f a c fs hc n
            (fields_lem fs f (field (codes "@class") (string (a ∷ c)) end) (omega arith) new' ks))
    value_lem (object (field k v fs)) (suc f) h (inr (new, n, wr, kt, kv, ks)) =
        Returns-map env law f (field k v fs) n (wr, kt, kv, ks)
          (fields_lem (field k v fs) f end (omega arith) new (wr, kt, kv, ks))
    value_lem (bag fs) (suc f) h k = absurd k
    value_lem callable (suc f) h k = absurd k
    value_lem symbol (suc f) h k = absurd k

    values_lem :
        (vs : Values) (f : ℕ) (acc : Values)
        → size_values vs < f
        → AreKept env vs
        → ReturnsValues env law f acc vs
    values_lem empty f acc h k = (
      [],
      Written-none,
      rw (append_values-empty acc)
          (Iterates-none (λ b. item_round env b (parse_value env b f) document) acc),
    )
    values_lem (cons v vs) f acc h (k, ks) =
        let (t, y, (ws, e, m), reads) = value_lem v f (omega arith) k in
        let (x, w, loops) = values_lem vs f (push v acc) (omega arith) ks in
        (
          (t ∷ y) ++ x,
          rw e (Written-behind ws (write_values env vs) (t ∷ y) x m w),
          Iterates-cons _ (count vs) acc _ _ (t ∷ y) x (Steps-item env law f v acc t y reads)
              (rw (push-append v acc vs) at loops),
        )

    fields_lem :
        (fs : Fields) (f : ℕ) (acc : Fields)
        → size_fields fs < f
        → AreNew acc fs
        → AreKeptFields env fs
        → ReturnsFields env law f acc fs
    fields_lem end f acc h new k = (
      [],
      Written-none,
      rw (append_fields-end acc)
          (Iterates-none (λ b. field_round env b (parse_value env b f) document) acc),
    )
    fields_lem (field k v fs) f acc h (new, news) (written, kt, kv, ks) =
        let (t, y, (ws, e, m), reads) = value_lem v f (omega arith) kv in
        let (x, w, loops) =
          fields_lem fs f (append_fields acc (field k v end)) (omega arith) news ks in
        let (key, ek, n, mk) = write_varint_string-kept env law k kt in
        let c = text_bytes env law k in
        (
          (c ++ (t ∷ y)) ++ x,
          rw (written, ek, e)
              (Written-behind (key ∷ ws) (write_fields env fs) (c ++ (t ∷ y)) x
                (Makes-append (key ∷ []) ws c (t ∷ y) mk m) w),
          rw written (
              Iterates-cons _ (count_written fs) acc _ _ (c ++ (t ∷ y)) x
                (Steps-field env law f k v acc t y kt new reads)
                (rw (append_fields_assoc acc (field k v end) fs) at loops)),
        )

  -- A document, or an element of a projection, of fields with the class that `IsKeptObject` allows:
  -- its bytes, and what `parseDocument` makes of them.
  document_lem :
      (fs : Fields) (f : ℕ)
      → size_fields fs < f
      → IsKeptObject env fs
      → (x : Bytes) × Written (document_ops env fs) x
        × Gives (λ b o. parse_document env b (parse_value env b f) o) x (object fs)
  unfolding IsKeptObject AreNew size_fields document_ops write_fields count_written find is_written
      text_eq
  document_lem end f h k = (
    _,
    Written-document env law [] end (some []) [] refl (law.empty_kept) (omega arith) Written-none,
    Gives-document env law f 0 [] end [] law.empty_kept (omega arith)
        (Iterates-none (λ b. field_round env b (parse_value env b f) document) end),
  )
  document_lem (field k v fs) f h (inl (same, (a, c, class, hc), new, n, ks)) =
      let new' : AreNew (field (codes "@class") (string (a ∷ c)) end) fs =
        subst (λ w. AreNew (field (codes "@class") w end) fs) (class)
          (subst (λ j. AreNew (field j v end) fs) (same) new) in
      let all = field (codes "@class") (string (a ∷ c)) fs in
      let (x, w, loops) =
        fields_lem fs f (field (codes "@class") (string (a ∷ c)) end) (omega arith) new' ks in
      rw (same, class)
        (
          _,
          Written-document env law (a ∷ c) all (write_fields env all) x refl hc n w,
          Gives-document env law f (count_written fs) (a ∷ c) all x hc n loops,
        )
  document_lem (field k v fs) f h (inr (new, n, wr, kt, kv, ks)) =
      let all = field k v fs in
      let (x, w, loops) = fields_lem all f end (omega arith) new (wr, kt, kv, ks) in
      let none_found = find-class_none env law all (wr, kt, kv, ks) in
      (
        _,
        Written-document env law [] all (write_fields env all) x (rw none_found refl) law.empty_kept
            n w,
        Gives-document env law f (count_written all) [] all x law.empty_kept n loops,
      )

  -- In the binary record format, the document of fields that `IsKeptObject` describes (values
  -- of the types that both sides know, whose keys differ, with the class, if any, as the first
  -- field) is serialized, and `deserialize` with a type other than 4 makes the same document of
  -- the bytes, with more fuel than the fields hold arrays and objects. The packages are assumed
  -- to be as `Lawful` says.
  pub deserialize-written_document :
      (fs : Fields) (f type : ℕ)
      → IsKeptObject env fs
      → size_fields fs < f
      → (type == 4) ≡ false
      → (b : Bytes) × (serialize_document env fs ≡ some b)
        × (deserialize env f type (some b) ≡ some (object fs))
  unfolding serialize_document deserialize
  deserialize-written_document fs f type k h other =
      let (x, (ws, e, (made, sized)), reads) = document_lem fs f h k in
      (
        x,
        rw e (buffer-concat_steps ws sized ∙ made),
        rw (other, reads x [] 0 (sym (append-nil x))) refl,
      )
