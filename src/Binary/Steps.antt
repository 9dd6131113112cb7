-- ===== src/Binary/Steps.antt =====
-- The parts of a document, as lib/client/network/protocol37/serializer-binary.js writes them and
-- deserializer-binary.js reads them.
use mathlib.Core.List.{append_assoc}
use orientjs.Prelude.{
  ◌≡◌, refl, some, [], ◌∷◌, arith, length, ℤ, pos, ℕ, ◌+◌, ◌∙◌, none, ◌++◌, drop, length-append,
}
use orientjs.Text.{Text}
use orientjs.Buffer.{Bytes, to_signed}
use orientjs.Binary.{
  Value, integer, link, Values, empty, cons, Fields, end, field, Runtime, find, push,
}
use orientjs.Binary.Write.{WriteOp, varint, varstring, write_varint, write_varint_string}
use orientjs.Binary.Layout.{encoded, concat}
use orientjs.Binary.Serializer.{count, write_link, write_links}
use orientjs.Binary.Kept.{Lawful, IsExact, IsKeptText, IsKeptLink, AreLinks, append_fields}
use orientjs.Binary.Written.{Makes, Written, Makes-one, Makes-cons, Written-behind}
use orientjs.Binary.Reads.{
  Gives, link_bytes, text_bytes, Gives-text, Gives-link, advance, read_int8_at,
}
use orientjs.Binary.Loops.{
  append_values, Iterates, Steps, Iterates-none, Iterates-cons, push-append, append_values-empty,
  set_field-new,
}
use orientjs.Binary.Parse.{link_round}
use orientjs.Binary.Deserializer.{document, parse_value, field_round, item_round}

module _ (env : Runtime) (law : Lawful env) where
  open law use {number_bytes, encode_exact}

  pub write_varint-exact :
      (z : ℤ) → IsExact z → write_varint env (integer z) ≡ some (varint (number_bytes z))
  unfolding write_varint
  write_varint-exact z h = rw (encode_exact z h) refl

  pub write_varint_string-kept :
      (t : Text)
      → IsKeptText env t
      → (w : WriteOp) × (write_varint_string env (some t) ≡ some w)
        × (encoded w ≡ some (text_bytes env law t))
        × Makes (w ∷ []) (text_bytes env law t)
  unfolding write_varint_string encoded
  write_varint_string-kept t (same, fits) =
      let w : WriteOp = varstring (number_bytes (pos (length (env.utf8 t)))) (env.utf8 t) in
      (
        w,
        rw (encode_exact (pos (length (env.utf8 t))) (omega arith)) refl,
        refl,
        Makes-one w _ tt refl,
      )

  pub Written-link :
      (c p : ℤ) → IsKeptLink c p → Written (write_link env (link c p)) (link_bytes env law c p)
  unfolding write_link encoded
  Written-link c p (hc, hp, other) = (
    varint (number_bytes c) ∷ varint (number_bytes p) ∷ [],
    rw (write_varint-exact c hc, write_varint-exact p hp) refl,
    Makes-cons _ _ (number_bytes c) (number_bytes p) tt refl (Makes-one _ _ tt refl),
  )

  Steps-link :
      (c p : ℤ) (acc : Values)
      → IsKeptLink c p
      → Steps (link_round env) acc (push (link c p) acc) (link_bytes env law c p)
  Steps-link c p acc h b rest o e = rw (Gives-link env law c p h b rest o e) refl

  -- The links of a list, written and read.
  pub links_lem :
      (vs acc : Values)
      → AreLinks vs
      → (x : Bytes) × Written (write_links env vs) x
        × Iterates (link_round env) (count vs) acc (append_values acc vs) x
  unfolding AreLinks write_links count
  links_lem empty acc h = (
    [],
    ([], refl, (unfold concat in refl, tt)),
    rw (append_values-empty acc) (Iterates-none (link_round env) acc),
  )
  links_lem (cons v vs) acc ((c, p, same, h), hs) = rw same (
      let (x, w, l) = links_lem vs (push (link c p) acc) hs in
      let (ws, e, m) = Written-link c p h in
      let y = link_bytes env law c p in
      (
        y ++ x,
        rw e (Written-behind ws (write_links env vs) y x m w),
        Iterates-cons (link_round env) (count vs) acc _ _ y x (Steps-link c p acc h)
            (rw (push-append (link c p) acc vs) at l),
      ))

  -- A field, behind its key and the type of its value.
  pub Steps-field :
      (g : ℕ) (k : Text) (v : Value) (acc : Fields) (t : ℕ) (y : Bytes)
      → IsKeptText env k
      → find k acc ≡ none
      → Gives (λ b o. parse_value env b g document (to_signed 256 t) o) y v
      → Steps
          (λ b. field_round env b (parse_value env b g) document)
          acc
          (append_fields acc (field k v end))
          (text_bytes env law k ++ (t ∷ y))
  Steps-field g k v acc t y hk new reads b rest o e =
      let x = text_bytes env law k in
      let e' : drop o b ≡ x ++ (t ∷ (y ++ rest)) = e ∙ append_assoc x (t ∷ y) rest in
      let e'' : drop (o + length x) b ≡ t ∷ (y ++ rest) = advance x b (t ∷ (y ++ rest)) o e' in
      let total : ((o + length x) + 1) + length y ≡ o + length (x ++ (t ∷ y)) =
        omega (arith, length-append x (t ∷ y)) in
      rw
        (
          Gives-text env law k hk b (t ∷ (y ++ rest)) o e',
          read_int8_at b (y ++ rest) (o + length x) t e'',
          reads b rest ((o + length x) + 1) (advance (t ∷ []) b (y ++ rest) (o + length x) e''),
          set_field-new k v acc new,
          total,
        )
        refl

  -- An item, behind its type.
  pub Steps-item :
      (g : ℕ) (v : Value) (acc : Values) (t : ℕ) (y : Bytes)
      → Gives (λ b o. parse_value env b g document (to_signed 256 t) o) y v
      → Steps (λ b. item_round env b (parse_value env b g) document) acc (push v acc) (t ∷ y)
  Steps-item g v acc t y reads b rest o e =
      let total : (o + 1) + length y ≡ o + length (t ∷ y) = omega arith in
      rw
        (
          read_int8_at b (y ++ rest) o t e,
          reads b rest (o + 1) (advance (t ∷ []) b (y ++ rest) o e),
          total,
        )
        refl
