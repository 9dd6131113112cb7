-- ===== src/Binary/Hazards.antt =====
-- A function among the fields of a document of lib/client/network/protocol37/serializer-binary.js.
use mathlib.Core.List.{append-nil}
use orientjs.Prelude.{
  ℕ, ◌+◌, ◌≡◌, refl, sym, ◌∙◌, true, false, none, some, [], ◌∷◌, ◌++◌, arith, ◌==◌, length, drop,
  pos,
}
use orientjs.Text.{Text, codes, text_eq}
use orientjs.Buffer.{Bytes, slice_exact}
use orientjs.Binary.{callable, end, field, Runtime, find}
use orientjs.Binary.Layout.{buffer-concat_steps}
use orientjs.Binary.Serializer.{
  is_written, count_written, write_value, write_fields, document_ops, serialize_document,
}
use orientjs.Binary.Parse.{read_int8, for_loop}
use orientjs.Binary.Deserializer.{parse_document, parse_fields, parse_value, deserialize, Rec}
use orientjs.Binary.Kept.{Lawful, IsKeptText}
use orientjs.Binary.Written.{Written, Written-behind, Written-none}
use orientjs.Binary.Reads.{Gives-number, Gives-text, advance, text_bytes}
use orientjs.Binary.Steps.{write_varint_string-kept}
use orientjs.Binary.Containers.{Written-document}

module _ (env : Runtime) (law : Lawful env) where
  open law use {number_bytes}

  Written-callable :
      (k : Text)
      → IsKeptText env k
      → is_written k ≡ true
      → Written (write_fields env (field k callable end)) (text_bytes env law k ++ [])
  unfolding write_fields write_value
  Written-callable k h w =
      let (op, e, n, m) = write_varint_string-kept env law k h in
      rw (w, e) (Written-behind (op ∷ []) (some []) _ [] m Written-none)

  read_int8_past : (b : Bytes) (o : ℕ) → drop o b ≡ [] → read_int8 b o ≡ none
  unfolding read_int8 slice_exact
  read_int8_past b o h = rw h refl

  -- The bytes of a document with one field end behind the key.
  parse_document_cut :
      (k : Text) (b : Bytes)
      → IsKeptText env k
      → b ≡ text_bytes env law [] ++ (number_bytes (pos 1) ++ text_bytes env law k)
      → (rec : Bytes → Rec) → parse_document env b (rec b) (pos 0) ≡ none
  unfolding parse_document parse_fields for_loop
  parse_document_cut k b h e rec =
      let name = text_bytes env law [] in
      let one = number_bytes (pos 1) in
      let key = text_bytes env law k in
      let h1 : drop (0 + length name) b ≡ one ++ key = advance name b (one ++ key) 0 e in
      let h2 : drop ((0 + length name) + length one) b ≡ key ++ [] =
        advance one b key (0 + length name) h1 ∙ sym (append-nil key) in
      let h3 : drop (((0 + length name) + length one) + length key) b ≡ [] =
        advance key b [] ((0 + length name) + length one) h2 in
      rw
        (
          Gives-text env law [] law.empty_kept b (one ++ key) 0 e,
          Gives-number env law (pos 1) (omega arith) b key (0 + length name) h1,
          Gives-text env law k h b [] ((0 + length name) + length one) h2,
          read_int8_past b (((0 + length name) + length one) + length key) h3,
        )
        refl

  -- A document whose one field is a function, under a key other than `@class` and `@rid` that
  -- UTF-8 keeps, is serialized, and `deserialize` with a type other than 4 throws at its bytes,
  -- whatever the fuel. The packages are assumed to be as `Lawful` says.
  pub callable_unreadable :
      (k : Text) (f type : ℕ)
      → IsKeptText env k
      → is_written k ≡ true
      → (type == 4) ≡ false
      → (b : Bytes) × (serialize_document env (field k callable end) ≡ some b)
        × (deserialize env f type (some b) ≡ none)
  unfolding serialize_document document_ops deserialize count_written find
  callable_unreadable k f type h w other =
      let fs = field k callable end in
      let key = text_bytes env law k in
      let no_class : text_eq k (codes "@class") ≡ false = unfold is_written in ground arith in
      let (ws, e, (made, sized)) =
        Written-document env law [] fs (write_fields env fs) (key ++ []) (rw no_class refl)
          law.empty_kept (rw w (omega arith)) (Written-callable k h w) in
      let bytes = text_bytes env law [] ++ (number_bytes (pos 1) ++ key) in
      (
        bytes,
        rw e (buffer-concat_steps ws sized ∙ rw (w, append-nil) at made),
        rw (other, parse_document_cut k bytes h refl (λ c. parse_value env c f)) refl,
      )
