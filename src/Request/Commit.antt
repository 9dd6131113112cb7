-- ===== src/Request/Commit.antt =====
-- The request of lib/transport/binary/protocol33/operations/tx-commit.js, and what its reader makes
-- of it.
use mathlib.Core.List.{append_assoc}
use orientjs.Prelude.{
  ℕ, ◌^◌, ◌<◌, some, List, [], ◌∷◌, arith, length, ℤ, ◌+◌, ◌≡◌, ◌++◌, map, All, sym, ap, ◌∙◌,
}
use orientjs.Buffer.{Bytes}
use orientjs.Writer.{Fits}
use orientjs.Operation.Write.Concat.{concat, buffer-concat}
use orientjs.Operation.Write.{buffer, WriteOp, byte, int, block}
use orientjs.Request.{Item, write_creates, write_updates, write_deletes, commit_body}
use orientjs.Request.Get.{
  Get, and_then, give, get_byte, get_int, get_block, Sends, Sends-give, Sends-and_then, Sends-byte,
  Sends-int, Sends-block,
}
use orientjs.Request.Entries.{
  Entry, get_entries, IsSendable, created_of, updated_of, deleted_of, Sends-creates, Sends-updates,
  Sends-deletes,
}

-- The body of the request: the id, the log, the entries, and a last text, which is empty.
unfoldable pub get_body : ℕ → Get (ℤ × ℕ × List Entry × Bytes)
unfolding get_byte get_int get_block get_entries
get_body f = and_then get_int (λ id.
    and_then get_byte
      (λ log. and_then (get_entries f) (λ es. and_then get_block (λ t. give (id, log, es, t)))))

module _ (words : ℤ → ℤ × ℤ) where
  Sends-end : Sends (byte 0 ∷ []) (get_entries 1) []
  unfolding get_entries
  Sends-end =
      Sends-and_then (byte 0 ∷ []) [] get_byte _ 0 [] (Sends-byte 0 (omega arith)) (Sends-give [])

  abbrev pub entries : List Item → List Item → List Item → List Entry
  entries creates updates deletes =
      map (created_of words) creates
      ++ (map (updated_of words) updates ++ (map (deleted_of words) deletes ++ []))

  abbrev pub fuel : List Item → List Item → List Item → ℕ
  fuel creates updates deletes = length creates + (length updates + (length deletes + 1))

  abbrev entry_ops : List Item → List Item → List Item → List WriteOp
  entry_ops cs us ds =
      write_creates words cs
      ++ (write_updates words us ++ (write_deletes words ds ++ (byte 0 ∷ [])))

  commit_body_entries :
      (id : ℤ) (log : ℕ) (cs us ds : List Item)
      → commit_body words id log cs us ds
        ≡ int id ∷ byte log ∷ (entry_ops cs us ds ++ (block [] ∷ []))
  unfolding commit_body
  commit_body_entries id log cs us ds =
      let z = byte 0 ∷ [] in
      let b = block [] ∷ [] in
      let c = write_creates words cs in
      let u = write_updates words us in
      let d = write_deletes words ds in
      ap (λ t. int id ∷ byte log ∷ t)
        (sym (
          append_assoc c (u ++ (d ++ z)) b
          ∙ ap (λ t. c ++ t) (append_assoc u (d ++ z) b ∙ ap (λ t. u ++ t) (append_assoc d z b))))

  Sends-commit_body :
      (id : ℤ) (log : ℕ) (cs us ds : List Item)
      → Fits (2 ^ 32) id
      → log < 256
      → All (IsSendable words) cs
      → All (IsSendable words) us
      → All (IsSendable words) ds
      → Sends
          (int id ∷ byte log ∷ (entry_ops cs us ds ++ (block [] ∷ [])))
          (get_body (fuel cs us ds))
          (id, log, entries cs us ds, [])
  unfolding get_body
  Sends-commit_body id log cs us ds hi hl hc hu hd =
      let es = entries cs us ds in
      Sends-and_then (int id ∷ []) _ get_int _ id (id, log, es, []) (Sends-int id hi)
        (Sends-and_then (byte log ∷ []) _ get_byte _ log (id, log, es, []) (Sends-byte log hl)
          (Sends-and_then (entry_ops cs us ds) (block [] ∷ []) (get_entries (fuel cs us ds)) _ es
            (id, log, es, [])
            (Sends-creates words _ cs _ _ hc
              (Sends-updates words _ us _ _ hu (Sends-deletes words 1 ds _ [] hd Sends-end)))
            (Sends-and_then (block [] ∷ []) [] get_block _ [] (id, log, es, [])
              (Sends-block [] (omega arith)) (Sends-give (id, log, es, [])))))

  -- What tx-commit.js writes behind the header, where every number is in the range of its field
  -- and every record has fewer than 2 ^ 31 bytes, is laid out in a buffer, and a reader of the
  -- protocol gets from it the id, the log, one entry of the right kind for each record created,
  -- updated and deleted, in this order and with its numbers and its content, the end mark and
  -- an empty text, and nothing of what follows. Its fuel is one for each entry and one more.
  pub get_body-commit_body :
      (id : ℤ) (log : ℕ) (cs us ds : List Item) (rest : Bytes)
      → Fits (2 ^ 32) id
      → log < 256
      → All (IsSendable words) cs
      → All (IsSendable words) us
      → All (IsSendable words) ds
      → (x : Bytes) × (buffer (commit_body words id log cs us ds) ≡ some x)
        × (get_body (fuel cs us ds) (x ++ rest) ≡ some ((id, log, entries cs us ds, []), rest))
  get_body-commit_body id log cs us ds rest hi hl hc hu hd =
      let (x, e, r) = Sends-commit_body id log cs us ds hi hl hc hu hd in
      (
        x,
        buffer-concat (commit_body words id log cs us ds)
            ∙ ap concat (commit_body_entries id log cs us ds)
            ∙ e,
        r rest,
      )
