-- ===== src/Request/Entries.antt =====
-- The entries of the request of lib/transport/binary/protocol33/operations/tx-commit.js, as its
-- reader sees them: each begins with 1 and its kind, and a 0 ends them.
use orientjs.Prelude.{
  ℕ, zero, suc, ◌^◌, ◌<◌, Option, none, some, List, [], ◌∷◌, arith, ◌==◌, if◌then◌else◌, length, ℤ,
  pos, ◌+◌, ◌≡◌, refl, ◌++◌, map, All, true,
}
use orientjs.Buffer.{Bytes}
use orientjs.Writer.{Fits}
use orientjs.Text.{Text}
use orientjs.Operation.Write.{WriteOp, byte, boolean, int, long, short, block}
use orientjs.Request.{
  Item, type_byte, record_type, or_number, write_creates, write_updates, write_deletes,
}
use orientjs.Request.Get.{
  Get, and_then, give, get_byte, get_short, get_int, get_long, get_block, Sends, Sends-give,
  Sends-and_then, Sends-byte, Sends-true, Sends-short, Sends-int, Sends-long, Sends-block,
}

-- An entry: the cluster, the words of the position, the type, and what its kind has beside these.
pub data Entry : Type 0 where
  created : ℤ → ℤ × ℤ → ℕ → Bytes → Entry
  updated : ℤ → ℤ × ℤ → ℕ → ℤ → Bytes → Entry
  deleted : ℤ → ℤ × ℤ → ℕ → ℤ → Entry

abbrev get_head : {A : Type 0} → (ℤ → ℤ × ℤ → ℕ → Get A) → Get A
get_head k = and_then get_short (λ c. and_then get_long (λ p. and_then get_byte (k c p)))

abbrev get_created : Get Entry
get_created = get_head (λ c p t. and_then get_block (λ d. give (created c p t d)))

abbrev get_updated : Get Entry
get_updated = get_head (λ c p t.
    and_then get_int
      (λ v. and_then get_block (λ d. and_then get_byte (λ b. give (updated c p t v d)))))

abbrev get_deleted : Get Entry
get_deleted = get_head (λ c p t. and_then get_int (λ v. give (deleted c p t v)))

abbrev get_kind : ℕ → Get Entry
get_kind k =
    if k == 3
    then get_created
    else (if k == 1 then get_updated else (if k == 2 then get_deleted else (λ b. none)))

-- The entries, on fuel for each and for the end.
unfoldable pub get_entries : ℕ → Get (List Entry)
unfolding get_byte get_short get_int get_long get_block
get_entries zero b = none
get_entries (suc f) b =
    and_then get_byte
      (λ m.
        if m == 0
        then give []
        else and_then get_byte
            (λ k. and_then (get_kind k) (λ e. and_then (get_entries f) (λ es. give (e ∷ es)))))
      b

-- The numbers of an item are in their ranges.
abbrev pub IsSendable : (ℤ → ℤ × ℤ) → Item → Type 0
IsSendable words i =
    Fits (2 ^ 16) i.cluster
    × Fits (2 ^ 32) (words i.position).0
    × Fits (2 ^ 32) (words i.position).1
    × Fits (2 ^ 32) (or_number i.version (pos 0))
    × (length i.content < 2 ^ 31)

type_byte_small : (i : Item) → type_byte i < 256
unfolding type_byte record_type
type_byte_small i = go i.type
  where
    go : (t : Option Text) → (elim (record_type t) [ none ↦ 100 | some n ↦ n ]) < 256
    go none = omega arith
    go (some []) = omega arith
    go (some (c ∷ t)) = ground arith

module _ (words : ℤ → ℤ × ℤ) where
  -- The fields that all kinds have.
  Sends-head :
      {A : Type 0} (i : Item) (ws : List WriteOp) (k : ℤ → ℤ × ℤ → ℕ → Get A) (a : A)
      → IsSendable words i
      → Sends ws (k i.cluster (words i.position) (type_byte i)) a
      → Sends
          (short i.cluster
            ∷ long (words i.position).0 (words i.position).1
            ∷ byte (type_byte i)
            ∷ ws)
          (get_head k)
          a
  Sends-head i ws k a (c, h, l, v, d) s =
      Sends-and_then (short i.cluster ∷ []) _ get_short _ i.cluster a (Sends-short i.cluster c) (
        Sends-and_then (long (words i.position).0 (words i.position).1 ∷ []) _ get_long _
          (words i.position) a (Sends-long (words i.position).0 (words i.position).1 h l)
          (Sends-and_then (byte (type_byte i) ∷ []) ws get_byte _ (type_byte i) a
            (Sends-byte (type_byte i) (type_byte_small i)) s))

  -- What the reader is to see of an item.
  abbrev pub created_of : Item → Entry
  created_of i = created i.cluster (words i.position) (type_byte i) i.content

  abbrev pub updated_of : Item → Entry
  updated_of i =
      updated i.cluster (words i.position) (type_byte i) (or_number i.version (pos 0)) i.content

  abbrev pub deleted_of : Item → Entry
  deleted_of i = deleted i.cluster (words i.position) (type_byte i) (or_number i.version (pos 0))

  -- One more entry, of a kind from 1 to 3.
  Sends-entry :
      (k f : ℕ) (ws vs : List WriteOp) (e : Entry) (es : List Entry)
      → k < 256
      → Sends ws (get_kind k) e
      → Sends vs (get_entries f) es
      → Sends (byte 1 ∷ byte k ∷ (ws ++ vs)) (get_entries (suc f)) (e ∷ es)
  unfolding get_entries
  Sends-entry k f ws vs e es h s t =
      let rest_ops =
        Sends-and_then ws vs (get_kind k) (λ e. and_then (get_entries f) (λ es. give (e ∷ es))) e
          (e ∷ es) s (last t) in
      Sends-and_then (byte 1 ∷ []) (byte k ∷ (ws ++ vs)) get_byte _ 1 (e ∷ es)
        (Sends-byte 1 (omega arith))
        (Sends-and_then (byte k ∷ []) (ws ++ vs) get_byte _ k (e ∷ es) (Sends-byte k h) rest_ops)
    where
      last :
          Sends vs (get_entries f) es
          → Sends vs (and_then (get_entries f) (λ es. give (e ∷ es))) (e ∷ es)
      last (x, m, r) = (x, m, λ rest. rw (r rest) refl)

  pub Sends-creates :
      (f : ℕ) (is : List Item) (vs : List WriteOp) (es : List Entry)
      → All (IsSendable words) is
      → Sends vs (get_entries f) es
      → Sends (write_creates words is ++ vs) (get_entries (length is + f)) (map created_of is ++ es)
  unfolding write_creates
  Sends-creates f [] vs es h s = let e : 0 + f ≡ f = omega arith in rw e s
  Sends-creates f (i ∷ is) vs es (h, hs) s =
      let e : suc (length is) + f ≡ suc (length is + f) = omega arith in
      rw e (
        Sends-entry 3 (length is + f) _ (write_creates words is ++ vs) (created_of i) _
          (omega arith)
          (Sends-head i (block i.content ∷ [])
            (λ c p t. and_then get_block (λ d. give (created c p t d))) (created_of i) h
            (Sends-and_then (block i.content ∷ []) [] get_block _ i.content (created_of i)
              (Sends-block i.content h.4) (Sends-give (created_of i))))
          (Sends-creates f is vs es hs s))

  pub Sends-updates :
      (f : ℕ) (is : List Item) (vs : List WriteOp) (es : List Entry)
      → All (IsSendable words) is
      → Sends vs (get_entries f) es
      → Sends (write_updates words is ++ vs) (get_entries (length is + f)) (map updated_of is ++ es)
  unfolding write_updates
  Sends-updates f [] vs es h s = let e : 0 + f ≡ f = omega arith in rw e s
  Sends-updates f (i ∷ is) vs es (h, hs) s =
      let e : suc (length is) + f ≡ suc (length is + f) = omega arith in
      let v = or_number i.version (pos 0) in
      rw e (
        Sends-entry 1 (length is + f) _ (write_updates words is ++ vs) (updated_of i) _
          (omega arith)
          (Sends-head i (int v ∷ block i.content ∷ boolean true ∷ []) _ (updated_of i) h (
            Sends-and_then (int v ∷ []) (block i.content ∷ boolean true ∷ []) get_int _ v
              (updated_of i) (Sends-int v h.3)
              (Sends-and_then (block i.content ∷ []) (boolean true ∷ []) get_block _ i.content
                (updated_of i) (Sends-block i.content h.4)
                (Sends-and_then (boolean true ∷ []) [] get_byte (λ b. give (updated_of i)) 1
                  (updated_of i) Sends-true (Sends-give (updated_of i))))))
          (Sends-updates f is vs es hs s))

  pub Sends-deletes :
      (f : ℕ) (is : List Item) (vs : List WriteOp) (es : List Entry)
      → All (IsSendable words) is
      → Sends vs (get_entries f) es
      → Sends (write_deletes words is ++ vs) (get_entries (length is + f)) (map deleted_of is ++ es)
  unfolding write_deletes
  Sends-deletes f [] vs es h s = let e : 0 + f ≡ f = omega arith in rw e s
  Sends-deletes f (i ∷ is) vs es (h, hs) s =
      let e : suc (length is) + f ≡ suc (length is + f) = omega arith in
      let v = or_number i.version (pos 0) in
      rw e (
        Sends-entry 2 (length is + f) _ (write_deletes words is ++ vs) (deleted_of i) _
          (omega arith)
          (Sends-head i (int v ∷ []) _ (deleted_of i) h (
            Sends-and_then (int v ∷ []) [] get_int _ v (deleted_of i) (Sends-int v h.3)
              (Sends-give (deleted_of i))))
          (Sends-deletes f is vs es hs s))
