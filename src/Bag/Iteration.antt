-- ===== src/Bag/Iteration.antt =====
-- What `all` of lib/bag.js gives for a well-formed embedded bag.
use mathlib.Core.List.{append-nil, append_assoc}
use orientjs.Prelude.{
  ◌>>=◌, ℕ, ◌+◌, ◌*◌, ◌^◌, ◌≡◌, some, List, [], ◌∷◌, ◌++◌, length, ℤ, zero, suc, ◌<◌, refl, ap,
  true, false, none, map, arith, leb, length-append, pos, sym, ◌∙◌,
}
use orientjs.Buffer.{Bytes, read_uint8, to_signed}
use orientjs.Bag.{
  Bag, bag_embedded, rid, new_bag, read_long, parse, consume, next, next_lazy, parse_embedded,
  as_item, next_parsed, drain, all,
}
use orientjs.Buffer.Reads.{word, drop-prefix, read_int16_at, read_uint32_at, read_int32_at}
use orientjs.RecordId.{RecordId}

-- The ten bytes of a record id: the cluster in two, the position in eight.
pub record Entry : Type 0 where
  pub c0 : ℕ
  pub c1 : ℕ
  pub h0 : ℕ
  pub h1 : ℕ
  pub h2 : ℕ
  pub h3 : ℕ
  pub l0 : ℕ
  pub l1 : ℕ
  pub l2 : ℕ
  pub l3 : ℕ

abbrev pub entry_bytes : Entry → Bytes → Bytes
entry_bytes e rest = e.c0 ∷ e.c1 ∷ e.h0 ∷ e.h1 ∷ e.h2 ∷ e.h3 ∷ e.l0 ∷ e.l1 ∷ e.l2 ∷ e.l3 ∷ rest

abbrev pub entries_bytes : List Entry → Bytes
entries_bytes [] = []
entries_bytes (e ∷ es) = entry_bytes e (entries_bytes es)

abbrev pub entry_rid : (ℕ → ℤ → ℤ) → Entry → RecordId
entry_rid bits e = record {
  cluster = some (to_signed (2 ^ 16) (e.c0 * 256 + e.c1));
  position = some (bits (word e.l0 e.l1 e.l2 e.l3) (to_signed (2 ^ 32) (word e.h0 e.h1 e.h2 e.h3)));
}

module _ {D : Type 0} (bits : ℕ → ℤ → ℤ) where
  -- `_consume` at an entry.
  consume_entry :
      (s : Bag D) (pre rest : Bytes) (e : Entry)
      → s.offset ≡ length pre
      → consume bits s (pre ++ entry_bytes e rest)
        ≡ some (record s { offset = s.offset + 10 }, some (entry_rid bits e))
  unfolding consume read_long
  consume_entry s pre rest e h =
      let b = pre ++ entry_bytes e rest in
      let at_cluster =
        read_int16_at b _ s.offset e.c0 e.c1
          (drop-prefix pre (entry_bytes e rest) 0 s.offset (omega arith)) in
      let at_high =
        read_int32_at b _ (s.offset + 2) e.h0 e.h1 e.h2 e.h3
          (drop-prefix pre (entry_bytes e rest) 2 (s.offset + 2) (omega arith)) in
      let at_low =
        read_uint32_at b _ (s.offset + 2 + 4) e.l0 e.l1 e.l2 e.l3
          (drop-prefix pre (entry_bytes e rest) 6 (s.offset + 2 + 4) (omega arith)) in
      let room : leb (length b) s.offset ≡ false =
        ground (arith, length-append pre (entry_bytes e rest)) in
      rw (room, consume) (rw (at_cluster, consume) (rw (at_low, consume) (rw (at_high, consume))))

  -- The fields of a bag in the middle of its entries.
  record Reading (s : Bag D) (b : Bytes) : Type 0 where
    is_lazy : s.lazy ≡ true
    is_embedded : s.type ≡ some bag_embedded
    has_buffer : s.buffer ≡ some b
    no_records : s.prefetched ≡ none

  -- The bag behind one more entry.
  abbrev advanced : Bag D → Entry → Bag D
  advanced s e = record s {
    taken = s.taken + 1;
    offset = s.offset + 10;
    content = s.content ++ (rid (entry_rid bits e) ∷ []);
  }

  next_entry :
      (s : Bag D) (pre rest : Bytes) (e : Entry) (k : ℕ)
      → Reading s (pre ++ entry_bytes e rest)
      → s.offset ≡ length pre
      → s.size ≡ some (pos (s.taken + suc k))
      → next bits s ≡ some (advanced s e, some (rid (entry_rid bits e)))
  unfolding next
  next_entry s pre rest e k r o n =
      ground (arith, consume_entry (record s { taken = s.taken + 1 }) pre rest e o)

  next_done :
      (s : Bag D) (b : Bytes)
      → Reading s b
      → s.size ≡ some (pos (s.taken + 0))
      → next bits s ≡ some (s, none)
  unfolding next
  next_done s b r n = ground arith

  drain_entries :
      (es : List Entry) (f : ℕ) (s : Bag D) (pre : Bytes)
      → length es < f
      → Reading s (pre ++ entries_bytes es)
      → s.offset ≡ length pre
      → s.size ≡ some (pos (s.taken + length es))
      → (t : Bag D) × (drain bits f s ≡ some t)
        × (t.content ≡ s.content ++ map (λ e. rid (entry_rid bits e)) es)
        × (t.lazy ≡ true)
  unfolding drain
  drain_entries es zero s pre h r o n = elim h [ ]
  drain_entries [] (suc f) s pre h r o n =
      (s, rw (next_done s (pre ++ []) r n, drain), sym (append-nil s.content), r.is_lazy)
  drain_entries (e ∷ es) (suc f) s pre h r o n =
      let more = pre ++ entry_bytes e [] in
      let same : pre ++ entries_bytes (e ∷ es) ≡ more ++ entries_bytes es =
        sym (append_assoc pre (entry_bytes e []) (entries_bytes es)) in
      let reading : Reading (advanced s e) (more ++ entries_bytes es) = record {
        is_lazy = r.is_lazy;
        is_embedded = r.is_embedded;
        has_buffer = r.has_buffer ∙ ap some same;
        no_records = r.no_records;
      } in
      let (t, drained, content, lazy) =
        drain_entries es f (advanced s e) more (omega arith) reading
          (omega (arith, length-append pre (entry_bytes e [])))
          (n ∙ ap (λ k. some (pos k)) (omega arith)) in
      (
        t,
        rw (next_entry s pre (entries_bytes es) e (length es) r o n, drain) drained,
        content ∙ append_assoc s.content (rid (entry_rid bits e) ∷ []) _,
        lazy,
      )

-- The bytes of an embedded bag with no UUID.
abbrev pub bag_bytes : List Entry → ℕ → ℕ → ℕ → ℕ → Bytes
bag_bytes es s0 s1 s2 s3 = 1 ∷ s0 ∷ s1 ∷ s2 ∷ s3 ∷ entries_bytes es

abbrev parsed_bag : {D : Type 0} → Bytes → ℕ → Bag D
parsed_bag b n = record {
  serialized = b;
  lazy = true;
  uuid = none;
  content = [];
  buffer = some b;
  type = some bag_embedded;
  offset = 5;
  taken = 0;
  size = some (pos n);
  file_id = pos 0;
  page_index = pos 0;
  page_offset = pos 0;
  change_size = pos 0;
  prefetched = none;
}

parse-bag_bytes :
    {D : Type 0} (bits : ℕ → ℤ → ℤ) (es : List Entry) (s0 s1 s2 s3 n : ℕ)
    → to_signed (2 ^ 32) (word s0 s1 s2 s3) ≡ pos n
    → parse {D = D} bits (new_bag (some (bag_bytes es s0 s1 s2 s3)))
      ≡ some (parsed_bag (bag_bytes es s0 s1 s2 s3) n)
unfolding parse new_bag parse_embedded read_uint8
parse-bag_bytes bits es s0 s1 s2 s3 n h =
    rw (read_int32_at (bag_bytes es s0 s1 s2 s3) (entries_bytes es) 1 s0 s1 s2 s3 refl, h)

next-bag_bytes :
    {D : Type 0} (bits : ℕ → ℤ → ℤ) (es : List Entry) (s0 s1 s2 s3 n : ℕ)
    → to_signed (2 ^ 32) (word s0 s1 s2 s3) ≡ pos n
    → next {D = D} bits (new_bag (some (bag_bytes es s0 s1 s2 s3)))
      ≡ next bits (parsed_bag (bag_bytes es s0 s1 s2 s3) n)
unfolding next next_lazy new_bag
next-bag_bytes {D} bits es s0 s1 s2 s3 n h =
    ap (λ r. r >>= λ p. next_parsed bits p.type p p.serialized >>= λ r. some (as_item bits r))
      (parse-bag_bytes {D = D} bits es s0 s1 s2 s3 n h)

-- For a new bag over the bytes of an embedded bag with no UUID, which are the mode 1, the number
-- of entries as a signed integer of four bytes, and the entries, `all` gives the record ids of
-- the entries, in their order, if it has fuel for one call of `next` more than there are entries.
pub all_entries :
    {D : Type 0} (bits : ℕ → ℤ → ℤ) (es : List Entry) (s0 s1 s2 s3 f : ℕ)
    → to_signed (2 ^ 32) (word s0 s1 s2 s3) ≡ pos (length es)
    → length es < f
    → (t : Bag D) × (all bits f (new_bag (some (bag_bytes es s0 s1 s2 s3)))
        ≡ some (t, map (λ e. rid (entry_rid bits e)) es))
unfolding all drain new_bag
all_entries {D} bits es s0 s1 s2 s3 zero n h = elim h [ ]
all_entries {D} bits es s0 s1 s2 s3 (suc f) n h =
    let b = bag_bytes es s0 s1 s2 s3 in
    let (t, drained, content, lazy) =
      drain_entries bits es (suc f) (parsed_bag {D = D} b (length es)) (1 ∷ s0 ∷ s1 ∷ s2 ∷ s3 ∷ [])
        h (record { is_lazy = refl; is_embedded = refl; has_buffer = refl; no_records = refl }) refl
        (ap (λ k. some (pos k)) (omega arith)) in
    (
      record t { content = t.content },
      rw (next-bag_bytes bits es s0 s1 s2 s3 (length es) n, drained, lazy, content),
    )
