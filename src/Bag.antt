-- ===== src/Bag.antt =====
-- lib/bag.js: a bag of record ids, read from the bytes of its serialized form as it is iterated.
-- The decoding of base64 and the 64-bit arithmetic of the Long library are arguments: `bits`
-- gives the number with the given low and high words. `none` is an exception.
pub mod Iteration
use orientjs.Prelude.{
  ℕ, ◌+◌, ◌/◌, ◌%◌, Bool, true, false, Option, none, some, List, [], ◌∷◌, ◌++◌, leb, ◌==◌,
  if◌then◌else◌, ◌>>=◌, length, take, drop, ℤ, pos, negsuc, zero, suc, map, ltb, get_elem?,
}
use orientjs.Buffer.{Bytes, read_uint8, read_int16_be, read_int32_be, read_uint32_be}
use orientjs.RecordId.{RecordId, to_string}

pub data BagType : Type 0 where
  bag_embedded bag_tree : BagType

-- An element of `_content`: `nothing` is null.
pub data Item (D : Type 0) : Type 0 where
  rid : RecordId → Item D
  fetched : D → Item D
  nothing : Item D

-- `taken` is `_current` plus one. `prefetched` gives the record for the text of a record id.
pub record Bag (D : Type 0) : Type 0 where
  pub serialized : Bytes
  pub lazy : Bool
  pub uuid : Option Bytes
  pub content : List (Item D)
  pub buffer : Option Bytes
  pub type : Option BagType
  pub offset : ℕ
  pub taken : ℕ
  pub size : Option ℤ
  pub file_id : ℤ
  pub page_index : ℤ
  pub page_offset : ℤ
  pub change_size : ℤ
  pub prefetched : Option (List ℕ → Option D)

-- The constructor: the bytes stand for the serialized text, `none` for no text or an empty one.
unfoldable pub new_bag : {D : Type 0} → Option Bytes → Bag D
new_bag s = record {
  serialized = elim s [ none ↦ [] | some b ↦ b ];
  lazy = elim s [ none ↦ false | some b ↦ true ];
  uuid = none;
  content = [];
  buffer = none;
  type = none;
  offset = 0;
  taken = 0;
  size = none;
  file_id = pos 0;
  page_index = pos 0;
  page_offset = pos 0;
  change_size = pos 0;
  prefetched = none;
}

-- `readLong`
unfoldable pub read_long : (ℕ → ℤ → ℤ) → Bytes → ℕ → Option ℤ
unfolding read_uint32_be read_int32_be
read_long bits b o = do
  low ← read_uint32_be b (o + 4)
  high ← read_int32_be b o
  some (bits low high)

-- `size <= taken`, that is `_current >= _size - 1`.
abbrev size_leb : Option ℤ → ℕ → Bool
size_leb (some (pos n)) k = leb n k
size_leb (some (negsuc n)) k = true
size_leb none k = false

-- What `next` pushes for a record id.
abbrev content_of : {D : Type 0} → Option (List ℕ → Option D) → Option RecordId → Item D
content_of pre none = nothing
content_of none (some r) = rid r
content_of (some m) (some r) = elim (m (to_string r)) [ none ↦ rid r | some d ↦ fetched d ]

-- `mode & 2` tells whether a UUID follows. The slice from 1 to 16 is 15 bytes long.
abbrev placed : {D : Type 0} → ℕ → Bag D → Bag D
placed mode s =
    if mode / 2 % 2 == 1
    then record s { uuid = some (take 15 (drop 1 s.serialized)); offset = 17 }
    else record s { offset = 1 }

module _ {D : Type 0} (bits : ℕ → ℤ → ℤ) where
  -- The part of `_parse` behind the type, for an embedded bag.
  unfoldable pub parse_embedded : Bag D → Bytes → Option (Bag D)
  unfolding read_int32_be
  parse_embedded s b = do
    n ← read_int32_be b s.offset
    some (record s { size = some n; offset = s.offset + 4; buffer = some b })

  -- The same for a tree bag.
  parse_tree : Bag D → Bytes → Option (Bag D)
  unfolding read_long read_int32_be
  parse_tree s b = do
    file ← read_long bits b s.offset
    page ← read_long bits b (s.offset + 8)
    place ← read_int32_be b (s.offset + 16)
    n ← read_int32_be b (s.offset + 20)
    changes ← read_int32_be b (s.offset + 24)
    some (record s {
      file_id = file;
      page_index = page;
      page_offset = place;
      size = some n;
      change_size = changes;
      offset = s.offset + 28;
      buffer = some b;
    })

  -- `_parse`; `mode & 1` tells the type.
  unfoldable pub parse : Bag D → Option (Bag D)
  unfolding read_uint8 parse_embedded parse_tree
  parse s = read_uint8 s.serialized 0 >>= λ mode.
      let p = placed mode s in
      if mode % 2 == 1
      then parse_embedded (record p { type = some bag_embedded }) s.serialized
      else parse_tree (record p { type = some bag_tree }) s.serialized

  -- `_consume` of an embedded bag: the record id, `none` inside at the end of the buffer.
  unfoldable pub consume : Bag D → Bytes → Option (Bag D × Option RecordId)
  unfolding read_int16_be read_long
  consume s b = if leb (length b) s.offset then some (s, none) else (do
    c ← read_int16_be b s.offset
    p ← read_long bits b (s.offset + 2)
    some (
      record s { offset = s.offset + 10 },
      some (record { cluster = some c; position = some p }),
    ))

  -- `next` of an embedded bag that has been parsed.
  unfoldable pub next_embedded : Bag D → Bytes → Option (Bag D × Option RecordId)
  unfolding consume
  next_embedded s b =
      if size_leb s.size s.taken
      then some (s, none)
      else (consume (record s { taken = s.taken + 1 }) b >>= λ r.
          some
            (record (r.0) { content = (r.0).content ++ (content_of s.prefetched r.1 ∷ []) }, r.1))

  -- `next` of a lazy bag; a tree bag gives undefined.
  unfoldable pub next_parsed : Option BagType → Bag D → Bytes → Option (Bag D × Option RecordId)
  unfolding next_embedded
  next_parsed (some bag_embedded) s b = next_embedded s b
  next_parsed _ s b = some (s, none)

  unfoldable pub next_lazy : Bag D → Option (Bag D × Option RecordId)
  unfolding parse next_parsed
  next_lazy s = elim (s.buffer) [
    | none ↦ parse s >>= λ p. next_parsed p.type p p.serialized
    | some b ↦ next_parsed s.type s b
  ]

  -- `next` of a bag with no serialized form walks over the content. At its end it gives undefined
  -- first, and null in the call after that, which starts again.
  next_eager : Bag D → Bag D × Option (Item D)
  next_eager s =
      if ltb (length s.content) s.taken
      then (record s { taken = 0 }, none)
      else (record s { taken = s.taken + 1 }, get_elem? s.content s.taken)

  abbrev pub as_item : Bag D × Option RecordId → Bag D × Option (Item D)
  as_item (s, none) = (s, none)
  as_item (s, some r) = (s, some (rid r))

  -- `next`: `none` inside stands for null and undefined.
  unfoldable pub next : Bag D → Option (Bag D × Option (Item D))
  unfolding next_lazy next_eager
  next s = if s.lazy then (next_lazy s >>= λ r. some (as_item r)) else some (next_eager s)

  -- The records that `all` puts in the place of record ids of an eager bag.
  abbrev refetch : Option (List ℕ → Option D) → Item D → Item D
  refetch (some m) (rid r) = content_of (some m) (some r)
  refetch _ i = i

  -- `while (this.next());` on fuel: the outer `none` is out of fuel or an exception.
  unfoldable pub drain : ℕ → Bag D → Option (Bag D)
  unfolding next
  drain zero s = none
  drain (suc f) s =
      next s >>= λ r. let more = drain f (r.0) in elim (r.1) [ none ↦ some (r.0) | some i ↦ more ]

  -- `all`. Its test against `this.length`, which no bag has, always holds.
  unfoldable pub all : ℕ → Bag D → Option (Bag D × List (Item D))
  unfolding drain
  all f s = drain f s >>= λ t.
      let items = if t.lazy then t.content else map (refetch t.prefetched) t.content in
      some (record t { content = items }, items)

  -- The getter of `type` parses a bag that has no type yet.
  unfoldable pub get_type : Bag D → Option (Bag D)
  unfolding parse
  get_type s = elim s.type [ none ↦ parse s | some t ↦ some s ]

  -- The getter of `size`, in the same way.
  unfoldable pub get_size : Bag D → Option (Bag D)
  unfolding parse
  get_size s = elim s.size [ none ↦ parse s | some n ↦ some s ]

  -- `toJSON`; a tree bag gives undefined.
  unfoldable pub to_json : ℕ → Bag D → Option (Bag D × Option (List (Item D)))
  unfolding get_type all
  to_json f s = get_type s >>= λ p. elim (p.type) [
    | some bag_embedded ↦ all f p >>= λ r. some (r.0, some (r.1))
    | _ ↦ some (p, none)
  ]
