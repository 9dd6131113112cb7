-- ===== src/Request.antt =====
-- lib/transport/binary/protocol33/operations: the write steps of the requests. A text is given by its
-- bytes, `none` for null, and a record by those of its serialized form. `words` gives the high and the
-- low word that Long.fromNumber finds.
pub mod Database
pub mod Get
pub mod Entries
pub mod Commit
use orientjs.Text.{Text, codes, text_eq}
use orientjs.Buffer.{Bytes}
use orientjs.Operation.Write.{
  WriteOp, byte, boolean, int, long, short, block, write_string, write_header,
}
use orientjs.Prelude.{
  true, ℕ, zero, Option, none, some, List, [], ◌∷◌, ◌++◌, if◌then◌else◌, ◌||◌, length, ℤ, pos,
  negsuc,
}

-- The session and the token of a request.
pub record Session : Type 0 where
  pub session : Option ℤ
  pub token : Option Bytes

abbrev header : ℕ → Session → List WriteOp
header code s = write_header code s.session s.token

abbrev pub or_bytes : Option Bytes → Bytes → Bytes
or_bytes (some (c ∷ b)) d = c ∷ b
or_bytes _ d = d

-- `n || z`
abbrev pub or_number : Option ℤ → ℤ → ℤ
or_number none z = z
or_number (some (pos zero)) z = z
or_number (some y) z = y

abbrev pub or_zero : Option ℕ → ℕ
or_zero none = 0
or_zero (some n) = n

-- RECORD_TYPES[type || 'd'], none where there is no such type.
unfoldable pub record_type : Option Text → Option ℕ
unfolding text_eq
record_type none = some 100
record_type (some []) = some 100
record_type (some (c ∷ t)) =
    if text_eq (c ∷ t) (codes "d") || text_eq (c ∷ t) (codes "D")
    then some 100
    else (if text_eq (c ∷ t) (codes "b") || text_eq (c ∷ t) (codes "B")
        then some 98
        else (if text_eq (c ∷ t) (codes "f") || text_eq (c ∷ t) (codes "F")
            then some 102
            else none))

-- A record of a transaction: the numbers of its `@rid`, `@type` and `@version`, and its content.
pub record Item : Type 0 where
  pub cluster : ℤ
  pub position : ℤ
  pub type : Option Text
  pub version : Option ℤ
  pub content : Bytes

-- `RECORD_TYPES[item['@type'] || 'd'] || 100`
unfoldable pub type_byte : Item → ℕ
unfolding record_type
type_byte i = elim (record_type i.type) [ none ↦ 100 | some n ↦ n ]

module _ (words : ℤ → ℤ × ℤ) where
  abbrev pub long_op : ℤ → WriteOp
  long_op z = long (words z).0 (words z).1

  -- The start of an entry of a transaction, up to the type of the record.
  abbrev pub entry_head : ℕ → Item → List WriteOp
  entry_head kind i =
      byte 1 ∷ byte kind ∷ short i.cluster ∷ long_op i.position ∷ byte (type_byte i) ∷ []

  unfoldable pub write_creates : List Item → List WriteOp
  unfolding type_byte
  write_creates [] = []
  write_creates (i ∷ is) = entry_head 3 i ++ (block i.content ∷ write_creates is)

  unfoldable pub write_updates : List Item → List WriteOp
  unfolding type_byte
  write_updates [] = []
  write_updates (i ∷ is) =
      entry_head 1 i
      ++ (int (or_number i.version (pos 0)) ∷ block i.content ∷ boolean true ∷ write_updates is)

  unfoldable pub write_deletes : List Item → List WriteOp
  unfolding type_byte
  write_deletes [] = []
  write_deletes (i ∷ is) = entry_head 2 i ++ (int (or_number i.version (pos 0)) ∷ write_deletes is)

  -- tx-commit.js, what stands behind the header.
  unfoldable pub commit_body : ℤ → ℕ → List Item → List Item → List Item → List WriteOp
  unfolding write_creates write_updates write_deletes
  commit_body id log creates updates deletes =
      int id
      ∷ byte log
      ∷ (write_creates creates
          ++ (write_updates updates ++ (write_deletes deletes ++ (byte 0 ∷ block [] ∷ []))))

  unfoldable pub tx_commit : Session → ℤ → ℕ → List Item → List Item → List Item → List WriteOp
  unfolding write_header commit_body
  tx_commit s id log creates updates deletes =
      header 60 s ++ commit_body id log creates updates deletes

  -- record-load.js
  unfoldable pub record_load : Session → ℤ → ℤ → Option Bytes → Option ℕ → Option ℕ → List WriteOp
  unfolding write_header
  record_load s cluster position plan ignore tombstones =
      header 30 s
      ++ (short cluster
          ∷ long_op position
          ∷ block (or_bytes plan [])
          ∷ byte (or_zero ignore)
          ∷ byte (or_zero tombstones)
          ∷ [])

-- datacluster-count.js, for an array of ids or for one.
unfoldable pub shorts : List ℤ → List WriteOp
shorts [] = []
shorts (z ∷ zs) = short z ∷ shorts zs

unfoldable pub datacluster_count : Session → List ℤ → Option ℕ → List WriteOp
unfolding write_header shorts
datacluster_count s ids tombstones =
    header 12 s ++ (short (pos (length ids)) ∷ (shorts ids ++ (byte (or_zero tombstones) ∷ [])))

-- datacluster-add.js
unfoldable pub datacluster_add : Session → Option Bytes → Option ℤ → List WriteOp
unfolding write_header write_string
datacluster_add s name id =
    header 10 s ++ (write_string name ∷ short (or_number id (negsuc 0)) ∷ [])

-- datacluster-drop.js
unfoldable pub datacluster_drop : Session → ℤ → List WriteOp
unfolding write_header
datacluster_drop s id = header 11 s ++ (short id ∷ [])

-- datacluster-datarange.js
unfoldable pub datacluster_datarange : Session → ℤ → List WriteOp
unfolding write_header
datacluster_datarange s id = header 13 s ++ (short id ∷ [])

-- config-get.js and config-set.js
unfoldable pub config_get : Session → Option Bytes → List WriteOp
unfolding write_header write_string
config_get s key = header 70 s ++ (write_string key ∷ [])

unfoldable pub config_set : Session → Option Bytes → Option Bytes → List WriteOp
unfolding write_header write_string
config_set s key value = header 71 s ++ (write_string key ∷ write_string value ∷ [])

-- db-create.js; `graph` and `plocal` are the bytes of these words.
unfoldable pub db_create :
    Bytes → Bytes → Session → Option Bytes → Option Bytes → Option Bytes → List WriteOp
unfolding write_header write_string
db_create graph plocal s name type storage =
    header 4 s
    ++ (write_string name ∷ block (or_bytes type graph) ∷ block (or_bytes storage plocal) ∷ [])
