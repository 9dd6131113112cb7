-- ===== src/Request/Database.antt =====
-- lib/transport/binary/protocol33/operations: requests about the server, its databases and records.
use orientjs.Prelude.{ℕ, zero, Bool, true, Option, none, some, List, [], ◌∷◌, ◌++◌, ℤ, pos, negsuc}
use orientjs.RecordId.{RecordId}
use orientjs.Buffer.{Bytes}
use orientjs.Operation.Write.{
  WriteOp, byte, boolean, int, long, short, block, write_string, write_header, or_minus_one,
}
use orientjs.Request.{Session, or_bytes, or_number, or_zero, record_type}
use orientjs.Text.{Text}

-- db-close, db-list, db-size, db-countrecords, db-reload and config-list send a header and no more.
unfoldable pub header_only : ℕ → Session → List WriteOp
unfolding write_header
header_only code s = write_header code s.session s.token

-- db-delete, db-freeze, db-release and db-exists, whose storages have different defaults.
unfoldable pub named_database : ℕ → Bytes → Session → Option Bytes → Option Bytes → List WriteOp
unfolding write_header write_string
named_database code default s name storage =
    write_header code s.session s.token
    ++ (write_string name ∷ block (or_bytes storage default) ∷ [])

-- What connect.js and db-open.js tell of the driver: its name and version, and the format of records.
pub record Driver : Type 0 where
  pub name : Bytes
  pub version : Bytes
  pub protocol : ℤ
  pub format : Bytes

abbrev introduction : ℕ → Driver → Option ℤ → Bool → List WriteOp
introduction code d session use_token =
    byte code
    ∷ int (or_minus_one session)
    ∷ block d.name
    ∷ block d.version
    ∷ short d.protocol
    ∷ block []
    ∷ block d.format
    ∷ boolean use_token
    ∷ []

-- connect.js
unfoldable pub connect : Driver → Option ℤ → Bool → Option Bytes → Option Bytes → List WriteOp
unfolding write_string
connect d session use_token user password =
    introduction 2 d session use_token ++ (write_string user ∷ write_string password ∷ [])

-- db-open.js
unfoldable pub db_open :
    Driver → Option ℤ → Bool → Option Bytes → Option Bytes → Option Bytes → List WriteOp
unfolding write_string
db_open d session use_token database user password =
    introduction 3 d session use_token
    ++ (write_string database ∷ write_string user ∷ write_string password ∷ [])

-- The place and the version in the options of an operation on a record. `rid` is what RID.parse
-- makes of the `@rid` of the record, with no numbers where that fails, and none for a record with no
-- `@rid`; `record_version` is its `@version`.
pub record Target : Type 0 where
  pub cluster : Option ℤ
  pub position : Option ℤ
  pub rid : Option RecordId
  pub version : Option ℤ
  pub record_version : Option ℤ

-- `given || rid.field`, and `given` where the record has no `@rid`.
abbrev or_field : Option ℤ → Option ℤ → Option ℤ
or_field none f = f
or_field (some (pos zero)) f = f
or_field (some z) f = some z

unfoldable pub target_cluster : Target → Option ℤ
target_cluster t = elim t.rid [ none ↦ t.cluster | some r ↦ or_field t.cluster r.cluster ]

unfoldable pub target_position : Target → Option ℤ
target_position t = elim t.rid [ none ↦ t.position | some r ↦ or_field t.position r.position ]

unfoldable pub target_version : Target → ℤ
target_version t = elim t.version [
  | some v ↦ v
  | none ↦ elim t.record_version [ some v ↦ v | none ↦ negsuc 0 ]
]

-- A number that is missing is written as 0, as `buffer.writeInt16BE` and Long.fromNumber take it.
module _ (words : ℤ → ℤ × ℤ) where
  abbrev place : Option ℤ → Option ℤ → List WriteOp
  place c p =
      let z = or_number p (pos 0) in short (or_number c (pos 0)) ∷ long (words z).0 (words z).1 ∷ []

  -- record-update.js
  unfoldable pub record_update : Session → Target → Bytes → Option Text → Option ℕ → List WriteOp
  unfolding write_header target_cluster target_position target_version record_type
  record_update s t content type mode =
      write_header 32 s.session s.token
      ++ (place (target_cluster t) (target_position t)
          ++ (boolean true
              ∷ block content
              ∷ int (target_version t)
              ∷ byte (or_zero (record_type type))
              ∷ byte (or_zero mode)
              ∷ []))

  -- record-delete.js
  unfoldable pub record_delete : Session → Target → Option ℕ → List WriteOp
  unfolding write_header target_cluster target_position target_version
  record_delete s t mode =
      write_header 33 s.session s.token
      ++ (place (target_cluster t) (target_position t)
          ++ (int (target_version t) ∷ byte (or_zero mode) ∷ []))

  -- record-clean-out.js, which takes the version of the options alone.
  unfoldable pub record_clean_out : Session → Target → Bool → List WriteOp
  unfolding write_header target_cluster target_position
  record_clean_out s t mode =
      write_header 38 s.session s.token
      ++ (place (target_cluster t) (target_position t)
          ++ (int (or_number t.version (negsuc 0)) ∷ boolean mode ∷ []))

  -- record-metadata.js
  unfoldable pub record_metadata : Session → Target → List WriteOp
  unfolding write_header target_cluster target_position
  record_metadata s t =
      write_header 29 s.session s.token ++ place (target_cluster t) (target_position t)

-- record-create.js: `data.cluster || -1` for a record with no `@rid`.
abbrev created_cluster : Target → Option ℤ
created_cluster t = elim t.rid [
  | none ↦ some (or_number t.cluster (negsuc 0))
  | some r ↦ or_field t.cluster r.cluster
]

unfoldable pub record_create : Session → Target → Bytes → Option Text → Option ℕ → List WriteOp
unfolding write_header record_type
record_create s t content type mode =
    write_header 31 s.session s.token
    ++ (short (or_number (created_cluster t) (pos 0))
        ∷ block content
        ∷ byte (or_zero (record_type type))
        ∷ byte (or_zero mode)
        ∷ [])
