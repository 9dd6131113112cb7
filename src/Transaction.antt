-- ===== src/Transaction.antt =====
-- lib/db/transaction.js: the records of a transaction, their temporary record ids, and what
-- `commit` makes of the answer of the server. A record is the fields that the code uses, with the
-- rest as a parameter; `many` as a record id is an array, which has no cluster and no position.
pub mod Commit
use orientjs.Text.{Text}
use orientjs.Prelude.{
  ℕ, zero, suc, Bool, true, false, ◌&&◌, Option, none, some, List, [], ◌∷◌, ◌++◌, if◌then◌else◌, ℤ,
  pos, negsuc, eq_ℤ,
}
use orientjs.RecordId.{RecordId, Input, Parsed, one, failed, parse}

pub record Record (D : Type 0) : Type 0 where
  pub rid : Parsed
  pub version : Option ℤ
  pub body : D

-- What `update` and `delete` take.
pub data Given (D : Type 0) : Type 0 where
  text : Text → Given D
  record_id : RecordId → Given D
  document : Option Input → Option ℤ → D → Given D

pub record Transaction (D : Type 0) : Type 0 where
  pub last_position : ℤ
  pub creates : List (Record D)
  pub updates : List (Record D)
  pub deletes : List (Record D)

-- `--this._pos`
abbrev pub decrement : ℤ → ℤ
decrement (pos zero) = negsuc 0
decrement (pos (suc n)) = pos n
decrement (negsuc n) = negsuc (suc n)

abbrev has_rid : Parsed → Bool
has_rid failed = false
has_rid _ = true

module _ {D : Type 0} where
  -- `new Transaction(db, id)`
  abbrev pub new_transaction : Transaction D
  new_transaction = record { last_position = negsuc 0; creates = []; updates = []; deletes = [] }

  -- `create`, with the temporary record id that it gives.
  unfoldable pub create : D → Transaction D → Transaction D
  create body tx =
      let position = decrement tx.last_position in
      record tx {
        last_position = position;
        creates =
            tx.creates
            ++ (record {
              rid = one (record { cluster = some (negsuc 0); position = some position });
              version = none;
              body = body;
            }
                ∷ []);
      }

  -- `create` on an array.
  unfoldable pub create_all : List D → Transaction D → Transaction D
  unfolding create
  create_all [] tx = tx
  create_all (x ∷ xs) tx = create_all xs (create x tx)

  -- `extractRecordId`: the record with its record id, `failed` being false. `blank` is the rest of
  -- an object that has a record id only.
  unfoldable pub extract_record_id : D → Given D → Record D
  unfolding parse
  extract_record_id blank (text t) = record {
    rid = parse (Input.text t);
    version = none;
    body = blank;
  }
  extract_record_id blank (record_id r) = record { rid = one r; version = none; body = blank }
  extract_record_id blank (document none v body) = record { rid = failed; version = v; body = body }
  extract_record_id blank (document (some r) v body) = record {
    rid = parse r;
    version = v;
    body = body;
  }

  -- `update`; `none` is the exception.
  unfoldable pub update : D → Given D → Transaction D → Option (Transaction D)
  unfolding extract_record_id
  update blank x tx =
      let r = extract_record_id blank x in
      if has_rid r.rid then some (record tx { updates = tx.updates ++ (r ∷ []) }) else none

  -- `delete`
  unfoldable pub delete : D → Given D → Transaction D → Option (Transaction D)
  unfolding extract_record_id
  delete blank x tx =
      let r = extract_record_id blank x in
      if has_rid r.rid then some (record tx { deletes = tx.deletes ++ (r ∷ []) }) else none

-- The entries of the server's answer.
pub record Created : Type 0 where
  pub tmp_cluster : ℤ
  pub tmp_position : ℤ
  pub cluster : ℤ
  pub position : ℤ

pub record Updated : Type 0 where
  pub cluster : ℤ
  pub position : ℤ
  pub version : ℤ

abbrev is_field : Option ℤ → ℤ → Bool
is_field none z = false
is_field (some y) z = eq_ℤ y z

-- The test on `item['@rid']`.
abbrev pub is_at : Parsed → ℤ → ℤ → Bool
is_at (one r) c p = is_field r.cluster c && is_field r.position p
is_at _ c p = false

abbrev with_place : Option ℕ → List ℕ → List ℕ
with_place none ps = ps
with_place (some p) ps = p ∷ ps

module _ {D : Type 0} where
  -- The loop over the created records, from the place `i` on: the place of the record that an
  -- entry is for, if any, and the records with its new record id.
  unfoldable pub assign : ℕ → Created → List (Record D) → Option ℕ × List (Record D)
  assign i c [] = (none, [])
  assign i c (r ∷ rs) =
      let (place, rest) = assign (suc i) c rs in
      if is_at r.rid c.tmp_cluster c.tmp_position
      then (
        some i,
        record r { rid = one (record { cluster = some c.cluster; position = some c.position }) }
            ∷ rs,
      )
      else (place, r ∷ rest)

  -- `response.created.map(...).filter(notEmpty)`: the places of the records that are returned.
  unfoldable pub assign_all : List Created → List (Record D) → List ℕ × List (Record D)
  unfolding assign
  assign_all [] rs = ([], rs)
  assign_all (c ∷ cs) rs =
      let (place, next) = assign 0 c rs in
      let (places, last) = assign_all cs next in (with_place place places, last)

  -- The loop over the updated records.
  unfoldable pub mark : ℕ → Updated → List (Record D) → Option ℕ × List (Record D)
  mark i u [] = (none, [])
  mark i u (r ∷ rs) =
      let (place, rest) = mark (suc i) u rs in
      if is_at r.rid u.cluster u.position
      then (some i, record r { version = some u.version } ∷ rs)
      else (place, r ∷ rest)

  unfoldable pub mark_all : List Updated → List (Record D) → List ℕ × List (Record D)
  unfolding mark
  mark_all [] rs = ([], rs)
  mark_all (u ∷ us) rs =
      let (place, next) = mark 0 u rs in
      let (places, last) = mark_all us next in (with_place place places, last)

  -- `commit` behind the answer of the server: the transaction with its changed records, and the
  -- places of the records that are returned as created and as updated.
  unfoldable pub committed :
      List Created → List Updated → Transaction D → Transaction D × List ℕ × List ℕ
  unfolding assign_all mark_all
  committed cs us tx =
      let (created, creates) = assign_all cs tx.creates in
      let (updated, updates) = mark_all us tx.updates in
      (record tx { creates = creates; updates = updates }, created, updated)
