-- ===== src/Migration.antt =====
-- lib/migration/manager.js: which migrations are pending, and how they are applied and reverted.
-- The directory is a list of file names; the database is what the migrations work on, and the
-- names of the applied ones, in the order of their records. What a migration does is a parameter:
-- the database that it leaves, and whether its promise is fulfilled.
pub mod Pending
use orientjs.Prelude.{
  ℕ, zero, suc, ◌-◌, Bool, true, false, not, ◌&&◌, ◌||◌, Option, none, some, List, [], ◌∷◌, ◌++◌,
  ltb, ◌==◌, if◌then◌else◌, ◌>>=◌, length, take,
}
use orientjs.Text.{Text, text_eq, span_digits}

pub record Database (D : Type 0) : Type 0 where
  pub content : D
  pub applied : List Text

abbrev is_newline : ℕ → Bool
is_newline c = c == 10 || c == 13 || c == 8232 || c == 8233

unfoldable pub has_newline : Text → Bool
has_newline [] = false
has_newline (c ∷ t) = is_newline c || has_newline t

-- `(.*)\.[jt]s$` on the characters that are left: the last three are the extension.
unfoldable pub ends_in_script : Text → Bool
ends_in_script (d ∷ j ∷ s ∷ []) = d == b'.' && (j == b'j' || j == b't') && s == b's'
ends_in_script (c ∷ t) = let rest = ends_in_script t in not (is_newline c) && rest
ends_in_script [] = false

abbrev behind_underscore : Text × Text → Option Text
behind_underscore ([], rest) = none
behind_underscore (d ∷ ds, []) = none
behind_underscore (d ∷ ds, c ∷ rest) = if c == b'_' then some rest else none

-- A number and `_` at the start of a text: what follows them.
unfoldable pub after_number : Text → Option Text
unfolding span_digits
after_number t = behind_underscore (span_digits t)

-- `/^m(\d+)_(\d+)\_(.*)\.[jt]s$/`
unfoldable pub is_migration : Text → Bool
unfolding after_number ends_in_script
is_migration [] = false
is_migration (c ∷ t) =
    c == b'm'
    && elim (after_number t >>= after_number) [ none ↦ false | some rest ↦ ends_in_script rest ]

-- `filename.slice(0, -3)`
abbrev without_extension : Text → Text
without_extension t = take (length t - 3) t

-- `listAvailable`
unfoldable pub list_available : List Text → List Text
unfolding is_migration
list_available [] = []
list_available (f ∷ fs) =
    let rest = list_available fs in if is_migration f then without_extension f ∷ rest else rest

-- The loop over the applied migrations.
unfoldable pub is_applied : Text → List Text → Bool
unfolding text_eq
is_applied x [] = false
is_applied x (y ∷ ys) = let rest = is_applied x ys in if text_eq y x then true else rest

-- The loop over the available ones.
unfoldable pub pending : List Text → List Text → List Text
unfolding is_applied
pending [] applied = []
pending (x ∷ xs) applied =
    let rest = pending xs applied in if is_applied x applied then rest else x ∷ rest

-- The order of code units, by which `sort` goes.
unfoldable pub text_leb : Text → Text → Bool
text_leb [] t = true
text_leb (c ∷ s) [] = false
text_leb (c ∷ s) (d ∷ t) = let rest = text_leb s t in if c == d then rest else ltb c d

insert : Text → List Text → List Text
unfolding text_leb
insert x [] = x ∷ []
insert x (y ∷ ys) = let rest = insert x ys in if text_leb x y then x ∷ y ∷ ys else y ∷ rest

unfoldable pub sort : List Text → List Text
unfolding insert
sort [] = []
sort (x ∷ xs) = insert x (sort xs)

-- `list`
unfoldable pub list : List Text → List Text → List Text
unfolding list_available pending sort
list files applied = sort (pending (list_available files) applied)

-- `limit && index >= limit`, no limit being 0.
abbrev pub limited : ℕ → List Text → List Text
limited zero names = names
limited (suc n) names = take (suc n) names

abbrev reversed_onto : List Text → List Text → List Text
reversed_onto acc [] = acc
reversed_onto acc (x ∷ xs) = reversed_onto (x ∷ acc) xs

-- The first record with a name, deleted.
unfoldable pub delete_record : Text → List Text → List Text
unfolding text_eq
delete_record x [] = []
delete_record x (y ∷ ys) = let rest = delete_record x ys in if text_eq y x then ys else y ∷ rest

-- What the promise of a run gives: the names, or `none` for a rejection; and the database.
abbrev pub Run : Type 0 → Type 0
Run D = Option (List Text) × Database D

abbrev pub with_name : {D : Type 0} → Text → Run D → Run D
with_name x (none, db) = (none, db)
with_name x (some xs, db) = (some (x ∷ xs), db)

module _ {D : Type 0} (act : Text → D → D × Bool) where
  -- `applyMigration` for one name after the other: it is recorded once it is fulfilled.
  unfoldable pub apply_all : List Text → Database D → Run D
  apply_all [] db = (some [], db)
  apply_all (x ∷ xs) db =
      let (d, fulfilled) = act x db.content in
      elim fulfilled [
        | false ↦ (none, record db { content = d })
        | true ↦
            with_name x (apply_all xs (record { content = d; applied = db.applied ++ (x ∷ []) }))
      ]

  -- `revertMigration` for one name after the other.
  unfoldable pub revert_all : List Text → Database D → Run D
  unfolding delete_record
  revert_all [] db = (some [], db)
  revert_all (x ∷ xs) db =
      let (d, fulfilled) = act x db.content in
      elim fulfilled [
        | false ↦ (none, record db { content = d })
        | true ↦
            with_name x
              (revert_all xs (record { content = d; applied = delete_record x db.applied }))
      ]

  -- `up`
  unfoldable pub up : List Text → ℕ → Database D → Run D
  unfolding list apply_all
  up files limit db = apply_all (limited limit (list files db.applied)) db

  -- `down`
  unfoldable pub down : ℕ → Database D → Run D
  unfolding sort revert_all
  down limit db = revert_all (limited limit (reversed_onto [] (sort db.applied))) db
