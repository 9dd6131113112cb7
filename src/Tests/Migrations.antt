-- ===== src/Tests/Migrations.antt =====
-- Concrete runs of the migration manager.
use orientjs.Prelude.{
  ℕ, zero, suc, ◌+◌, ◌≡◌, refl, Bool, true, false, none, some, List, [], ◌∷◌, ◌++◌,
}
use orientjs.Text.{Text, codes}
use orientjs.Migration.{Database, list, limited, up}
use orientjs.Migration.Pending.{up-list, up_failed}

abbrev files : List Text
files = codes "m20150102_2_b.js" ∷ codes "readme.md" ∷ codes "m20150101_1_a.ts" ∷ []

abbrev fresh : Database ℕ
fresh = record { content = 0; applied = [] }

-- A migration that counts itself, and one that fails the second time.
abbrev counts : Text → ℕ → ℕ × Bool
counts x n = (n + 1, true)

abbrev fails_second : Text → ℕ → ℕ × Bool
fails_second x zero = (1, true)
fails_second x (suc n) = (n + 2, false)

abbrev both : List Text
both = codes "m20150101_1_a" ∷ codes "m20150102_2_b" ∷ []

both_applied : (up counts files 0 fresh).0 ≡ some both
unfolding up
both_applied = refl

second_failed : (up fails_second files 0 fresh).0 ≡ none
unfolding up
second_failed = refl

up-list_example :
    (both ≡ list files [])
    × ((up counts files 0 fresh).1.applied ≡ [] ++ both)
    × (list files (up counts files 0 fresh).1.applied ≡ [])
up-list_example = up-list counts files both fresh both_applied

up_failed_example :
    (done : List Text) × (x : Text) × (rest : List Text) × (limited 0 (list files [])
      ≡ done ++ (x ∷ rest))
    × ((up fails_second files 0 fresh).1.applied ≡ [] ++ done)
up_failed_example = up_failed fails_second files 0 fresh second_failed
