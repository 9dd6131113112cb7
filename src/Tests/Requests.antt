-- ===== src/Tests/Requests.antt =====
-- Concrete requests.
use orientjs.Prelude.{◌≡◌, none, some, [], ◌∷◌, ◌++◌, arith, ℤ, pos, negsuc}
use orientjs.Text.{codes}
use orientjs.Buffer.{Bytes}
use orientjs.Operation.Write.{buffer}
use orientjs.Request.{Item, commit_body}
use orientjs.Request.Entries.{IsSendable}
use orientjs.Request.Commit.{get_body, entries, fuel, get_body-commit_body}

-- The words of a number of at most 31 bits.
abbrev words : ℤ → ℤ × ℤ
words (pos n) = (pos 0, pos n)
words (negsuc n) = (negsuc 0, negsuc n)

abbrev new_item : Item
new_item = record {
  cluster = negsuc 0;
  position = negsuc 1;
  type = none;
  version = none;
  content = codes "a:1";
}

abbrev old_item : Item
old_item = record {
  cluster = pos 12;
  position = pos 3;
  type = some (codes "b");
  version = some (pos 7);
  content = [];
}

items_fit : IsSendable words new_item × IsSendable words old_item
items_fit = (
  (omega arith, omega arith, omega arith, omega arith, omega arith),
  (omega arith, omega arith, omega arith, omega arith, omega arith),
)

get_body-commit_body_example :
    (x : Bytes) × (buffer
        (commit_body words (negsuc 4) 1 (new_item ∷ []) (old_item ∷ []) (old_item ∷ []))
      ≡ some x)
    × (get_body (fuel words (new_item ∷ []) (old_item ∷ []) (old_item ∷ [])) (x ++ (9 ∷ []))
        ≡ some (
          (negsuc 4, 1, entries words (new_item ∷ []) (old_item ∷ []) (old_item ∷ []), []),
          9 ∷ [],
        ))
get_body-commit_body_example =
    get_body-commit_body words (negsuc 4) 1 (new_item ∷ []) (old_item ∷ []) (old_item ∷ []) (9 ∷ [])
      (omega arith) (omega arith) (items_fit.0, tt) (items_fit.1, tt) (items_fit.1, tt)
