-- ===== src/Tests/Records.antt =====
-- Concrete runs of the record ids and of the bags.
use orientjs.Prelude.{ℕ, ◌≡◌, ◌≢◌, ◌↔◌, refl, [], ◌∷◌, some, arith, map, ℤ, pos, negsuc}
use orientjs.Text.{codes}
use orientjs.RecordId.{RecordId, of_fields, parse, text, rid, one, to_string, input_is_temporary}
use orientjs.RecordId.Grammar.{Spells, parse_text_iff, parse-to_string}
use orientjs.RecordId.Temporary.{temporary_disagree}
use orientjs.Bag as Bag
use orientjs.Bag.Iteration.{Entry, bag_bytes, entry_rid, all_entries}

abbrev five_three : RecordId
five_three = of_fields (some (pos 5)) (some (pos 3))

parse_text_iff_example :
    (parse (text (codes "#5:3")) ≡ one five_three) ↔ Spells (codes "#5:3") five_three
parse_text_iff_example = parse_text_iff (codes "#5:3") five_three

parse-to_string_example :
    parse (text (to_string (of_fields (some (negsuc 0)) (some (pos 3)))))
    ≡ one (of_fields (some (negsuc 0)) (some (pos 3)))
parse-to_string_example = parse-to_string (negsuc 0) (pos 3) (omega arith) (omega arith)

abbrev first_temporary : RecordId
first_temporary = of_fields (some (pos 5)) (some (negsuc 0))

temporary_disagree_example :
    (input_is_temporary (text (to_string first_temporary))
      ≢ input_is_temporary (rid first_temporary))
    ↔ (negsuc 0 ≡ negsuc 0)
temporary_disagree_example = temporary_disagree (pos 5) (negsuc 0) (omega arith) (omega arith)

abbrev first_entry : Entry
first_entry = record {
  c0 = 0;
  c1 = 12;
  h0 = 0;
  h1 = 0;
  h2 = 0;
  h3 = 0;
  l0 = 0;
  l1 = 0;
  l2 = 1;
  l3 = 2;
}

abbrev second_entry : Entry
second_entry = record {
  c0 = 255;
  c1 = 255;
  h0 = 0;
  h1 = 0;
  h2 = 0;
  h3 = 0;
  l0 = 0;
  l1 = 0;
  l2 = 0;
  l3 = 9;
}

-- Words of a number below 2 ^ 32.
abbrev low_word : ℕ → ℤ → ℤ
low_word low high = pos low

all_entries_example :
    (t : Bag.Bag ℕ) × (Bag.all low_word 3
        (Bag.new_bag (some (bag_bytes (first_entry ∷ second_entry ∷ []) 0 0 0 2)))
      ≡ some (t, map (λ e. Bag.rid (entry_rid low_word e)) (first_entry ∷ second_entry ∷ [])))
all_entries_example =
    all_entries low_word (first_entry ∷ second_entry ∷ []) 0 0 0 2 3 refl (omega arith)
