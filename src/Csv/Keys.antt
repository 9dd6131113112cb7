-- ===== src/Csv/Keys.antt =====
-- Records as rows of fields with distinct keys: setting fields one after the other.
use mathlib.Core.Option.{some-ne-none}
use orientjs.Prelude.{
  ◌≡◌, refl, ap, ◌∙◌, List, [], ◌∷◌, ◌==◌, false, none, arith, All, Bool-cases, inl, inr,
}
use orientjs.Text.{Text, codes, text_eq, text_eq_iff}
use orientjs.Csv.{Value, string, Fields, end, field, find, set_field}
use orientjs.Csv.Deserializer.{new_record}

-- A key that needs no quotes.
abbrev pub IsKey : Text → Type 0
IsKey k = All (λ c. ((c == b':') ≡ false) × ((c == b'@') ≡ false) × ((c == b'"') ≡ false)) k

-- A document of strings.
abbrev pub string_fields : List (Text × Text) → Fields
string_fields [] = end
string_fields (p ∷ ps) = field p.0 (string p.1) (string_fields ps)

abbrev pub HasKeys : List (Text × Text) → Type 0
HasKeys ps = All (λ p. IsKey p.0) ps

-- The fields set in a record, one after the other.
unfoldable pub with_strings : Fields → List (Text × Text) → Fields
unfolding set_field
with_strings m [] = m
with_strings m (p ∷ ps) = with_strings (set_field p.0 (string p.1) m) ps

pub text_eq-class : (k : Text) → IsKey k → text_eq k (codes "@class") ≡ false
unfolding text_eq
text_eq-class [] h = refl
text_eq-class (c ∷ k) h = rw ((h.0).1)

-- No key is the one of the class.
find-set_field :
    (j k : Text) (v : Value) (m : Fields)
    → text_eq k j ≡ false
    → find j (set_field k v m) ≡ find j m
unfolding find set_field
find-set_field j k v end h = rw h
find-set_field j k v (field i w m) h = elim (Bool-cases (text_eq i k)) [
  | inl e ↦
      let other : text_eq i j ≡ false = ap (λ x. text_eq x j) ((text_eq_iff i k).0 e) ∙ h in
      rw (e, find) (rw other)
  | inr e ↦ rw (e, find) (rw (find-set_field j k v m h))
]

pub find-with_strings :
    (m : Fields) (ps : List (Text × Text))
    → HasKeys ps
    → find (codes "@class") m ≡ none
    → find (codes "@class") (with_strings m ps) ≡ none
unfolding with_strings
find-with_strings m [] h n = n
find-with_strings m (p ∷ ps) h n =
    find-with_strings (set_field p.0 (string p.1) m) ps h.1
      (find-set_field (codes "@class") p.0 (string p.1) m (text_eq-class p.0 h.0) ∙ n)

-- No two fields have one key.
abbrev pub HasDistinctKeys : List (Text × Text) → Type 0
HasDistinctKeys [] = Unit
HasDistinctKeys (p ∷ ps) = All (λ q. text_eq p.0 q.0 ≡ false) ps × HasDistinctKeys ps

-- The fields of a record are missing from another.
abbrev pub AreMissing : Fields → List (Text × Text) → Type 0
AreMissing m ps = All (λ q. find q.0 m ≡ none) ps

abbrev pub joined : Fields → Fields → Fields
joined end fs = fs
joined (field k v m) fs = field k v (joined m fs)

joined-set_field :
    (k : Text) (v : Value) (m fs : Fields)
    → find k m ≡ none
    → joined (set_field k v m) fs ≡ joined m (field k v fs)
unfolding find set_field
joined-set_field k v end fs h = refl
joined-set_field k v (field j w m) fs h = elim (Bool-cases (text_eq j k)) [
  | inl e ↦ absurd (some-ne-none w (rw (e, find) at h))
  | inr e ↦
      let rest : find k m ≡ none = rw (e, find) at h in
      rw (e, set_field) (ap (field j w) (joined-set_field k v m fs rest))
]

set_field-AreMissing :
    (k : Text) (v : Value) (m : Fields) (ps : List (Text × Text))
    → All (λ q. text_eq k q.0 ≡ false) ps
    → AreMissing m ps
    → AreMissing (set_field k v m) ps
set_field-AreMissing k v m [] d h = tt
set_field-AreMissing k v m (q ∷ ps) d h =
    (find-set_field q.0 k v m d.0 ∙ h.0, set_field-AreMissing k v m ps d.1 h.1)

pub with_strings-joined :
    (m : Fields) (ps : List (Text × Text))
    → HasDistinctKeys ps
    → AreMissing m ps
    → with_strings m ps ≡ joined m (string_fields ps)
unfolding with_strings
with_strings-joined end [] d h = refl
with_strings-joined (field k v m) [] d h = ap (field k v) (with_strings-joined m [] tt tt)
with_strings-joined m (p ∷ ps) d h =
    with_strings-joined (set_field p.0 (string p.1) m) ps d.1
      (set_field-AreMissing p.0 (string p.1) m ps d.0 h.1)
    ∙ joined-set_field p.0 (string p.1) m (string_fields ps) h.0

find-new_record : (k : Text) → IsKey k → find k new_record ≡ none
unfolding find text_eq
find-new_record [] h = refl
find-new_record (c ∷ k) h = ground (arith, (h.0).1)

pub new_record-AreMissing : (ps : List (Text × Text)) → HasKeys ps → AreMissing new_record ps
new_record-AreMissing [] h = tt
new_record-AreMissing (p ∷ ps) h = (find-new_record p.0 h.0, new_record-AreMissing ps h.1)
