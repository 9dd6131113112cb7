-- ===== src/RecordId/Equality.antt =====
-- RecordID.prototype.equals, over the kinds of input that it compares with.
use orientjs.Text.{text_eq_iff, Text}
use orientjs.Text.Decimal.{IsSafe}
use orientjs.Prelude.{
  ◌≡◌, ◌↔◌, true, Option, some, ℤ, refl, sym, ap, ◌∙◌, arith, eq_ℤ_iff, Bool-ext,
}
use orientjs.RecordId.Grammar.{parse-to_string}
use orientjs.RecordId.{
  RecordId, one, parse, text, rid, object, doc, to_string, of_fields, equals, parse_fields,
}

abbrev pair : ℤ → ℤ → RecordId
pair c p = of_fields (some c) (some p)

one-injective : {r s : RecordId} → one r ≡ one s → r ≡ s
one-injective e = cc

to_string-injective :
    (a b c p : ℤ)
    → IsSafe a
    → IsSafe b
    → IsSafe c
    → IsSafe p
    → to_string (pair a b) ≡ to_string (pair c p)
    → pair a b ≡ pair c p
to_string-injective a b c p ha hb hc hp e =
    one-injective
      (sym (parse-to_string a b ha hb) ∙ ap (λ t. parse (text t)) e ∙ parse-to_string c p hc hp)

equals-rid_iff : (a b c p : ℤ) → (equals (pair a b) (rid (pair c p)) ≡ true) ↔ (pair a b ≡ pair c p)
unfolding equals
equals-rid_iff a b c p = (
  λ h. ground (arith, eq_ℤ_iff c a, eq_ℤ_iff p b),
  λ e. ground (arith, eq_ℤ_iff c a, eq_ℤ_iff p b),
)

equals-text_iff : (r : RecordId) (t : Text) → (equals r (text t) ≡ true) ↔ (to_string r ≡ t)
unfolding equals
equals-text_iff r t = text_eq_iff (to_string r) t

equals-text :
    (a b c p : ℤ)
    → IsSafe a
    → IsSafe b
    → IsSafe c
    → IsSafe p
    → equals (pair a b) (text (to_string (pair c p))) ≡ equals (pair a b) (rid (pair c p))
equals-text a b c p ha hb hc hp =
    let iff = equals-rid_iff a b c p in
    let texts = equals-text_iff (pair a b) (to_string (pair c p)) in
    Bool-ext _ _ (λ h. iff.1 (to_string-injective a b c p ha hb hc hp (texts.0 h)))
      (λ h. texts.1 (ap to_string (iff.0 h)))

-- For record ids of safe integers every form of the other record id gives one answer: the
-- instance, its text, an object with its two fields, and a document that has its text as its
-- `@rid`, whatever its own fields are; the answer is whether the two record ids are the same.
pub equals_forms :
    (a b c p : ℤ) (f g : Option ℤ)
    → IsSafe a
    → IsSafe b
    → IsSafe c
    → IsSafe p
    → let r = of_fields (some a) (some b) in
      let s = of_fields (some c) (some p) in
      ((equals r (rid s) ≡ true) ↔ (r ≡ s))
      × (equals r (text (to_string s)) ≡ equals r (rid s))
      × (equals r (object (some c) (some p)) ≡ equals r (rid s))
      × (equals r (doc (text (to_string s)) f g) ≡ equals r (rid s))
unfolding equals parse_fields
equals_forms a b c p f g ha hb hc hp =
    let same = equals-text a b c p ha hb hc hp in (equals-rid_iff a b c p, same, refl, same)
