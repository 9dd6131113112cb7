-- ===== src/RecordId/Grammar.antt =====
-- What RecordID.parse reads: the texts of one grammar, and what toString prints.
use orientjs.Prelude.{
  Bool, [], ◌∷◌, ◌++◌, ◌≡◌, ◌≢◌, some, ℤ, refl, sym, ap, arith, ◌∙◌, inl, inr, ℕ, ◌>>=◌, ◌↔◌, true,
  Option-cases, pos, ltb_ℤ,
}
use mathlib.Core.List.{append-nil}
use orientjs.Text.{Text, IsDigits}
use orientjs.Text.Decimal.{
  numeral, to_number, Signed, match_signed, match_signed_sound, match_signed-numeral, print_int,
  IsSafe, match_signed-print_int,
}
use orientjs.RecordId.{
  RecordId, one, parse, text, to_string, match_groups, after_colon, at_end, of_groups, of_fields,
  is_valid, input_is_valid,
}

-- An optional minus sign and one digit or more.
pub record Numeral : Type 0 where
  pub minus : Bool
  pub digits : Text
  pub all_digits : IsDigits digits
  pub not_empty : digits ≢ []

abbrev pub spelling : Numeral → Text
spelling n = numeral n.minus n.digits

abbrev pub value : Numeral → ℤ
value n = to_number n.minus n.digits

-- `#`, a cluster, `:` and a position, and nothing else.
pub record Spells (t : Text) (r : RecordId) : Type 0 where
  pub cluster : Numeral
  pub position : Numeral
  pub spelled : t ≡ b'#' ∷ (spelling cluster ++ (b':' ∷ spelling position))
  pub denotes : r ≡ of_fields (some (value cluster)) (some (value position))

match_groups-numerals :
    (c p : Numeral) (t : Text)
    → t ≡ b'#' ∷ (spelling c ++ (b':' ∷ spelling p))
    → match_groups t
      ≡ some (
        record { minus = c.minus; digits = c.digits; rest = b':' ∷ spelling p },
        record { minus = p.minus; digits = p.digits; rest = [] },
      )
unfolding match_groups after_colon at_end
match_groups-numerals c p t e =
    let first =
      match_signed-numeral c.minus c.digits (b':' ∷ spelling p) c.all_digits c.not_empty refl in
    let second =
      rw append-nil at (match_signed-numeral p.minus p.digits [] p.all_digits p.not_empty tt) in
    rw e (rw (first, match_groups) (rw (second, match_groups)))

Spells-parse : (t : Text) (r : RecordId) → Spells t r → parse (text t) ≡ one r
unfolding parse
Spells-parse t r s =
    rw (match_groups-numerals s.cluster s.position t s.spelled) (ap one (sym s.denotes))

numeral_of : (t : Text) (m : Signed) → match_signed t ≡ some m → Numeral
numeral_of t m h =
    let (_, digits, ne) = match_signed_sound t m h in
    record { minus = m.minus; digits = m.digits; all_digits = digits; not_empty = ne }

groups-Spells :
    (t u : Text) (m n : Signed)
    → match_signed t ≡ some m
    → m.rest ≡ b':' ∷ u
    → match_signed u ≡ some n
    → n.rest ≡ []
    → Spells (b'#' ∷ t) (of_groups (m, n))
unfolding of_groups numeral_of
groups-Spells t u m n hm hc hn he =
    let (first, _, _) = match_signed_sound t m hm in
    let (second, _, _) = match_signed_sound u n hn in
    record {
      cluster = numeral_of t m hm;
      position = numeral_of u n hn;
      spelled = ap (◌∷◌ b'#') (
          first
          ∙ ap (◌++◌ (numeral m.minus m.digits))
              (hc ∙ ap (◌∷◌ b':') (second ∙ rw (he, append-nil))));
      denotes = refl;
    }

groups_cluster :
    (c : ℕ) (t : Text) (m n : Signed)
    → match_groups (c ∷ t) ≡ some (m, n)
    → (c ≡ b'#')
      × (match_signed t ≡ some m)
      × (n.rest ≡ [])
      × ((after_colon m.rest >>= match_signed) ≡ some n)
unfolding match_groups
groups_cluster c t m n h = ground arith

after_colon_sound :
    (r : Text) (n : Signed)
    → (after_colon r >>= match_signed) ≡ some n
    → (u : Text) × (r ≡ b':' ∷ u) × (match_signed u ≡ some n)
unfolding after_colon
after_colon_sound [] n h = cc
after_colon_sound (c ∷ u) n h = (u, ground arith, ground arith)

-- What the match leads to, at any text.
match_groups-Spells :
    (t : Text) (m n : Signed) → match_groups t ≡ some (m, n) → Spells t (of_groups (m, n))
match_groups-Spells [] m n h = unfold match_groups in cc
match_groups-Spells (c ∷ t) m n h =
    let (hash, hm, he, hc) = groups_cluster c t m n h in
    let (u, hu, hn) = after_colon_sound m.rest n hc in rw hash (groups-Spells t u m n hm hu hn he)

parse-Spells : (t : Text) (r : RecordId) → parse (text t) ≡ one r → Spells t r
unfolding parse
parse-Spells t r h = elim (Option-cases (match_groups t)) [
  | inl e ↦ absurd (cc e)
  | inr ((m, n), e) ↦
      let same : of_groups (m, n) ≡ r = cc e in rw same at (match_groups-Spells t m n e)
]

-- RecordID.parse reads exactly the texts `#`, optional minus sign, digits, `:`, optional minus
-- sign, digits, and gives the numbers that these numerals denote.
pub parse_text_iff : (t : Text) (r : RecordId) → (parse (text t) ≡ one r) ↔ Spells t r
parse_text_iff t r = (parse-Spells t r, Spells-parse t r)

-- On a text RecordID.isValid holds exactly where RecordID.parse gives a record id that is valid.
pub input_is_valid_text_iff :
    (t : Text)
    → (input_is_valid (text t) ≡ true)
      ↔ ((r : RecordId) × (parse (text t) ≡ one r) × (is_valid r ≡ true))
unfolding parse input_is_valid is_valid
input_is_valid_text_iff t = elim (Option-cases (match_groups t)) [
  | inl e ↦ rw (e, parse, input_is_valid) (λ h. cc, λ (r, h, v). cc)
  | inr (g, e) ↦ rw (e, parse, input_is_valid) (λ h. (of_groups g, refl, refl), λ _. refl)
]

at_end-nil : (m : Signed) → m.rest ≡ [] → at_end m ≡ some m
unfolding at_end
at_end-nil m h = ground arith

-- The groups that the expression finds in what toString prints.
pub to_string_groups :
    (c p : ℤ)
    → IsSafe c
    → IsSafe p
    → (m n : Signed) × (match_groups (to_string (of_fields (some c) (some p))) ≡ some (m, n))
      × (to_number m.minus m.digits ≡ c)
      × (to_number n.minus n.digits ≡ p)
      × (n.minus ≡ ltb_ℤ p (pos 0))
unfolding to_string match_groups
to_string_groups c p hc hp =
    let (m, em, er, ev, _) = match_signed-print_int (b':' ∷ print_int p) refl c hc in
    let (n, en, fr, fv, fs) = match_signed-print_int [] tt p hp in
    (
      m,
      n,
      rw (em, match_groups)
          (rw (er, match_groups) (rw ((rw append-nil at en), match_groups) (rw (at_end-nil n fr)))),
      ev,
      fv,
      fs,
    )

-- A record id of two safe integers is read back from the text that toString prints for it.
pub parse-to_string :
    (c p : ℤ)
    → IsSafe c
    → IsSafe p
    → parse (text (to_string (of_fields (some c) (some p)))) ≡ one (of_fields (some c) (some p))
unfolding parse of_groups
parse-to_string c p hc hp =
    let (m, n, e, ev, fv, _) = to_string_groups c p hc hp in rw (e, parse) (rw (ev, fv))
