-- ===== src/Text.antt =====
-- JavaScript strings as lists of their code units, and the decimal numerals in them.
pub mod Decimal
use Prim.Native.Char.{code}
use Prim.Native.String.{String}
use orientjs.Prelude.{
  ℕ, ◌≡◌, refl, ◌↔◌, Bool, true, false, ◌&&◌, List, [], ◌∷◌, ◌++◌, arith, ◌==◌, leb, All,
  if◌then◌else◌,
}

abbrev pub Text : Type 0
Text = List ℕ

-- The code units of a literal.
abbrev pub codes : String → Text
codes String.[] = []
codes (String.◌∷◌ c s) = code c ∷ codes s

-- `===` on strings.
unfoldable pub text_eq : Text → Text → Bool
text_eq [] [] = true
text_eq (a ∷ s) (b ∷ t) = a == b && text_eq s t
text_eq _ _ = false

pub text_eq_iff : (s t : Text) → (text_eq s t ≡ true) ↔ (s ≡ t)
unfolding text_eq
text_eq_iff (a ∷ s) (b ∷ t) = ground (arith, text_eq_iff s t)
text_eq_iff _ _ = ground arith

-- `\d` in a regular expression.
abbrev pub is_digit : ℕ → Bool
is_digit c = leb b'0' c && leb c b'9'

abbrev pub IsDigits : Text → Type 0
IsDigits t = All (λ c. is_digit c ≡ true) t

-- The longest prefix of digits, and what follows it.
unfoldable pub span_digits : Text → Text × Text
span_digits [] = ([], [])
span_digits (c ∷ t) =
    let (ds, rest) = span_digits t in if is_digit c then (c ∷ ds, rest) else ([], c ∷ t)

-- The text does not go on with a digit.
abbrev pub StopsDigits : Text → Type 0
StopsDigits [] = Unit
StopsDigits (c ∷ t) = is_digit c ≡ false

pub span_digits_stop : (rest : Text) → StopsDigits rest → span_digits rest ≡ ([], rest)
unfolding span_digits
span_digits_stop [] h = refl
span_digits_stop (c ∷ rest) h = rw h

pub span_digits-append :
    (ds rest : Text) → IsDigits ds → StopsDigits rest → span_digits (ds ++ rest) ≡ (ds, rest)
unfolding span_digits
span_digits-append [] rest d h = span_digits_stop rest h
span_digits-append (c ∷ ds) rest d h = rw (d.0, span_digits-append ds rest d.1 h)

-- A span loses nothing, and its first part has digits only.
pub span_digits_sound :
    (t : Text) → (t ≡ (span_digits t).0 ++ (span_digits t).1) × IsDigits (span_digits t).0
unfolding span_digits
span_digits_sound [] = (refl, tt)
span_digits_sound (c ∷ t) = ground (arith, span_digits_sound t)
