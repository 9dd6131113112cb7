-- ===== src/Utils/Escape.antt =====
-- `escape` of lib/utils.js.
use orientjs.Text.{Text}
use mathlib.Core.List.{append_assoc}
use orientjs.Prelude.{
  Option, none, some, ◌||◌, ℕ, ◌≡◌, refl, [], ◌∷◌, ◌++◌, ◌==◌, if◌then◌else◌, ap, arith, inl, inr,
  Bool-cases,
}
use orientjs.Utils.Quoting.{Body, nil, escaped, single}

-- What `escape` puts for one character.
unfoldable pub escape_char : ℕ → Text
escape_char c =
    if c == b'\r'
    then b'\\' ∷ b'r' ∷ []
    else if c == b'\n'
    then b'\\' ∷ b'n' ∷ []
    else if c == b'"'
    then b'\\' ∷ b'"' ∷ []
    else if c == b'\\'
    then b'\\' ∷ b'\\' ∷ []
    else c ∷ []

escape_char-Body : (c : ℕ) {t : Text} → Body b'"' t → Body b'"' (escape_char c ++ t)
unfolding escape_char
escape_char-Body c b = elim (Bool-cases (c == b'\r')) [
  | inl e ↦ rw e (escaped b'r' b)
  | inr e ↦ rw e (elim (Bool-cases (c == b'\n')) [
    | inl e' ↦ rw e' (escaped b'n' b)
    | inr e' ↦ rw e' (elim (Bool-cases (c == b'"')) [
      | inl q ↦ rw q (escaped b'"' b)
      | inr q ↦ rw q (elim (Bool-cases (c == b'\\')) [
        | inl k ↦ rw k (escaped b'\\' b)
        | inr k ↦ rw k (single c q k b)
      ])
    ])
  ])
]

-- The characters are joined in order.
unfoldable pub escape : Text → Text
unfolding escape_char
escape [] = []
escape (c ∷ t) = escape_char c ++ escape t

-- The character that a backslash and `c` stand for.
abbrev unescape_char : ℕ → ℕ
unescape_char c = if c == b'r' then b'\r' else if c == b'n' then b'\n' else c

abbrev with_char : ℕ → Option (Text × Text) → Option (Text × Text)
with_char c none = none
with_char c (some (t, rest)) = some (c ∷ t, rest)

-- An independent reader of a double-quoted literal behind its first quote: the text that it denotes
-- and what stands behind it, or `none` where it is not closed on its line.
unfoldable pub read_literal : Text → Option (Text × Text)
read_literal [] = none
read_literal (c ∷ []) = if c == b'"' then some ([], []) else none
read_literal (c ∷ d ∷ t) =
    let pair = with_char (unescape_char d) (read_literal t) in
    let single = with_char c (read_literal (d ∷ t)) in
    if c == b'"'
    then some ([], d ∷ t)
    else if c == b'\r' || c == b'\n'
    then none
    else if c == b'\\'
    then pair
    else single

read_literal-escape_char :
    (c : ℕ) (t : Text) → read_literal (escape_char c ++ t) ≡ with_char c (read_literal t)
unfolding escape_char read_literal
read_literal-escape_char c [] = ground arith
read_literal-escape_char c (d ∷ t) = ground arith

read_literal-quote : (rest : Text) → read_literal (b'"' ∷ rest) ≡ some ([], rest)
unfolding read_literal
read_literal-quote [] = refl
read_literal-quote (c ∷ t) = refl

-- What `escape` gives for any text, put between double quotes, is read back as that text by an
-- independent reader of literals, which ends a literal at the first quote without a backslash and
-- takes no literal with a bare CR or LF in it; the reader stops at the closing quote, whatever
-- stands behind it.
pub read_literal-escape :
    (t rest : Text) → read_literal (escape t ++ (b'"' ∷ rest)) ≡ some (t, rest)
unfolding escape
read_literal-escape [] rest = read_literal-quote rest
read_literal-escape (c ∷ t) rest =
    rw (append_assoc (escape_char c) (escape t) (b'"' ∷ rest), read_literal-escape_char)
      (ap (with_char c) (read_literal-escape t rest))

-- No quote ends the literal early: the escaped text is the inside of one double-quoted literal.
pub escape-Body : (t : Text) → Body b'"' (escape t)
unfolding escape
escape-Body [] = nil
escape-Body (c ∷ t) = escape_char-Body c (escape-Body t)
