-- ===== src/Utils/Parens.antt =====
-- `requiresParens` of lib/utils.js.
use mathlib.Core.List.{append_assoc}
use orientjs.Text.{Text}
use orientjs.Prelude.{
  ℕ, zero, suc, ◌≡◌, refl, ◌∙◌, Bool, true, false, ◌&&◌, ◌||◌, Option, none, some, [], ◌∷◌, ◌++◌,
  arith, leb, ◌==◌, if◌then◌else◌, ℤ, pos, negsuc,
}
use orientjs.Utils.Quoting
use orientjs.Utils.Quoting.{Body, is_quote}

-- What `trim` removes.
abbrev is_space : ℕ → Bool
is_space c =
    (leb 9 c && leb c 13)
    || c == 32
    || c == 0xa0
    || c == 0x1680
    || (leb 0x2000 c && leb c 0x200a)
    || c == 0x2028
    || c == 0x2029
    || c == 0x202f
    || c == 0x205f
    || c == 0x3000
    || c == 0xfeff

unfoldable pub trim_start : Text → Text
trim_start [] = []
trim_start (c ∷ t) = let rest = trim_start t in if is_space c then rest else c ∷ t

-- A character in front of what is left of the text behind it.
abbrev keep_unless_blank : ℕ → Text → Text
keep_unless_blank c [] = if is_space c then [] else c ∷ []
keep_unless_blank c (d ∷ t) = c ∷ d ∷ t

unfoldable pub trim_end : Text → Text
trim_end [] = []
trim_end (c ∷ t) = keep_unless_blank c (trim_end t)

unfoldable pub trim : Text → Text
unfolding trim_start trim_end
trim t = trim_end (trim_start t)

abbrev pub is_blank : ℕ → Bool
is_blank c = c == b'\t' || c == b'\r' || c == b'\n' || c == b' '

abbrev is_zero : ℤ → Bool
is_zero (pos zero) = true
is_zero _ = false

abbrev up : ℤ → ℤ
up (pos n) = pos (suc n)
up (negsuc zero) = pos zero
up (negsuc (suc n)) = negsuc n

abbrev down : ℤ → ℤ
down (pos zero) = negsuc zero
down (pos (suc n)) = pos n
down (negsuc n) = negsuc (suc n)

-- `inParens` and `inQuotes` behind a character outside of quotes.
abbrev next_depth : ℤ → ℕ → ℤ
next_depth n c = if c == b'(' then up n else if c == b')' then down n else n

abbrev next_quote : ℕ → Option ℕ
next_quote c = if is_quote c then some c else none

-- The loop over the text, with the depth `inParens`, which falls below zero at a closing
-- parenthesis too many, and the quote `inQuotes`, `none` outside of literals.
unfoldable pub scan : ℤ → Option ℕ → Text → Bool
scan n q [] = false
scan n none (c ∷ t) = (is_blank c && is_zero n) || scan (next_depth n c) (next_quote c) t
scan n (some q) (c ∷ []) = false
scan n (some q) (c ∷ d ∷ t) =
    let skip = scan n (some q) t in
    let next = scan n (if c == q then none else some q) (d ∷ t) in if c == b'\\' then skip else next

-- `none` stands for an input that is not a string.
unfoldable pub requires_parens : Option Text → Bool
unfolding scan trim
requires_parens none = false
requires_parens (some input) = scan (pos 0) none (trim input)

-- A text whose parentheses and literals close one another.
pub data Balanced : Text → Type 0 where
  nil : Balanced []
  char :
      {t : Text} (c : ℕ)
      → is_quote c ≡ false
      → (c == b'(') ≡ false
      → (c == b')') ≡ false
      → Balanced t
      → Balanced (c ∷ t)
  literal :
      {body t u : Text} (q : ℕ)
      → is_quote q ≡ true
      → Body q body
      → u ≡ body ++ q ∷ t
      → Balanced t
      → Balanced (q ∷ u)
  group :
      {inner t u : Text} → Balanced inner → u ≡ inner ++ b')' ∷ t → Balanced t → Balanced (b'(' ∷ u)

scan-close :
    (n : ℤ) (q : ℕ) (r : Text) → is_quote q ≡ true → scan n (some q) (q ∷ r) ≡ scan n none r
unfolding scan
scan-close n q [] h = refl
scan-close n q (d ∷ r) h = ground arith

scan-single :
    (n : ℤ) (q c : ℕ) (u r : Text)
    → (c == q) ≡ false
    → (c == b'\\') ≡ false
    → scan n (some q) (c ∷ (u ++ q ∷ r)) ≡ scan n (some q) (u ++ q ∷ r)
unfolding scan
scan-single n q c [] r h k = rw (k, h)
scan-single n q c (d ∷ u) r h k = rw (k, h)

-- A literal is skipped.
scan-Body :
    (n : ℤ) (q : ℕ) {body : Text} (r : Text)
    → is_quote q ≡ true
    → Quoting.Body q body
    → scan n (some q) (body ++ q ∷ r) ≡ scan n none r
unfolding scan
scan-Body n q r h Quoting.nil = scan-close n q r h
scan-Body n q r h (Quoting.escaped c b) = scan-Body n q r h b
scan-Body n q r h (Quoting.single {t = u} c e k b) = scan-single n q c u r e k ∙ scan-Body n q r h b

scan-char :
    (n : ℤ) (c : ℕ) (t : Text)
    → is_quote c ≡ false
    → (c == b'(') ≡ false
    → (c == b')') ≡ false
    → scan n none (c ∷ t) ≡ ((is_blank c && is_zero n) || scan n none t)
unfolding scan
scan-char n c t h o k = rw (h, o, k)

scan-literal :
    (n : ℤ) (q : ℕ) {body : Text} (r : Text)
    → is_quote q ≡ true
    → Quoting.Body q body
    → scan n none (q ∷ (body ++ q ∷ r)) ≡ scan n none r
scan-literal n q {body} r h b = open_quote n q (body ++ q ∷ r) h ∙ scan-Body n q r h b
  where
    open_quote :
        (n : ℤ) (q : ℕ) (t : Text) → is_quote q ≡ true → scan n none (q ∷ t) ≡ scan n (some q) t
    open_quote n q t h = unfold scan in ground arith

scan_open : (n : ℕ) (t : Text) → scan (pos n) none (b'(' ∷ t) ≡ scan (pos (suc n)) none t
unfolding scan
scan_open n t = refl

scan_shut : (n : ℕ) (t : Text) → scan (pos (suc n)) none (b')' ∷ t) ≡ scan (pos n) none t
unfolding scan
scan_shut n t = refl

-- Inside of parentheses a balanced text is passed with no effect.
scan-Balanced :
    (n : ℕ) {t : Text} (r : Text)
    → Balanced t
    → scan (pos (suc n)) none (t ++ r) ≡ scan (pos (suc n)) none r
scan-Balanced n r nil = refl
scan-Balanced n r (char {t = t} c h o k b) =
    scan-char (pos (suc n)) c (t ++ r) h o k ∙ blank (is_blank c) ∙ scan-Balanced n r b
  where
    blank : (x : Bool) {y : Bool} → ((x && false) || y) ≡ y
    blank true = refl
    blank false = refl
scan-Balanced n r (literal {body = body} {t = t} q h k e b) =
    rw (e, append_assoc body (q ∷ t) r)
      (scan-literal (pos (suc n)) q (t ++ r) h k ∙ scan-Balanced n r b)
scan-Balanced n r (group {inner = i} {t = t} bi e b) =
    rw (e, append_assoc i (b')' ∷ t) r)
      (scan_open (suc n) (i ++ (b')' ∷ (t ++ r)))
        ∙ scan-Balanced (suc n) (b')' ∷ (t ++ r)) bi
        ∙ scan_shut (suc n) (t ++ r)
        ∙ scan-Balanced n r b)

-- Outside of parentheses too it is passed, if what follows calls for parentheses anyway.
scan_zero-Balanced :
    {t : Text} (r : Text)
    → Balanced t
    → scan (pos 0) none r ≡ true
    → scan (pos 0) none (t ++ r) ≡ true
scan_zero-Balanced r nil h = h
scan_zero-Balanced r (char {t = t} c i o k b) h =
    scan-char (pos 0) c (t ++ r) i o k ∙ rw (scan_zero-Balanced r b h) (either (is_blank c))
  where
    either : (x : Bool) → ((x && true) || true) ≡ true
    either true = refl
    either false = refl
scan_zero-Balanced r (literal {body = body} {t = t} q i k e b) h =
    rw (e, append_assoc body (q ∷ t) r)
      (scan-literal (pos 0) q (t ++ r) i k ∙ scan_zero-Balanced r b h)
scan_zero-Balanced r (group {inner = i} {t = t} bi e b) h =
    rw (e, append_assoc i (b')' ∷ t) r)
      (scan_open 0 (i ++ (b')' ∷ (t ++ r)))
        ∙ scan-Balanced 0 (b')' ∷ (t ++ r)) bi
        ∙ scan_shut 0 (t ++ r)
        ∙ scan_zero-Balanced r b h)

trim_end-snoc : (t : Text) (d : ℕ) → is_space d ≡ false → trim_end (t ++ d ∷ []) ≡ t ++ d ∷ []
unfolding trim_end
trim_end-snoc [] d h = rw h
trim_end-snoc (c ∷ []) d h = rw h
trim_end-snoc (c ∷ e ∷ t) d h = rw (trim_end-snoc (e ∷ t) d h)

trim_wrapped : (t : Text) → trim (b'(' ∷ (t ++ b')' ∷ [])) ≡ b'(' ∷ (t ++ b')' ∷ [])
unfolding trim trim_start
trim_wrapped t = trim_end-snoc (b'(' ∷ t) b')' refl

-- A balanced text that is put in parentheses needs no further ones.
pub requires_parens_wrapped :
    {t : Text} → Balanced t → requires_parens (some (b'(' ∷ (t ++ b')' ∷ []))) ≡ false
unfolding requires_parens
requires_parens_wrapped {t} b =
    rw (trim_wrapped t)
      (scan_open 0 (t ++ b')' ∷ []) ∙ scan-Balanced 0 (b')' ∷ []) b ∙ unfold scan in refl)

-- A trimmed text with a blank behind a balanced part needs parentheses.
pub requires_parens_blank :
    {t : Text} (c : ℕ) (rest : Text)
    → Balanced t
    → is_blank c ≡ true
    → trim (t ++ c ∷ rest) ≡ t ++ c ∷ rest
    → requires_parens (some (t ++ c ∷ rest)) ≡ true
unfolding requires_parens
requires_parens_blank c rest b h e = rw e (scan_zero-Balanced (c ∷ rest) b (unfold scan in rw h))
