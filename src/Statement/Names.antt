-- ===== src/Statement/Names.antt =====
-- The names of the parameters that lib/db/statement.js makes: where the index in a name can be
-- told from the key, and where it cannot.
use orientjs.Prelude.{
  ℕ, ◌+◌, ◌*◌, ◌<◌, ◌≡◌, refl, sym, ap, ◌∙◌, inl, inr, Bool, true, false, ◌&&◌, [], ◌∷◌, ◌++◌,
  if◌then◌else◌, Bool-cases, ◌/◌, ◌%◌, arith,
}
use mathlib.Core.List.{append_assoc}
use orientjs.Text.{Text, codes, is_digit, IsDigits}
use orientjs.Text.Decimal.{
  print_nat, print_nat_one, print_nat_step, print_nat-IsDigits, digits_value,
  digits_value-print_nat,
}
use orientjs.Statement.Params.{is_alphanumeric, paramify, param_name}

-- The digits at the end of a text.
unfoldable all_digits : Text → Bool
all_digits [] = true
all_digits (c ∷ t) = is_digit c && all_digits t

unfoldable tail_digits : Text → Text
unfolding all_digits
tail_digits [] = []
tail_digits (c ∷ t) = let rest = tail_digits t in if all_digits (c ∷ t) then c ∷ t else rest

abbrev last_or : ℕ → Text → ℕ
last_or c [] = c
last_or c (d ∷ t) = last_or d t

-- What the name has of a key does not end in a digit.
abbrev pub HasNoNumber : Text → Type 0
HasNoNumber k = is_digit (last_or b'm' (paramify k)) ≡ false

all_digits_of : (ds : Text) → IsDigits ds → all_digits ds ≡ true
unfolding all_digits
all_digits_of [] h = refl
all_digits_of (c ∷ ds) (h, hs) = rw (h, all_digits_of ds hs)

tail_digits_whole : (ds : Text) → IsDigits ds → tail_digits ds ≡ ds
unfolding tail_digits
tail_digits_whole [] h = refl
tail_digits_whole (c ∷ ds) h = rw (all_digits_of (c ∷ ds) h)

all_digits_none :
    (c : ℕ) (t ds : Text) → is_digit (last_or c t) ≡ false → all_digits ((c ∷ t) ++ ds) ≡ false
unfolding all_digits
all_digits_none c [] ds h = rw h
all_digits_none c (d ∷ t) ds h = elim (Bool-cases (is_digit c)) [
  | inl e ↦ rw e (all_digits_none d t ds h)
  | inr e ↦ rw e
]

tail_digits-append :
    (c : ℕ) (t ds : Text)
    → is_digit (last_or c t) ≡ false
    → IsDigits ds
    → tail_digits ((c ∷ t) ++ ds) ≡ ds
unfolding tail_digits
tail_digits-append c [] ds h d = rw (all_digits_none c [] ds h) (tail_digits_whole ds d)
tail_digits-append c (x ∷ t) ds h d =
    rw (all_digits_none c (x ∷ t) ds h) (tail_digits-append x t ds h d)

-- The index of a name is found again.
tail_digits-param_name :
    (k : Text) (n : ℕ) → HasNoNumber k → tail_digits (param_name k n) ≡ print_nat n
unfolding param_name
tail_digits-param_name k n h =
    tail_digits-append b'p' (b'a' ∷ b'r' ∷ b'a' ∷ b'm' ∷ paramify k) (print_nat n) h
      (print_nat-IsDigits n)

pub param_name_injective :
    (k l : Text) (m n : ℕ) → HasNoNumber k → HasNoNumber l → param_name k m ≡ param_name l n → m ≡ n
param_name_injective k l m n hk hl e =
    let same : print_nat m ≡ print_nat n =
      sym (tail_digits-param_name k m hk) ∙ ap tail_digits e ∙ tail_digits-param_name l n hl in
    sym (digits_value-print_nat m) ∙ ap (digits_value 0) same ∙ digits_value-print_nat n

paramify-append : (s t : Text) → paramify (s ++ t) ≡ paramify s ++ paramify t
unfolding paramify
paramify-append [] t = refl
paramify-append (c ∷ s) t = elim (Bool-cases (is_alphanumeric c)) [
  | inl e ↦ rw e (ap (◌∷◌ c) (paramify-append s t))
  | inr e ↦ rw e (paramify-append s t)
]

paramify_digit : (d : ℕ) → d < 10 → paramify ((b'0' + d) ∷ []) ≡ (b'0' + d) ∷ []
unfolding paramify
paramify_digit d h = ground arith

print_nat_two :
    (d n : ℕ) → 0 < d → d < 10 → n < 10 → print_nat (10 * d + n) ≡ (b'0' + d) ∷ (b'0' + n) ∷ []
print_nat_two d n p h l =
    let tens : (10 * d + n) / 10 ≡ d = omega arith in
    let ones : (10 * d + n) % 10 ≡ n = omega arith in
    print_nat_step (10 * d + n) (omega arith) ∙ rw (tens, ones, print_nat_one d h)

-- A key with a digit d from 1 to 9 at its end and the index n below 10 give the same parameter
-- name as the key without the digit and the index 10 d + n.
pub param_name_collision :
    (k : Text) (d n : ℕ)
    → 0 < d
    → d < 10
    → n < 10
    → param_name (k ++ ((b'0' + d) ∷ [])) n ≡ param_name k (10 * d + n)
unfolding param_name
param_name_collision k d n p h l =
    ap (λ t. codes "param" ++ t)
      (ap (λ t. t ++ print_nat n) (paramify-append k ((b'0' + d) ∷ []))
        ∙ append_assoc (paramify k) (paramify ((b'0' + d) ∷ [])) (print_nat n)
        ∙ ap (λ t. paramify k ++ t)
            (ap (λ t. t ++ print_nat n) (paramify_digit d h)
              ∙ ap (◌∷◌ (b'0' + d)) (print_nat_one n l)
              ∙ sym (print_nat_two d n p h l)))
