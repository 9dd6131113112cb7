-- ===== src/Text/Decimal.antt =====
-- Decimal numerals: what `+digits` reads and what `'' + number` prints, for integers.
use orientjs.Prelude.{
  ℕ, zero, suc, ◌+◌, ◌-◌, ◌*◌, ◌/◌, ◌%◌, ◌^◌, ◌<◌, ◌≡◌, refl, ap, inl, inr, ◌≢◌, Bool, true, false,
  ◌&&◌, ◌||◌, [], ◌∷◌, ◌++◌, arith, ltb, ◌==◌, if◌then◌else◌, Bool-cases, ==_iff, All-append,
  Option, none, some, ℤ, pos, negsuc, ltb_ℤ, ◌≤◌,
}
use orientjs.Text.{
  Text, is_digit, IsDigits, StopsDigits, span_digits, span_digits-append, span_digits_sound,
}

-- The number that the digits `t` denote, read on from `acc`.
unfoldable pub digits_value : ℕ → Text → ℕ
digits_value acc [] = acc
digits_value acc (c ∷ t) = digits_value (acc * 10 + (c - b'0')) t

print_fuel : ℕ → ℕ → Text
print_fuel zero n = []
print_fuel (suc f) n =
    let front = print_fuel f (n / 10) in
    if ltb n 10 then (b'0' + n) ∷ [] else front ++ ((b'0' + n % 10) ∷ [])

-- The decimal numeral of a number.
unfoldable pub print_nat : ℕ → Text
unfolding print_fuel
print_nat n = print_fuel (suc n) n

digits_value-snoc :
    (acc : ℕ) (t : Text) (c : ℕ)
    → digits_value acc (t ++ c ∷ []) ≡ digits_value acc t * 10 + (c - b'0')
unfolding digits_value
digits_value-snoc acc [] c = refl
digits_value-snoc acc (d ∷ t) c = digits_value-snoc (acc * 10 + (d - b'0')) t c

digits_value-print_fuel : (f n : ℕ) → n < f → digits_value 0 (print_fuel f n) ≡ n
unfolding print_fuel
digits_value-print_fuel zero n h = elim h [ ]
digits_value-print_fuel (suc f) n h = elim (Bool-cases (ltb n 10)) [
  | inl small ↦ rw small (unfold digits_value in omega arith)
  | inr large ↦ rw large (
      omega (
        arith,
        digits_value-snoc 0 (print_fuel f (n / 10)) (b'0' + n % 10),
        digits_value-print_fuel f (n / 10) (ground arith),
      ))
]

pub digits_value-print_nat : (n : ℕ) → digits_value 0 (print_nat n) ≡ n
unfolding print_nat
digits_value-print_nat n = digits_value-print_fuel (suc n) n (omega arith)

is_digit_of_lt : (d : ℕ) → d < 10 → is_digit (b'0' + d) ≡ true
is_digit_of_lt d h = ground arith

print_fuel-IsDigits : (f n : ℕ) → IsDigits (print_fuel f n)
unfolding print_fuel
print_fuel-IsDigits zero n = tt
print_fuel-IsDigits (suc f) n = elim (Bool-cases (ltb n 10)) [
  | inl small ↦ rw small (is_digit_of_lt n (ground arith), tt)
  | inr large ↦ rw large (
      All-append _ (print_fuel f (n / 10)) _ (print_fuel-IsDigits f (n / 10))
        (is_digit_of_lt (n % 10) (omega arith), tt))
]

pub print_nat-IsDigits : (n : ℕ) → IsDigits (print_nat n)
unfolding print_nat
print_nat-IsDigits n = print_fuel-IsDigits (suc n) n

snoc-ne-nil : (t : Text) (c : ℕ) → t ++ c ∷ [] ≢ []
snoc-ne-nil [] c = λ e. cc
snoc-ne-nil (d ∷ t) c = λ e. cc

pub print_nat-ne-nil : (n : ℕ) → print_nat n ≢ []
unfolding print_nat
print_nat-ne-nil n = elim (Bool-cases (ltb n 10)) [
  | inl small ↦ rw small (λ e. cc)
  | inr large ↦ rw large (snoc-ne-nil (print_fuel n (n / 10)) (b'0' + n % 10))
]

print_fuel_enough : (f g n : ℕ) → n < f → n < g → print_fuel f n ≡ print_fuel g n
unfolding print_fuel
print_fuel_enough zero g n h k = elim h [ ]
print_fuel_enough (suc f) zero n h k = elim k [ ]
print_fuel_enough (suc f) (suc g) n h k = elim (Bool-cases (ltb n 10)) [
  | inl small ↦ rw small
  | inr large ↦ rw large (rw (print_fuel_enough f g (n / 10) (ground arith) (ground arith)))
]

pub print_nat_one : (n : ℕ) → n < 10 → print_nat n ≡ (b'0' + n) ∷ []
unfolding print_nat
print_nat_one n h = ground arith

pub print_nat_step : (n : ℕ) → 10 ≤ n → print_nat n ≡ print_nat (n / 10) ++ ((b'0' + n % 10) ∷ [])
unfolding print_nat
print_nat_step n h = elim (Bool-cases (ltb n 10)) [
  | inl small ↦ absurd (ground arith)
  | inr large ↦
      rw large (rw (print_fuel_enough n (suc (n / 10)) (n / 10) (omega arith) (omega arith)))
]

-- The numeral of an integer.
unfoldable pub print_int : ℤ → Text
unfolding print_nat
print_int (pos n) = print_nat n
print_int (negsuc n) = b'-' ∷ print_nat (suc n)

-- The integers that a double holds exactly, with those below them.
abbrev pub IsSafe : ℤ → Type 0
IsSafe (pos n) = n < 2 ^ 53
IsSafe (negsuc n) = suc n < 2 ^ 53

-- A minus sign, if any, and the digits behind it, with what follows: `-?\d+` from the start of
-- a text, or `none` where it does not match.
pub record Signed : Type 0 where
  pub minus : Bool
  pub digits : Text
  pub rest : Text

abbrev signed_of : Bool → Text × Text → Option Signed
signed_of m ([], rest) = none
signed_of m (d ∷ ds, rest) = some (record { minus = m; digits = d ∷ ds; rest = rest })

unfoldable pub match_signed : Text → Option Signed
unfolding span_digits
match_signed [] = none
match_signed (c ∷ t) =
    if c == b'-' then signed_of true (span_digits t) else signed_of false (span_digits (c ∷ t))

-- A double holds 53 bits: past them an integer goes to a neighbour, halves to the even one.
round_fuel : ℕ → ℕ → ℕ → ℕ
round_fuel zero unit n = n
round_fuel (suc f) unit n =
    let wider = round_fuel f (2 * unit) n in
    let q = n / unit in
    let r = n % unit in
    if ltb q (2 ^ 53)
    then (if ltb (2 * r) unit || (2 * r == unit && q % 2 == 0) then q * unit else (q + 1) * unit)
    else wider

-- The integer that a double holds for the integer `n`; the fuel reaches every unit of a double, up to
-- 2 ^ 971. `2 ^ 1024`, which is no double, stands for Infinity: what is rounded to it, or is larger.
unfoldable pub to_double : ℕ → ℕ
unfolding round_fuel
to_double n = let d = round_fuel 972 1 n in if ltb d (2 ^ 1024) then d else 2 ^ 1024

round_fuel_safe : (f n : ℕ) → n < 2 ^ 53 → round_fuel (suc f) 1 n ≡ n
unfolding round_fuel
round_fuel_safe f n h = ground arith

capped : (m n : ℕ) → n < m → (if ltb n m then n else m) ≡ n
capped m n h = ground arith

double_range : (n m : ℕ) → n < 2 ^ 53 → 2 ^ 53 ≤ m → n < m
double_range n m h k = omega arith

pub to_double_safe : (n : ℕ) → n < 2 ^ 53 → to_double n ≡ n
unfolding to_double
to_double_safe n h =
    rw (round_fuel_safe 971 n h) (capped (2 ^ 1024) n (double_range n (2 ^ 1024) h (omega arith)))

abbrev pub apply_sign : Bool → ℕ → ℤ
apply_sign true (suc n) = negsuc n
apply_sign true zero = pos zero
apply_sign false n = pos n

-- `+m` for a matched `m`: the integer that JavaScript makes of the numeral. It has one zero.
unfoldable pub to_number : Bool → Text → ℤ
unfolding digits_value
to_number minus ds = apply_sign minus (to_double (digits_value 0 ds))

digits_head : (n : ℕ) → (c : ℕ) × (t : Text) × (print_nat n ≡ c ∷ t)
digits_head n = from (print_nat n) refl
  where
    from : (p : Text) → print_nat n ≡ p → (c : ℕ) × (t : Text) × (print_nat n ≡ c ∷ t)
    from [] e = absurd (print_nat-ne-nil n e)
    from (c ∷ t) e = (c, t, e)

to_number-print_nat : (m : Bool) (n : ℕ) → n < 2 ^ 53 → to_number m (print_nat n) ≡ apply_sign m n
unfolding to_number
to_number-print_nat m n h = rw (digits_value-print_nat n, to_double_safe n h)

module _ (rest : Text) (stop : StopsDigits rest) where
  match_plain :
      (c : ℕ) (t : Text)
      → IsDigits (c ∷ t)
      → match_signed (c ∷ (t ++ rest))
        ≡ some (record { minus = false; digits = c ∷ t; rest = rest })
  unfolding match_signed
  match_plain c t d = ground (arith, span_digits-append (c ∷ t) rest d stop)

  match_minus :
      (c : ℕ) (t : Text)
      → IsDigits (c ∷ t)
      → match_signed (b'-' ∷ c ∷ (t ++ rest))
        ≡ some (record { minus = true; digits = c ∷ t; rest = rest })
  unfolding match_signed
  match_minus c t d = ground (arith, span_digits-append (c ∷ t) rest d stop)

  -- Reading the numeral that was printed for a safe integer, whatever stands behind it.
  pub match_signed-print_int :
      (z : ℤ)
      → IsSafe z
      → (m : Signed) × (match_signed (print_int z ++ rest) ≡ some m)
        × (m.rest ≡ rest)
        × (to_number m.minus m.digits ≡ z)
        × (m.minus ≡ ltb_ℤ z (pos 0))
  unfolding print_int
  match_signed-print_int (pos n) h =
      let (c, t, e) = digits_head n in
      (
        record { minus = false; digits = print_nat n; rest = rest },
        rw e (match_plain c t (rw e at (print_nat-IsDigits n))),
        refl,
        to_number-print_nat false n h,
        ground arith,
      )
  match_signed-print_int (negsuc n) h =
      let (c, t, e) = digits_head (suc n) in
      (
        record { minus = true; digits = print_nat (suc n); rest = rest },
        rw e (match_minus c t (rw e at (print_nat-IsDigits (suc n)))),
        refl,
        to_number-print_nat true (suc n) h,
        ground arith,
      )

-- The text of a numeral that was matched.
abbrev pub numeral : Bool → Text → Text
numeral true ds = b'-' ∷ ds
numeral false ds = ds

-- `t` begins with the numeral that was matched, and no digit is missing.
abbrev pub Reads : Text → Option Signed → Type 0
Reads t none = Unit
Reads t (some m) = (t ≡ numeral m.minus m.digits ++ m.rest) × IsDigits m.digits × (m.digits ≢ [])

signed_of-Reads :
    (b : Bool) (u : Text) (s : Text × Text)
    → u ≡ s.0 ++ s.1
    → IsDigits s.0
    → Reads (numeral b u) (signed_of b s)
signed_of-Reads b u ([], rest) e d = tt
signed_of-Reads true u (c ∷ ds, rest) e d = (ap (◌∷◌ b'-') e, d, λ p. cc)
signed_of-Reads false u (c ∷ ds, rest) e d = (e, d, λ p. cc)

match_signed-Reads : (t : Text) → Reads t (match_signed t)
unfolding match_signed
match_signed-Reads [] = tt
match_signed-Reads (c ∷ t) = elim (Bool-cases (c == b'-')) [
  | inl e ↦
      let (loses, digits) = span_digits_sound t in
      rw e (rw ((==_iff _ _).0 e) (signed_of-Reads true t (span_digits t) loses digits))
  | inr e ↦
      let (loses, digits) = span_digits_sound (c ∷ t) in
      rw e (signed_of-Reads false (c ∷ t) (span_digits (c ∷ t)) loses digits)
]

pub match_signed_sound :
    (t : Text) (m : Signed)
    → match_signed t ≡ some m
    → (t ≡ numeral m.minus m.digits ++ m.rest) × IsDigits m.digits × (m.digits ≢ [])
match_signed_sound t m h = rw h at (match_signed-Reads t)

-- The other way round: a numeral is matched whole, if no digit follows it.
pub match_signed-numeral :
    (b : Bool) (ds rest : Text)
    → IsDigits ds
    → ds ≢ []
    → StopsDigits rest
    → match_signed (numeral b ds ++ rest) ≡ some (record { minus = b; digits = ds; rest = rest })
match_signed-numeral b [] rest d ne stop = absurd (ne refl)
match_signed-numeral true (c ∷ ds) rest d ne stop = match_minus rest stop c ds d
match_signed-numeral false (c ∷ ds) rest d ne stop = match_plain rest stop c ds d
