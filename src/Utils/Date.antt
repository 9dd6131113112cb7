-- ===== src/Utils/Date.antt =====
-- `pad` and `getOrientDbUTCDate` of lib/utils.js.
use orientjs.Text.Decimal.{print_nat, print_nat_step, digits_value, print_nat_one}
use orientjs.Text.{Text, codes}
use orientjs.Prelude.{
  ℕ, zero, suc, ◌+◌, ◌-◌, ◌/◌, ◌%◌, ◌<◌, ◌≡◌, refl, ◌⊎◌, [], ◌∷◌, ◌++◌, length, drop, ◌*◌, ap, ◌∙◌,
  inl, inr, arith, ◌≤◌, take,
}
use mathlib.Core.Path.{ap₂}

-- The fields that the getUTC functions of a Date give; months count from 0.
pub record UtcDate : Type 0 where
  pub full_year : ℕ
  pub month : ℕ
  pub day : ℕ
  pub hours : ℕ
  pub minutes : ℕ
  pub seconds : ℕ
  pub milliseconds : ℕ

-- `t.slice(-n)` for n > 0.
abbrev slice_last : ℕ → Text → Text
slice_last n t = drop (length t - n) t

-- (1e4 + number + '').slice(-size)
unfoldable pub pad : ℕ → ℕ → Text
unfolding print_nat
pad number size = slice_last size (print_nat (10000 + number))

unfoldable pub get_orient_db_utc_date : UtcDate → Text
unfolding pad
get_orient_db_utc_date d =
    pad d.full_year 4
    ++ (b'-'
        ∷ (pad (d.month + 1) 2
            ++ (b'-'
                ∷ (pad d.day 2
                    ++ (b' '
                        ∷ (pad d.hours 2
                            ++ (b':'
                                ∷ (pad d.minutes 2
                                    ++ (b':'
                                        ∷ (pad d.seconds 2
                                            ++ (b'.' ∷ pad d.milliseconds 3)))))))))))

-- The last digits of a number.
abbrev pub last_digits : ℕ → ℕ → Text
last_digits zero n = []
last_digits (suc k) n = last_digits k (n / 10) ++ ((b'0' + n % 10) ∷ [])

sample :
    get_orient_db_utc_date (record {
      full_year = 2017;
      month = 0;
      day = 5;
      hours = 13;
      minutes = 7;
      seconds = 59;
      milliseconds = 42;
    })
    ≡ codes "2017-01-05 13:07:59.042"
unfolding get_orient_db_utc_date
sample = refl

print_front :
    (k n : ℕ) → 0 < k → print_nat (k * 10 + n) ≡ print_nat (k + n / 10) ++ ((b'0' + n % 10) ∷ [])
print_front k n h =
    print_nat_step (k * 10 + n) (omega arith)
    ∙ ap₂ (λ a b. print_nat a ++ ((b'0' + b) ∷ [])) (omega arith) (omega arith)

print_five : (n : ℕ) → n < 10000 → print_nat (10000 + n) ≡ b'1' ∷ last_digits 4 n
print_five n h =
    print_front 1000 n (omega arith)
    ∙ ap (λ t. t ++ ((b'0' + n % 10) ∷ []))
        (print_front 100 (n / 10) (omega arith)
          ∙ ap (λ t. t ++ ((b'0' + n / 10 % 10) ∷ []))
              (print_front 10 (n / 10 / 10) (omega arith)
                ∙ ap (λ t. t ++ ((b'0' + n / 10 / 10 % 10) ∷ []))
                    (print_front 1 (n / 10 / 10 / 10) (omega arith)
                      ∙ ap (λ t. t ++ ((b'0' + n / 10 / 10 / 10 % 10) ∷ []))
                          (ap print_nat (omega arith) ∙ print_nat_one 1 (omega arith)))))

-- Below 10000, `pad` gives exactly the last `size` decimal digits, with zeros in front.
pub pad-last_digits :
    (n size : ℕ)
    → n < 10000
    → (size ≡ 2) ⊎ ((size ≡ 3) ⊎ (size ≡ 4))
    → pad n size ≡ last_digits size n
unfolding pad
pad-last_digits n size h (inl e) = rw (e, print_five n h)
pad-last_digits n size h (inr (inl e)) = rw (e, print_five n h)
pad-last_digits n size h (inr (inr e)) = rw (e, print_five n h)

-- The ranges of a Date's fields, with a year of four digits at most.
pub record InRange (d : UtcDate) : Type 0 where
  pub year_lt : d.full_year < 10000
  pub month_lt : d.month < 12
  pub day_le : d.day ≤ 31
  pub hours_lt : d.hours < 24
  pub minutes_lt : d.minutes < 60
  pub seconds_lt : d.seconds < 60
  pub milliseconds_lt : d.milliseconds < 1000

-- The number in the columns from `i` up to `i + n` of a text.
abbrev pub columns : ℕ → ℕ → Text → ℕ
columns i n t = digits_value 0 (take n (drop i t))

-- The text of a date up to the year 9999 has 23 characters, and its columns give back every
-- field, the month counted from 1.
pub date_columns :
    (d : UtcDate)
    → InRange d
    → let t = get_orient_db_utc_date d in
      (length t ≡ 23)
      × (columns 0 4 t ≡ d.full_year)
      × (columns 5 2 t ≡ d.month + 1)
      × (columns 8 2 t ≡ d.day)
      × (columns 11 2 t ≡ d.hours)
      × (columns 14 2 t ≡ d.minutes)
      × (columns 17 2 t ≡ d.seconds)
      × (columns 20 3 t ≡ d.milliseconds)
unfolding get_orient_db_utc_date digits_value
date_columns d r =
    rw
      (
        pad-last_digits d.full_year 4 (omega arith) (inr (inr refl)),
        pad-last_digits (d.month + 1) 2 (omega arith) (inl refl),
        pad-last_digits d.day 2 (omega arith) (inl refl),
        pad-last_digits d.hours 2 (omega arith) (inl refl),
        pad-last_digits d.minutes 2 (omega arith) (inl refl),
        pad-last_digits d.seconds 2 (omega arith) (inl refl),
        pad-last_digits d.milliseconds 3 (omega arith) (inr (inl refl)),
      )
      (omega arith)
