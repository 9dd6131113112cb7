-- ===== src/Tests/Varint.antt =====
-- A signed varint of seven bits in each byte, and a runtime with it: they meet what is assumed of
-- the package and of the runtime.
use orientjs.Prelude.{
  ℕ, zero, suc, ◌+◌, ◌-◌, ◌*◌, ◌/◌, ◌%◌, ◌<◌, ◌≡◌, refl, inl, inr, Option, none, some, [], ◌∷◌,
  ◌++◌, arith, ltb, if◌then◌else◌, Bool-cases, ◌>>=◌, length, false, ◌==◌, drop, ℤ, pos, negsuc,
}
use orientjs.Buffer.{Bytes, big_endian}
use orientjs.Prelude.{negate}
use orientjs.Binary.{Value, integer, fraction, Runtime}
use orientjs.Binary.Kept.{Lawful, IsExact}

abbrev pub groups : ℕ → ℕ → Bytes
groups zero n = n ∷ []
groups (suc k) n =
    let more = groups k (n / 128) in if ltb n 128 then n ∷ [] else (n % 128 + 128) ∷ more

abbrev pub ungroup : Bytes → Option (ℕ × ℕ)
ungroup [] = none
ungroup (b ∷ bs) =
    let more = ungroup bs >>= λ r. some (b - 128 + 128 * r.0, r.1 + 1) in
    if ltb b 128 then some (b, 1) else more

abbrev capacity : ℕ → ℕ
capacity zero = 128
capacity (suc k) = 128 * capacity k

ungroup-groups :
    (k n : ℕ) (rest : Bytes)
    → n < capacity k
    → ungroup (groups k n ++ rest) ≡ some (n, length (groups k n))
ungroup-groups zero n rest h = ground arith
ungroup-groups (suc k) n rest h = elim (Bool-cases (ltb n 128)) [
  | inl e ↦ rw (e, e) refl
  | inr e ↦
      let more : ltb (n % 128 + 128) 128 ≡ false = ground arith in
      let back : n % 128 + 128 - 128 + 128 * (n / 128) ≡ n = omega arith in
      let one : length (groups k (n / 128)) + 1 ≡ suc (length (groups k (n / 128))) = omega arith in
      rw (e, more, ungroup-groups k (n / 128) rest (omega arith), back, one) refl
]

abbrev zigzag : ℤ → ℕ
zigzag (pos n) = 2 * n
zigzag (negsuc n) = 2 * n + 1

abbrev unzigzag : ℕ → ℤ
unzigzag m = if m % 2 == 0 then pos (m / 2) else negsuc (m / 2)

unzigzag-zigzag : (z : ℤ) → unzigzag (zigzag z) ≡ z
unzigzag-zigzag (pos n) = ground arith
unzigzag-zigzag (negsuc n) = ground arith

zigzag-IsExact : (z : ℤ) → IsExact z → zigzag z < capacity 7
zigzag-IsExact (pos n) h = omega arith
zigzag-IsExact (negsuc n) h = omega arith

-- At undefined and at other values that are no number, the package writes a zero.
abbrev encode : Value → Option Bytes
encode (integer z) = some (groups 7 (zigzag z))
encode _ = some (0 ∷ [])

abbrev decode : Bytes → ℤ → Option (ℤ × ℤ)
decode b (pos o) = ungroup (drop o b) >>= λ r. some (unzigzag r.0, pos r.1)
decode b (negsuc o) = none

pub decode_exact :
    (z : ℤ) (b rest : Bytes) (o : ℕ)
    → IsExact z
    → drop o b ≡ groups 7 (zigzag z) ++ rest
    → decode b (pos o) ≡ some (z, pos (length (groups 7 (zigzag z))))
decode_exact z b rest o h e =
    rw (e, ungroup-groups 7 (zigzag z) rest (zigzag-IsExact z h), unzigzag-zigzag z) refl

-- Texts of characters below 128, and numbers by their bytes.
abbrev pub runtime : Runtime
runtime = record {
  encode = encode;
  decode = decode;
  utf8 = λ t. t;
  text_of = λ b. b;
  read_float = λ b. fraction b;
  read_double = λ b. fraction b;
  big_number = λ minus b. if minus then negate (pos (big_endian 0 b)) else pos (big_endian 0 b);
  divide = λ z n. if n == 1 then integer z else fraction [];
}

abbrev pub lawful : Lawful runtime
lawful = record {
  number_bytes = λ z. groups 7 (zigzag z);
  encode_exact = λ z h. refl;
  decode_exact = decode_exact;
  empty_kept = (refl, omega arith);
}
