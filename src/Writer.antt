-- ===== src/Writer.antt =====
-- lib/transport/binary/protocol33/writer.js, and that the reads of a buffer give back what it
-- writes. `none` is the RangeError of a number out of range. The low and high words of the Long
-- library are arguments, and so is the encoding of a text as bytes.
use orientjs.Prelude.{
  sym, ◌∙◌, length-append, ℕ, ◌+◌, ◌-◌, ◌/◌, ◌%◌, ◌^◌, ◌<◌, ◌≡◌, refl, ap, Option, none, some, [],
  ◌∷◌, ◌++◌, ltb, if◌then◌else◌, ◌>>=◌, length, ℤ, pos, negsuc, arith,
}
use orientjs.Buffer.Reads.{word, drop-prefix, read_int32_at, slice_exact-middle}
use mathlib.Core.List.{append_assoc}
use orientjs.Buffer.{Bytes, read_int32_be, slice_exact, to_signed}

-- The number of the two's complement in `w` values, for a number that has one.
unfoldable pub to_unsigned : ℕ → ℤ → Option ℕ
to_unsigned w (pos n) = if ltb n (w / 2) then some n else none
to_unsigned w (negsuc n) = if ltb n (w / 2) then some (w - n - 1) else none

abbrev pub four_bytes : ℕ → Bytes
four_bytes n = n / 16777216 ∷ n / 65536 % 256 ∷ n / 256 % 256 ∷ n % 256 ∷ []

abbrev pub two_bytes : ℕ → Bytes
two_bytes n = n / 256 ∷ n % 256 ∷ []

-- `writeByte` and `writeBoolean`: the number is taken modulo 256.
unfoldable pub write_byte : ℕ → Bytes
write_byte n = n % 256 ∷ []

unfoldable pub write_int : ℤ → Option Bytes
unfolding to_unsigned
write_int z = to_unsigned (2 ^ 32) z >>= λ n. some (four_bytes n)

unfoldable pub write_short : ℤ → Option Bytes
unfolding to_unsigned
write_short z = to_unsigned (2 ^ 16) z >>= λ n. some (two_bytes n)

-- `words` gives the high and the low word that `Long.fromNumber` finds for a number.
unfoldable pub write_long : {A : Type 0} → (A → ℤ × ℤ) → A → Option Bytes
unfolding write_int
write_long words x = do
  high ← write_int (words x).0
  low ← write_int (words x).1
  some (high ++ low)

unfoldable pub write_bytes : Bytes → Option Bytes
unfolding write_int
write_bytes b = write_int (pos (length b)) >>= λ n. some (n ++ b)

-- `writeString`: null is the length -1.
unfoldable pub write_string : {A : Type 0} → (A → Bytes) → Option A → Option Bytes
unfolding write_int write_bytes
write_string encode none = write_int (negsuc 0)
write_string encode (some s) = write_bytes (encode s)

-- The integers of `w` values.
abbrev pub Fits : ℕ → ℤ → Type 0
Fits w (pos n) = n < w / 2
Fits w (negsuc n) = n < w / 2

to_unsigned-Fits :
    (z : ℤ)
    → Fits (2 ^ 32) z
    → (n : ℕ) × (to_unsigned (2 ^ 32) z ≡ some n) × (to_signed (2 ^ 32) n ≡ z)
unfolding to_unsigned
to_unsigned-Fits (pos n) h = (n, ground arith, ground arith)
to_unsigned-Fits (negsuc n) h = (2 ^ 32 - n - 1, ground arith, ground arith)

four_bytes_word : (n : ℕ) → word (n / 16777216) (n / 65536 % 256) (n / 256 % 256) (n % 256) ≡ n
four_bytes_word n = omega arith

-- An integer of 32 bits is written, as four bytes, and read back wherever they stand in a buffer.
pub read_int32_be-write_int :
    (z : ℤ) (pre rest : Bytes)
    → Fits (2 ^ 32) z
    → (b : Bytes) × (write_int z ≡ some b)
      × (length b ≡ 4)
      × (read_int32_be (pre ++ (b ++ rest)) (length pre) ≡ some z)
unfolding write_int
read_int32_be-write_int z pre rest h =
    let (n, e, k) = to_unsigned-Fits z h in
    (
      four_bytes n,
      rw e,
      refl,
      read_int32_at (pre ++ (four_bytes n ++ rest)) rest (length pre) _ _ _ _
            (drop-prefix pre (four_bytes n ++ rest) 0 (length pre) (omega arith))
          ∙ rw (four_bytes_word n, k),
    )

-- Bytes are written behind their length, fewer than 2 ^ 31 of them, and both are read back
-- wherever they stand in a buffer.
pub slice_exact-write_bytes :
    (b pre rest : Bytes)
    → length b < 2 ^ 31
    → (w : Bytes) × (write_bytes b ≡ some w)
      × (read_int32_be (pre ++ (w ++ rest)) (length pre) ≡ some (pos (length b)))
      × (slice_exact (length b) (pre ++ (w ++ rest)) (length pre + 4) ≡ some b)
unfolding write_bytes
slice_exact-write_bytes b pre rest h =
    let (n, e, four, r) = read_int32_be-write_int (pos (length b)) pre (b ++ rest) (omega arith) in
    let same : pre ++ ((n ++ b) ++ rest) ≡ pre ++ (n ++ (b ++ rest)) =
      ap (◌++◌ pre) (append_assoc n b rest) in
    (
      n ++ b,
      rw e,
      rw same r,
      rw same (
          rw (sym (append_assoc pre n (b ++ rest))) (
            slice_exact-middle (pre ++ n) b rest (length pre + 4)
              (omega (arith, length-append pre n, four)))),
    )
