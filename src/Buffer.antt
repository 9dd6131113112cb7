-- ===== src/Buffer.antt =====
-- The reads and writes of Node's Buffer that the binary code uses, on lists of bytes. `none` is
-- the RangeError of an access out of bounds.
pub mod Reads
use orientjs.Prelude.{
  ℕ, zero, suc, ◌+◌, ◌-◌, ◌*◌, ◌/◌, ◌^◌, Option, none, some, List, [], ◌∷◌, ltb, ◌==◌,
  if◌then◌else◌, ◌>>=◌, length, take, drop, ℤ, pos, negsuc,
}

abbrev pub Bytes : Type 0
Bytes = List ℕ

abbrev pub byte_at : ℕ → Bytes → ℕ
byte_at i [] = 0
byte_at zero (b ∷ bs) = b
byte_at (suc i) (b ∷ bs) = byte_at i bs

-- `n` bytes from `offset` on.
unfoldable pub slice_exact : ℕ → Bytes → ℕ → Option Bytes
slice_exact n b offset = let s = take n (drop offset b) in if length s == n then some s else none

abbrev pub big_endian : ℕ → Bytes → ℕ
big_endian acc [] = acc
big_endian acc (b ∷ bs) = big_endian (acc * 256 + b) bs

-- Two's complement of `w` values.
abbrev pub to_signed : ℕ → ℕ → ℤ
to_signed w n = if ltb n (w / 2) then pos n else negsuc (w - n - 1)

unfoldable pub read_uint8 : Bytes → ℕ → Option ℕ
unfolding slice_exact
read_uint8 b o = slice_exact 1 b o >>= λ s. some (big_endian 0 s)

unfoldable pub read_int16_be : Bytes → ℕ → Option ℤ
unfolding slice_exact
read_int16_be b o = slice_exact 2 b o >>= λ s. some (to_signed (2 ^ 16) (big_endian 0 s))

unfoldable pub read_int32_be : Bytes → ℕ → Option ℤ
unfolding slice_exact
read_int32_be b o = slice_exact 4 b o >>= λ s. some (to_signed (2 ^ 32) (big_endian 0 s))

unfoldable pub read_uint32_be : Bytes → ℕ → Option ℕ
unfolding slice_exact
read_uint32_be b o = slice_exact 4 b o >>= λ s. some (big_endian 0 s)
