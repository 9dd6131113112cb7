-- ===== src/Operation/RoundTrip.antt =====
-- The write steps and the read steps of lib/transport/binary/protocol33/operation.js fit together:
-- the bytes of one step are read as its value.
pub mod Answer
use orientjs.Prelude.{
  ℕ, ◌%◌, ◌^◌, ◌≡◌, true, some, [], ◌++◌, arith, if◌then◌else◌, ℤ, pos, negsuc, ◌+◌, ◌*◌, ◌/◌, refl,
  sym, ap, ◌∙◌, inl, inr, false, ◌∷◌, ltb, Bool-cases, ◌>>=◌, length, ◌-◌, Option, ◌<◌, >>=-eq-some,
  take, drop,
}
use mathlib.Core.List.{append-nil}
use orientjs.Buffer.{Bytes, read_uint8, read_int16_be, read_int32_be, slice_exact}
use orientjs.Writer.{
  slice_exact-write_bytes, to_unsigned, two_bytes, write_byte, write_int, write_short, write_bytes,
  read_int32_be-write_int, Fits,
}
use orientjs.Operation.Write.{WriteOp, byte, boolean, char, int, long, short, block, size_of}
use orientjs.Operation.Reads.{slice_exact_inside, block_read}
use orientjs.Operation.Write.Concat.{length-encoded, encoded}
use orientjs.Operation.Machine.{Kind}
use orientjs.Operation.Parse.{can_read, Raw, unsigned, signed, read_raw}

-- The steps that have one value each, but the long ones.
abbrev pub IsPlain : WriteOp → Type 0
IsPlain (long h l) = ⊥
IsPlain _ = Unit

abbrev pub kind_of : WriteOp → Kind
kind_of (byte n) = Kind.byte
kind_of (boolean b) = Kind.boolean
kind_of (char c) = Kind.char
kind_of (int z) = Kind.int
kind_of (long h l) = Kind.long
kind_of (short z) = Kind.short
kind_of (block b) = Kind.bytes_

abbrev pub raw_of : WriteOp → Raw
raw_of (byte n) = unsigned (n % 256)
raw_of (boolean b) = unsigned (if b then 1 else 0)
raw_of (char c) = unsigned (c % 256)
raw_of (int z) = signed z
raw_of (long h l) = Raw.nothing
raw_of (short z) = signed z
raw_of (block b) = Raw.block (some b)

write_int-Fits : (z : ℤ) {x : Bytes} → write_int z ≡ some x → Fits (2 ^ 32) z
unfolding write_int to_unsigned
write_int-Fits (pos n) h = ground arith
write_int-Fits (negsuc n) h = ground arith

read_int32_be_written :
    (z : ℤ) (x rest : Bytes) → write_int z ≡ some x → read_int32_be (x ++ rest) 0 ≡ some z
read_int32_be_written z x rest h =
    let (b, e, four, r) = read_int32_be-write_int z [] rest (write_int-Fits z h) in
    let same : b ≡ x = cc in rw (← same) r

read_int32_be_alone : (z : ℤ) (x : Bytes) → write_int z ≡ some x → read_int32_be x 0 ≡ some z
read_int32_be_alone z x h =
    ap (λ b. read_int32_be b 0) (sym (append-nil x)) ∙ read_int32_be_written z x [] h

read_one : (v : ℕ) → read_uint8 (v ∷ []) 0 ≡ some v
unfolding read_uint8 slice_exact
read_one v = ap some (omega arith)

-- A byte that is read.
abbrev a_byte : ℕ → Option (Raw × ℕ)
a_byte n = some (unsigned n, 1)

read_byte-written : (v : ℕ) → (read_uint8 (v ∷ []) 0 >>= a_byte) ≡ a_byte v
read_byte-written v = rw (read_one v)

read_int16_be_written :
    (z : ℤ) (x : Bytes) → write_short z ≡ some x → (length x ≡ 2) × (read_int16_be x 0 ≡ some z)
unfolding write_short read_int16_be slice_exact to_unsigned
read_int16_be_written (pos n) x h = elim (Bool-cases (ltb n 32768)) [
  | inl e ↦
      let e' = rw e at h in
      let same : two_bytes n ≡ x = cc in
      let whole : (0 * 256 + n / 256) * 256 + n % 256 ≡ n = omega arith in
      rw (← same) (refl, rw (whole, e))
  | inr e ↦ let e' = rw e at h in cc
]
read_int16_be_written (negsuc n) x h = elim (Bool-cases (ltb n 32768)) [
  | inl e ↦
      let v = 65536 - n - 1 in
      let e' = rw e at h in
      let same : two_bytes v ≡ x = cc in
      let whole : (0 * 256 + v / 256) * 256 + v % 256 ≡ v = omega arith in
      let large : ltb v 32768 ≡ false = ground arith in
      let back : 65536 - v - 1 ≡ n = ground arith in
      rw (← same) (refl, rw (whole, large) (ap (λ k. some (negsuc k)) back))
  | inr e ↦ let e' = rw e at h in cc
]

length-write_bytes : (b x : Bytes) → write_bytes b ≡ some x → length b < 2 ^ 31
unfolding write_bytes
length-write_bytes b x h =
    let (n, e, k) = >>=-eq-some (write_int (pos (length b))) _ h in
    write_int-Fits (pos (length b)) e

-- A block alone: its length, its bytes and its size.
block_written :
    (b x : Bytes)
    → write_bytes b ≡ some x
    → (read_int32_be x 0 ≡ some (pos (length b)))
      × (take (length b) (drop 4 x) ≡ b)
      × (length x ≡ 4 + length b)
unfolding encoded write_bytes size_of
block_written b x h =
    let (w, e, r, sl) = slice_exact-write_bytes b [] [] (length-write_bytes b x h) in
    let same : w ++ [] ≡ x = append-nil w ∙ (let w-x : w ≡ x = cc in w-x) in
    let size : length x ≡ 4 + length b = length-encoded (block b) h in
    let r' = rw same at r in
    let sl' = rw (same, slice_exact_inside (length b) 4 x (omega arith)) at sl in
    let taken : take (length b) (drop 4 x) ≡ b = cc in (r', taken, size)

-- The bytes of a step alone are read as its value.
pub read_raw-encoded :
    (bits : ℕ → ℤ → ℤ) (w : WriteOp) (x : Bytes)
    → IsPlain w
    → encoded w ≡ some x
    → (can_read (kind_of w) x 0 ≡ true)
      × (read_raw bits (kind_of w) x 0 ≡ some (raw_of w, size_of w))
unfolding encoded can_read read_raw size_of write_byte
read_raw-encoded bits (byte n) x p h =
    let same : n % 256 ∷ [] ≡ x = cc in rw (← same) (refl, read_byte-written (n % 256))
read_raw-encoded bits (boolean true) x p h =
    let same : 1 ∷ [] ≡ x = cc in rw (← same) (refl, read_byte-written 1)
read_raw-encoded bits (boolean false) x p h =
    let same : 0 ∷ [] ≡ x = cc in rw (← same) (refl, read_byte-written 0)
read_raw-encoded bits (char c) x p h =
    let same : c % 256 ∷ [] ≡ x = cc in rw (← same) (refl, read_byte-written (c % 256))
read_raw-encoded bits (int z) x p h =
    let four = length-encoded (int z) h in
    (ground arith, ap (λ r. r >>= λ v. some (signed v, 4)) (read_int32_be_alone z x h))
read_raw-encoded bits (short z) x p h =
    let (two, r) = read_int16_be_written z x h in
    (ground arith, ap (λ r. r >>= λ v. some (signed v, 2)) r)
read_raw-encoded bits (block b) x p h =
    let (r, taken, size) = block_written b x h in
    (
      rw r (ground arith),
      ap (λ r. r >>= block_read x 0) r
          ∙ ap (λ t. some (Raw.block (some t), length b + 4)) taken
          ∙ ap (λ n. some (Raw.block (some b), n)) (omega arith),
    )
read_raw-encoded bits (long u l) x p h = absurd p
