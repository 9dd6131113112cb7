-- ===== src/Buffer/Reads.antt =====
-- What the reads of a buffer give where its bytes are known.
use orientjs.Prelude.{
  ℕ, ◌+◌, ◌*◌, ◌^◌, ◌≡◌, some, [], ◌∷◌, ◌++◌, length, drop, zero, suc, ap, arith, refl, take,
  ==_refl,
}
use native.Mathlib.Nat.{zero-add}
use orientjs.Buffer.{Bytes, slice_exact, read_int16_be, read_int32_be, read_uint32_be, to_signed}

abbrev pub word : ℕ → ℕ → ℕ → ℕ → ℕ
word a b c d = ((a * 256 + b) * 256 + c) * 256 + d

pub drop-prefix :
    (pre rest : Bytes) (n o : ℕ) → o ≡ length pre + n → drop o (pre ++ rest) ≡ drop n rest
drop-prefix [] rest n o h = ap (λ k. drop k rest) (omega arith)
drop-prefix (c ∷ pre) rest n zero h = absurd (omega arith)
drop-prefix (c ∷ pre) rest n (suc o) h = drop-prefix pre rest n o (omega arith)

pub read_int16_at :
    (b rest : Bytes) (o x y : ℕ)
    → drop o b ≡ x ∷ y ∷ rest
    → read_int16_be b o ≡ some (to_signed (2 ^ 16) (x * 256 + y))
unfolding read_int16_be slice_exact
read_int16_at b rest o x y h = rw h (simp zero-add)

pub read_uint32_at :
    (b rest : Bytes) (o w x y z : ℕ)
    → drop o b ≡ w ∷ x ∷ y ∷ z ∷ rest
    → read_uint32_be b o ≡ some (word w x y z)
unfolding read_uint32_be slice_exact
read_uint32_at b rest o w x y z h = rw h (simp zero-add)

pub read_int32_at :
    (b rest : Bytes) (o w x y z : ℕ)
    → drop o b ≡ w ∷ x ∷ y ∷ z ∷ rest
    → read_int32_be b o ≡ some (to_signed (2 ^ 32) (word w x y z))
unfolding read_int32_be slice_exact
read_int32_at b rest o w x y z h = rw h (simp zero-add)

take-length : (b rest : Bytes) → take (length b) (b ++ rest) ≡ b
take-length [] rest = refl
take-length (c ∷ b) rest = ap (◌∷◌ c) (take-length b rest)

-- A slice that is as long as the bytes in the middle.
pub slice_exact-middle :
    (pre b rest : Bytes) (o : ℕ)
    → o ≡ length pre
    → slice_exact (length b) (pre ++ (b ++ rest)) o ≡ some b
unfolding slice_exact
slice_exact-middle pre b rest o h =
    rw (drop-prefix pre (b ++ rest) 0 o (omega arith), take-length b rest, ==_refl)
