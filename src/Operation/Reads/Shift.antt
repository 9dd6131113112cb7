-- ===== src/Operation/Reads/Shift.antt =====
-- Reading at an offset in lib/transport/binary/protocol33/operation.js is reading in the rest of
-- the buffer, which is what connection.js keeps between two chunks.
use orientjs.Prelude.{
  ℕ, zero, suc, ◌+◌, ◌-◌, ◌≤◌, ◌≡◌, refl, sym, ap, ◌∙◌, Option, none, some, [], ◌∷◌, arith, ltb,
  leb, ◌>>=◌, length, drop, length-drop, ℤ, pos, negsuc, take,
}
use orientjs.Buffer.{Bytes, slice_exact, read_uint8, read_int16_be, read_int32_be, read_uint32_be}
use orientjs.Bag.{read_long}
use mathlib.Core.Path.{fun_ext}
use orientjs.Operation.Reads.{block_read}
use orientjs.Operation.Machine.{
  Kind, byte, bytes_, int, short, long, string, array, record_, collection, error,
}
use orientjs.Operation.Parse.{can_read, read_raw, fits_block, block}

drop-nil : (n : ℕ) → drop {A = ℕ} n [] ≡ []
drop-nil zero = refl
drop-nil (suc n) = refl

pub drop-drop : (p o : ℕ) (b : Bytes) → drop (p + o) b ≡ drop o (drop p b)
drop-drop zero o b = ap (λ k. drop k b) (omega arith)
drop-drop (suc p) o [] = drop-nil (suc p + o) ∙ sym (drop-nil o)
drop-drop (suc p) o (x ∷ b) =
    let e : suc p + o ≡ suc (p + o) = omega arith in ap (λ k. drop k (x ∷ b)) e ∙ drop-drop p o b

pub slice_exact-shift :
    (n p o : ℕ) (b : Bytes) → slice_exact n b (p + o) ≡ slice_exact n (drop p b) o
unfolding slice_exact
slice_exact-shift n p o b = rw drop-drop

pub read_int32_be-shift :
    (p o : ℕ) (b : Bytes) → read_int32_be b (p + o) ≡ read_int32_be (drop p b) o
unfolding read_int32_be
read_int32_be-shift p o b = rw slice_exact-shift

block_read-shift :
    (z : ℤ) (p o : ℕ) (b : Bytes) → block_read b (p + o) z ≡ block_read (drop p b) o z
block_read-shift (pos n) p o b =
    let e : p + o + 4 ≡ p + (o + 4) = omega arith in
    ap (λ x. some (block (some (take n x)), n + 4)) (ap (λ k. drop k b) e ∙ drop-drop p (o + 4) b)
block_read-shift (negsuc n) p o b = refl

-- Reading behind the first bytes is reading in what they leave.
pub read_raw-shift :
    (bits : ℕ → ℤ → ℤ) (k : Kind) (b : Bytes) (p o : ℕ)
    → read_raw bits k b (p + o) ≡ read_raw bits k (drop p b) o
unfolding read_raw read_uint8 read_int16_be read_long read_uint32_be read_int32_be
read_raw-shift bits byte b p o = rw slice_exact-shift
read_raw-shift bits Kind.char b p o = rw slice_exact-shift
read_raw-shift bits Kind.boolean b p o = rw slice_exact-shift
read_raw-shift bits short b p o = rw slice_exact-shift
read_raw-shift bits int b p o = rw slice_exact-shift
read_raw-shift bits collection b p o = rw slice_exact-shift
read_raw-shift bits long b p o =
    let e : p + o + 4 ≡ p + (o + 4) = omega arith in
    rw (e, slice_exact-shift 4 p (o + 4) b, slice_exact-shift 4 p o b)
read_raw-shift bits bytes_ b p o =
    ap (λ r. r >>= block_read b (p + o)) (read_int32_be-shift p o b)
    ∙ ap (λ f. read_int32_be (drop p b) o >>= f) (fun_ext (λ z. block_read-shift z p o b))
read_raw-shift bits string b p o =
    ap (λ r. r >>= block_read b (p + o)) (read_int32_be-shift p o b)
    ∙ ap (λ f. read_int32_be (drop p b) o >>= f) (fun_ext (λ z. block_read-shift z p o b))
read_raw-shift bits record_ b p o = refl
read_raw-shift bits array b p o = refl
read_raw-shift bits error b p o = refl

fits_block-shift :
    (z : Option ℤ) (p o n : ℕ) → p ≤ n → fits_block z (p + o) n ≡ fits_block z o (n - p)
fits_block-shift none p o n h = refl
fits_block-shift (some (pos z)) p o n h = ground arith
fits_block-shift (some (negsuc z)) p o n h = refl

can_read_test : (p o k n : ℕ) → p ≤ n → leb (p + o + k) n ≡ leb (o + k) (n - p)
can_read_test p o k n h = ground arith

can_read_start : (p o n : ℕ) → p ≤ n → ltb n (p + o) ≡ ltb (n - p) o
can_read_start p o n h = ground arith

pub can_read-shift :
    (k : Kind) (b : Bytes) (p o : ℕ) → p ≤ length b → can_read k b (p + o) ≡ can_read k (drop p b) o
unfolding can_read
can_read-shift byte b p o h =
    rw (length-drop p b, can_read_start p o (length b) h, can_read_test p o 1 (length b) h)
can_read-shift Kind.char b p o h =
    rw (length-drop p b, can_read_start p o (length b) h, can_read_test p o 1 (length b) h)
can_read-shift Kind.boolean b p o h =
    rw (length-drop p b, can_read_start p o (length b) h, can_read_test p o 1 (length b) h)
can_read-shift short b p o h =
    rw (length-drop p b, can_read_start p o (length b) h, can_read_test p o 2 (length b) h)
can_read-shift record_ b p o h =
    rw (length-drop p b, can_read_start p o (length b) h, can_read_test p o 2 (length b) h)
can_read-shift long b p o h =
    rw (length-drop p b, can_read_start p o (length b) h, can_read_test p o 8 (length b) h)
can_read-shift int b p o h =
    rw (length-drop p b, can_read_start p o (length b) h, can_read_test p o 4 (length b) h)
can_read-shift collection b p o h =
    rw (length-drop p b, can_read_start p o (length b) h, can_read_test p o 4 (length b) h)
can_read-shift array b p o h = rw (length-drop p b, can_read_start p o (length b) h)
can_read-shift error b p o h = rw (length-drop p b, can_read_start p o (length b) h)
can_read-shift bytes_ b p o h = rw (
  length-drop p b,
  can_read_start p o (length b) h,
  can_read_test p o 4 (length b) h,
  ← read_int32_be-shift p o b,
  fits_block-shift (read_int32_be b (p + o)) p o (length b) h,
)
can_read-shift string b p o h = rw (
  length-drop p b,
  can_read_start p o (length b) h,
  can_read_test p o 4 (length b) h,
  ← read_int32_be-shift p o b,
  fits_block-shift (read_int32_be b (p + o)) p o (length b) h,
)
