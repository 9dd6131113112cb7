-- ===== src/Operation/Reads.antt =====
-- What `canRead` guarantees to the `parse` methods: they read inside of the buffer, and the same
-- whatever comes behind it.
pub mod Shift
use orientjs.Prelude.{
  ℕ, zero, suc, ◌+◌, ◌≤◌, ◌≡◌, refl, ap, ◌∙◌, some, [], ◌∷◌, ◌++◌, arith, ==_refl, length, take,
  drop, length-take, length-drop, ◌⊎◌, inl, inr, true, ◌>>=◌, ℤ, pos, negsuc, ◌^◌, false, ◌&&◌,
  Option, ltb, leb, if◌then◌else◌, length-append, none, Option-cases,
}
use orientjs.Buffer.{
  Bytes, slice_exact, read_uint8, read_int16_be, read_int32_be, read_uint32_be, to_signed,
  big_endian,
}
use orientjs.Bag.{read_long}
use orientjs.Operation.Machine.{
  Kind, byte, bytes_, int, short, long, string, array, record_, collection, error,
}
use orientjs.Operation.Parse.{can_read, Raw, block, read_raw, block_at, block_size, fits_block}

take-append : (n : ℕ) (b m : Bytes) → n ≤ length b → take n (b ++ m) ≡ take n b
take-append zero b m h = refl
take-append (suc n) [] m h = absurd (omega arith)
take-append (suc n) (x ∷ b) m h = ap (◌∷◌ x) (take-append n b m (omega arith))

pub drop-append : (o : ℕ) (b m : Bytes) → o ≤ length b → drop o (b ++ m) ≡ drop o b ++ m
drop-append zero b m h = refl
drop-append (suc o) [] m h = absurd (omega arith)
drop-append (suc o) (x ∷ b) m h = drop-append o b m (omega arith)

take-drop-append :
    (n o : ℕ) (b m : Bytes) → o + n ≤ length b → take n (drop o (b ++ m)) ≡ take n (drop o b)
take-drop-append n o b m h =
    rw (drop-append o b m (omega arith))
      (take-append n (drop o b) m (omega (arith, length-drop o b)))

pub slice_exact-append :
    (n o : ℕ) (b m : Bytes) → o + n ≤ length b → slice_exact n (b ++ m) o ≡ slice_exact n b o
unfolding slice_exact
slice_exact-append n o b m h = rw (take-drop-append n o b m h)

pub slice_exact_inside :
    (n o : ℕ) (b : Bytes) → o + n ≤ length b → slice_exact n b o ≡ some (take n (drop o b))
unfolding slice_exact
slice_exact_inside n o b h =
    let full : length (take n (drop o b)) ≡ n =
      omega (arith, length-take n (drop o b), length-drop o b) in
    rw (full, ==_refl)

-- The bytes that a kind takes at least.
abbrev least_size : Kind → ℕ
least_size byte = 1
least_size Kind.char = 1
least_size Kind.boolean = 1
least_size short = 2
least_size record_ = 2
least_size long = 8
least_size int = 4
least_size collection = 4
least_size bytes_ = 4
least_size string = 4
least_size array = 0
least_size error = 0

pub can_read_inside :
    (k : Kind) (b : Bytes) (o : ℕ) → can_read k b o ≡ true → o + least_size k ≤ length b
unfolding can_read
can_read_inside byte b o h = ground arith
can_read_inside Kind.char b o h = ground arith
can_read_inside Kind.boolean b o h = ground arith
can_read_inside short b o h = ground arith
can_read_inside record_ b o h = ground arith
can_read_inside long b o h = ground arith
can_read_inside int b o h = ground arith
can_read_inside collection b o h = ground arith
can_read_inside bytes_ b o h = ground arith
can_read_inside string b o h = ground arith
can_read_inside array b o h = ground arith
can_read_inside error b o h = ground arith

read_int32_be-append :
    (o : ℕ) (b m : Bytes) → o + 4 ≤ length b → read_int32_be (b ++ m) o ≡ read_int32_be b o
unfolding read_int32_be
read_int32_be-append o b m h = rw (slice_exact-append 4 o b m h)

read_int32_be_inside :
    (o : ℕ) (b : Bytes) → o + 4 ≤ length b → (z : ℤ) × (read_int32_be b o ≡ some z)
unfolding read_int32_be
read_int32_be_inside o b h =
    (to_signed (2 ^ 32) (big_endian 0 (take 4 (drop o b))), rw (slice_exact_inside 4 o b h))

-- The block of a length that `canRead` has found to fit.
block_at-append :
    (z : ℤ) (o : ℕ) (b m : Bytes)
    → o + 4 ≤ length b
    → fits_block (some z) o (length b) ≡ true
    → block_at z (b ++ m) o ≡ block_at z b o
block_at-append (pos n) o b m h f = ap some (take-drop-append n (o + 4) b m (ground arith))
block_at-append (negsuc n) o b m h f = refl

fits_of_can_read :
    (k : Kind) (b : Bytes) (o : ℕ)
    → (k ≡ bytes_) ⊎ (k ≡ string)
    → can_read k b o ≡ true
    → fits_block (read_int32_be b o) o (length b) ≡ true
unfolding can_read
fits_of_can_read k b o (inl e) h = let h' = rw e at h in ground arith
fits_of_can_read k b o (inr e) h = let h' = rw e at h in ground arith

abbrev pub block_read : Bytes → ℕ → ℤ → Option (Raw × ℕ)
block_read b o z = some (block (block_at z b o), block_size z)

read_block-append :
    (o : ℕ) (b m : Bytes)
    → o + 4 ≤ length b
    → fits_block (read_int32_be b o) o (length b) ≡ true
    → (read_int32_be (b ++ m) o >>= block_read (b ++ m) o) ≡ (read_int32_be b o >>= block_read b o)
read_block-append o b m h f =
    let (z, e) = read_int32_be_inside o b h in
    rw (read_int32_be-append o b m h, e)
      (ap (λ x. some (block x, block_size z)) (block_at-append z o b m h (rw e at f)))

pub read_raw-append :
    (bits : ℕ → ℤ → ℤ) (k : Kind) (b m : Bytes) (o : ℕ)
    → can_read k b o ≡ true
    → read_raw bits k (b ++ m) o ≡ read_raw bits k b o
unfolding read_raw read_uint8 read_int16_be read_int32_be read_long read_uint32_be
read_raw-append bits byte b m o h = rw (slice_exact-append 1 o b m (can_read_inside byte b o h))
read_raw-append bits Kind.char b m o h =
    rw (slice_exact-append 1 o b m (can_read_inside Kind.char b o h))
read_raw-append bits Kind.boolean b m o h =
    rw (slice_exact-append 1 o b m (can_read_inside Kind.boolean b o h))
read_raw-append bits short b m o h = rw (slice_exact-append 2 o b m (can_read_inside short b o h))
read_raw-append bits int b m o h = rw (slice_exact-append 4 o b m (can_read_inside int b o h))
read_raw-append bits collection b m o h =
    rw (slice_exact-append 4 o b m (can_read_inside collection b o h))
read_raw-append bits long b m o h =
    let inside = can_read_inside long b o h in
    rw (slice_exact-append 4 (o + 4) b m (omega arith), slice_exact-append 4 o b m (omega arith))
read_raw-append bits bytes_ b m o h =
    read_block-append o b m (can_read_inside bytes_ b o h)
      (fits_of_can_read bytes_ b o (inl refl) h)
read_raw-append bits string b m o h =
    read_block-append o b m (can_read_inside string b o h)
      (fits_of_can_read string b o (inr refl) h)
read_raw-append bits record_ b m o h = refl
read_raw-append bits array b m o h = refl
read_raw-append bits error b m o h = refl

fits-append :
    (z : ℤ) (o : ℕ) (b m : Bytes)
    → o + 4 ≤ length b
    → fits_block (some z) o (length b) ≡ true
    → (if ltb (length (b ++ m)) o
        then false
        else leb (o + 4) (length (b ++ m)) && fits_block (some z) o (length (b ++ m)))
      ≡ true
fits-append (pos n) o b m h f = ground (arith, length-append b m)
fits-append (negsuc n) o b m h f = ground (arith, length-append b m)

pub can_read-append :
    (k : Kind) (b m : Bytes) (o : ℕ) → can_read k b o ≡ true → can_read k (b ++ m) o ≡ true
unfolding can_read
can_read-append bytes_ b m o h =
    let inside = can_read_inside bytes_ b o h in
    let fits = fits_of_can_read bytes_ b o (inl refl) h in
    let (z, e) = read_int32_be_inside o b inside in
    let e' = read_int32_be-append o b m inside ∙ e in
    let fits' = rw e at fits in rw e' (fits-append z o b m inside fits')
can_read-append string b m o h =
    let inside = can_read_inside string b o h in
    let fits = fits_of_can_read string b o (inr refl) h in
    let (z, e) = read_int32_be_inside o b inside in
    let e' = read_int32_be-append o b m inside ∙ e in
    let fits' = rw e at fits in rw e' (fits-append z o b m inside fits')
can_read-append byte b m o h = ground (arith, length-append b m)
can_read-append Kind.char b m o h = ground (arith, length-append b m)
can_read-append Kind.boolean b m o h = ground (arith, length-append b m)
can_read-append short b m o h = ground (arith, length-append b m)
can_read-append record_ b m o h = ground (arith, length-append b m)
can_read-append long b m o h = ground (arith, length-append b m)
can_read-append int b m o h = ground (arith, length-append b m)
can_read-append collection b m o h = ground (arith, length-append b m)
can_read-append array b m o h = ground (arith, length-append b m)
can_read-append error b m o h = ground (arith, length-append b m)

-- Whether some bytes are read with no exception, up to an offset in the buffer.
abbrev Inside : Option (Raw × ℕ) → Bytes → ℕ → Type 0
Inside none b o = ⊥
Inside (some (raw, n)) b o = o + n ≤ length b

block_read-Inside :
    (z : ℤ) (o : ℕ) (b : Bytes)
    → o + 4 ≤ length b
    → fits_block (some z) o (length b) ≡ true
    → Inside (block_read b o z) b o
block_read-Inside (pos n) o b h f = ground arith
block_read-Inside (negsuc n) o b h f = h

read_block-Inside :
    (o : ℕ) (b : Bytes)
    → o + 4 ≤ length b
    → fits_block (read_int32_be b o) o (length b) ≡ true
    → Inside (read_int32_be b o >>= block_read b o) b o
read_block-Inside o b h f =
    let (z, e) = read_int32_be_inside o b h in rw e (block_read-Inside z o b h (rw e at f))

read_raw-Inside :
    (bits : ℕ → ℤ → ℤ) (k : Kind) (b : Bytes) (o : ℕ)
    → can_read k b o ≡ true
    → Inside (read_raw bits k b o) b o
unfolding read_raw read_uint8 read_int16_be read_int32_be read_long read_uint32_be
read_raw-Inside bits byte b o h =
    let i = can_read_inside byte b o h in rw (slice_exact_inside 1 o b i) i
read_raw-Inside bits Kind.char b o h =
    let i = can_read_inside Kind.char b o h in rw (slice_exact_inside 1 o b i) i
read_raw-Inside bits Kind.boolean b o h =
    let i = can_read_inside Kind.boolean b o h in rw (slice_exact_inside 1 o b i) i
read_raw-Inside bits short b o h =
    let i = can_read_inside short b o h in rw (slice_exact_inside 2 o b i) i
read_raw-Inside bits int b o h =
    let i = can_read_inside int b o h in rw (slice_exact_inside 4 o b i) i
read_raw-Inside bits collection b o h =
    let i = can_read_inside collection b o h in rw (slice_exact_inside 4 o b i) i
read_raw-Inside bits long b o h =
    let i = can_read_inside long b o h in
    rw (slice_exact_inside 4 (o + 4) b (omega arith), slice_exact_inside 4 o b (omega arith)) i
read_raw-Inside bits bytes_ b o h =
    read_block-Inside o b (can_read_inside bytes_ b o h) (fits_of_can_read bytes_ b o (inl refl) h)
read_raw-Inside bits string b o h =
    read_block-Inside o b (can_read_inside string b o h) (fits_of_can_read string b o (inr refl) h)
read_raw-Inside bits record_ b o h = let i = can_read_inside record_ b o h in omega arith
read_raw-Inside bits array b o h = let i = can_read_inside array b o h in omega arith
read_raw-Inside bits error b o h = let i = can_read_inside error b o h in omega arith

-- Where canRead holds, the parse method of the kind reads with no exception, and the bytes that
-- it takes are in the buffer.
pub read_raw_inside :
    (bits : ℕ → ℤ → ℤ) (k : Kind) (b : Bytes) (o : ℕ)
    → can_read k b o ≡ true
    → (raw : Raw) × (n : ℕ) × (read_raw bits k b o ≡ some (raw, n)) × (o + n ≤ length b)
read_raw_inside bits k b o h = elim (Option-cases (read_raw bits k b o)) [
  | inl e ↦ absurd (rw e at (read_raw-Inside bits k b o h))
  | inr ((raw, n), e) ↦ (raw, n, e, rw e at (read_raw-Inside bits k b o h))
]
