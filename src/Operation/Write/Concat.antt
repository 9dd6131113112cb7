-- ===== src/Operation/Write/Concat.antt =====
-- `buffer` of operation.js, which writes each step at its offset, makes the same bytes as
-- writer.js makes piece by piece.
use orientjs.Prelude.{
  ℕ, zero, suc, ◌+◌, ◌≡◌, refl, ap, ◌∙◌, Option, some, List, [], ◌∷◌, ◌++◌, arith, if◌then◌else◌,
  ◌>>=◌, length, ◌^◌, sym, inl, inr, true, leb, Option-cases, length-append, ℤ, ◌%◌, false, none,
  pos, >>=-eq-some,
}
use native.Mathlib.Nat.{zero-add}
use mathlib.Core.List.{append_assoc}
use mathlib.Core.Path.{fun_ext}
use orientjs.Buffer.{Bytes}
use orientjs.Writer.{
  to_unsigned, four_bytes, two_bytes, write_byte, write_int, write_short, write_bytes,
}
use orientjs.Operation.Write.{
  WriteOp, byte, boolean, char, int, long, short, block, size_of, overwrite, put_int32, put_int16,
  zeros, run, commands, run_commands, buffer,
}

-- The bytes of one step alone.
unfoldable pub encoded : WriteOp → Option Bytes
unfolding write_byte write_int write_short write_bytes
encoded (byte n) = some (write_byte n)
encoded (boolean b) = some (write_byte (if b then 1 else 0))
encoded (char c) = some (write_byte c)
encoded (int z) = write_int z
encoded (long h l) = write_int h >>= λ x. write_int l >>= λ y. some (x ++ y)
encoded (short z) = write_short z
encoded (block b) = write_bytes b

-- The bytes of all steps, one behind the other.
unfoldable pub concat : List WriteOp → Option Bytes
unfolding encoded
concat [] = some []
concat (w ∷ ws) = encoded w >>= λ x. concat ws >>= λ y. some (x ++ y)

pub zeros-add : (m n : ℕ) → zeros (m + n) ≡ zeros m ++ zeros n
unfolding zeros
zeros-add zero n = ap zeros (zero-add n)
zeros-add (suc m) n =
    let e : suc m + n ≡ suc (m + n) = omega arith in ap zeros e ∙ ap (◌∷◌ 0) (zeros-add m n)

pub overwrite_prefix :
    (pre x old rest : Bytes)
    → length x ≡ length old
    → overwrite x (length pre) (pre ++ (old ++ rest)) ≡ pre ++ (x ++ rest)
unfolding overwrite
overwrite_prefix [] [] [] rest h = refl
overwrite_prefix [] [] (y ∷ old) rest h = absurd (omega arith)
overwrite_prefix [] (x ∷ xs) [] rest h = absurd (omega arith)
overwrite_prefix [] (x ∷ xs) (y ∷ old) rest h =
    ap (◌∷◌ x) (overwrite_prefix [] xs old rest (omega arith))
overwrite_prefix (p ∷ pre) [] [] rest h = refl
overwrite_prefix (p ∷ pre) [] (y ∷ old) rest h = absurd (omega arith)
overwrite_prefix (p ∷ pre) (x ∷ xs) old rest h =
    ap (◌∷◌ p) (overwrite_prefix pre (x ∷ xs) old rest h)

pub length-zeros : (n : ℕ) → length (zeros n) ≡ n
unfolding zeros
length-zeros zero = refl
length-zeros (suc n) = ap suc (length-zeros n)

put_int32-prefix :
    (z : ℤ) (pre old rest : Bytes)
    → length old ≡ 4
    → put_int32 z (length pre) (pre ++ (old ++ rest))
      ≡ (write_int z >>= λ x. some (pre ++ (x ++ rest)))
unfolding put_int32 write_int
put_int32-prefix z pre old rest h = elim (Option-cases (to_unsigned (2 ^ 32) z)) [
  | inl e ↦ rw e
  | inr (n, e) ↦
      let room : leb (length pre + 4) (length (pre ++ (old ++ rest))) ≡ true =
        ground (arith, length-append pre (old ++ rest), length-append old rest) in
      rw (e, room) (ap some (overwrite_prefix pre (four_bytes n) old rest (sym h)))
]

put_int16-prefix :
    (z : ℤ) (pre old rest : Bytes)
    → length old ≡ 2
    → put_int16 z (length pre) (pre ++ (old ++ rest))
      ≡ (write_short z >>= λ x. some (pre ++ (x ++ rest)))
unfolding put_int16 write_short
put_int16-prefix z pre old rest h = elim (Option-cases (to_unsigned (2 ^ 16) z)) [
  | inl e ↦ rw e
  | inr (n, e) ↦
      let room : leb (length pre + 2) (length (pre ++ (old ++ rest))) ≡ true =
        ground (arith, length-append pre (old ++ rest), length-append old rest) in
      rw (e, room) (ap some (overwrite_prefix pre (two_bytes n) old rest (sym h)))
]

pub length-write_int : (z : ℤ) {x : Bytes} → write_int z ≡ some x → length x ≡ 4
unfolding write_int
length-write_int z h = ground (arith, to_unsigned (2 ^ 32) z)

-- Zeros written over zeros stay zeros.
overwrite-zeros :
    (pre : Bytes) (n m : ℕ)
    → overwrite (zeros n) (length pre) (pre ++ zeros (n + m)) ≡ pre ++ (zeros n ++ zeros m)
overwrite-zeros pre n m = rw zeros-add (overwrite_prefix pre (zeros n) (zeros n) (zeros m) refl)

run_int :
    (z : ℤ) (pre : Bytes) (m : ℕ)
    → run (int z) (length pre) (pre ++ zeros (4 + m))
      ≡ (write_int z >>= λ x. some (pre ++ (x ++ zeros m)))
unfolding run
run_int z pre m =
    rw (overwrite-zeros pre 4 m) (put_int32-prefix z pre (zeros 4) (zeros m) (length-zeros 4))

run_short :
    (z : ℤ) (pre : Bytes) (m : ℕ)
    → run (short z) (length pre) (pre ++ zeros (2 + m))
      ≡ (write_short z >>= λ x. some (pre ++ (x ++ zeros m)))
unfolding run
run_short z pre m =
    rw (overwrite-zeros pre 2 m) (put_int16-prefix z pre (zeros 2) (zeros m) (length-zeros 2))

pub >>=-assoc :
    {A B C : Type 0} (m : Option A) (f : A → Option B) (g : B → Option C)
    → ((m >>= f) >>= g) ≡ (m >>= λ a. f a >>= g)
>>=-assoc none f g = refl
>>=-assoc (some a) f g = refl

-- The second word of a long, behind the first.
put_low :
    (l : ℤ) (pre x : Bytes) (m : ℕ)
    → length x ≡ 4
    → put_int32 l (length pre + 4) (pre ++ (x ++ (zeros 4 ++ zeros m)))
      ≡ (write_int l >>= λ y. some (pre ++ ((x ++ y) ++ zeros m)))
put_low l pre x m h =
    let at : length pre + 4 ≡ length (pre ++ x) = omega (arith, length-append pre x) in
    rw (at, ← append_assoc pre x (zeros 4 ++ zeros m))
      (put_int32-prefix l (pre ++ x) (zeros 4) (zeros m) (length-zeros 4)
        ∙ ap (λ f. write_int l >>= f)
            (fun_ext (λ y. ap some (
              append_assoc pre x (y ++ zeros m)
              ∙ ap (λ t. pre ++ t) (sym (append_assoc x y (zeros m)))))))

run_long :
    (h l : ℤ) (pre : Bytes) (m : ℕ)
    → run (long h l) (length pre) (pre ++ zeros (8 + m))
      ≡ (encoded (long h l) >>= λ x. some (pre ++ (x ++ zeros m)))
unfolding run encoded zeros
run_long h l pre m =
    ap (λ b. put_int32 h (length pre) b >>= put_int32 l (length pre + 4)) (overwrite-zeros pre 8 m)
    ∙ ap (λ r. r >>= put_int32 l (length pre + 4))
        (put_int32-prefix h pre (zeros 4) (zeros 4 ++ zeros m) (length-zeros 4))
    ∙ elim (Option-cases (write_int h)) [
      | inl e ↦ rw e
      | inr (x, e) ↦ rw e (
          put_low l pre x m (length-write_int h e)
          ∙ sym (>>=-assoc (write_int l) (λ y. some (x ++ y)) (λ x. some (pre ++ (x ++ zeros m)))))
    ]

-- The bytes of a block, behind their length.
block_behind :
    (d pre x : Bytes) (m : ℕ)
    → length x ≡ 4
    → overwrite d (length pre + 4) (pre ++ (x ++ zeros (length d + m)))
      ≡ pre ++ ((x ++ d) ++ zeros m)
block_behind d pre x m h =
    let at : length pre + 4 ≡ length (pre ++ x) = omega (arith, length-append pre x) in
    rw (at, zeros-add, ← append_assoc pre x (zeros (length d) ++ zeros m))
      (overwrite_prefix (pre ++ x) d (zeros (length d)) (zeros m) (sym (length-zeros (length d)))
        ∙ append_assoc pre x (d ++ zeros m)
        ∙ ap (λ t. pre ++ t) (sym (append_assoc x d (zeros m))))

run_block :
    (d pre : Bytes) (m : ℕ)
    → run (block d) (length pre) (pre ++ zeros (4 + length d + m))
      ≡ (write_bytes d >>= λ x. some (pre ++ (x ++ zeros m)))
unfolding run write_bytes
run_block d pre m =
    let split : 4 + length d + m ≡ 4 + (length d + m) = omega arith in
    ap (λ k. run (block d) (length pre) (pre ++ zeros k)) split
    ∙ ap
        (λ b. put_int32 (pos (length d)) (length pre) (pre ++ b) >>= λ c.
          some (overwrite d (length pre + 4) c))
        (zeros-add 4 (length d + m))
    ∙ ap (λ r. r >>= λ c. some (overwrite d (length pre + 4) c))
        (put_int32-prefix (pos (length d)) pre (zeros 4) (zeros (length d + m)) (length-zeros 4))
    ∙ elim (Option-cases (write_int (pos (length d)))) [
      | inl e ↦ rw e
      | inr (x, e) ↦ rw e (ap some (block_behind d pre x m (length-write_int (pos (length d)) e)))
    ]

pub run_step :
    (w : WriteOp) (pre : Bytes) (m : ℕ)
    → run w (length pre) (pre ++ zeros (size_of w + m))
      ≡ (encoded w >>= λ x. some (pre ++ (x ++ zeros m)))
unfolding run encoded size_of write_byte
run_step (byte n) pre m = ap some (
    rw (zeros-add 1 m)
      (overwrite_prefix pre (n % 256 ∷ []) (zeros 1) (zeros m) (sym (length-zeros 1))))
run_step (boolean true) pre m =
    ap some (
      rw (zeros-add 1 m) (overwrite_prefix pre (1 ∷ []) (zeros 1) (zeros m) (sym (length-zeros 1))))
run_step (boolean false) pre m =
    ap some (
      rw (zeros-add 1 m) (overwrite_prefix pre (0 ∷ []) (zeros 1) (zeros m) (sym (length-zeros 1))))
run_step (char n) pre m = ap some (
    rw (zeros-add 1 m)
      (overwrite_prefix pre (n % 256 ∷ []) (zeros 1) (zeros m) (sym (length-zeros 1))))
run_step (int z) pre m = run_int z pre m
run_step (long h l) pre m = run_long h l pre m
run_step (short z) pre m = run_short z pre m
run_step (block d) pre m = run_block d pre m

-- The sizes of steps, added up.
unfoldable pub total_size : List WriteOp → ℕ
unfolding size_of
total_size [] = 0
total_size (w ∷ ws) = size_of w + total_size ws

commands-total : (ws : List WriteOp) (size : ℕ) → (commands size ws).1 ≡ size + total_size ws
unfolding commands total_size
commands-total [] size = omega arith
commands-total (w ∷ ws) size = omega (arith, commands-total ws (size + size_of w))

pub length-encoded : (w : WriteOp) {x : Bytes} → encoded w ≡ some x → length x ≡ size_of w
unfolding encoded size_of write_byte write_short write_bytes to_unsigned
length-encoded (byte n) h = ground arith
length-encoded (boolean b) h = ground arith
length-encoded (char c) h = ground arith
length-encoded (int z) h = length-write_int z h
length-encoded (long u l) {x = z} h =
    let (x, e, k) = >>=-eq-some (write_int u) (λ x. write_int l >>= λ y. some (x ++ y)) h in
    let (y, e', k') = >>=-eq-some (write_int l) (λ y. some (x ++ y)) k in
    let same : x ++ y ≡ z = cc in
    omega (arith, ap length same, length-append x y, length-write_int u e, length-write_int l e')
length-encoded (short z) h = ground (arith, to_unsigned (2 ^ 16) z)
length-encoded (block b) {x = z} h =
    let (x, e, k) = >>=-eq-some (write_int (pos (length b))) (λ n. some (n ++ b)) h in
    let same : x ++ b ≡ z = cc in
    omega (arith, ap length same, length-append x b, length-write_int (pos (length b)) e)

run_commands-concat :
    (ws : List WriteOp) (pre : Bytes)
    → run_commands (commands (length pre) ws).0 (pre ++ zeros (total_size ws))
      ≡ (concat ws >>= λ y. some (pre ++ y))
unfolding run_commands commands total_size concat
run_commands-concat [] pre = refl
run_commands-concat (w ∷ ws) pre =
    let t = total_size ws in
    ap (λ r. r >>= run_commands (commands (length pre + size_of w) ws).0) (run_step w pre t)
    ∙ elim (Option-cases (encoded w)) [
      | inl e ↦ rw e
      | inr (x, e) ↦
          let at : length pre + size_of w ≡ length (pre ++ x) =
            omega (arith, length-append pre x, length-encoded w e) in
          rw e (
            rw (at, ← append_assoc pre x (zeros t))
              (run_commands-concat ws (pre ++ x)
                ∙ ap (λ f. concat ws >>= f) (fun_ext (λ y. ap some (append_assoc pre x y)))
                ∙ sym (>>=-assoc (concat ws) (λ y. some (x ++ y)) (λ y. some (pre ++ y)))))
    ]

-- `buffer`, which computes the offsets of the write steps and runs each over one buffer of zeros,
-- gives the bytes of the single steps one behind the other, and fails exactly where one of them
-- fails.
pub buffer-concat : (ws : List WriteOp) → buffer ws ≡ concat ws
unfolding buffer
buffer-concat ws =
    let size : (commands 0 ws).1 ≡ total_size ws = omega (arith, commands-total ws 0) in
    ap (λ n. run_commands (commands 0 ws).0 (zeros n)) size
    ∙ run_commands-concat ws []
    ∙ elim (Option-cases (concat ws)) [ inl e ↦ rw e | inr (x, e) ↦ rw e ]
