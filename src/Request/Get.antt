-- ===== src/Request/Get.antt =====
-- Readers of bytes, and the write steps of lib/transport/binary/protocol33/operation.js that send
-- what they get.
use orientjs.Prelude.{
  ℕ, ◌+◌, ◌*◌, ◌^◌, ◌≡◌, refl, sym, ap, ◌∙◌, Option, none, some, List, [], ◌∷◌, ◌++◌, leb,
  if◌then◌else◌, ◌>>=◌, >>=-eq-some, length, take, drop, ℤ, pos, negsuc, ◌-◌, ◌/◌, ◌%◌, ◌<◌, ◌⊎◌,
  inl, inr, true, arith, length-append, drop-length_append, take-length_append,
}
use mathlib.Core.List.{append_assoc, append-nil}
use orientjs.Buffer.{Bytes, to_signed}
use orientjs.Buffer.Reads.{word}
use orientjs.Writer.{
  Fits, to_unsigned, four_bytes, two_bytes, write_int, write_short, write_bytes, write_byte,
}
use orientjs.Operation.Write.{WriteOp, byte, boolean, int, long, short, block}
use orientjs.Operation.Write.Concat.{encoded, concat}

-- A value, and the bytes behind it.
abbrev pub Get {ℓ} : Type ℓ → Type ℓ
Get A = Bytes → Option (A × Bytes)

abbrev pub and_then : {A B : Type 0} → Get A → (A → Get B) → Get B
and_then g k b = g b >>= λ r. k r.0 r.1

abbrev pub give : {A : Type 0} → A → Get A
give a b = some (a, b)

unfoldable pub get_byte : Get ℕ
get_byte [] = none
get_byte (c ∷ b) = some (c, b)

unfoldable pub get_short : Get ℤ
get_short (x ∷ y ∷ b) = some (to_signed (2 ^ 16) (x * 256 + y), b)
get_short _ = none

unfoldable pub get_int : Get ℤ
get_int (w ∷ x ∷ y ∷ z ∷ b) = some (to_signed (2 ^ 32) (word w x y z), b)
get_int _ = none

-- A 64-bit integer, by its two words.
unfoldable pub get_long : Get (ℤ × ℤ)
unfolding get_int
get_long = and_then get_int (λ h. and_then get_int (λ l. give (h, l)))

-- A length and as many bytes.
abbrev get_sized : ℤ → Get Bytes
get_sized (pos n) b = if leb n (length b) then some (take n b, drop n b) else none
get_sized (negsuc n) b = none

unfoldable pub get_block : Get Bytes
unfolding get_int
get_block = and_then get_int get_sized

-- The steps make bytes from which the reader gets the value, whatever follows.
abbrev pub Sends : {A : Type 0} → List WriteOp → Get A → A → Type 0
Sends ws g a =
    (x : Bytes) × (concat ws ≡ some x) × ((rest : Bytes) → g (x ++ rest) ≡ some (a, rest))

pub Sends-give : {A : Type 0} (a : A) → Sends [] (give a) a
unfolding concat
Sends-give a = ([], refl, λ rest. refl)

concat-append :
    (ws vs : List WriteOp) {x y : Bytes}
    → concat ws ≡ some x
    → concat vs ≡ some y
    → concat (ws ++ vs) ≡ some (x ++ y)
unfolding concat
concat-append [] vs {x} {y} e h = let same : [] ≡ x = cc in rw (← same) h
concat-append (w ∷ ws) vs {x = z} {y} e h =
    let (a, ea, e') = >>=-eq-some (encoded w) _ e in
    let (b, eb, e'') = >>=-eq-some (concat ws) _ e' in
    let same : a ++ b ≡ z = cc in
    rw (ea, concat-append ws vs eb h) (ap some (sym (append_assoc a b y) ∙ ap (λ t. t ++ y) same))

pub Sends-and_then :
    {A B : Type 0} (ws vs : List WriteOp) (g : Get A) (k : A → Get B) (a : A) (c : B)
    → Sends ws g a
    → Sends vs (k a) c
    → Sends (ws ++ vs) (and_then g k) c
Sends-and_then ws vs g k a c (x, e, r) (y, f, s) =
    (x ++ y, concat-append ws vs e f, λ rest. rw (append_assoc x y rest, r (y ++ rest)) (s rest))

Sends-bytes :
    {A : Type 0} (w : WriteOp) (g : Get A) (a : A) (x : Bytes)
    → encoded w ≡ some x
    → ((rest : Bytes) → g (x ++ rest) ≡ some (a, rest))
    → Sends (w ∷ []) g a
unfolding concat
Sends-bytes w g a x e r = (x, rw e (ap some (append-nil x)), r)

pub Sends-byte : (n : ℕ) → n < 256 → Sends (byte n ∷ []) get_byte n
unfolding encoded write_byte get_byte
Sends-byte n h =
    Sends-bytes (byte n) get_byte n (n % 256 ∷ []) refl
      (λ rest. ap (λ k. some (k, rest)) (omega arith))

pub Sends-true : Sends (boolean true ∷ []) get_byte 1
unfolding encoded write_byte get_byte
Sends-true = Sends-bytes (boolean true) get_byte 1 (1 ∷ []) refl (λ rest. refl)

-- Two's complement, there and back.
unsigned_lem :
    (w : ℕ) (z : ℤ)
    → (w ≡ 2 ^ 16) ⊎ (w ≡ 2 ^ 32)
    → Fits w z
    → (n : ℕ) × (to_unsigned w z ≡ some n) × (to_signed w n ≡ z) × (n < w)
unfolding to_unsigned
unsigned_lem w (pos n) c h = (n, ground arith, ground arith, omega arith)
unsigned_lem w (negsuc n) c h = (w - n - 1, ground arith, ground arith, omega arith)

pub Sends-short : (z : ℤ) → Fits (2 ^ 16) z → Sends (short z ∷ []) get_short z
unfolding encoded write_short get_short
Sends-short z h =
    let (n, e, s, k) = unsigned_lem (2 ^ 16) z (inl refl) h in
    let back : n / 256 * 256 + n % 256 ≡ n = omega arith in
    Sends-bytes (short z) get_short z (two_bytes n) (rw e refl) (λ rest. rw (back, s) refl)

pub Sends-int : (z : ℤ) → Fits (2 ^ 32) z → Sends (int z ∷ []) get_int z
unfolding encoded write_int get_int
Sends-int z h =
    let (n, e, s, k) = unsigned_lem (2 ^ 32) z (inr refl) h in
    let back : word (n / 16777216) (n / 65536 % 256) (n / 256 % 256) (n % 256) ≡ n = omega arith in
    Sends-bytes (int z) get_int z (four_bytes n) (rw e refl) (λ rest. rw (back, s) refl)

-- An integer alone, as `write_int` gives it.
int_bytes :
    (z : ℤ)
    → Fits (2 ^ 32) z
    → (x : Bytes) × (write_int z ≡ some x) × ((rest : Bytes) → get_int (x ++ rest) ≡ some (z, rest))
unfolding write_int get_int
int_bytes z h =
    let (n, e, s, k) = unsigned_lem (2 ^ 32) z (inr refl) h in
    let back : word (n / 16777216) (n / 65536 % 256) (n / 256 % 256) (n % 256) ≡ n = omega arith in
    (four_bytes n, rw e refl, λ rest. rw (back, s) refl)

pub Sends-long :
    (h l : ℤ) → Fits (2 ^ 32) h → Fits (2 ^ 32) l → Sends (long h l ∷ []) get_long (h, l)
unfolding encoded get_long
Sends-long h l fh fl =
    let (x, e, r) = int_bytes h fh in
    let (y, f, s) = int_bytes l fl in
    Sends-bytes (long h l) get_long (h, l) (x ++ y) (rw (e, f) refl)
      (λ rest. rw (append_assoc x y rest, r (y ++ rest), s rest) refl)

pub Sends-block : (d : Bytes) → length d < 2 ^ 31 → Sends (block d ∷ []) get_block d
unfolding encoded write_bytes get_block
Sends-block d h =
    let (x, e, r) = int_bytes (pos (length d)) (omega arith) in
    Sends-bytes (block d) get_block d (x ++ d) (rw e refl) (λ rest.
      let room : leb (length d) (length (d ++ rest)) ≡ true =
        ground (arith, length-append d rest) in
      rw
        (
          append_assoc x d rest,
          r (d ++ rest),
          room,
          take-length_append d rest,
          drop-length_append d rest,
        )
        refl)
