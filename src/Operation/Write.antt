-- ===== src/Operation/Write.antt =====
-- The write steps of lib/transport/binary/protocol33/operation.js and `buffer`, which lays them
-- out in one buffer of zeros. `none` is an exception of a write: a number out of range, or a
-- place out of bounds.
pub mod Concat
use orientjs.Prelude.{
  ℕ, zero, suc, ◌+◌, ◌%◌, ◌^◌, Bool, Option, none, some, List, [], ◌∷◌, leb, if◌then◌else◌, ◌>>=◌,
  length, ℤ, pos, negsuc,
}
use orientjs.Buffer.{Bytes}
use orientjs.Writer.{to_unsigned, four_bytes, two_bytes}

-- An entry of `writeOps`. `long` has the high and the low word that Long.fromNumber finds. `block`
-- is what `writeBytes` and `writeString` push, the text encoded.
pub data WriteOp : Type 0 where
  byte : ℕ → WriteOp
  boolean : Bool → WriteOp
  char : ℕ → WriteOp
  int : ℤ → WriteOp
  long : ℤ → ℤ → WriteOp
  short : ℤ → WriteOp
  block : Bytes → WriteOp

-- `item[0]`
unfoldable pub size_of : WriteOp → ℕ
size_of (byte n) = 1
size_of (boolean b) = 1
size_of (char c) = 1
size_of (int z) = 4
size_of (long h l) = 8
size_of (short z) = 2
size_of (block b) = 4 + length b

-- Bytes put over a buffer from an offset on; what does not fit is dropped.
unfoldable pub overwrite : Bytes → ℕ → Bytes → Bytes
overwrite [] o b = b
overwrite xs o [] = []
overwrite (x ∷ xs) zero (c ∷ b) = x ∷ overwrite xs zero b
overwrite (x ∷ xs) (suc o) (c ∷ b) = c ∷ overwrite (x ∷ xs) o b

-- `buffer.writeInt32BE(z, offset)`
unfoldable pub put_int32 : ℤ → ℕ → Bytes → Option Bytes
unfolding to_unsigned overwrite
put_int32 z o b = do
  n ← to_unsigned (2 ^ 32) z
  if leb (o + 4) (length b) then some (overwrite (four_bytes n) o b) else none

-- `buffer.writeInt16BE(z, offset)`
unfoldable pub put_int16 : ℤ → ℕ → Bytes → Option Bytes
unfolding to_unsigned overwrite
put_int16 z o b = do
  n ← to_unsigned (2 ^ 16) z
  if leb (o + 2) (length b) then some (overwrite (two_bytes n) o b) else none

-- `n` zeros.
unfoldable pub zeros : ℕ → Bytes
zeros zero = []
zeros (suc n) = 0 ∷ zeros n

-- `item[1](buffer, offset)`
unfoldable pub run : WriteOp → ℕ → Bytes → Option Bytes
unfolding put_int32 put_int16 overwrite zeros
run (byte n) o b = some (overwrite (n % 256 ∷ []) o b)
run (boolean t) o b = some (overwrite ((if t then 1 else 0) ∷ []) o b)
run (char c) o b = some (overwrite (c % 256 ∷ []) o b)
run (int z) o b = put_int32 z o (overwrite (zeros 4) o b)
run (long h l) o b = put_int32 h o (overwrite (zeros 8) o b) >>= put_int32 l (o + 4)
run (short z) o b = put_int16 z o (overwrite (zeros 2) o b)
run (block d) o b = put_int32 (pos (length d)) o b >>= λ c. some (overwrite d (o + 4) c)

-- The first loop of `buffer`: the commands with their offsets, and the size of all.
unfoldable pub commands : ℕ → List WriteOp → List (WriteOp × ℕ) × ℕ
unfolding size_of
commands size [] = ([], size)
commands size (w ∷ ws) = let (cs, total) = commands (size + size_of w) ws in ((w, size) ∷ cs, total)

-- The second loop.
unfoldable pub run_commands : List (WriteOp × ℕ) → Bytes → Option Bytes
unfolding run
run_commands [] b = some b
run_commands ((w, o) ∷ cs) b = run w o b >>= run_commands cs

-- `buffer`, of an operation that has been written.
unfoldable pub buffer : List WriteOp → Option Bytes
unfolding commands run_commands zeros
buffer ws = let (cs, total) = commands 0 ws in run_commands cs (zeros total)

-- `writeString`, for the encoded text; none is null.
unfoldable pub write_string : Option Bytes → WriteOp
write_string none = int (negsuc 0)
write_string (some b) = block b

-- `sessionId || -1`
abbrev pub or_minus_one : Option ℤ → ℤ
or_minus_one none = negsuc 0
or_minus_one (some (pos zero)) = negsuc 0
or_minus_one (some z) = z

-- `writeHeader`: the steps that it pushes. A session id or a token that is missing is `none`.
unfoldable pub write_header : ℕ → Option ℤ → Option Bytes → List WriteOp
write_header code session (some (t ∷ ts)) = byte code ∷ int (negsuc 0) ∷ block (t ∷ ts) ∷ []
write_header code session _ = byte code ∷ int (or_minus_one session) ∷ []
