-- ===== src/Binary/Write.antt =====
-- The write steps of lib/client/network/protocol37/operation.js, and its `buffer`. The steps that
-- it shares with lib/transport/binary/protocol33/operation.js, word for word, are `plain`.
use orientjs.Text.{Text}
use orientjs.Buffer.{Bytes}
use orientjs.Prelude.{ℕ, ◌+◌, Option, none, some, List, [], ◌∷◌, ◌>>=◌, length, ℤ, negsuc, pos}
use orientjs.Operation.Write.{overwrite, zeros, or_minus_one}
use orientjs.Operation.Write as Plain
use orientjs.Binary.{Value, integer, Runtime}

-- An entry of `writeOps`. `varint` has the bytes that varint.encode gives for the number, `varstring` a
-- text encoded as UTF-8 behind the bytes of its length, `double` the bytes of a number.
pub data WriteOp : Type 0 where
  plain : Plain.WriteOp → WriteOp
  varint : Bytes → WriteOp
  varstring : Bytes → Bytes → WriteOp
  double : Bytes → WriteOp

-- `writeVarint`
unfoldable pub write_varint : Runtime → Value → Option WriteOp
write_varint env v = env.encode v >>= λ x. some (varint x)

-- `writeVarintString`; none is null.
unfoldable pub write_varint_string : Runtime → Option Text → Option WriteOp
unfolding write_varint
write_varint_string env none = write_varint env (integer (negsuc 0))
write_varint_string env (some t) =
    env.encode (integer (pos (length (env.utf8 t)))) >>= λ n. some (varstring n (env.utf8 t))

-- `item[0]`
unfoldable pub size_of : WriteOp → ℕ
unfolding Plain.size_of
size_of (plain w) = Plain.size_of w
size_of (varint x) = length x
size_of (varstring n b) = length n + length b
size_of (double b) = 8

-- `item[1](buffer, offset)`
unfoldable pub run : WriteOp → ℕ → Bytes → Option Bytes
unfolding Plain.run overwrite zeros
run (plain w) o b = Plain.run w o b
run (varint x) o b = some (overwrite x o (overwrite (zeros (length x)) o b))
run (varstring n d) o b = some (overwrite d (o + length n) (overwrite n o b))
run (double d) o b = some (overwrite d o (overwrite (zeros 8) o b))

-- The first loop of `buffer`: the commands with their offsets, and the size of all.
unfoldable pub commands : ℕ → List WriteOp → List (WriteOp × ℕ) × ℕ
unfolding size_of
commands size [] = ([], size)
commands size (w ∷ ws) = let (cs, total) = commands (size + size_of w) ws in ((w, size) ∷ cs, total)

-- The second loop.
unfoldable pub run_commands : List (WriteOp × ℕ) → Bytes → Option Bytes
unfolding run
run_commands [] b = some b
run_commands ((w, o) ∷ cs) b = run w o b >>= run_commands cs

-- `buffer`, of an operation that has been written.
unfoldable pub buffer : List WriteOp → Option Bytes
unfolding commands run_commands zeros
buffer ws = let (cs, total) = commands 0 ws in run_commands cs (zeros total)

-- `writeHeader`: a token that is missing or empty is not written, and the session id stays.
unfoldable pub write_header : ℕ → Option ℤ → Option Bytes → List WriteOp
write_header code session (some (t ∷ ts)) =
    plain (Plain.byte code)
    ∷ plain (Plain.int (or_minus_one session))
    ∷ plain (Plain.block (t ∷ ts))
    ∷ []
write_header code session _ =
    plain (Plain.byte code) ∷ plain (Plain.int (or_minus_one session)) ∷ []
