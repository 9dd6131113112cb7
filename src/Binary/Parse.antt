-- ===== src/Binary/Parse.antt =====
-- lib/client/network/protocol37/deserializer-binary.js: numbers, texts, links and decimals. A parser
-- gives the value and how many bytes it read; `none` is an exception.
use orientjs.Prelude.{
  ℕ, zero, suc, ◌-◌, ◌^◌, ◌&&◌, Option, none, some, [], ◌∷◌, leb, if◌then◌else◌, ◌>>=◌, length,
  take, drop, ℤ, pos, negsuc, pos_part, eq_ℤ, true, false,
}
use orientjs.Text.{Text}
use orientjs.Buffer.{Bytes, byte_at, slice_exact, read_int32_be, big_endian, to_signed}
use orientjs.Binary.{
  Value, null, link, array, object, Values, empty, Fields, end, Runtime, set_field, push,
}
use orientjs.Prelude.{◌+ℤ◌, ◌-ℤ◌}

-- A read of a buffer at an offset that may be negative, which is out of bounds.
abbrev pub at : {A : Type 0} → (Bytes → ℕ → Option A) → Bytes → ℤ → Option A
at read b (pos o) = read b o
at read b (negsuc o) = none

-- `input.readInt8(offset)`
unfoldable pub read_int8 : Bytes → ℕ → Option ℤ
unfolding slice_exact
read_int8 b o = slice_exact 1 b o >>= λ s. some (to_signed 256 (big_endian 0 s))

-- The bytes from `start` to `stop` that `input.toString` takes: what is out of bounds is cut off.
unfoldable pub slice_inside : Bytes → ℤ → ℤ → Bytes
slice_inside b start stop = take (pos_part stop - pos_part start) (drop (pos_part start) b)

-- An index of `input.slice`: a negative one counts from the end.
abbrev pub from_end : Bytes → ℤ → ℤ
from_end b (pos n) = pos n
from_end b (negsuc n) = pos (length b - suc n)

-- `for (let i = 0; i < n; i++)`, each round on the state and the offset.
unfoldable pub for_loop : {S : Type 0} → (S → ℤ → Option (S × ℤ)) → ℕ → S → ℤ → Option (S × ℤ)
for_loop round zero s offset = some (s, offset)
for_loop round (suc n) s offset = round s offset >>= λ r. for_loop round n r.0 r.1

-- `map[key] = value`, `null` for a missing record id.
abbrev pub link_value : ℤ → ℤ → Value
link_value c p = if eq_ℤ c (negsuc 1) && eq_ℤ p (negsuc 0) then null else link c p

-- `buffer[cur] ^ 0xff`
abbrev pub flipped : Bytes → Bytes
flipped [] = []
flipped (c ∷ b) = (255 - c) ∷ flipped b

-- `realScale`: ten to the scale, and 1 for a scale below zero.
unfoldable pub real_scale : ℤ → ℕ
real_scale (pos n) = 10 ^ n
real_scale (negsuc n) = 1

module _ (env : Runtime) (input : Bytes) where
  -- `parseVarintNumber`
  abbrev pub parse_number : ℤ → Option (ℤ × ℤ)
  parse_number offset = env.decode input offset

  abbrev pub number_value : (ℤ → Value) → ℤ → Option (Value × ℤ)
  number_value make offset = parse_number offset >>= λ r. some (make r.0, r.1)

  -- `parseString`
  unfoldable pub parse_string : ℤ → Option (Text × ℤ)
  unfolding slice_inside
  parse_string offset = do
    size ← parse_number offset
    let start = offset +ℤ size.1
    some (env.text_of (slice_inside input start (start +ℤ size.0)), size.1 +ℤ size.0)

  -- `parseByte`, and `parseBoolean` by it.
  unfoldable pub parse_byte : ℤ → Option (ℤ × ℤ)
  unfolding read_int8
  parse_byte offset = at read_int8 input offset >>= λ z. some (z, pos 1)

  -- `parseFloatNumber` and `parseDoubleNumber`
  unfoldable pub parse_float : ℤ → Option (Value × ℤ)
  unfolding slice_exact
  parse_float offset = at (slice_exact 4) input offset >>= λ b. some (env.read_float b, pos 4)

  unfoldable pub parse_double : ℤ → Option (Value × ℤ)
  unfolding slice_exact
  parse_double offset = at (slice_exact 8) input offset >>= λ b. some (env.read_double b, pos 8)

  -- `parseLink`
  unfoldable pub parse_link : ℤ → Option (Value × ℤ)
  parse_link offset = do
    c ← parse_number offset
    let middle = offset +ℤ c.1
    p ← parse_number middle
    some (link_value c.0 p.0, (middle +ℤ p.1) -ℤ offset)

  -- A round of the loops over links.
  abbrev pub link_round : Values → ℤ → Option (Values × ℤ)
  link_round vs offset = parse_link offset >>= λ r. some (push r.0 vs, offset +ℤ r.1)

  -- The size, and as many links.
  abbrev pub sized_links : ℤ → Option (Values × ℤ)
  sized_links offset = do
    size ← parse_number offset
    for_loop link_round (pos_part size.0) empty (offset +ℤ size.1)

  -- `parseLinkCollection`
  unfoldable pub parse_link_collection : ℤ → Option (Value × ℤ)
  unfolding parse_link for_loop push
  parse_link_collection offset = do r ← sized_links offset; some (array r.0, r.1 -ℤ offset)

  -- `parseLinkMap`: the type of a key is skipped.
  unfoldable pub link_map_round : Fields → ℤ → Option (Fields × ℤ)
  unfolding parse_string parse_link read_int8 set_field
  link_map_round fs offset = do
    type ← at read_int8 input offset
    let here = offset +ℤ pos 1
    key ← parse_string here
    let behind = here +ℤ key.1
    rid ← parse_link behind
    some (set_field key.0 rid.0 fs, behind +ℤ rid.1)

  unfoldable pub parse_link_map : ℤ → Option (Value × ℤ)
  unfolding for_loop link_map_round
  parse_link_map offset = do
    size ← parse_number offset
    r ← for_loop link_map_round (pos_part size.0) end (offset +ℤ size.1)
    some (object r.0, r.1 -ℤ offset)

  -- `parseInteger`
  unfoldable pub parse_integer : ℤ → Option (ℤ × ℤ)
  unfolding read_int32_be
  parse_integer offset = at read_int32_be input offset >>= λ z. some (z, pos 4)

  -- `parseBytes`
  unfoldable pub parse_bytes : ℤ → Option (Bytes × ℤ)
  unfolding parse_integer slice_inside
  parse_bytes offset = do
    size ← parse_integer offset
    let start = offset +ℤ size.1
    some (
      slice_inside input (from_end input start) (from_end input (start +ℤ size.0)),
      size.1 +ℤ size.0,
    )

  -- The number of `decimalRead`; the bytes are two's complement. It flips the bytes in place,
  -- which nothing reads again.
  unfoldable pub decimal_number : Bytes → ℤ
  decimal_number b =
      if leb 128 (byte_at 0 b)
      then env.big_number true (flipped b) -ℤ pos 1
      else env.big_number false b

  -- `parseDecimal`
  unfoldable pub parse_decimal : ℤ → Option (Value × ℤ)
  unfolding parse_integer parse_bytes real_scale decimal_number
  parse_decimal offset = do
    scale ← parse_integer offset
    b ← parse_bytes (offset +ℤ scale.1)
    some (env.divide (decimal_number b.0) (real_scale scale.0), scale.1 +ℤ b.1)
