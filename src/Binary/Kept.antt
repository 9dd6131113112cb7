-- ===== src/Binary/Kept.antt =====
-- The values that the format of lib/client/network/protocol37 keeps, and what is assumed of the
-- packages and the runtime.
use orientjs.Prelude.{
  ℕ, ◌^◌, ◌<◌, ◌≡◌, ◌⊎◌, true, false, ◌&&◌, none, some, ◌∷◌, ◌++◌, length, drop, ℤ, pos, negsuc,
  eq_ℤ, [],
}
use orientjs.Text.{Text, codes}
use orientjs.Buffer.{Bytes}
use orientjs.Writer.{Fits}
use orientjs.Binary.{
  Value, null, boolean, integer, fraction, string, link, date, array, object, Values, empty, cons,
  Fields, end, field, Runtime, find,
}
use orientjs.Binary.Serializer.{is_written, count, count_written, starts_with_link}

-- The numbers that a signed varint holds exactly: those whose zigzag form is a safe integer.
abbrev pub IsExact : ℤ → Type 0
IsExact z = Fits (2 ^ 53) z

-- UTF-8 keeps the text (no lone surrogates), and its bytes can be counted.
abbrev pub IsKeptText : Runtime → Text → Type 0
IsKeptText env t = (env.text_of (env.utf8 t) ≡ t) × (length (env.utf8 t) < 2 ^ 52)

-- What the code relies on: `signed-varint` decodes what it encoded, wherever it stands in a
-- buffer, with the number of its bytes, and UTF-8 keeps the empty text.
pub record Lawful (env : Runtime) : Type 0 where
  pub number_bytes : ℤ → Bytes
  pub encode_exact : (z : ℤ) → IsExact z → env.encode (integer z) ≡ some (number_bytes z)
  pub decode_exact :
      (z : ℤ) (b rest : Bytes) (o : ℕ)
      → IsExact z
      → drop o b ≡ number_bytes z ++ rest
      → env.decode b (pos o) ≡ some (z, pos (length (number_bytes z)))
  pub empty_kept : IsKeptText env []

-- The record id (-2, -1) stands for null.
abbrev pub IsKeptLink : ℤ → ℤ → Type 0
IsKeptLink c p = IsExact c × IsExact p × ((eq_ℤ c (negsuc 1) && eq_ℤ p (negsuc 0)) ≡ false)

-- No key occurs twice, nor among the fields before.
abbrev pub append_fields : Fields → Fields → Fields
append_fields end gs = gs
append_fields (field k v fs) gs = field k v (append_fields fs gs)

unfoldable pub AreNew : Fields → Fields → Type 0
AreNew before end = Unit
AreNew before (field k v fs) =
    (find k before ≡ none) × AreNew (append_fields before (field k v end)) fs

unfoldable pub AreLinks : Values → Type 0
AreLinks empty = Unit
AreLinks (cons v vs) = ((c : ℤ) × (p : ℤ) × (v ≡ link c p) × IsKeptLink c p) × AreLinks vs

-- The class of a document: a text other than the empty one.
abbrev pub IsClass : Runtime → Value → Type 0
IsClass env v = (a : ℕ) × (c : Text) × (v ≡ string (a ∷ c)) × IsKeptText env (a ∷ c)

-- null, booleans, exact integers, other numbers by their eight bytes, texts, dates, record ids,
-- arrays of record ids, arrays that do not begin with one, and objects whose keys differ.
unfoldable mutual
  unfolding AreNew AreLinks

  pub IsKept : Runtime → Value → Type 0
  IsKept env null = Unit
  IsKept env (boolean b) = Unit
  IsKept env (integer z) = IsExact z
  IsKept env (fraction b) = (length b ≡ 8) × (env.read_double b ≡ fraction b)
  IsKept env (string t) = IsKeptText env t
  IsKept env (date z) = IsExact z
  IsKept env (link c p) = IsKeptLink c p
  IsKept env (array vs) =
      (count vs < 2 ^ 32)
      × (((starts_with_link vs ≡ true) × AreLinks vs)
          ⊎ ((starts_with_link vs ≡ false) × AreKept env vs))
  IsKept env (object fs) = IsKeptObject env fs
  IsKept env _ = ⊥

  pub AreKept : Runtime → Values → Type 0
  AreKept env empty = Unit
  AreKept env (cons v vs) = IsKept env v × AreKept env vs

  -- Fields with other keys than `@class` and `@rid`.
  pub AreKeptFields : Runtime → Fields → Type 0
  AreKeptFields env end = Unit
  AreKeptFields env (field k v fs) =
      (is_written k ≡ true) × IsKeptText env k × IsKept env v × AreKeptFields env fs

  -- An object with no class, or one whose class is its first field.
  pub IsKeptObject : Runtime → Fields → Type 0
  IsKeptObject env end = Unit
  IsKeptObject env (field k v fs) =
      ((k ≡ codes "@class")
        × IsClass env v
        × AreNew (field k v end) fs
        × (count_written fs < 2 ^ 32)
        × AreKeptFields env fs)
      ⊎ (AreNew end (field k v fs)
          × (count_written (field k v fs) < 2 ^ 32)
          × (is_written k ≡ true)
          × IsKeptText env k
          × IsKept env v
          × AreKeptFields env fs)
