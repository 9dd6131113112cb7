-- ===== src/Binary/Reads.antt =====
-- Parsers of lib/client/network/protocol37/deserializer-binary.js that read given bytes, wherever
-- these stand in a buffer.
use mathlib.Core.List.{append_assoc}
use native.Mathlib.Nat.{zero-add}
use orientjs.Text.{Text}
use orientjs.Prelude.{
  minus_start, ℕ, zero, suc, ◌+◌, ◌-◌, ◌≡◌, refl, ap, Option, some, [], ◌∷◌, ◌++◌, arith, length,
  take, drop, ℤ, pos, ◌∙◌, length-append, drop-length_append, ◌+ℤ◌, sym,
}
use orientjs.Buffer.{Bytes, slice_exact, to_signed}
use orientjs.Binary.{link, Runtime}
use orientjs.Binary.Parse.{read_int8, slice_inside, parse_string, parse_link, parse_double}
use orientjs.Binary.Kept.{Lawful, IsExact, IsKeptText, IsKeptLink}

-- At any offset at which the bytes `x` stand, the parser gives `a` and the length of `x`.
abbrev pub Gives : {A : Type 0} → (Bytes → ℤ → Option (A × ℤ)) → Bytes → A → Type 0
Gives p x a =
    (b rest : Bytes) (o : ℕ) → drop o b ≡ x ++ rest → p b (pos o) ≡ some (a, pos (length x))

drop-nil : (n : ℕ) → drop {A = ℕ} n [] ≡ []
drop-nil zero = refl
drop-nil (suc n) = refl

drop-add : (m n : ℕ) (b : Bytes) → drop (m + n) b ≡ drop n (drop m b)
drop-add zero n b = ap (λ k. drop k b) (zero-add n)
drop-add (suc m) n [] = let e : suc m + n ≡ suc (m + n) = omega arith in rw e (sym (drop-nil n))
drop-add (suc m) n (c ∷ b) = let e : suc m + n ≡ suc (m + n) = omega arith in rw e (drop-add m n b)

-- What stands behind the bytes `x`.
pub advance : (x b rest : Bytes) (o : ℕ) → drop o b ≡ x ++ rest → drop (o + length x) b ≡ rest
advance x b rest o h = drop-add o (length x) b ∙ rw h (drop-length_append x rest)

pub read_int8_at :
    (b rest : Bytes) (o t : ℕ) → drop o b ≡ t ∷ rest → read_int8 b o ≡ some (to_signed 256 t)
unfolding read_int8 slice_exact
read_int8_at b rest o t h = rw h (simp zero-add)

take_front : (x rest : Bytes) → take (length x) (x ++ rest) ≡ x
take_front [] rest = refl
take_front (c ∷ x) rest = ap (◌∷◌ c) (take_front x rest)

-- The bytes `x` of a slice.
slice_inside_at :
    (x b rest : Bytes) (o : ℕ)
    → drop o b ≡ x ++ rest
    → slice_inside b (pos o) (pos o +ℤ pos (length x)) ≡ x
unfolding slice_inside
slice_inside_at x b rest o h =
    let n : o + length x - o ≡ length x = omega arith in rw (n, h) (take_front x rest)

module _ (env : Runtime) (law : Lawful env) where
  open law use {number_bytes, encode_exact, decode_exact}

  abbrev pub text_bytes : Text → Bytes
  text_bytes t = number_bytes (pos (length (env.utf8 t))) ++ env.utf8 t

  pub Gives-number : (z : ℤ) → IsExact z → Gives env.decode (number_bytes z) z
  Gives-number z h b rest o e = decode_exact z b rest o h e

  pub Gives-text : (t : Text) → IsKeptText env t → Gives (parse_string env) (text_bytes t) t
  unfolding parse_string
  Gives-text t (same, fits) b rest o e =
      let u = env.utf8 t in
      let n = number_bytes (pos (length u)) in
      let e' : drop o b ≡ n ++ (u ++ rest) = e ∙ append_assoc n u rest in
      rw
        (
          Gives-number (pos (length u)) (omega arith) b (u ++ rest) o e',
          slice_inside_at u b rest (o + length n) (advance n b (u ++ rest) o e'),
          same,
          length-append n u,
        )
        refl

  abbrev pub link_bytes : ℤ → ℤ → Bytes
  link_bytes c p = number_bytes c ++ number_bytes p

  pub Gives-link : (c p : ℤ) → IsKeptLink c p → Gives (parse_link env) (link_bytes c p) (link c p)
  unfolding parse_link
  Gives-link c p (hc, hp, other) b rest o e =
      let x = number_bytes c in
      let y = number_bytes p in
      let e' : drop o b ≡ x ++ (y ++ rest) = e ∙ append_assoc x y rest in
      let total : (o + length x) + length y ≡ o + length (x ++ y) =
        omega (arith, length-append x y) in
      rw
        (
          Gives-number c hc b (y ++ rest) o e',
          Gives-number p hp b rest (o + length x) (advance x b (y ++ rest) o e'),
          other,
          total,
          minus_start o (length (x ++ y)),
        )
        refl

pub Gives-double :
    (env : Runtime) (d : Bytes) → length d ≡ 8 → Gives (parse_double env) d (env.read_double d)
unfolding parse_double slice_exact
Gives-double env d h b rest o e =
    let front : take 8 (d ++ rest) ≡ d = rw (← h) (take_front d rest) in rw (e, front, h) refl
