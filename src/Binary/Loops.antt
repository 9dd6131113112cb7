-- ===== src/Binary/Loops.antt =====
-- The loops of lib/client/network/protocol37/deserializer-binary.js over what was written.
use mathlib.Core.List.{append_assoc}
use orientjs.Text.{Text, text_eq}
use orientjs.Prelude.{
  ◌≡◌, refl, ap, inl, inr, none, Bool-cases, ℕ, suc, ◌+◌, ◌∙◌, Option, some, [], ◌++◌, arith,
  length, drop, length-append, ℤ, pos,
}
use orientjs.Buffer.{Bytes}
use orientjs.Binary.{Value, Values, empty, cons, Fields, end, field, find, set_field, push}
use orientjs.Binary.Kept.{append_fields}
use orientjs.Binary.Parse.{for_loop}
use orientjs.Binary.Reads.{advance}

abbrev pub append_values : Values → Values → Values
append_values empty ws = ws
append_values (cons v vs) ws = cons v (append_values vs ws)

pub push-append :
    (v : Value) (vs ws : Values) → append_values (push v vs) ws ≡ append_values vs (cons v ws)
unfolding push
push-append v empty ws = refl
push-append v (cons u vs) ws = ap (cons u) (push-append v vs ws)

pub append_fields_assoc :
    (fs gs hs : Fields)
    → append_fields (append_fields fs gs) hs ≡ append_fields fs (append_fields gs hs)
append_fields_assoc end gs hs = refl
append_fields_assoc (field k v fs) gs hs = ap (field k v) (append_fields_assoc fs gs hs)

pub append_values-empty : (vs : Values) → append_values vs empty ≡ vs
append_values-empty empty = refl
append_values-empty (cons v vs) = ap (cons v) (append_values-empty vs)

pub append_fields-end : (fs : Fields) → append_fields fs end ≡ fs
append_fields-end end = refl
append_fields-end (field k v fs) = ap (field k v) (append_fields-end fs)

-- A new key comes last.
pub set_field-new :
    (k : Text) (v : Value) (fs : Fields)
    → find k fs ≡ none
    → set_field k v fs ≡ append_fields fs (field k v end)
unfolding set_field find
set_field-new k v end h = refl
set_field-new k v (field j w fs) h = elim (Bool-cases (text_eq j k)) [
  | inl e ↦ cc (rw e at h)
  | inr e ↦ let h' : find k fs ≡ none = rw e at h in rw e (ap (field j w) (set_field-new k v fs h'))
]

module _ {S : Type 0} (round : Bytes → S → ℤ → Option (S × ℤ)) where
  -- At the bytes `x`, `n` rounds lead from `s` to `t`, to the end of these bytes.
  abbrev pub Iterates : ℕ → S → S → Bytes → Type 0
  Iterates n s t x =
      (b rest : Bytes) (o : ℕ)
      → drop o b ≡ x ++ rest
      → for_loop (round b) n s (pos o) ≡ some (t, pos (o + length x))

  -- The same of one round.
  abbrev pub Steps : S → S → Bytes → Type 0
  Steps s t x =
      (b rest : Bytes) (o : ℕ)
      → drop o b ≡ x ++ rest
      → round b s (pos o) ≡ some (t, pos (o + length x))

  pub Iterates-none : (s : S) → Iterates 0 s s []
  unfolding for_loop
  Iterates-none s b rest o h = ap (λ k. some (s, pos k)) (omega arith)

  pub Iterates-cons :
      (n : ℕ) (s t u : S) (x y : Bytes)
      → Steps s t x
      → Iterates n t u y
      → Iterates (suc n) s u (x ++ y)
  unfolding for_loop
  Iterates-cons n s t u x y first then_rest b rest o h =
      let h' : drop o b ≡ x ++ (y ++ rest) = h ∙ append_assoc x y rest in
      let total : (o + length x) + length y ≡ o + length (x ++ y) =
        omega (arith, length-append x y) in
      rw
        (
          first b (y ++ rest) o h',
          then_rest b rest (o + length x) (advance x b (y ++ rest) o h'),
          total,
        )
        refl
