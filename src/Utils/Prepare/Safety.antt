-- ===== src/Utils/Prepare/Safety.antt =====
-- What `prepare` and `encode` of lib/utils.js do to the literals of a query.
use orientjs.Text.{Text}
use orientjs.Prelude.{
  ℕ, zero, suc, ◌<◌, ◌≡◌, refl, true, false, some, List, [], ◌∷◌, ◌++◌, arith, ◌==◌, ==_refl,
  length, ap, length-append,
}
use mathlib.Core.List.{append_assoc}
use orientjs.Utils.Encode.{Value, encode}
use orientjs.Utils.Prepare.{match_literal, put_before, next_param, array_fuel, prepare_array}
use orientjs.Utils.Quoting.{
  Token, quoted, hole, plain, Body, nil, escaped, single, is_quote, Lexes, done, literal, mark,
  other,
}

match_literal-single :
    (q c : ℕ) (u : Text)
    → (c == q) ≡ false
    → (c == b'\\') ≡ false
    → match_literal q (c ∷ u) ≡ put_before (c ∷ []) (match_literal q u)
unfolding match_literal
match_literal-single q c [] h k = rw h
match_literal-single q c (d ∷ u) h k = rw (h, k)

match_literal-close : (q : ℕ) (t : Text) → match_literal q (q ∷ t) ≡ some (q ∷ [], t)
unfolding match_literal
match_literal-close q [] = rw ==_refl
match_literal-close q (d ∷ t) = rw ==_refl

match_literal_pair :
    (q d : ℕ) (u : Text) {r : Text × Text}
    → is_quote q ≡ true
    → match_literal q u ≡ some r
    → match_literal q (b'\\' ∷ d ∷ u) ≡ some (b'\\' ∷ d ∷ r.0, r.1)
unfolding match_literal
match_literal_pair q d u h e = rw e (ground arith)

match_literal-Body :
    (q : ℕ) {body : Text} (t : Text)
    → is_quote q ≡ true
    → Body q body
    → match_literal q (body ++ q ∷ t) ≡ some (body ++ q ∷ [], t)
match_literal-Body q t h nil = match_literal-close q t
match_literal-Body q t h (escaped {t = u} c b) =
    match_literal_pair q c (u ++ q ∷ t) h (match_literal-Body q t h b)
match_literal-Body q t h (single {t = u} c e k b) =
    rw (match_literal-single q c (u ++ q ∷ t) e k) (rw (match_literal-Body q t h b))

-- The tokens written out again, with the parameters in the places of the holes, in their order.
unfoldable pub fill : List Token → List Value → Text
unfolding encode
fill [] ps = []
fill (quoted q b ∷ ts) ps = q ∷ (b ++ (q ∷ fill ts ps))
fill (hole ∷ ts) ps = encode (next_param ps).0 ++ fill ts (next_param ps).1
fill (plain c ∷ ts) ps = c ∷ fill ts ps

array_fuel-fill :
    (f : ℕ) {t : Text} {ts : List Token} (ps : List Value)
    → length t < f
    → Lexes t ts
    → array_fuel f t ps ≡ fill ts ps
unfolding array_fuel fill
array_fuel-fill zero ps h l = elim h [ ]
array_fuel-fill (suc f) ps h done = refl
array_fuel-fill (suc f) ps h (literal {body = b} {t = t} {u = u} q e k s l) =
    let short : length t < f = omega (arith, ap length s, length-append b (q ∷ t)) in
    rw s (
      rw (e, array_fuel)
        (rw (match_literal-Body q t e k) (rw (array_fuel-fill f ps short l, append_assoc))))
array_fuel-fill (suc f) ps h (mark l) =
    ap (◌++◌ (encode (next_param ps).0)) (array_fuel-fill f (next_param ps).1 (omega arith) l)
array_fuel-fill (suc f) ps h (other {t = t} c e k l) =
    rw (e, array_fuel) (rw (k, array_fuel) (ap (◌∷◌ c) (array_fuel-fill f ps (omega arith) l)))

-- On a query that falls into whole literals, place holders and other characters, `prepareArray`
-- puts the encoded parameters into the place holders in their order, null where they run out, and
-- leaves everything else as it was, the question marks inside of literals too.
pub prepare_array-fill :
    {query : Text} {ts : List Token} (ps : List Value)
    → Lexes query ts
    → prepare_array query ps ≡ fill ts ps
unfolding prepare_array
prepare_array-fill {query} ps l = array_fuel-fill (suc (length query)) ps (omega arith) l
