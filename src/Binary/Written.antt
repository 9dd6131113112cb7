-- ===== src/Binary/Written.antt =====
-- The bytes of the steps that the serializer of lib/client/network/protocol37 pushes.
use orientjs.Prelude.{
  ◌≡◌, sym, ap, Option, some, List, [], ◌∷◌, ◌++◌, ◌>>=◌, >>=-eq-some, All, All-append, ◌∙◌, refl,
}
use mathlib.Core.List.{append_assoc, append-nil}
use orientjs.Buffer.{Bytes}
use orientjs.Binary.Write.{WriteOp}
use orientjs.Binary.Layout.{encoded, concat, IsSized}

-- The steps are there, and they make the bytes `x`.
abbrev pub Makes : List WriteOp → Bytes → Type 0
Makes ws x = (concat ws ≡ some x) × All IsSized ws

abbrev pub Written : Option (List WriteOp) → Bytes → Type 0
Written m x = (ws : List WriteOp) × (m ≡ some ws) × Makes ws x

concat-append :
    (ws vs : List WriteOp) {x y : Bytes}
    → concat ws ≡ some x
    → concat vs ≡ some y
    → concat (ws ++ vs) ≡ some (x ++ y)
unfolding concat
concat-append [] vs {x} {y} e h = let same : [] ≡ x = cc in rw (← same) h
concat-append (w ∷ ws) vs {x = z} {y} e h =
    let (a, ea, e') = >>=-eq-some (encoded w) _ e in
    let (b, eb, e'') = >>=-eq-some (concat ws) _ e' in
    let same : a ++ b ≡ z = cc in
    rw (ea, concat-append ws vs eb h) (ap some (sym (append_assoc a b y) ∙ ap (λ t. t ++ y) same))

pub Makes-append :
    (ws vs : List WriteOp) (x y : Bytes) → Makes ws x → Makes vs y → Makes (ws ++ vs) (x ++ y)
Makes-append ws vs x y (e, s) (h, t) = (concat-append ws vs e h, All-append IsSized ws vs s t)

-- Steps behind others.
pub Written-behind :
    (ws : List WriteOp) (m : Option (List WriteOp)) (x y : Bytes)
    → Makes ws x
    → Written m y
    → Written (m >>= λ vs. some (ws ++ vs)) (x ++ y)
Written-behind ws m x y h (vs, e, k) = (ws ++ vs, rw e, Makes-append ws vs x y h k)

pub Makes-one : (w : WriteOp) (x : Bytes) → IsSized w → encoded w ≡ some x → Makes (w ∷ []) x
unfolding concat
Makes-one w x s e = (rw e (ap some (append-nil x)), (s, tt))

pub Makes-cons :
    (w : WriteOp) (ws : List WriteOp) (x y : Bytes)
    → IsSized w
    → encoded w ≡ some x
    → Makes ws y
    → Makes (w ∷ ws) (x ++ y)
Makes-cons w ws x y s e h = Makes-append (w ∷ []) ws x y (Makes-one w x s e) h

-- A step and what follows it.
pub Written-cons :
    (w : WriteOp) (m : Option (List WriteOp)) (x y : Bytes)
    → IsSized w
    → encoded w ≡ some x
    → Written m y
    → Written (m >>= λ vs. some (w ∷ vs)) (x ++ y)
Written-cons w m x y s e h = Written-behind (w ∷ []) m x y (Makes-one w x s e) h

pub Written-none : Written (some []) []
unfolding concat
Written-none = ([], refl, (refl, tt))
