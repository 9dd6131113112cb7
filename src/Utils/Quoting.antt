-- ===== src/Utils/Quoting.antt =====
-- A query as a row of tokens: quoted literals, place holders, and single characters. This is the
-- description against which `prepare` is held.
use orientjs.Text.{Text}
use orientjs.Prelude.{
  ℕ, ◌≡◌, refl, Bool, true, false, ◌||◌, List, [], ◌∷◌, ◌++◌, ◌==◌, All, not, ◌&&◌, arith,
}
use mathlib.Core.List.{append_assoc}

pub data Token : Type 0 where
  quoted : ℕ → Text → Token
  hole : Token
  plain : ℕ → Token

-- The inside of a literal in the quotes `q`: a backslash takes the next character with it.
pub data Body (q : ℕ) : Text → Type 0 where
  nil : Body q []
  escaped : {t : Text} (c : ℕ) → Body q t → Body q (b'\\' ∷ c ∷ t)
  single : {t : Text} (c : ℕ) → (c == q) ≡ false → (c == b'\\') ≡ false → Body q t → Body q (c ∷ t)

abbrev pub is_quote : ℕ → Bool
is_quote c = c == b'"' || c == b'\''

pub data Lexes : Text → List Token → Type 0 where
  done : Lexes [] []
  literal :
      {body t u : Text} {ts : List Token} (q : ℕ)
      → is_quote q ≡ true
      → Body q body
      → u ≡ body ++ q ∷ t
      → Lexes t ts
      → Lexes (q ∷ u) (quoted q body ∷ ts)
  mark : {t : Text} {ts : List Token} → Lexes t ts → Lexes (b'?' ∷ t) (hole ∷ ts)
  other :
      {t : Text} {ts : List Token} (c : ℕ)
      → is_quote c ≡ false
      → (c == b'?') ≡ false
      → Lexes t ts
      → Lexes (c ∷ t) (plain c ∷ ts)

-- No place holder is left.
abbrev pub NoHole : List Token → Type 0
NoHole [] = Unit
NoHole (quoted q b ∷ ts) = NoHole ts
NoHole (hole ∷ ts) = ⊥
NoHole (plain c ∷ ts) = NoHole ts

-- The text falls into whole literals and characters outside of them, none of these a `?`.
pub record Closed (t : Text) : Type 0 where
  pub tokens : List Token
  pub lexes : Lexes t tokens
  pub no_hole : NoHole tokens

pub Lexes-append :
    {s t : Text} {ss ts : List Token} → Lexes s ss → Lexes t ts → Lexes (s ++ t) (ss ++ ts)
Lexes-append done k = k
Lexes-append {t = t} (literal {body = b} {t = u} q h i e l) k =
    literal q h i (rw e (append_assoc b (q ∷ u) t)) (Lexes-append l k)
Lexes-append (mark l) k = mark (Lexes-append l k)
Lexes-append (other c h i l) k = other c h i (Lexes-append l k)

pub NoHole-append : (ss ts : List Token) → NoHole ss → NoHole ts → NoHole (ss ++ ts)
NoHole-append [] ts h k = k
NoHole-append (quoted q b ∷ ss) ts h k = NoHole-append ss ts h k
NoHole-append (hole ∷ ss) ts h k = absurd h
NoHole-append (plain c ∷ ss) ts h k = NoHole-append ss ts h k

pub Closed-append : {s t : Text} → Closed s → Closed t → Closed (s ++ t)
Closed-append a b = record {
  tokens = a.tokens ++ b.tokens;
  lexes = Lexes-append a.lexes b.lexes;
  no_hole = NoHole-append a.tokens b.tokens a.no_hole b.no_hole;
}

abbrev pub IsPlainChar : ℕ → Type 0
IsPlainChar c = (is_quote c ≡ false) × ((c == b'?') ≡ false)

pub Closed-plain : (t : Text) → All IsPlainChar t → Closed t
Closed-plain [] h = record { tokens = []; lexes = done; no_hole = tt }
Closed-plain (c ∷ t) h =
    let rest = Closed-plain t h.1 in
    record {
      tokens = plain c ∷ rest.tokens;
      lexes = other c h.0.0 h.0.1 rest.lexes;
      no_hole = rest.no_hole;
    }

pub Closed-literal : (body : Text) → Body b'"' body → Closed (b'"' ∷ (body ++ b'"' ∷ []))
Closed-literal body b = record {
  tokens = quoted b'"' body ∷ [];
  lexes = literal b'"' refl b refl done;
  no_hole = tt;
}

-- The same by evaluation, for a text that is known.
abbrev pub plain_chars : Text → Bool
plain_chars [] = true
plain_chars (c ∷ t) = not (is_quote c || c == b'?') && plain_chars t

pub Closed-known : (t : Text) → plain_chars t ≡ true → Closed t
Closed-known t h = Closed-plain t (all t h)
  where
    all : (t : Text) → plain_chars t ≡ true → All IsPlainChar t
    all [] h = tt
    all (c ∷ t) h = (ground arith, all t (ground arith))

-- Characters that neither close a double-quoted literal nor escape the next one.
abbrev pub IsInner : ℕ → Type 0
IsInner c = ((c == b'"') ≡ false) × ((c == b'\\') ≡ false)

pub Body-inner : (t : Text) → All IsInner t → Body b'"' t
Body-inner [] h = nil
Body-inner (c ∷ t) h = single c h.0.0 h.0.1 (Body-inner t h.1)

abbrev pub inner_chars : Text → Bool
inner_chars [] = true
inner_chars (c ∷ t) = not (c == b'"' || c == b'\\') && inner_chars t

pub Body-known : (t : Text) → inner_chars t ≡ true → Body b'"' t
Body-known [] h = nil
Body-known (c ∷ t) h = single c (ground arith) (ground arith) (Body-known t (ground arith))
