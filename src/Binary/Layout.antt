-- ===== src/Binary/Layout.antt =====
-- `buffer` of lib/client/network/protocol37/operation.js puts the bytes of its steps one behind the
-- other.
use orientjs.Prelude.{
  ℕ, ◌+◌, ◌≡◌, refl, sym, ap, ◌∙◌, inl, inr, Option, some, List, [], ◌∷◌, ◌++◌, arith, Option-cases,
  ◌>>=◌, length, All, length-append,
}
use mathlib.Core.List.{append_assoc}
use mathlib.Core.Path.{fun_ext}
use orientjs.Buffer.{Bytes}
use orientjs.Operation.Write.{overwrite, zeros}
use orientjs.Operation.Write.Concat.{>>=-assoc, zeros-add, overwrite_prefix, length-zeros, run_step}
use orientjs.Operation.Write.Concat as PlainConcat
use orientjs.Binary.Write.{
  WriteOp, plain, varint, varstring, double, size_of, run, commands, run_commands, buffer,
}

-- The bytes of one step alone.
unfoldable pub encoded : WriteOp → Option Bytes
unfolding PlainConcat.encoded
encoded (plain w) = PlainConcat.encoded w
encoded (varint x) = some x
encoded (varstring n d) = some (n ++ d)
encoded (double b) = some b

-- The bytes of all steps, one behind the other.
unfoldable pub concat : List WriteOp → Option Bytes
unfolding encoded
concat [] = some []
concat (w ∷ ws) = encoded w >>= λ x. concat ws >>= λ y. some (x ++ y)

-- A number has eight bytes.
abbrev pub IsSized : WriteOp → Type 0
IsSized (double b) = length b ≡ 8
IsSized _ = Unit

over_zeros :
    (x pre : Bytes) (n m : ℕ)
    → length x ≡ n
    → overwrite x (length pre) (overwrite (zeros n) (length pre) (pre ++ zeros (n + m)))
      ≡ pre ++ (x ++ zeros m)
over_zeros x pre n m h =
    rw (zeros-add, overwrite_prefix pre (zeros n) (zeros n) (zeros m) refl)
      (overwrite_prefix pre x (zeros n) (zeros m) (h ∙ sym (length-zeros n)))

over_pair :
    (x y pre : Bytes) (m : ℕ)
    → overwrite y
        (length pre + length x)
        (overwrite x (length pre) (pre ++ zeros (length x + length y + m)))
      ≡ pre ++ ((x ++ y) ++ zeros m)
over_pair x y pre m =
    let split : length x + length y + m ≡ length x + (length y + m) = omega arith in
    let at : length pre + length x ≡ length (pre ++ x) = omega (arith, length-append pre x) in
    rw (split, zeros-add (length x) (length y + m))
      (rw
        (
          overwrite_prefix pre x (zeros (length x)) (zeros (length y + m))
              (sym (length-zeros (length x))),
          at,
          zeros-add (length y) m,
          ← append_assoc pre x (zeros (length y) ++ zeros m),
        )
        (overwrite_prefix (pre ++ x) y (zeros (length y)) (zeros m) (sym (length-zeros (length y)))
          ∙ append_assoc pre x (y ++ zeros m)
          ∙ ap (λ t. pre ++ t) (sym (append_assoc x y (zeros m)))))

run-encoded :
    (w : WriteOp) (pre : Bytes) (m : ℕ)
    → IsSized w
    → run w (length pre) (pre ++ zeros (size_of w + m))
      ≡ (encoded w >>= λ x. some (pre ++ (x ++ zeros m)))
unfolding run encoded size_of
run-encoded (plain w) pre m h = run_step w pre m
run-encoded (varint x) pre m h = ap some (over_zeros x pre (length x) m refl)
run-encoded (varstring n d) pre m h = ap some (over_pair n d pre m)
run-encoded (double b) pre m h = ap some (over_zeros b pre 8 m h)

unfoldable total_size : List WriteOp → ℕ
unfolding size_of
total_size [] = 0
total_size (w ∷ ws) = size_of w + total_size ws

commands-total : (ws : List WriteOp) (size : ℕ) → (commands size ws).1 ≡ size + total_size ws
unfolding commands total_size
commands-total [] size = omega arith
commands-total (w ∷ ws) size = omega (arith, commands-total ws (size + size_of w))

length-encoded : (w : WriteOp) {x : Bytes} → IsSized w → encoded w ≡ some x → length x ≡ size_of w
unfolding encoded size_of
length-encoded (plain w) s h = PlainConcat.length-encoded w h
length-encoded (varint x) s h = ground arith
length-encoded (varstring n d) s h = ground (arith, length-append n d)
length-encoded (double b) s h = ground arith

run_commands-concat :
    (ws : List WriteOp) (pre : Bytes)
    → All IsSized ws
    → run_commands (commands (length pre) ws).0 (pre ++ zeros (total_size ws))
      ≡ (concat ws >>= λ y. some (pre ++ y))
unfolding run_commands commands total_size concat
run_commands-concat [] pre s = refl
run_commands-concat (w ∷ ws) pre s =
    let t = total_size ws in
    ap (λ r. r >>= run_commands (commands (length pre + size_of w) ws).0) (run-encoded w pre t s.0)
    ∙ elim (Option-cases (encoded w)) [
      | inl e ↦ rw e
      | inr (x, e) ↦
          let at : length pre + size_of w ≡ length (pre ++ x) =
            omega (arith, length-append pre x, length-encoded w s.0 e) in
          rw e (
            rw (at, ← append_assoc pre x (zeros t))
              (run_commands-concat ws (pre ++ x) s.1
                ∙ ap (λ f. concat ws >>= f) (fun_ext (λ y. ap some (append_assoc pre x y)))
                ∙ sym (>>=-assoc (concat ws) (λ y. some (x ++ y)) (λ y. some (pre ++ y)))))
    ]

pub buffer-concat_steps : (ws : List WriteOp) → All IsSized ws → buffer ws ≡ concat ws
unfolding buffer
buffer-concat_steps ws s =
    let size : (commands 0 ws).1 ≡ total_size ws = omega (arith, commands-total ws 0) in
    ap (λ n. run_commands (commands 0 ws).0 (zeros n)) size
    ∙ run_commands-concat ws [] s
    ∙ elim (Option-cases (concat ws)) [ inl e ↦ rw e | inr (x, e) ↦ rw e ]
