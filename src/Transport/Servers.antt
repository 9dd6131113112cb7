-- ===== src/Transport/Servers.antt =====
-- `shiftServer` of lib/transport/binary/index.js goes on to the next active server, or ends.
use orientjs.Prelude.{
  ℕ, zero, suc, ◌≤◌, ◌≡◌, refl, sym, true, false, some, List, [], ◌∷◌, ◌++◌, arith, length, All,
  ◌+◌, ap, ◌∙◌, length-append,
}
use mathlib.Core.List.{append_assoc, append-nil}
use orientjs.Transport.{Server, shift_loop, shift_server, first_active}

abbrev pub AreInactive : List Server → Type 0
AreInactive ss = All (λ s. s.active ≡ false) ss

abbrev pub deactivated : Server → Server
deactivated s = record s { active = false }

-- Marking an inactive server changes nothing.
deactivated_inactive : (s : Server) → s.active ≡ false → deactivated s ≡ s
deactivated_inactive s h = λ i. record { host = s.host; port = s.port; active = sym h i }

-- A round at which the next server is not active.
shift_loop_step :
    (s : Server) (ss : List Server) (len : ℕ)
    → first_active (ss ++ (deactivated s ∷ [])) ≡ false
    → shift_loop (suc len) (s ∷ ss) ≡ shift_loop len (ss ++ (deactivated s ∷ []))
unfolding shift_loop
shift_loop_step s ss len h = rw h refl

shift_loop-before :
    (xs ys : List Server) (s t : Server) (len : ℕ)
    → AreInactive xs
    → t.active ≡ true
    → length xs ≤ len
    → shift_loop (suc len) (s ∷ (xs ++ (t ∷ ys))) ≡ some (t ∷ (ys ++ (deactivated s ∷ xs)), true)
shift_loop-before [] ys s t len h a n = unfold shift_loop in rw a refl
shift_loop-before (x ∷ xs) ys s t zero h a n = absurd (omega arith)
shift_loop-before (x ∷ xs) ys s t (suc len) (hx, h) a n =
    let moved = deactivated s ∷ [] in
    shift_loop_step s (x ∷ (xs ++ (t ∷ ys))) (suc len) hx
    ∙ ap (λ l. shift_loop (suc len) (x ∷ l)) (append_assoc xs (t ∷ ys) moved)
    ∙ shift_loop-before xs (ys ++ moved) x t len h a (omega arith)
    ∙ ap (λ l. some (t ∷ l, true))
        (append_assoc ys moved (deactivated x ∷ xs)
          ∙ ap (λ z. ys ++ (deactivated s ∷ (z ∷ xs))) (deactivated_inactive x hx))

-- With another active server, `shiftServer` is true, the first such server comes first, the ones
-- behind it follow, and the server that was first, marked as not active, goes behind them, before
-- the inactive ones that were skipped.
pub shift_server-next :
    (s t : Server) (xs ys : List Server)
    → AreInactive xs
    → t.active ≡ true
    → shift_server (s ∷ (xs ++ (t ∷ ys))) ≡ some (t ∷ (ys ++ (deactivated s ∷ xs)), true)
unfolding shift_server
shift_server-next s t xs ys h a =
    let n : length (xs ++ (t ∷ ys)) ≡ suc (length xs + length ys) =
      omega (arith, length-append xs (t ∷ ys)) in
    rw n (shift_loop-before xs ys s t (length xs + length ys) h a (omega arith))

shift_loop-none :
    (xs zs : List Server) (s : Server)
    → AreInactive xs
    → shift_loop (length xs) (s ∷ (xs ++ zs)) ≡ some (zs ++ (deactivated s ∷ xs), false)
shift_loop-none [] zs s h = unfold shift_loop in refl
shift_loop-none (x ∷ xs) zs s (hx, h) =
    let moved = deactivated s ∷ [] in
    shift_loop_step s (x ∷ (xs ++ zs)) (length xs) hx
    ∙ ap (λ l. shift_loop (length xs) (x ∷ l)) (append_assoc xs zs moved)
    ∙ shift_loop-none xs (zs ++ moved) x h
    ∙ ap (λ l. some (l, false))
        (append_assoc zs moved (deactivated x ∷ xs)
          ∙ ap (λ z. zs ++ (deactivated s ∷ (z ∷ xs))) (deactivated_inactive x hx))

-- With no other active server, `shiftServer` ends after one round for each server and is false,
-- with the servers in their order, and the first one marked as not active.
pub shift_server_exhausted :
    (s : Server) (ss : List Server)
    → AreInactive ss
    → shift_server (s ∷ ss) ≡ some (deactivated s ∷ ss, false)
unfolding shift_server
shift_server_exhausted s ss h =
    ap (λ l. shift_loop (length ss) (s ∷ l)) (sym (append-nil ss)) ∙ shift_loop-none ss [] s h
