-- ===== src/Operation/Chunks.antt =====
-- `consume` of lib/transport/binary/protocol33/operation.js when an answer comes in pieces:
-- connection.js keeps the bytes behind the offset that it returns, puts the next chunk behind
-- them, and calls it again at the start.
use orientjs.Prelude.{
  ℕ, ◌+◌, ◌≤◌, ◌≡◌, ap, ◌∙◌, inl, inr, Option, none, some, arith, ltb, Bool-cases, Option-cases,
  ◌>>=◌, length, drop, false, ◌++◌, >>=-eq-some, sym, length-append, true,
}
use orientjs.Buffer.{Bytes, read_uint8}
use orientjs.Operation.Machine.{ReadOps, nil, cons, Work, Client}
use orientjs.Operation.Consume.{
  reading, complete, failed, pushed_to, Turn, go_on, stop, throw, loop, Operation, Result, returned,
  begin, result_of, consume_reading, consume,
}
use orientjs.Operation.Reads.{drop-append, slice_exact-append}
use orientjs.Operation.Resume.{IsCons}
use orientjs.Operation.Loop.{loop_enough, loop-append, Decided, loop-IsCons, loop_resume}
use orientjs.Operation.Offsets.{shift_result, consume-drop, consume_inside}

read_uint8-append :
    (o : ℕ) (b m : Bytes) → o + 1 ≤ length b → read_uint8 (b ++ m) o ≡ read_uint8 b o
unfolding read_uint8
read_uint8-append o b m h = rw (slice_exact-append 1 o b m h)

module _ {R D : Type 0} (client : Client R D) where
  consume_reading_enough :
      (f k : ℕ) (ps : ReadOps R D) (w : Work R D) (b : Bytes) (o : ℕ) {r : Result R D}
      → f ≤ k
      → consume_reading client f ps w b o ≡ some r
      → consume_reading client k ps w b o ≡ some r
  unfolding consume_reading
  consume_reading_enough f k nil w b o l h = h
  consume_reading_enough f k (cons q qs) w b o l h =
      let (t, e, e') = >>=-eq-some (loop client f w b o) _ h in
      rw (loop_enough client f k b w o l e) e'

  pub consume_enough :
      (f k : ℕ) (s : Operation R D) (b : Bytes) (o : ℕ) {r : Result R D}
      → f ≤ k
      → consume client f s b o ≡ some r
      → consume client k s b o ≡ some r
  unfolding consume
  consume_enough f k s b o l h = elim (Bool-cases s.pending) [
    | inr e ↦ rw e (consume_reading_enough f k s.work.ops s.work b o l (rw e at h))
    | inl e ↦ elim (Bool-cases (ltb (length b) (o + 1))) [
      | inl e' ↦ rw (e, e') (rw (e, e') at h)
      | inr e' ↦ elim (Option-cases (read_uint8 b o)) [
        | inl n ↦ rw (e, e', n) (rw (e, e', n) at h)
        | inr (code, n) ↦
            rw (e, e', n)
              (consume_reading_enough f k (begin code s.work).ops (begin code s.work) b o l
                (rw (e, e', n) at h))
      ]
    ]
  ]

  -- Which rounds the result of a reading comes from.
  reading_turn :
      (t : Turn R D) (u : Operation R D) (p : ℕ) (a : Option ℕ)
      → result_of t ≡ returned u (reading p a)
      → (t ≡ stop u.work (reading p a)) × (u.pending ≡ false)
  reading_turn (go_on v o) u p a h = cc
  reading_turn (stop v (reading o c)) u p a h =
      let same : record { pending = false; work = v } ≡ u = cc in
      let o-p : o ≡ p = cc in
      let c-a : c ≡ a = cc in
      let work : v ≡ u.work = ap (λ s. s.work) same in
      (rw (work, o-p, c-a), ap (λ s. s.pending) (sym same))
  reading_turn (stop v (complete o c)) u p a h = cc
  reading_turn (stop v (failed o c)) u p a h = cc
  reading_turn (stop v (pushed_to m o)) u p a h = cc
  reading_turn throw u p a h = cc

  loop_of_consume :
      (g : ℕ) (ps : ReadOps R D) (w : Work R D) (b : Bytes) (p : ℕ) {r : Result R D}
      → IsCons ps
      → consume_reading client g ps w b p ≡ some r
      → (t : Turn R D) × (loop client g w b p ≡ some t) × (result_of t ≡ r)
  unfolding consume_reading
  loop_of_consume g nil w b p i h = absurd i
  loop_of_consume g (cons q qs) w b p {r} i h =
      let (t, e, e') = >>=-eq-some (loop client g w b p) _ h in
      let same : result_of t ≡ r = cc in (t, e, same)

  consume_reading_resume :
      (f g : ℕ) (ps : ReadOps R D) (w : Work R D) (u : Operation R D) (b m : Bytes) (o p : ℕ)
      (a : Option ℕ) {r : Result R D}
      → consume_reading client f ps w b o ≡ some (returned u (reading p a))
      → consume client g u (b ++ m) p ≡ some r
      → consume_reading client (f + g) ps w (b ++ m) o ≡ some r
  unfolding consume_reading consume
  consume_reading_resume f g nil w u b m o p a h k = cc
  consume_reading_resume f g (cons q qs) w u b m o p a {r} h k =
      let (t, e, e') = >>=-eq-some (loop client f w b o) _ h in
      let of : result_of t ≡ returned u (reading p a) = cc in
      let (st, pe) = reading_turn t u p a of in
      let waits = e ∙ ap some st in
      let left = loop-IsCons client f u.work b p a w o waits in
      let (t2, l, same) = loop_of_consume g u.work.ops u.work (b ++ m) p left (rw pe at k) in
      rw (loop_resume client f g u.work b m p a t2 l w o waits) (ap some same)

  consume_few :
      (f : ℕ) (s : Operation R D) (b : Bytes) (o : ℕ)
      → s.pending ≡ true
      → ltb (length b) (o + 1) ≡ true
      → consume client f s b o ≡ some (returned s (reading o none))
  unfolding consume
  consume_few f s b o e e' = rw (e, e')

  consume_short :
      (f g : ℕ) (s u : Operation R D) (b m : Bytes) (o p : ℕ) (a : Option ℕ) {r : Result R D}
      → ◌≡◌ {A = Option (Result R D)}
          (some (returned s (reading o none)))
          (some (returned u (reading p a)))
      → consume client g u (b ++ m) p ≡ some r
      → consume client (f + g) s (b ++ m) o ≡ some r
  consume_short f g s u b m o p a h k =
      let s-u : u ≡ s = cc in
      let p-o : p ≡ o = cc in
      consume_enough g (f + g) s (b ++ m) o (omega arith) (rw (s-u, p-o) at k)

  consume_append :
      (f g : ℕ) (s u : Operation R D) (b m : Bytes) (o p : ℕ) (a : Option ℕ) {r : Result R D}
      → o ≤ length b
      → consume client f s b o ≡ some (returned u (reading p a))
      → consume client g u (b ++ m) p ≡ some r
      → consume client (f + g) s (b ++ m) o ≡ some r
  unfolding consume
  consume_append f g s u b m o p a l h k = elim (Bool-cases s.pending) [
    | inr e ↦ rw e (consume_reading_resume f g s.work.ops s.work u b m o p a (rw e at h) k)
    | inl e ↦ elim (Bool-cases (ltb (length b) (o + 1))) [
      | inl e' ↦ consume_short f g s u b m o p a (sym (consume_few f s b o e e') ∙ h) k
      | inr e' ↦
          let room : ltb (length (b ++ m)) (o + 1) ≡ false = ground (arith, length-append b m) in
          let byte = read_uint8-append o b m (ground arith) in
          elim (Option-cases (read_uint8 b o)) [
            | inl n ↦ let bad = rw (e, e', n) at h in cc
            | inr (code, n) ↦
                rw (e, room, byte, n)
                  (consume_reading_resume f g (begin code s.work).ops (begin code s.work) u b m o p
                    a (rw (e, e', n) at h) k)
          ]
    ]
  ]

  abbrev pub IsDecided : Result R D → Type 0
  IsDecided (returned u (reading p a)) = ⊥
  IsDecided _ = Unit

  result_of-Decided : (t : Turn R D) → IsDecided (result_of t) → Decided client t
  result_of-Decided (go_on u p) i = tt
  result_of-Decided (stop u (reading p a)) i = i
  result_of-Decided (stop u (complete p a)) i = tt
  result_of-Decided (stop u (failed p a)) i = tt
  result_of-Decided (stop u (pushed_to m p)) i = tt
  result_of-Decided throw i = tt

  consume_reading_decided :
      (f : ℕ) (ps : ReadOps R D) (w : Work R D) (b m : Bytes) (o : ℕ) {r : Result R D}
      → IsDecided r
      → consume_reading client f ps w b o ≡ some r
      → consume_reading client f ps w (b ++ m) o ≡ some r
  unfolding consume_reading
  consume_reading_decided f nil w b m o i h = h
  consume_reading_decided f (cons q qs) w b m o {r} i h =
      let (t, e, e') = >>=-eq-some (loop client f w b o) _ h in
      let same : result_of t ≡ r = cc in
      rw (loop-append client f b m t (result_of-Decided t (rw same i)) w o e) e'

  -- Where `consume` does not wait for bytes, the bytes of later messages behind the buffer
  -- change nothing of its result.
  pub consume-append :
      (f : ℕ) (s : Operation R D) (b m : Bytes) (o : ℕ) (r : Result R D)
      → IsDecided r
      → consume client f s b o ≡ some r
      → consume client f s (b ++ m) o ≡ some r
  unfolding consume
  consume-append f s b m o r i h = elim (Bool-cases s.pending) [
    | inr e ↦ rw e (consume_reading_decided f s.work.ops s.work b m o i (rw e at h))
    | inl e ↦ elim (Bool-cases (ltb (length b) (o + 1))) [
      | inl e' ↦
          let few = consume_few f s b o e e' in
          let same : returned s (reading o none) ≡ r = cc in absurd (rw (← same) at i)
      | inr e' ↦
          let room : ltb (length (b ++ m)) (o + 1) ≡ false = ground (arith, length-append b m) in
          let byte = read_uint8-append o b m (ground arith) in
          elim (Option-cases (read_uint8 b o)) [
            | inl n ↦ rw (e, room, byte, n) (rw (e, e', n) at h)
            | inr (code, n) ↦
                rw (e, room, byte, n)
                  (consume_reading_decided f (begin code s.work).ops (begin code s.work) b m o i
                    (rw (e, e', n) at h))
          ]
    ]
  ]

  -- An operation that waits for bytes at an offset in a buffer, and is called again with the
  -- rest of the buffer from there and the next chunk behind it, gives what it gives for both
  -- chunks at once, with the fuel of the two calls, its offset counted from the start of the
  -- first.
  pub consume-chunks :
      (f g : ℕ) (s u : Operation R D) (b m : Bytes) (o p : ℕ) (a : Option ℕ) (r : Result R D)
      → o ≤ length b
      → consume client f s b o ≡ some (returned u (reading p a))
      → consume client g u (drop p b ++ m) 0 ≡ some r
      → consume client (f + g) s (b ++ m) o ≡ some (shift_result p r)
  consume-chunks f g s u b m o p a r l h k =
      let (below, inside) = consume_inside client f s u b o (reading p a) l h in
      let rest = drop-append p b m inside in
      let room : p ≤ length (b ++ m) = omega (arith, length-append b m) in
      let start : p + 0 ≡ p = omega arith in
      let later : consume client g u (b ++ m) p ≡ some (shift_result p r) =
        ap (λ q. consume client g u (b ++ m) q) (sym start)
        ∙ consume-drop client g u (b ++ m) p 0 room
        ∙ ap (λ x. consume client g u x 0 >>= λ r. some (shift_result p r)) rest
        ∙ ap (λ x. x >>= λ r. some (shift_result p r)) k in
      consume_append f g s u b m o p a l h later
