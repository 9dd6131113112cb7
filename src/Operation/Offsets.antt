-- ===== src/Operation/Offsets.antt =====
-- Where `consume` of lib/transport/binary/protocol33/operation.js reads: at an offset as in the
-- rest of the buffer, and inside of it.
use orientjs.Prelude.{
  ℕ, ◌+◌, ◌≤◌, ◌≡◌, refl, ap, ◌∙◌, inl, inr, Option, none, some, arith, ltb, Bool-cases,
  Option-cases, ◌>>=◌, length, drop, length-drop,
}
use orientjs.Buffer.{Bytes, read_uint8}
use orientjs.Operation.Machine.{ReadOps, nil, cons, Work, Client}
use orientjs.Operation.Consume.{
  Consumed, reading, complete, failed, pushed_to, Turn, go_on, stop, throw, loop, Operation, Result,
  returned, thrown, begin, result_of, consume_reading, consume,
}
use orientjs.Operation.Reads.Shift.{slice_exact-shift}
use orientjs.Operation.Resume.{shift_consumed, offset_of, shift_turn}
use orientjs.Operation.Loop.{loop-shift, loop-Within, WithinOption}

module _ {R D : Type 0} where
  abbrev pub shift_result : ℕ → Result R D → Result R D
  shift_result p (returned s c) = returned s (shift_consumed p c)
  shift_result p thrown = thrown

  result-shift : (p : ℕ) (t : Turn R D) → result_of (shift_turn p t) ≡ shift_result p (result_of t)
  result-shift p (go_on u o) = refl
  result-shift p (stop u (reading o a)) = refl
  result-shift p (stop u (complete o a)) = refl
  result-shift p (stop u (failed o a)) = refl
  result-shift p (stop u (pushed_to m o)) = refl
  result-shift p throw = refl

  map_result-shift :
      (p : ℕ) (x : Option (Turn R D))
      → ((x >>= λ t. some (shift_turn p t)) >>= λ t. some (result_of t))
        ≡ ((x >>= λ t. some (result_of t)) >>= λ r. some (shift_result p r))
  map_result-shift p none = refl
  map_result-shift p (some t) = ap some (result-shift p t)

read_uint8-shift : (p o : ℕ) (b : Bytes) → read_uint8 b (p + o) ≡ read_uint8 (drop p b) o
unfolding read_uint8
read_uint8-shift p o b = rw slice_exact-shift

module _ {R D : Type 0} (client : Client R D) where
  consume_reading-shift :
      (f : ℕ) (ps : ReadOps R D) (w : Work R D) (b : Bytes) (p o : ℕ)
      → p ≤ length b
      → consume_reading client f ps w b (p + o)
        ≡ (consume_reading client f ps w (drop p b) o >>= λ r. some (shift_result p r))
  unfolding consume_reading
  consume_reading-shift f nil w b p o h = refl
  consume_reading-shift f (cons q qs) w b p o h =
      ap (λ x. x >>= λ t. some (result_of t)) (loop-shift client f b p h w o)
      ∙ map_result-shift p (loop client f w (drop p b) o)

  -- `consume` at an offset gives what it gives in the rest of the buffer from some place before
  -- on, with the offset counted from there.
  pub consume-drop :
      (f : ℕ) (s : Operation R D) (b : Bytes) (p o : ℕ)
      → p ≤ length b
      → consume client f s b (p + o)
        ≡ (consume client f s (drop p b) o >>= λ r. some (shift_result p r))
  unfolding consume
  consume-drop f s b p o h = elim (Bool-cases s.pending) [
    | inr e ↦ rw e (consume_reading-shift f s.work.ops s.work b p o h)
    | inl e ↦
        let room : ltb (length b) (p + o + 1) ≡ ltb (length (drop p b)) (o + 1) =
          ground (arith, length-drop p b) in
        elim (Bool-cases (ltb (length (drop p b)) (o + 1))) [
          | inl e' ↦ rw (e, room, e')
          | inr e' ↦
              rw (e, room, e', read_uint8-shift)
                (elim (Option-cases (read_uint8 (drop p b) o)) [
                  | inl n ↦ rw n
                  | inr (code, n) ↦
                      rw n (
                        consume_reading-shift f (begin code s.work).ops (begin code s.work) b p o h)
                ])
        ]
  ]

  abbrev ResultWithin : ℕ → ℕ → Option (Result R D) → Type 0
  ResultWithin o n (some (returned u c)) = (o ≤ offset_of c) × (offset_of c ≤ n)
  ResultWithin o n _ = Unit

  result-Within :
      (o n : ℕ) (x : Option (Turn R D))
      → WithinOption client o n x
      → ResultWithin o n (x >>= λ t. some (result_of t))
  result-Within o n none i = tt
  result-Within o n (some (go_on u p)) i = tt
  result-Within o n (some (stop u (reading p a))) i = i
  result-Within o n (some (stop u (complete p a))) i = i
  result-Within o n (some (stop u (failed p a))) i = i
  result-Within o n (some (stop u (pushed_to m p))) i = i
  result-Within o n (some throw) i = tt

  consume_reading-Within :
      (f : ℕ) (ps : ReadOps R D) (w : Work R D) (b : Bytes) (o : ℕ)
      → o ≤ length b
      → ResultWithin o (length b) (consume_reading client f ps w b o)
  unfolding consume_reading
  consume_reading-Within f nil w b o h = (omega arith, h)
  consume_reading-Within f (cons q qs) w b o h =
      result-Within o (length b) (loop client f w b o) (loop-Within client f b w o h)

  consume-ResultWithin :
      (f : ℕ) (s : Operation R D) (b : Bytes) (o : ℕ)
      → o ≤ length b
      → ResultWithin o (length b) (consume client f s b o)
  unfolding consume
  consume-ResultWithin f s b o h = elim (Bool-cases s.pending) [
    | inr e ↦ rw e (consume_reading-Within f s.work.ops s.work b o h)
    | inl e ↦ elim (Bool-cases (ltb (length b) (o + 1))) [
      | inl e' ↦ rw (e, e') (omega arith, h)
      | inr e' ↦ elim (Option-cases (read_uint8 b o)) [
        | inl n ↦ rw (e, e', n) tt
        | inr (code, n) ↦
            rw (e, e', n)
              (consume_reading-Within f (begin code s.work).ops (begin code s.work) b o h)
      ]
    ]
  ]

  -- `consume` at an offset in the buffer returns an offset that is not before it and not behind
  -- the end of the buffer.
  pub consume_inside :
      (f : ℕ) (s u : Operation R D) (b : Bytes) (o : ℕ) (c : Consumed D)
      → o ≤ length b
      → consume client f s b o ≡ some (returned u c)
      → (o ≤ offset_of c) × (offset_of c ≤ length b)
  consume_inside f s u b o c h e = rw e at (consume-ResultWithin f s b o h)
