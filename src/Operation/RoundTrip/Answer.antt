-- ===== src/Operation/RoundTrip/Answer.antt =====
-- An answer of plain values in lib/transport/binary/protocol33/operation.js: what `buffer` lays out,
-- `consume` reads.
use orientjs.Prelude.{
  ℕ, suc, ◌+◌, ◌%◌, ◌≡◌, refl, true, false, some, List, [], ◌∷◌, ◌++◌, >>=-eq-some, length, drop,
  All, pos, ◌≤◌, sym, ap, ◌∙◌, inl, inr, arith, Bool-cases, ◌>>=◌, length-append,
}
use orientjs.Text.{Text}
use orientjs.Buffer.{Bytes}
use orientjs.Operation.Write.{
  WriteOp, byte, boolean, char, int, long, short, block, size_of, buffer,
}
use orientjs.Operation.Write.Concat.{encoded, concat, buffer-concat, length-encoded}
use orientjs.Operation.Heap.{Value, Heap, number, bytes, set_field}
use orientjs.Operation.Machine.{is_nonzero, read, absent, ReadOps, nil, cons, Work, Client}
use orientjs.Operation.Callbacks.{run_reader}
use orientjs.Operation.Parse.{parse, put}
use orientjs.Operation.Consume.{
  go_on, stop, turn_op, turn, finished, loop, returned, result_of, status_code, consume_reading,
  consume,
}
use orientjs.Operation.Reads.{can_read-append, read_raw-append}
use orientjs.Operation.Resume.{shift_turn, finished-shift}
use orientjs.Operation.Loop.{after, loop-after, loop-shift}
use orientjs.Operation.RoundTrip.{IsPlain, kind_of, raw_of, read_raw-encoded}

-- The value of a step, as the field has it.
abbrev pub value_sent : {D : Type 0} → WriteOp → Value D
value_sent (byte n) = number (pos (n % 256))
value_sent (boolean b) = Value.boolean b
value_sent (char c) = Value.char (c % 256)
value_sent (int z) = number z
value_sent (long h l) = Value.null
value_sent (short z) = number z
value_sent (block b) = bytes b

abbrev pub steps : List (Text × WriteOp) → List WriteOp
steps [] = []
steps ((k, w) ∷ fs) = w ∷ steps fs

-- The fields of the object at `a`, one after the other.
abbrev pub stored : {D : Type 0} → ℕ → List (Text × WriteOp) → Heap D → Heap D
stored a [] h = h
stored a ((k, w) ∷ fs) h = stored a fs (set_field a k (value_sent w) h)

module _ {R D : Type 0} where
  abbrev pub reads : List (Text × WriteOp) → ReadOps R D
  reads [] = nil
  reads ((k, w) ∷ fs) = cons (read (kind_of w) k absent) (reads fs)

  abbrev pub reading_at : List (Text × WriteOp) → ℕ → List ℕ → Heap D → Work R D
  reading_at fs a s h = record { ops = reads fs; stack = a ∷ s; heap = h }

module _ {R D : Type 0} (client : Client R D) where
  put-raw_of :
      (w : WriteOp) (a : ℕ) (k : Text) (u : Work R D)
      → IsPlain w
      → put client (kind_of w) (raw_of w) a k absent u
        ≡ some (record u { heap = set_field a k (value_sent w) u.heap })
  unfolding put run_reader
  put-raw_of (byte n) a k u p = refl
  put-raw_of (boolean true) a k u p = refl
  put-raw_of (boolean false) a k u p = refl
  put-raw_of (char c) a k u p = refl
  put-raw_of (int z) a k u p = refl
  put-raw_of (short z) a k u p = refl
  put-raw_of (block b) a k u p = refl
  put-raw_of (long h l) a k u p = absurd p

  -- A round that reads one field.
  turn_op-encoded :
      (w : WriteOp) (k : Text) (a : ℕ) (s : List ℕ) (h : Heap D) (ps : ReadOps R D) (x rest : Bytes)
      → IsPlain w
      → encoded w ≡ some x
      → turn_op client
          (read (kind_of w) k absent)
          (record { ops = ps; stack = a ∷ s; heap = h })
          (x ++ rest)
          0
        ≡ go_on
            (record { ops = ps; stack = a ∷ s; heap = set_field a k (value_sent w) h })
            (0 + size_of w)
  unfolding turn_op parse
  turn_op-encoded w k a s h ps x rest p e =
      let (can, raw) = read_raw-encoded client.bits w x p e in
      rw (
        can_read-append (kind_of w) x rest 0 can,
        read_raw-append client.bits (kind_of w) x rest 0 can,
        raw,
        put-raw_of w a k (record { ops = ps; stack = a ∷ s; heap = h }) p,
      )

  drop_bytes : (x y : Bytes) → drop (length x) (x ++ y) ≡ y
  drop_bytes [] y = refl
  drop_bytes (c ∷ x) y = drop_bytes x y

  loop-reading_at :
      (a : ℕ) (s : List ℕ) (fs : List (Text × WriteOp)) (h : Heap D) (y : Bytes)
      → All (λ f. IsPlain f.1) fs
      → concat (steps fs) ≡ some y
      → loop client (suc (length fs)) (reading_at fs a s h) y 0
        ≡ some (
            stop
              (reading_at [] a s (stored a fs h))
              (finished (reading_at {R = R} [] a s (stored a fs h)) (length y)))
  unfolding loop concat turn
  loop-reading_at a s [] h y p e = let same : [] ≡ y = cc in rw (← same)
  loop-reading_at a s ((k, w) ∷ fs) h y (p, ps) e =
      let (x, ex, e') = >>=-eq-some (encoded w) _ e in
      let (z, ez, e'') = >>=-eq-some (concat (steps fs)) _ e' in
      let same : x ++ z ≡ y = cc in
      let u = reading_at {R = R} fs a s (set_field a k (value_sent w) h) in
      let v = reading_at {R = R} [] a s (stored a ((k, w) ∷ fs) h) in
      let f = suc (length fs) in
      let size : length x ≡ size_of w = length-encoded w ex in
      let here : 0 + size_of w ≡ length x + 0 = omega arith in
      let inside : length x ≤ length (x ++ z) = omega (arith, length-append x z) in
      let total : length x + length z ≡ length y = sym (length-append x z) ∙ ap length same in
      ap (λ b. loop client (suc f) (reading_at ((k, w) ∷ fs) a s h) b 0) (sym same)
      ∙ loop-after client f (reading_at ((k, w) ∷ fs) a s h) (x ++ z) 0
      ∙ ap (after client f (x ++ z)) (turn_op-encoded w k a s h (reads fs) x z p ex)
      ∙ ap (loop client f u (x ++ z)) here
      ∙ loop-shift client f (x ++ z) (length x) inside u 0
      ∙ ap (λ b. loop client f u b 0 >>= λ t. some (shift_turn (length x) t)) (drop_bytes x z)
      ∙ ap (λ r. r >>= λ t. some (shift_turn (length x) t))
          (loop-reading_at a s fs (set_field a k (value_sent w) h) z ps ez)
      ∙ ap (λ c. some (stop v c))
          (sym (finished-shift v (length x) (length z)) ∙ ap (finished v) total)

  result_of-finished :
      (u : Work R D) (o : ℕ)
      → result_of (stop u (finished u o))
        ≡ returned (record { pending = false; work = u }) (finished u o)
  unfolding finished status_code
  result_of-finished u o = elim (Bool-cases (is_nonzero (status_code u))) [
    | inl e ↦ rw e
    | inr e ↦ rw e
  ]

  -- For one or more named values that are written by writeByte, writeBoolean, writeChar,
  -- writeInt, writeShort and writeBytes, `consume` of an operation that expects them in this
  -- order, with fuel for one round more than there are values, ends on the bytes that `buffer`
  -- gives for them, at the end of the bytes, with no step left and every value in its field of
  -- the object on the top of the stack.
  pub consume-buffer :
      (a : ℕ) (s : List ℕ) (h : Heap D) (f : Text × WriteOp) (fs : List (Text × WriteOp))
      (b : Bytes)
      → All (λ f. IsPlain f.1) (f ∷ fs)
      → buffer (steps (f ∷ fs)) ≡ some b
      → consume client
          (suc (length (f ∷ fs)))
          (record { pending = false; work = reading_at (f ∷ fs) a s h })
          b
          0
        ≡ some (
            returned
              (record { pending = false; work = reading_at [] a s (stored a (f ∷ fs) h) })
              (finished (reading_at {R = R} [] a s (stored a (f ∷ fs) h)) (length b)))
  unfolding consume consume_reading
  consume-buffer a s h f fs b p e =
      let e' = sym (buffer-concat (steps (f ∷ fs))) ∙ e in
      ap (λ r. r >>= λ t. some (result_of t)) (loop-reading_at a s (f ∷ fs) h b p e')
      ∙ ap some (result_of-finished (reading_at [] a s (stored a (f ∷ fs) h)) (length b))
