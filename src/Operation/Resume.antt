-- ===== src/Operation/Resume.antt =====
-- One round of the loop of `consume` in lib/transport/binary/protocol33/operation.js: what it
-- makes of the bytes before and behind those that it reads.
use orientjs.Prelude.{
  ℕ, ◌+◌, ◌≤◌, ◌≡◌, refl, ◌⊎◌, inl, inr, true, Option, some, ◌++◌, arith, Bool-cases, length, drop,
  ap, Option-cases, >>=-eq-some,
}
use orientjs.Text.{Text}
use orientjs.Buffer.{Bytes}
use orientjs.Operation.Machine.{
  Kind, ReadOp, read, call, answer, Reader, ReadOps, nil, cons, Work, Client, is_nonzero,
}
use orientjs.Operation.Callbacks.{run_nop}
use orientjs.Operation.Parse.{can_read, put, parse}
use orientjs.Operation.Consume.{
  Consumed, reading, complete, failed, pushed_to, Turn, go_on, stop, throw, top_of, bottom_of,
  status_code, finished, turn_op, turn,
}
use orientjs.Operation.Reads.{read_raw-append, can_read-append, read_raw_inside}
use orientjs.Operation.Reads.Shift.{read_raw-shift, can_read-shift}

-- A result with its offset further on by `p`.
abbrev pub shift_consumed : {D : Type 0} → ℕ → Consumed D → Consumed D
shift_consumed p (reading o a) = reading (p + o) a
shift_consumed p (complete o a) = complete (p + o) a
shift_consumed p (failed o a) = failed (p + o) a
shift_consumed p (pushed_to m o) = pushed_to m (p + o)

abbrev pub offset_of : {D : Type 0} → Consumed D → ℕ
offset_of (reading o a) = o
offset_of (complete o a) = o
offset_of (failed o a) = o
offset_of (pushed_to m o) = o

module _ {R D : Type 0} where
  abbrev pub shift_turn : ℕ → Turn R D → Turn R D
  shift_turn p (go_on u o) = go_on u (p + o)
  shift_turn p (stop u c) = stop u (shift_consumed p c)
  shift_turn p throw = throw

  abbrev pub Within : ℕ → ℕ → Turn R D → Type 0
  Within o n (go_on u q) = (o ≤ q) × (q ≤ n)
  Within o n (stop u c) = (o ≤ offset_of c) × (offset_of c ≤ n)
  Within o n throw = Unit

  pub finished-shift :
      (w : Work R D) (p o : ℕ) → finished w (p + o) ≡ shift_consumed p (finished w o)
  unfolding finished status_code
  finished-shift w p o = elim (Bool-cases (is_nonzero (status_code w))) [
    | inl e ↦ rw e
    | inr e ↦ rw e
  ]

  finished-offset : (w : Work R D) (o : ℕ) → offset_of (finished w o) ≡ o
  unfolding finished status_code
  finished-offset w o = elim (Bool-cases (is_nonzero (status_code w))) [
    | inl e ↦ rw e
    | inr e ↦ rw e
  ]

  abbrev pub IsCons : ReadOps R D → Type 0
  IsCons nil = ⊥
  IsCons (cons q qs) = Unit

  -- Where a round waits, nothing has been taken, and something is left to do.
  abbrev pub Waiting : ReadOps R D → Work R D → ℕ → Turn R D → Type 0
  Waiting ps w o (stop u (reading q a)) = (u ≡ record w { ops = ps }) × (q ≡ o) × IsCons ps
  Waiting ps w o _ = Unit

  finished-Waiting : (w v : Work R D) (o : ℕ) → Waiting nil w o (stop v (finished v o))
  unfolding finished status_code
  finished-Waiting w v o = elim (Bool-cases (is_nonzero (status_code v))) [
    | inl e ↦ rw e tt
    | inr e ↦ rw e tt
  ]

module _ {R D : Type 0} (client : Client R D) where
  parse-append :
      (k : Kind) (b m : Bytes) (o : ℕ) (top : Option ℕ) (f : Text) (r : Reader R D) (w : Work R D)
      → can_read k b o ≡ true
      → parse client k (b ++ m) o top f r w ≡ parse client k b o top f r w
  unfolding parse
  parse-append k b m o top f r w h = rw (read_raw-append client.bits k b m o h)

  parse-shift :
      (k : Kind) (b : Bytes) (p o : ℕ) (top : Option ℕ) (f : Text) (r : Reader R D) (w : Work R D)
      → parse client k b (p + o) top f r w ≡ parse client k (drop p b) o top f r w
  unfolding parse
  parse-shift k b p o top f r w = rw (read_raw-shift client.bits k b p o)

  -- The number of bytes that a `parse` method returns stays in the buffer.
  parse_inside :
      (k : Kind) (b : Bytes) (o : ℕ) (top : Option ℕ) (f : Text) (r : Reader R D) (w u : Work R D)
      (n : ℕ)
      → can_read k b o ≡ true
      → parse client k b o top f r w ≡ some (u, n)
      → o + n ≤ length b
  unfolding parse
  parse_inside k b o top f r w u n h e =
      let (raw, n', e', i) = read_raw_inside client.bits k b o h in
      let (a, t, e2) = >>=-eq-some top _ (rw e' at e) in
      let (v, q, e3) = >>=-eq-some (put client k raw a f r w) _ e2 in
      let same : n' ≡ n = cc in omega arith

  -- A round waits, or it is the same whatever comes behind the bytes.
  turn_op-append :
      (p : ReadOp R D) (w : Work R D) (b m : Bytes) (o : ℕ)
      → (turn_op client p w b o
          ≡ stop (record w { ops = cons p w.ops }) (reading o (bottom_of w.stack)))
        ⊎ (turn_op client p w (b ++ m) o ≡ turn_op client p w b o)
  unfolding turn_op
  turn_op-append (call n) w b m o = inr refl
  turn_op-append (answer x) w b m o = inr refl
  turn_op-append (read k f r) w b m o = elim (Bool-cases (can_read k b o)) [
    | inl e ↦ inr (rw (e, can_read-append k b m o e, parse-append k b m o _ f r w e))
    | inr e ↦ inl (rw e)
  ]

  turn_op-shift :
      (q : ReadOp R D) (w : Work R D) (b : Bytes) (p o : ℕ)
      → p ≤ length b
      → turn_op client q w b (p + o) ≡ shift_turn p (turn_op client q w (drop p b) o)
  unfolding turn_op
  turn_op-shift (call n) w b p o h = elim (Option-cases (run_nop client n (top_of w.stack) w)) [
    | inl e ↦ rw e
    | inr (u, e) ↦ rw e
  ]
  turn_op-shift (answer x) w b p o h = refl
  turn_op-shift (read k f r) w b p o h =
      rw (can_read-shift k b p o h, parse-shift k b p o (top_of w.stack) f r w)
        (elim (Bool-cases (can_read k (drop p b) o)) [
          | inr e ↦ rw e
          | inl e ↦ elim (Option-cases (parse client k (drop p b) o (top_of w.stack) f r w)) [
            | inl e' ↦ rw (e, e')
            | inr ((u, n), e') ↦ rw (e, e') (ap (go_on u) (omega arith))
          ]
        ])

  turn_op-Within :
      (q : ReadOp R D) (w : Work R D) (b : Bytes) (o : ℕ)
      → o ≤ length b
      → Within o (length b) (turn_op client q w b o)
  unfolding turn_op
  turn_op-Within (call n) w b o h = elim (Option-cases (run_nop client n (top_of w.stack) w)) [
    | inl e ↦ rw e tt
    | inr (u, e) ↦ rw e (omega arith, h)
  ]
  turn_op-Within (answer x) w b o h = (omega arith, h)
  turn_op-Within (read k f r) w b o h = elim (Bool-cases (can_read k b o)) [
    | inr e ↦ rw e (omega arith, h)
    | inl e ↦ elim (Option-cases (parse client k b o (top_of w.stack) f r w)) [
      | inl e' ↦ rw (e, e') tt
      | inr ((u, n), e') ↦
          let inside = parse_inside k b o (top_of w.stack) f r w u n e e' in
          rw (e, e') (omega arith, inside)
    ]
  ]

  pub turn-append :
      (ps : ReadOps R D) (w : Work R D) (b m : Bytes) (o : ℕ)
      → (turn client ps w b o ≡ stop (record w { ops = ps }) (reading o (bottom_of w.stack)))
        ⊎ (turn client ps w (b ++ m) o ≡ turn client ps w b o)
  unfolding turn
  turn-append nil w b m o = inr refl
  turn-append (cons p ps) w b m o = turn_op-append p (record w { ops = ps }) b m o

  pub turn-shift :
      (ps : ReadOps R D) (w : Work R D) (b : Bytes) (p o : ℕ)
      → p ≤ length b
      → turn client ps w b (p + o) ≡ shift_turn p (turn client ps w (drop p b) o)
  unfolding turn
  turn-shift nil w b p o h = ap (stop w) (finished-shift w p o)
  turn-shift (cons q qs) w b p o h = turn_op-shift q (record w { ops = qs }) b p o h

  pub turn-Within :
      (ps : ReadOps R D) (w : Work R D) (b : Bytes) (o : ℕ)
      → o ≤ length b
      → Within o (length b) (turn client ps w b o)
  unfolding turn
  turn-Within nil w b o h = let e = finished-offset w o in (omega arith, omega arith)
  turn-Within (cons q qs) w b o h = turn_op-Within q (record w { ops = qs }) b o h

  pub turn-Waiting :
      (ps : ReadOps R D) (w : Work R D) (b : Bytes) (o : ℕ) → Waiting ps w o (turn client ps w b o)
  unfolding turn turn_op
  turn-Waiting nil w b o = finished-Waiting w w o
  turn-Waiting (cons (call n) ps) w b o =
      elim (Option-cases (run_nop client n (top_of w.stack) (record w { ops = ps }))) [
        | inl e ↦ rw e tt
        | inr (u, e) ↦ rw e tt
      ]
  turn-Waiting (cons (answer x) ps) w b o = tt
  turn-Waiting (cons (read k f r) ps) w b o = elim (Bool-cases (can_read k b o)) [
    | inr e ↦ rw e (refl, refl, tt)
    | inl e ↦
        elim (Option-cases (parse client k b o (top_of w.stack) f r (record w { ops = ps }))) [
          | inl e' ↦ rw (e, e') tt
          | inr ((u, n), e') ↦ rw (e, e') tt
        ]
  ]
