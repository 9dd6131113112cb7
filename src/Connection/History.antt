-- ===== src/Connection/History.antt =====
-- The promises of a connection over any history of calls and socket events.
use mathlib.Core.List.{append-nil, append_assoc}
use orientjs.Prelude.{
  ℕ, ◌≡◌, some, List, [], ◌∷◌, ◌++◌, refl, ap, ◌∙◌, inl, inr, arith, Bool-cases, zero, suc, true,
  false, not, ◌&&◌, Option, none, Option-cases, ◌-◌, ◌||◌, ◌==◌, ◌>>=◌, length, sym, if_intro, ◌+◌,
  map,
}
use orientjs.Connection.Connecting.{connect, negotiate_protocol, negotiation_failed, flush_writes}
use orientjs.Connection.Closing.{occurrences}
use orientjs.Connection.Flushes.{Runs-counts}
use orientjs.Connection.Steps.{
  Happens, sends, closes_db, writes_done, connects, negotiates, negotiation_fails, flushes, cancels,
  socket_event, times_out, receives, Runs, start, next,
}
use orientjs.Connection.{
  written, closes_settled, Bytes, Outcome, Event, Failure, Command, process, settled, ids,
  connection_error, close_event, reconnect_event,
}
use orientjs.Connection.Process.{settled-append, settled-cancel_events, process_accounts}
use orientjs.Connection.Socket.{
  Connection, initial, Step, send_op, send_db_close, write_done, cancel, destroy_socket,
  handle_socket_error, handle_socket_end, handle_socket_close, timer, close, handle_socket_data,
  after_process, buffer_of, has, emit, ◌then_do◌,
}

-- The promises of queued operations that a step settles and those that it leaves in the queue are those of `q`.
abbrev Keeps : {Op R : Type 0} → List ℕ → Step Op R → Type 0
Keeps q a = settled a.1 ++ ids a.0.queue ≡ q

ids-snoc :
    {Op : Type 0} (q : List (Command Op)) (c : Command Op)
    → ids (q ++ (c ∷ [])) ≡ ids q ++ (c.id ∷ [])
ids-snoc [] c = refl
ids-snoc (d ∷ q) c = ap (◌∷◌ d.id) (ids-snoc q c)

settled-writes : (R : Type 0) (bs : List Bytes) → settled {R = R} (map written bs) ≡ []
settled-writes R [] = refl
settled-writes R (b ∷ bs) = settled-writes R bs

module _ {Op : Type 0} (R : Type 0) where
  then_do-Keeps :
      (q : List ℕ) (a : Step Op R) (f : Connection Op → Step Op R)
      → Keeps q a
      → Keeps (ids a.0.queue) (f a.0)
      → Keeps q (a then_do f)
  then_do-Keeps q a f h k =
      rw (settled-append a.1 (f a.0).1, append_assoc) (ap (◌++◌ (settled a.1)) k ∙ h)

  cancel-Keeps : (f : Failure R) (s : Connection Op) → Keeps (ids s.queue) (cancel f s)
  unfolding cancel
  cancel-Keeps f s = rw append-nil (settled-cancel_events f s.queue)

  destroy_socket-Keeps : (s : Connection Op) → Keeps (ids s.queue) (destroy_socket {R = R} s)
  unfolding destroy_socket
  destroy_socket-Keeps s = ground arith

  drop_all :
      (f : Failure R) (e : Event R) (s : Connection Op)
      → settled (e ∷ []) ≡ []
      → Keeps (ids s.queue) (cancel f s then_do destroy_socket then_do emit e)
  drop_all f e s h =
      then_do-Keeps (ids s.queue) (cancel f s then_do destroy_socket) (emit e)
        (then_do-Keeps (ids s.queue) (cancel f s) destroy_socket (cancel-Keeps f s)
          (destroy_socket-Keeps (cancel f s).0))
        (rw h)

  drop_socket :
      (e : Event R) (s : Connection Op)
      → settled (e ∷ []) ≡ []
      → Keeps (ids s.queue) (destroy_socket s then_do emit e)
  drop_socket e s h =
      then_do-Keeps (ids s.queue) (destroy_socket s) (emit e) (destroy_socket-Keeps s) (rw h)

  handle_socket_error-Keeps :
      (s : Connection Op) → Keeps (ids s.queue) (handle_socket_error {R = R} s)
  unfolding handle_socket_error
  handle_socket_error-Keeps s = drop_all (connection_error 2) _ s refl

  handle_socket_close-Keeps :
      (s : Connection Op) → Keeps (ids s.queue) (handle_socket_close {R = R} s)
  unfolding handle_socket_close
  handle_socket_close-Keeps s = drop_all (connection_error 3) _ s refl

  handle_socket_end-Keeps : (s : Connection Op) → Keeps (ids s.queue) (handle_socket_end {R = R} s)
  unfolding handle_socket_end
  handle_socket_end-Keeps s =
      if_intro (Keeps (ids s.queue)) s.reconnect_now
        (drop_socket reconnect_event (record s { reconnect_now = false }) refl)
        (if_intro (Keeps (ids s.queue)) s.closing
          (drop_socket close_event (record s { closing = false }) refl)
          (drop_all (connection_error 1) _ s refl))

  timer-Keeps : (id : ℕ) (s : Connection Op) → Keeps (ids s.queue) (timer {R = R} id s)
  unfolding timer
  timer-Keeps id s = elim (Bool-cases (not (has id s.completed) && not s.timeout_triggered)) [
    | inl e ↦
        let t = record s { timeout_triggered = true } in
        rw e (
          then_do-Keeps (ids s.queue) (destroy_socket t) (cancel (connection_error 1))
            (destroy_socket-Keeps t)
            (cancel-Keeps (connection_error 1) (destroy_socket {R = R} t).0))
    | inr e ↦ rw e
  ]

  send_db_close-Keeps :
      (s : Connection Op) (id : ℕ) (bytes : Bytes)
      → Keeps (ids s.queue) (send_db_close {R = R} s id bytes)
  unfolding send_db_close
  send_db_close-Keeps s id bytes = if_intro (Keeps (ids s.queue)) s.connected refl refl

  write_done-Keeps : (id : ℕ) (s : Connection Op) → Keeps (ids s.queue) (write_done {R = R} id s)
  unfolding write_done
  write_done-Keeps id s = if_intro (Keeps (ids s.queue)) (has id s.flushing) refl refl

  connect-Keeps : (s : Connection Op) → Keeps (ids s.queue) (connect {R = R} s)
  unfolding connect
  connect-Keeps s = ground arith

  negotiate_protocol-Keeps :
      (s : Connection Op) (b : Bytes) → Keeps (ids s.queue) (negotiate_protocol {R = R} s b)
  unfolding negotiate_protocol
  negotiate_protocol-Keeps s [] = refl
  negotiate_protocol-Keeps s (a ∷ []) = refl
  negotiate_protocol-Keeps s (a ∷ b ∷ rest) = refl

  negotiation_failed-Keeps :
      (s : Connection Op) → Keeps (ids s.queue) (negotiation_failed {R = R} s)
  unfolding negotiation_failed
  negotiation_failed-Keeps s = refl

  flush_writes-Keeps : (s : Connection Op) → Keeps (ids s.queue) (flush_writes {R = R} s)
  unfolding flush_writes
  flush_writes-Keeps s =
      if_intro (Keeps (ids s.queue)) s.connected
        (ap (λ l. l ++ ids s.queue) (settled-writes R s.writes)) refl

  close-Keeps : (s : Connection Op) → Keeps (ids s.queue) (close {R = R} s)
  unfolding close
  close-Keeps s = ground arith

  send_op-Keeps :
      (s : Connection Op) (op : Op) (id : ℕ) (bytes : Bytes)
      → Keeps (ids s.queue ++ (id ∷ [])) (send_op {R = R} s op id bytes)
  unfolding send_op
  send_op-Keeps s op id bytes = elim (Bool-cases s.connected) [
    | inl e ↦ rw e (ids-snoc s.queue (record { op = op; id = id }))
    | inr e ↦ rw e (ids-snoc s.queue (record { op = op; id = id }))
  ]

module _ {Op R : Type 0} (consume : Op → Bytes → ℕ → Outcome R × Op) (fresh : Op) where
  abbrev KeepsIf : List ℕ → Option (Step Op R) → Type 0
  KeepsIf q none = Unit
  KeepsIf q (some a) = Keeps q a

  again-Keeps :
      (q rest : List ℕ) (es : List (Event R)) (r : Option (Step Op R))
      → settled es ++ rest ≡ q
      → KeepsIf rest r
      → KeepsIf q (r >>= λ u. some (u.0, es ++ u.1))
  again-Keeps q rest es none h k = tt
  again-Keeps q rest es (some u) h k =
      rw (settled-append es u.1, append_assoc) (ap (◌++◌ (settled es)) k ∙ h)

  handle_socket_data-Keeps :
      (f g : ℕ) (s : Connection Op) (chunk : Bytes)
      → KeepsIf (ids s.queue) (handle_socket_data consume fresh f g s chunk)
  unfolding handle_socket_data
  handle_socket_data-Keeps zero g s chunk = tt
  handle_socket_data-Keeps (suc f) g s chunk =
      elim (Option-cases (process consume fresh g s.queue (buffer_of s chunk) 0)) [
        | inl e ↦ rw e tt
        | inr (p, e) ↦
            let b = buffer_of s chunk in
            let t = after_process s b p in
            let kept = process_accounts consume fresh g s.queue b 0 p e in
            rw (e, handle_socket_data)
              (elim (Bool-cases (length b - p.offset == 0 || p.still_reading)) [
                | inl stop ↦ rw stop kept
                | inr more ↦ rw more (
                    again-Keeps (ids s.queue) (ids p.queue) p.events
                      (handle_socket_data consume fresh f g t []) kept
                      (handle_socket_data-Keeps f g t []))
              ])
      ]

  Happens-Keeps :
      {s t : Connection Op} {made closes : List ℕ} {es : List (Event R)}
      → Happens consume fresh s made closes es t
      → Keeps (ids s.queue ++ made) (t, es)
  Happens-Keeps {s} (sends op id bytes e m c) = rw m (rw e at (send_op-Keeps R s op id bytes))
  Happens-Keeps {s} (closes_db id bytes e m c) =
      rw (m, append-nil) (rw e at (send_db_close-Keeps R s id bytes))
  Happens-Keeps {s} (writes_done id e m c) = rw (m, append-nil) (rw e at (write_done-Keeps R id s))
  Happens-Keeps {s} (connects e m c) = rw (m, append-nil) (rw e at (connect-Keeps R s))
  Happens-Keeps {s} (negotiates chunk live busy e m c) =
      rw (m, append-nil) (rw e at (negotiate_protocol-Keeps R s chunk))
  Happens-Keeps {s} (negotiation_fails live busy e m c) =
      rw (m, append-nil) (rw e at (negotiation_failed-Keeps R s))
  Happens-Keeps {s} (flushes e m c) = rw (m, append-nil) (rw e at (flush_writes-Keeps R s))
  Happens-Keeps {s} (cancels f e m c) = rw (m, append-nil) (rw e at (cancel-Keeps R f s))
  Happens-Keeps {s} (socket_event (inl e) m c) =
      rw (m, append-nil) (rw e at (handle_socket_error-Keeps R s))
  Happens-Keeps {s} (socket_event (inr (inl e)) m c) =
      rw (m, append-nil) (rw e at (handle_socket_end-Keeps R s))
  Happens-Keeps {s} (socket_event (inr (inr (inl e))) m c) =
      rw (m, append-nil) (rw e at (handle_socket_close-Keeps R s))
  Happens-Keeps {s} (socket_event (inr (inr (inr e))) m c) =
      rw (m, append-nil) (rw e at (close-Keeps R s))
  Happens-Keeps {s} (times_out id e m c) = rw (m, append-nil) (rw e at (timer-Keeps R id s))
  Happens-Keeps {s} (receives f g chunk e m c) =
      rw (m, append-nil) (rw e at (handle_socket_data-Keeps f g s chunk))

  Runs-accounts :
      {t : Connection Op} {made closes : List ℕ} {es : List (Event R)}
      → Runs consume fresh initial made closes es t
      → settled es ++ ids t.queue ≡ made
  Runs-accounts start = refl
  Runs-accounts (next {t = t} {made = made} {new = new} {es = es} {fs = fs} r h a c g) =
      rw (g, a, settled-append es fs, append_assoc)
        (ap (◌++◌ (settled es)) (Happens-Keeps h)
          ∙ sym (append_assoc (settled es) (ids t.queue) new)
          ∙ ap (λ l. l ++ new) (Runs-accounts r))

  -- Over any history of a new connection, made of calls of connect, _sendOp, cancel and close,
  -- negotiation, socket events, timers, data and write callbacks in any order, the promises of
  -- queued operations that were settled, in that order, and the queue are together the promises
  -- that _sendOp made for queued operations, in their order; and each promise that it made for
  -- REQUEST_DB_CLOSE is as often settled (by its write, or as there was no socket) or waiting
  -- for its write as it was made.
  pub Runs_accounts :
      {t : Connection Op} {made closes : List ℕ} {es : List (Event R)} (n : ℕ)
      → Runs consume fresh initial made closes es t
      → (settled es ++ ids t.queue ≡ made)
        × (occurrences n (closes_settled es) + occurrences n t.flushing ≡ occurrences n closes)
  Runs_accounts n r = (Runs-accounts r, Runs-counts consume fresh n r)
