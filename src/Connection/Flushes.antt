-- ===== src/Connection/Flushes.antt =====
-- The promises of REQUEST_DB_CLOSE over a history of a connection of
-- lib/transport/binary/connection.js.
use orientjs.Prelude.{
  ℕ, zero, suc, ◌+◌, ◌-◌, ◌≡◌, refl, ◌∙◌, inl, inr, arith, true, false, Bool-cases, Option, none,
  some, List, [], ◌∷◌, ◌++◌, ◌==◌, if_intro, not, ◌&&◌, ◌||◌, ◌>>=◌, length, Option-cases,
}
use orientjs.Connection.{Bytes, Outcome, Failure, Event, closes_settled, process, connection_error}
use orientjs.Connection.Socket.{
  Connection, Step, initial, send_op, send_db_close, write_done, cancel, destroy_socket,
  handle_socket_error, handle_socket_end, handle_socket_close, timer, close, handle_socket_data,
  has, ◌then_do◌, after_process, buffer_of, handle_operation_timeout,
}
use orientjs.Connection.Connecting.{connect, negotiate_protocol, negotiation_failed, flush_writes}
use orientjs.Connection.Steps.{
  Happens, sends, closes_db, writes_done, connects, negotiates, negotiation_fails, flushes, cancels,
  socket_event, times_out, receives, Runs, start, next,
}
use orientjs.Connection.Closing.{
  occurrences, occurrences-append, occurrences-erase, closes_settled-append, silent-append,
  cancel_silent, writes_silent, process-IsSilentRun,
}

-- A step that has nothing to do with the promises of REQUEST_DB_CLOSE.
abbrev IsSilent : {Op R : Type 0} → Connection Op → Step Op R → Type 0
IsSilent s a = (closes_settled a.1 ≡ []) × (a.0.flushing ≡ s.flushing)

-- The promises `m` and those of `closes` are together the ones settled and the pending ones.
abbrev Counts : {Op R : Type 0} → ℕ → List ℕ → List ℕ → Step Op R → Type 0
Counts n m closes a =
    occurrences n (closes_settled a.1) + occurrences n a.0.flushing
    ≡ occurrences n m + occurrences n closes

module _ {Op : Type 0} (R : Type 0) where
  cancel-IsSilent : (f : Failure R) (s : Connection Op) → IsSilent s (cancel f s)
  unfolding cancel
  cancel-IsSilent f s = (cancel_silent f s.queue, refl)

  destroy_socket-IsSilent : (s : Connection Op) → IsSilent s (destroy_socket {R = R} s)
  unfolding destroy_socket
  destroy_socket-IsSilent s = ground arith

  then_do-IsSilent :
      (s : Connection Op) (a : Step Op R) (f : Connection Op → Step Op R)
      → IsSilent s a
      → IsSilent a.0 (f a.0)
      → IsSilent s (a then_do f)
  then_do-IsSilent s a f h k = (silent-append a.1 (f a.0).1 h.0 k.0, k.1 ∙ h.1)

  dropped-IsSilent :
      (f : Failure R) (e : Event R) (s : Connection Op)
      → closes_settled (e ∷ []) ≡ []
      → IsSilent s (cancel f s then_do destroy_socket then_do (λ t. (t, e ∷ [])))
  dropped-IsSilent f e s h =
      then_do-IsSilent s (cancel f s then_do destroy_socket) (λ t. (t, e ∷ []))
        (then_do-IsSilent s (cancel f s) destroy_socket (cancel-IsSilent f s)
          (destroy_socket-IsSilent (cancel f s).0))
        (h, refl)

  handle_socket_end-IsSilent : (s : Connection Op) → IsSilent s (handle_socket_end {R = R} s)
  unfolding handle_socket_end
  handle_socket_end-IsSilent s =
      let ended = λ (t : Connection Op) (e : Event R) (h : closes_settled (e ∷ []) ≡ []).
        then_do-IsSilent t (destroy_socket t) (λ u. (u, e ∷ [])) (destroy_socket-IsSilent t)
          (h, refl) in
      if_intro (IsSilent s) s.reconnect_now (ended (record s { reconnect_now = false }) _ refl) (
        if_intro (IsSilent s) s.closing (ended (record s { closing = false }) _ refl)
          (dropped-IsSilent (connection_error 1) _ s refl))

  timer-IsSilent : (id : ℕ) (s : Connection Op) → IsSilent s (timer {R = R} id s)
  unfolding timer handle_operation_timeout
  timer-IsSilent id s =
      let t = record s { timeout_triggered = true } in
      if_intro (IsSilent s) (not (has id s.completed) && not s.timeout_triggered)
        (then_do-IsSilent t (destroy_socket t) (cancel (connection_error 1))
          (destroy_socket-IsSilent t)
          (cancel-IsSilent (connection_error 1) (destroy_socket {R = R} t).0))
        (refl, refl)

  socket_event-IsSilent :
      (s : Connection Op)
      → IsSilent s (handle_socket_error {R = R} s)
        × IsSilent s (handle_socket_close {R = R} s)
        × IsSilent s (close {R = R} s)
  unfolding handle_socket_error handle_socket_close close
  socket_event-IsSilent s = (
    dropped-IsSilent (connection_error 2) _ s refl,
    dropped-IsSilent (connection_error 3) _ s refl,
    ground arith,
  )

  connecting-IsSilent :
      (s : Connection Op)
      → IsSilent s (connect {R = R} s)
        × IsSilent s (negotiation_failed {R = R} s)
        × IsSilent s (flush_writes {R = R} s)
  unfolding connect negotiation_failed flush_writes
  connecting-IsSilent s = (ground arith, (refl, refl), ground (arith, writes_silent R s.writes))

  negotiate_protocol-IsSilent :
      (s : Connection Op) (b : Bytes) → IsSilent s (negotiate_protocol {R = R} s b)
  unfolding negotiate_protocol
  negotiate_protocol-IsSilent s [] = (refl, refl)
  negotiate_protocol-IsSilent s (a ∷ []) = (refl, refl)
  negotiate_protocol-IsSilent s (a ∷ b ∷ rest) = (refl, refl)

  send_op-IsSilent :
      (s : Connection Op) (op : Op) (id : ℕ) (bytes : Bytes)
      → IsSilent s (send_op {R = R} s op id bytes)
  unfolding send_op
  send_op-IsSilent s op id bytes = if_intro (IsSilent s) s.connected (refl, refl) (refl, refl)

  send_db_close-Counts :
      (n : ℕ) (s : Connection Op) (id : ℕ) (bytes : Bytes)
      → Counts n s.flushing (id ∷ []) (send_db_close {R = R} s id bytes)
  unfolding send_db_close occurrences
  send_db_close-Counts n s id bytes = ground (arith, occurrences-append n s.flushing (id ∷ []))

  write_done-Counts :
      (n id : ℕ) (s : Connection Op) → Counts n s.flushing [] (write_done {R = R} id s)
  unfolding write_done occurrences
  write_done-Counts n id s = ground (arith, occurrences-erase n id s.flushing)

  silent-Counts :
      (n : ℕ) (s : Connection Op) (a : Step Op R) → IsSilent s a → Counts n s.flushing [] a
  unfolding occurrences
  silent-Counts n s a h = rw (h.0, h.1) (omega arith)

module _ {Op R : Type 0} (consume : Op → Bytes → ℕ → Outcome R × Op) (fresh : Op) where
  abbrev IsSilentIf : Connection Op → Option (Step Op R) → Type 0
  IsSilentIf s none = Unit
  IsSilentIf s (some a) = IsSilent s a

  again-IsSilentIf :
      (s : Connection Op) (es : List (Event R)) (r : Option (Step Op R))
      → closes_settled es ≡ []
      → IsSilentIf s r
      → IsSilentIf s (r >>= λ u. some (u.0, es ++ u.1))
  again-IsSilentIf s es none h k = tt
  again-IsSilentIf s es (some u) h k = (silent-append es u.1 h k.0, k.1)

  handle_socket_data-IsSilentIf :
      (f g : ℕ) (s : Connection Op) (chunk : Bytes)
      → IsSilentIf s (handle_socket_data consume fresh f g s chunk)
  unfolding handle_socket_data
  handle_socket_data-IsSilentIf zero g s chunk = tt
  handle_socket_data-IsSilentIf (suc f) g s chunk =
      elim (Option-cases (process consume fresh g s.queue (buffer_of s chunk) 0)) [
        | inl e ↦ rw e tt
        | inr (p, e) ↦
            let b = buffer_of s chunk in
            let t = after_process s b p in
            let silent : closes_settled p.events ≡ [] =
              rw e at (process-IsSilentRun consume fresh g s.queue b 0) in
            rw (e, handle_socket_data)
              (elim (Bool-cases (length b - p.offset == 0 || p.still_reading)) [
                | inl stop ↦ rw stop (silent, refl)
                | inr more ↦ rw more (
                    again-IsSilentIf s p.events (handle_socket_data consume fresh f g t []) silent
                      (handle_socket_data-IsSilentIf f g t []))
              ])
      ]

  Happens-Counts :
      (n : ℕ) {s t : Connection Op} {made closes : List ℕ} {es : List (Event R)}
      → Happens consume fresh s made closes es t
      → Counts n s.flushing closes (t, es)
  Happens-Counts n {s} {t} {es = es} (sends op id bytes e m c) =
      rw c (silent-Counts R n s (t, es) (rw e at (send_op-IsSilent R s op id bytes)))
  Happens-Counts n {s} (closes_db id bytes e m c) =
      rw c (rw e at (send_db_close-Counts R n s id bytes))
  Happens-Counts n {s} (writes_done id e m c) = rw c (rw e at (write_done-Counts R n id s))
  Happens-Counts n {s} {t} {es = es} (connects e m c) =
      rw c (silent-Counts R n s (t, es) (rw e at ((connecting-IsSilent R s).0)))
  Happens-Counts n {s} {t} {es = es} (negotiates chunk live busy e m c) =
      rw c (silent-Counts R n s (t, es) (rw e at (negotiate_protocol-IsSilent R s chunk)))
  Happens-Counts n {s} {t} {es = es} (negotiation_fails live busy e m c) =
      rw c (silent-Counts R n s (t, es) (rw e at ((connecting-IsSilent R s).1)))
  Happens-Counts n {s} {t} {es = es} (flushes e m c) =
      rw c (silent-Counts R n s (t, es) (rw e at ((connecting-IsSilent R s).2)))
  Happens-Counts n {s} {t} {es = es} (cancels f e m c) =
      rw c (silent-Counts R n s (t, es) (rw e at (cancel-IsSilent R f s)))
  Happens-Counts n {s} {t} {es = es} (socket_event (inl e) m c) =
      rw c (silent-Counts R n s (t, es) (rw e at ((socket_event-IsSilent R s).0)))
  Happens-Counts n {s} {t} {es = es} (socket_event (inr (inl e)) m c) =
      rw c (silent-Counts R n s (t, es) (rw e at (handle_socket_end-IsSilent R s)))
  Happens-Counts n {s} {t} {es = es} (socket_event (inr (inr (inl e))) m c) =
      rw c (silent-Counts R n s (t, es) (rw e at ((socket_event-IsSilent R s).1)))
  Happens-Counts n {s} {t} {es = es} (socket_event (inr (inr (inr e))) m c) =
      rw c (silent-Counts R n s (t, es) (rw e at ((socket_event-IsSilent R s).2)))
  Happens-Counts n {s} {t} {es = es} (times_out id e m c) =
      rw c (silent-Counts R n s (t, es) (rw e at (timer-IsSilent R id s)))
  Happens-Counts n {s} {t} {es = es} (receives f g chunk e m c) =
      rw c (silent-Counts R n s (t, es) (rw e at (handle_socket_data-IsSilentIf f g s chunk)))

  pub Runs-counts :
      (n : ℕ) {t : Connection Op} {made closes : List ℕ} {es : List (Event R)}
      → Runs consume fresh initial made closes es t
      → occurrences n (closes_settled es) + occurrences n t.flushing ≡ occurrences n closes
  Runs-counts n start = unfold occurrences in omega arith
  Runs-counts n
        (next {made = made} {closes = closes} {new_closes = new} {es = es} {fs = fs} r h a c g) =
      rw (g, c, closes_settled-append es fs)
        (omega (
          arith,
          occurrences-append n (closes_settled es) (closes_settled fs),
          occurrences-append n closes new,
          Runs-counts n r,
          Happens-Counts n h,
        ))
