-- ===== src/Connection/Hazards.antt =====
-- Two behaviours of lib/transport/binary/connection.js that its comments do not mean.
use mathlib.Core.List.{append-nil}
use orientjs.Prelude.{
  ℕ, zero, suc, ◌-◌, ◌≡◌, refl, ◌≢◌, true, false, none, some, [], ◌∷◌, arith, ◌==◌, length,
}
use orientjs.Connection.{
  Bytes, Outcome, Failure, Processed, process, settled, complete, idle_outcome,
}
use orientjs.Connection.Socket.{
  Connection, send_op, cancel, timer, handle_socket_data, after_process, buffer_of, has,
}

-- On a live connection whose timeout was not triggered, let a promise not be marked as completed:
-- once the queue is cancelled and another operation is sent, the timer of that promise drops the
-- socket, leaves the queue empty, and settles the promise of the other operation and no other.
pub timer_after_cancel :
    {Op : Type 0} (R : Type 0) (s : Connection Op) (f : Failure R) (op : Op) (id n : ℕ)
    (bytes : Bytes)
    → s.connected ≡ true
    → has id s.completed ≡ false
    → s.timeout_triggered ≡ false
    → let u = (send_op {R = R} (cancel f s).0 op n bytes).0 in
      let (t, es) = timer {R = R} id u in
      (t.connected ≡ false) × (t.queue ≡ []) × (settled es ≡ n ∷ [])
unfolding timer send_op cancel
timer_after_cancel R s f op id n bytes c h k = rw (c, h, k) (refl, refl, refl)

abbrev idle_result : {Op R : Type 0} → Processed Op R
idle_result = record { queue = []; events = []; offset = 0; still_reading = false }

process-nil :
    {Op R : Type 0} (consume : Op → Bytes → ℕ → Outcome R × Op) (fresh : Op) (g : ℕ)
    (s : Connection Op) (b : Bytes) (r : R)
    → s.queue ≡ []
    → (consume fresh b 0).0 ≡ complete 0 r
    → process consume fresh g s.queue b 0 ≡ some idle_result
unfolding process idle_outcome
process-nil consume fresh g s b r q c = rw q (rw (c, idle_outcome))

-- If the queue is empty and a new operation reads no pushed message from the data at hand, but
-- reports itself complete with nothing read, no fuel suffices for `handleSocketData`: it calls
-- itself again on the same data.
pub unsolicited_data_loops :
    {Op R : Type 0} (consume : Op → Bytes → ℕ → Outcome R × Op) (fresh : Op) (f g : ℕ)
    (s : Connection Op) (chunk : Bytes) (r : R)
    → s.queue ≡ []
    → buffer_of s chunk ≢ []
    → (consume fresh (buffer_of s chunk) 0).0 ≡ complete 0 r
    → handle_socket_data consume fresh f g s chunk ≡ none
unfolding handle_socket_data
unsolicited_data_loops consume fresh zero g s chunk r q b c = refl
unsolicited_data_loops {Op} {R} consume fresh (suc f) g s chunk r q b c =
    let idle = process-nil consume fresh g s (buffer_of s chunk) r q c in
    let more = left_over (buffer_of s chunk) b in
    let t = after_process s (buffer_of s chunk) (idle_result {Op = Op} {R = R}) in
    let same : buffer_of t [] ≡ buffer_of s chunk = rw more (append-nil (buffer_of s chunk)) in
    let again = unsolicited_data_loops consume fresh f g t [] r refl (rw same b) (rw same c) in
    rw (idle, handle_socket_data) (rw again (rw more))
  where
    left_over : (b : Bytes) → b ≢ [] → (length b - 0 == 0) ≡ false
    left_over [] h = absurd (h refl)
    left_over (c ∷ b) h = ground arith
