-- ===== src/OperationQueue/Process.antt =====
-- What `process` of operation-queue.js does to its queue, and that it agrees with `process` of
-- connection.js where the server pushes nothing.
use mathlib.Core.List.{append-nil}
use orientjs.Prelude.{
  ℕ, zero, suc, ◌<◌, ◌≡◌, refl, ap, Bool, false, Option, none, some, List, [], ◌∷◌, ◌++◌, length,
  arith,
}
use orientjs.Connection.{
  Bytes, Outcome, reading, push_data, complete, live_result, live_result_end, failed, unknown,
  Event, Command, Processed, settled, ids, with_events, process_loop, resolved, rejected,
  unknown_error, server_error, unsupported_status, cancel_events, error_event,
}
use orientjs.Connection.Process.{settled-append, abort-ids}
use orientjs.OperationQueue.{OperationQueue, Drained, after, process, handle_chunk}

-- The outcome is not one that the server pushes, and the rest goes on as `rest` says from the offset
-- behind it, if there is a rest.
abbrev pub AnswersThen : {R : Type 0} → Outcome R → (ℕ → Type 0) → Type 0
AnswersThen (reading p) rest = Unit
AnswersThen (push_data p r) rest = ⊥
AnswersThen (live_result token operation r p) rest = ⊥
AnswersThen (live_result_end token p) rest = ⊥
AnswersThen (complete p r) rest = rest p
AnswersThen (failed p (some e)) rest = rest p
AnswersThen (failed p none) rest = Unit
AnswersThen (unknown n p) rest = rest p

-- A run of the connection's loop that ended, and a run of this queue, have the same result.
abbrev pub Agrees : {Op R : Type 0} → Option (Processed Op R) → Drained Op R → Type 0
Agrees none d = ⊥
Agrees (some p) d = (p.queue ≡ d.items) × (p.events ≡ d.events) × (p.offset ≡ d.offset)

with_events-Agrees :
    {Op R : Type 0} (es : List (Event R)) (r : Option (Processed Op R)) (d : Drained Op R)
    → Agrees r d
    → Agrees (with_events es r) (after es d)
with_events-Agrees es none d a = a
with_events-Agrees es (some p) d (q, e, o) = (q, ap (◌++◌ es) e, o)

module _ {Op R : Type 0} (consume : Op → Bytes → ℕ → Outcome R × Op) where
  abbrev Accounts : List (Command Op) → Drained Op R → Type 0
  Accounts q d = settled d.events ++ ids d.items ≡ ids q

  after-Accounts :
      (c : Command Op) (q : List (Command Op)) (e : Event R) (d : Drained Op R)
      → settled (e ∷ []) ≡ c.id ∷ []
      → Accounts q d
      → Accounts (c ∷ q) (after (e ∷ []) d)
  after-Accounts c q e d h a = rw (settled-append (e ∷ []) d.events, h) (ap (◌∷◌ c.id) a)

  process-Accounts :
      (q : List (Command Op)) (b : Bytes) (o : ℕ) → Accounts q (process consume q b o)
  unfolding process
  process-Accounts [] b o = refl
  process-Accounts (c ∷ q) b o = go (consume c.op b o).0 refl (process-Accounts q b)
    where
      go :
          (out : Outcome R)
          → (consume c.op b o).0 ≡ out
          → ((p : ℕ) → Accounts q (process consume q b p))
          → Accounts (c ∷ q) (process consume (c ∷ q) b o)
      go (reading p) e ih = rw (e, process) refl
      go (push_data p r) e ih = rw (e, process) refl
      go (complete p r) e ih =
          rw (e, process) (after-Accounts c q (resolved c.id r) (process consume q b p) refl (ih p))
      go (live_result token operation r p) e ih =
          rw (e, process)
            (after-Accounts c q (rejected c.id (unsupported_status 6)) (process consume q b token)
              refl (ih token))
      go (live_result_end token p) e ih =
          rw (e, process)
            (after-Accounts c q (rejected c.id (unsupported_status 7)) (process consume q b token)
              refl (ih token))
      go (failed p (some x)) e ih =
          rw (e, process)
            (after-Accounts c q (rejected c.id (server_error x)) (process consume q b p) refl
              (ih p))
      go (failed p none) e ih = rw (e, process) (abort-ids c.id unknown_error unknown_error q)
      go (unknown n p) e ih =
          rw (e, process)
            (after-Accounts c q (rejected c.id (unsupported_status n)) (process consume q b p) refl
              (ih p))

  -- Whatever the operations answer, the promises that `handleChunk` settles, in their order,
  -- and those that it leaves in the operation queue are together the promises of the queue
  -- before, in its order.
  pub handle_chunk_accounts :
      (s : OperationQueue Op) (chunk : Bytes)
      → settled (handle_chunk consume s chunk).1 ++ ids (handle_chunk consume s chunk).0.items
        ≡ ids s.items
  unfolding handle_chunk
  handle_chunk_accounts s chunk = process-Accounts s.items _ 0

  -- From the operation at the front on, as far as the queue is drained: no operation that is asked
  -- gives what the server pushes, at the place where it is asked.
  abbrev pub AnswersAlong : List (Command Op) → Bytes → ℕ → Type 0
  AnswersAlong [] b o = Unit
  AnswersAlong (c ∷ q) b o = AnswersThen (consume c.op b o).0 (AnswersAlong q b)

  -- Where no operation of the queue, asked in its turn at the offset that was reached, gives an
  -- outcome that the server pushes, `process` of the operation queue leaves the same queue,
  -- does the same in the same order and returns the same offset as `process` of a connection
  -- does with more fuel than there are operations, which then comes to an end.
  pub process-process_loop :
      (f : ℕ) (q : List (Command Op)) (b : Bytes) (o : ℕ) (busy : Bool)
      → AnswersAlong q b o
      → length q < f
      → Agrees (process_loop consume f q b o busy) (process consume q b o)
  unfolding process process_loop
  process-process_loop zero q b o busy a h = absurd (omega arith)
  process-process_loop (suc f) [] b o busy a h = (refl, refl, refl)
  process-process_loop (suc f) (c ∷ q) b o busy a h =
      go (consume c.op b o).0 refl a (process-process_loop f)
    where
      go :
          (out : Outcome R)
          → (consume c.op b o).0 ≡ out
          → AnswersThen (consume c.op b o).0 (AnswersAlong q b)
          → ((q : List (Command Op)) (b : Bytes) (o : ℕ) (busy : Bool)
              → AnswersAlong q b o
              → length q < f
              → Agrees (process_loop consume f q b o busy) (process consume q b o))
          → Agrees (process_loop consume (suc f) (c ∷ q) b o busy) (process consume (c ∷ q) b o)
      go (reading p) e a ih = rw (e, process_loop, process) (refl, refl, refl)
      go (push_data p r) e a ih = absurd (rw e at a)
      go (complete p r) e a ih =
          rw (e, process_loop, process)
            (with_events-Agrees (resolved c.id r ∷ []) (process_loop consume f q b p false)
              (process consume q b p) (ih q b p false (rw e at a) (omega arith)))
      go (live_result token operation r p) e a ih = absurd (rw e at a)
      go (live_result_end token p) e a ih = absurd (rw e at a)
      go (failed p (some x)) e a ih =
          rw (e, process_loop, process)
            (with_events-Agrees (rejected c.id (server_error x) ∷ [])
              (process_loop consume f q b p false) (process consume q b p)
              (ih q b p false (rw e at a) (omega arith)))
      go (failed p none) e a ih =
          let es =
            rejected c.id unknown_error
            ∷ (cancel_events unknown_error q ++ (error_event unknown_error ∷ [])) in
          let ended =
            with_events-Agrees es (process_loop consume f [] b p false) (process consume [] b p)
              (ih [] b p false tt (omega arith)) in
          rw (e, process_loop, process) (rw append-nil at ended)
      go (unknown n p) e a ih =
          rw (e, process_loop, process)
            (with_events-Agrees (rejected c.id (unsupported_status n) ∷ [])
              (process_loop consume f q b p false) (process consume q b p)
              (ih q b p false (rw e at a) (omega arith)))
