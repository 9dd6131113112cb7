-- ===== src/Connection/Termination.antt =====
-- That `process` of connection.js comes to an end.
use orientjs.Prelude.{
  ℕ, zero, suc, ◌+◌, ◌-◌, ◌≤◌, ◌<◌, ◌≡◌, refl, Bool, false, Option, none, some, List, [], ◌∷◌, ◌++◌,
  arith, length,
}
use orientjs.Connection.{
  Bytes, Outcome, reading, push_data, complete, live_result, live_result_end, failed, unknown,
  Event, Command, Processed, with_events, process_loop, process, idle_outcome, resolved, rejected,
  unknown_error, server_error, unsupported_status, error_event, update_config, live_query_result,
  live_query_end, cancel_events,
}

module _ {R : Type 0} where
  -- How far an outcome may have read, from the offset `o` in `n` bytes. A pushed message takes a
  -- byte at least.
  abbrev pub Moves : ℕ → ℕ → Outcome R → Type 0
  Moves n o (reading p) = (o ≤ p) × (p ≤ n)
  Moves n o (push_data p r) = (o < p) × (p ≤ n)
  Moves n o (complete p r) = (o ≤ p) × (p ≤ n)
  Moves n o (live_result token operation r p) = (o < p) × (p ≤ n)
  Moves n o (live_result_end token p) = (o < p) × (p ≤ n)
  Moves n o (failed p e) = (o ≤ p) × (p ≤ n)
  Moves n o (unknown k p) = (o ≤ p) × (p ≤ n)

  -- The loop has ended, between the offset `o` and the end of the buffer.
  abbrev pub Ends : {Op : Type 0} → Bytes → ℕ → Option (Processed Op R) → Type 0
  Ends b o none = ⊥
  Ends b o (some p) = (o ≤ p.offset) × (p.offset ≤ length b)

  with_events-Ends :
      {Op : Type 0} (es : List (Event R)) (b : Bytes) (o p : ℕ) (r : Option (Processed Op R))
      → o ≤ p
      → Ends b p r
      → Ends b o (with_events es r)
  with_events-Ends es b o p none h e = e
  with_events-Ends es b o p (some x) h e = omega arith

  idle-Ends :
      (Op : Type 0) (n o : ℕ) (out : Outcome R)
      → o ≤ n
      → Moves n o out
      → (o ≤ (idle_outcome {Op = Op} out o).offset) × ((idle_outcome {Op = Op} out o).offset ≤ n)
  unfolding idle_outcome
  idle-Ends Op n o (reading p) h m = omega arith
  idle-Ends Op n o _ h m = omega arith

  module _ {Op : Type 0} (consume : Op → Bytes → ℕ → Outcome R × Op)
      (moves : (op : Op) (b : Bytes) (o : ℕ)
        → o ≤ length b
        → Moves (length b) o (consume op b o).0) where
    process_loop-Ends :
        (f : ℕ) (q : List (Command Op)) (b : Bytes) (o : ℕ) (busy : Bool)
        → o ≤ length b
        → length q + (length b - o) < f
        → Ends b o (process_loop consume f q b o busy)
    unfolding process_loop
    process_loop-Ends zero q b o busy h k = elim k [ ]
    process_loop-Ends (suc f) [] b o busy h k = omega arith
    process_loop-Ends (suc f) (c ∷ q) b o busy h k =
        go (consume c.op b o).0 refl (moves c.op b o h) (process_loop-Ends f)
      where
        go :
            (out : Outcome R)
            → (consume c.op b o).0 ≡ out
            → Moves (length b) o (consume c.op b o).0
            → ((q : List (Command Op)) (b : Bytes) (o : ℕ) (busy : Bool)
                → o ≤ length b
                → length q + (length b - o) < f
                → Ends b o (process_loop consume f q b o busy))
            → Ends b o (process_loop consume (suc f) (c ∷ q) b o busy)
        go (reading p) e m ih = let m' = rw e at m in rw (e, process_loop) (omega arith)
        go (push_data p r) e m ih =
            let m' = rw e at m in
            rw (e, process_loop)
              (with_events-Ends (update_config r ∷ []) b o p _ (omega arith) (
                ih (record c { op = (consume c.op b o).1 } ∷ q) b p false (omega arith)
                  (omega arith)))
        go (complete p r) e m ih =
            let m' = rw e at m in
            rw (e, process_loop)
              (with_events-Ends (resolved c.id r ∷ []) b o p _ (omega arith)
                (ih (q) b p false (omega arith) (omega arith)))
        go (live_result token operation r p) e m ih =
            let m' = rw e at m in
            rw (e, process_loop)
              (with_events-Ends (live_query_result token operation r ∷ []) b o p _ (omega arith) (
                ih (record c { op = (consume c.op b o).1 } ∷ q) b p false (omega arith)
                  (omega arith)))
        go (live_result_end token p) e m ih =
            let m' = rw e at m in
            rw (e, process_loop)
              (with_events-Ends (live_query_end token ∷ []) b o p _ (omega arith) (
                ih (record c { op = (consume c.op b o).1 } ∷ q) b p false (omega arith)
                  (omega arith)))
        go (failed p (some x)) e m ih =
            let m' = rw e at m in
            rw (e, process_loop)
              (with_events-Ends (rejected c.id (server_error x) ∷ []) b o p _ (omega arith)
                (ih (q) b p false (omega arith) (omega arith)))
        go (failed p none) e m ih =
            let m' = rw e at m in
            rw (e, process_loop)
              (with_events-Ends
                (rejected c.id unknown_error
                  ∷ (cancel_events unknown_error q ++ (error_event unknown_error ∷ [])))
                b o p _ (omega arith) (ih ([]) b p false (omega arith) (omega arith)))
        go (unknown n p) e m ih =
            let m' = rw e at m in
            rw (e, process_loop)
              (with_events-Ends (rejected c.id (unsupported_status n) ∷ []) b o p _ (omega arith)
                (ih (q) b p false (omega arith) (omega arith)))

    -- If no outcome goes back or past the end of the buffer, and each pushed message takes a
    -- byte at least, `process` ends from any offset in the buffer, with more fuel than there
    -- are queued operations and bytes left, at an offset between the one that it was given
    -- and the end.
    pub process_total :
        (fresh : Op) (f : ℕ) (q : List (Command Op)) (b : Bytes) (o : ℕ)
        → o ≤ length b
        → length q + (length b - o) < f
        → (p : Processed Op R) × (process consume fresh f q b o ≡ some p)
          × (o ≤ p.offset)
          × (p.offset ≤ length b)
    unfolding process
    process_total fresh f [] b o h k =
        let out = (consume fresh b o).0 in
        let (low, high) = idle-Ends Op (length b) o out h (moves fresh b o h) in
        (idle_outcome out o, refl, low, high)
    process_total fresh f (c ∷ q) b o h k =
        take_result (process_loop consume f (c ∷ q) b o false)
          (process_loop-Ends f (c ∷ q) b o false h k)
      where
        take_result :
            (r : Option (Processed Op R))
            → Ends b o r
            → (p : Processed Op R) × (r ≡ some p) × (o ≤ p.offset) × (p.offset ≤ length b)
        take_result none e = absurd e
        take_result (some p) e = (p, refl, e.0, e.1)
