-- ===== src/Connection/Closing.antt =====
-- The promises of REQUEST_DB_CLOSE in the events of `process` of lib/transport/binary/connection.js.
use orientjs.Prelude.{
  ℕ, zero, suc, ◌+◌, ◌≡◌, refl, ap, arith, Bool, true, false, Option, none, some, List, [], ◌∷◌,
  ◌++◌, ◌==◌, if◌then◌else◌, map,
}
use orientjs.Connection.{
  Bytes, Outcome, reading, push_data, complete, live_result, live_result_end, failed, unknown,
  Failure, Event, Command, Processed, closes_settled, cancel_events, with_events, process_loop,
  process, idle_outcome, resolved, rejected, update_config, live_query_result, live_query_end,
  unknown_error, server_error, unsupported_status, error_event, written, flushed, not_written,
}
use orientjs.Connection.Socket.{has, erase}

-- How often `n` is in a list.
unfoldable pub occurrences : ℕ → List ℕ → ℕ
occurrences n [] = 0
occurrences n (m ∷ ms) = (if m == n then 1 else 0) + occurrences n ms

pub occurrences-append :
    (n : ℕ) (xs ys : List ℕ) → occurrences n (xs ++ ys) ≡ occurrences n xs + occurrences n ys
unfolding occurrences
occurrences-append n [] ys = omega arith
occurrences-append n (x ∷ xs) ys = omega (arith, occurrences-append n xs ys)

pub occurrences-erase :
    (n m : ℕ) (xs : List ℕ) → has m xs ≡ true → occurrences n (m ∷ erase m xs) ≡ occurrences n xs
unfolding occurrences
occurrences-erase n m [] h = cc
occurrences-erase n m (x ∷ xs) h = ground (arith, occurrences-erase n m xs)

pub writes_silent : (R : Type 0) (bs : List Bytes) → closes_settled {R = R} (map written bs) ≡ []
writes_silent R [] = refl
writes_silent R (b ∷ bs) = writes_silent R bs

module _ {R : Type 0} where
  pub closes_settled-append :
      (xs ys : List (Event R)) → closes_settled (xs ++ ys) ≡ closes_settled xs ++ closes_settled ys
  closes_settled-append [] ys = refl
  closes_settled-append (flushed n ∷ xs) ys = ap (◌∷◌ n) (closes_settled-append xs ys)
  closes_settled-append (not_written n ∷ xs) ys = ap (◌∷◌ n) (closes_settled-append xs ys)
  closes_settled-append (_ ∷ xs) ys = closes_settled-append xs ys

  pub silent-append :
      (xs ys : List (Event R))
      → closes_settled xs ≡ []
      → closes_settled ys ≡ []
      → closes_settled (xs ++ ys) ≡ []
  silent-append xs ys h k = rw (closes_settled-append xs ys, h, k)

  pub cancel_silent :
      {Op : Type 0} (f : Failure R) (q : List (Command Op))
      → closes_settled (cancel_events f q) ≡ []
  unfolding cancel_events
  cancel_silent f [] = refl
  cancel_silent f (c ∷ q) = cancel_silent f q

  abbrev pub IsSilentRun : {Op : Type 0} → Option (Processed Op R) → Type 0
  IsSilentRun none = Unit
  IsSilentRun (some p) = closes_settled p.events ≡ []

  with_events-IsSilentRun :
      {Op : Type 0} (es : List (Event R)) (r : Option (Processed Op R))
      → closes_settled es ≡ []
      → IsSilentRun r
      → IsSilentRun (with_events es r)
  with_events-IsSilentRun es none h k = tt
  with_events-IsSilentRun es (some p) h k = silent-append es p.events h k

  abort_silent :
      {Op : Type 0} (n : ℕ) (f g : Failure R) (q : List (Command Op))
      → closes_settled (rejected n f ∷ (cancel_events f q ++ (error_event g ∷ []))) ≡ []
  abort_silent n f g q =
      silent-append (cancel_events f q) (error_event g ∷ []) (cancel_silent f q) refl

  idle_silent :
      (Op : Type 0) (out : Outcome R) (o : ℕ)
      → closes_settled (idle_outcome {Op = Op} out o).events ≡ []
  unfolding idle_outcome
  idle_silent Op (reading p) o = refl
  idle_silent Op _ o = refl

module _ {Op R : Type 0} (consume : Op → Bytes → ℕ → Outcome R × Op) where
  process_loop-IsSilentRun :
      (f : ℕ) (q : List (Command Op)) (b : Bytes) (o : ℕ) (busy : Bool)
      → IsSilentRun (process_loop consume f q b o busy)
  unfolding process_loop
  process_loop-IsSilentRun zero q b o busy = tt
  process_loop-IsSilentRun (suc f) [] b o busy = refl
  process_loop-IsSilentRun (suc f) (c ∷ q) b o busy =
      go (consume c.op b o).0 refl (process_loop-IsSilentRun f)
    where
      go :
          (out : Outcome R)
          → (consume c.op b o).0 ≡ out
          → ((q : List (Command Op)) (b : Bytes) (o : ℕ) (busy : Bool)
              → IsSilentRun (process_loop consume f q b o busy))
          → IsSilentRun (process_loop consume (suc f) (c ∷ q) b o busy)
      go (reading p) e ih = rw (e, process_loop) refl
      go (failed p none) e ih =
          rw (e, process_loop)
            (with_events-IsSilentRun
              (rejected c.id unknown_error
                ∷ (cancel_events unknown_error q ++ (error_event unknown_error ∷ [])))
              (process_loop consume f [] b p false)
              (abort_silent c.id unknown_error unknown_error q) (ih [] b p false))
      go (push_data p r) e ih =
          rw (e, process_loop)
            (with_events-IsSilentRun (update_config r ∷ [])
              (process_loop consume f (record c { op = (consume c.op b o).1 } ∷ q) b p false) refl
              (ih (record c { op = (consume c.op b o).1 } ∷ q) b p false))
      go (complete p r) e ih =
          rw (e, process_loop)
            (with_events-IsSilentRun (resolved c.id r ∷ []) (process_loop consume f q b p false)
              refl (ih q b p false))
      go (live_result token operation r p) e ih =
          rw (e, process_loop)
            (with_events-IsSilentRun (live_query_result token operation r ∷ [])
              (process_loop consume f (record c { op = (consume c.op b o).1 } ∷ q) b p false) refl
              (ih (record c { op = (consume c.op b o).1 } ∷ q) b p false))
      go (live_result_end token p) e ih =
          rw (e, process_loop)
            (with_events-IsSilentRun (live_query_end token ∷ [])
              (process_loop consume f (record c { op = (consume c.op b o).1 } ∷ q) b p false) refl
              (ih (record c { op = (consume c.op b o).1 } ∷ q) b p false))
      go (failed p (some x)) e ih =
          rw (e, process_loop)
            (with_events-IsSilentRun (rejected c.id (server_error x) ∷ [])
              (process_loop consume f q b p false) refl (ih q b p false))
      go (unknown n p) e ih =
          rw (e, process_loop)
            (with_events-IsSilentRun (rejected c.id (unsupported_status n) ∷ [])
              (process_loop consume f q b p false) refl (ih q b p false))

  pub process-IsSilentRun :
      (fresh : Op) (f : ℕ) (q : List (Command Op)) (b : Bytes) (o : ℕ)
      → IsSilentRun (process consume fresh f q b o)
  unfolding process
  process-IsSilentRun fresh f [] b o = idle_silent Op (consume fresh b o).0 o
  process-IsSilentRun fresh f (c ∷ q) b o = process_loop-IsSilentRun f (c ∷ q) b o false
