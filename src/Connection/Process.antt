-- ===== src/Connection/Process.antt =====
-- What `process` of connection.js does to the queue.
use mathlib.Core.List.{append-nil, append_assoc}
use orientjs.Prelude.{
  ◌≡◌, refl, ap, List, [], ◌∷◌, ◌++◌, ℕ, zero, suc, ◌∙◌, Bool, false, Option, none, some,
}
use orientjs.Connection.{
  Bytes, Outcome, reading, push_data, complete, live_result, live_result_end, failed, unknown,
  Failure, Event, Command, Processed, settled, ids, cancel_events, with_events, process_loop,
  process, idle_outcome, resolved, rejected, update_config, live_query_result, live_query_end,
  unknown_error, server_error, unsupported_status, error_event,
}

module _ {R : Type 0} where
  pub settled-append : (xs ys : List (Event R)) → settled (xs ++ ys) ≡ settled xs ++ settled ys
  settled-append [] ys = refl
  settled-append (resolved n r ∷ xs) ys = ap (◌∷◌ n) (settled-append xs ys)
  settled-append (rejected n r ∷ xs) ys = ap (◌∷◌ n) (settled-append xs ys)
  settled-append (_ ∷ xs) ys = settled-append xs ys

  pub settled-cancel_events :
      {Op : Type 0} (f : Failure R) (q : List (Command Op)) → settled (cancel_events f q) ≡ ids q
  unfolding cancel_events
  settled-cancel_events f [] = refl
  settled-cancel_events f (c ∷ q) = ap (◌∷◌ c.id) (settled-cancel_events f q)

  abbrev Accounts : {Op : Type 0} → List (Command Op) → Option (Processed Op R) → Type 0
  Accounts q none = Unit
  Accounts q (some p) = settled p.events ++ ids p.queue ≡ ids q

  with_events-Accounts :
      {Op : Type 0} (es : List (Event R)) (q rest : List (Command Op)) (r : Option (Processed Op R))
      → settled es ++ ids rest ≡ ids q
      → Accounts rest r
      → Accounts q (with_events es r)
  with_events-Accounts es q rest none h a = tt
  with_events-Accounts es q rest (some p) h a =
      rw (settled-append es p.events, append_assoc) (ap (◌++◌ (settled es)) a ∙ h)

  pub abort-ids :
      {Op : Type 0} (n : ℕ) (f g : Failure R) (q : List (Command Op))
      → settled (rejected n f ∷ (cancel_events f q ++ (error_event g ∷ []))) ++ [] ≡ n ∷ ids q
  abort-ids n f g q =
      rw (append-nil, settled-append, append-nil) (ap (◌∷◌ n) (settled-cancel_events f q))

  idle-Accounts :
      (Op : Type 0) (out : Outcome R) (o : ℕ) → Accounts {Op = Op} [] (some (idle_outcome out o))
  unfolding idle_outcome
  idle-Accounts Op (reading p) o = refl
  idle-Accounts Op _ o = refl

  module _ {Op : Type 0} (consume : Op → Bytes → ℕ → Outcome R × Op) where
    process_loop-Accounts :
        (f : ℕ) (q : List (Command Op)) (b : Bytes) (o : ℕ) (busy : Bool)
        → Accounts q (process_loop consume f q b o busy)
    unfolding process_loop
    process_loop-Accounts zero q b o busy = tt
    process_loop-Accounts (suc f) [] b o busy = refl
    process_loop-Accounts (suc f) (c ∷ q) b o busy =
        go (consume c.op b o).0 refl (process_loop-Accounts f)
      where
        go :
            (out : Outcome R)
            → (consume c.op b o).0 ≡ out
            → ((q : List (Command Op)) (b : Bytes) (o : ℕ) (busy : Bool)
                → Accounts q (process_loop consume f q b o busy))
            → Accounts (c ∷ q) (process_loop consume (suc f) (c ∷ q) b o busy)
        go (reading p) e ih = rw (e, process_loop) refl
        go (push_data p r) e ih =
            rw (e, process_loop)
              (with_events-Accounts (update_config r ∷ []) (c ∷ q)
                (record c { op = (consume c.op b o).1 } ∷ q) _ refl
                (ih (record c { op = (consume c.op b o).1 } ∷ q) b p false))
        go (complete p r) e ih =
            rw (e, process_loop)
              (with_events-Accounts (resolved c.id r ∷ []) (c ∷ q) q _ refl (ih q b p false))
        go (live_result token operation r p) e ih =
            rw (e, process_loop)
              (with_events-Accounts (live_query_result token operation r ∷ []) (c ∷ q)
                (record c { op = (consume c.op b o).1 } ∷ q) _ refl
                (ih (record c { op = (consume c.op b o).1 } ∷ q) b p false))
        go (live_result_end token p) e ih =
            rw (e, process_loop)
              (with_events-Accounts (live_query_end token ∷ []) (c ∷ q)
                (record c { op = (consume c.op b o).1 } ∷ q) _ refl
                (ih (record c { op = (consume c.op b o).1 } ∷ q) b p false))
        go (failed p (some x)) e ih =
            rw (e, process_loop)
              (with_events-Accounts (rejected c.id (server_error x) ∷ []) (c ∷ q) q _ refl
                (ih q b p false))
        go (failed p none) e ih =
            rw (e, process_loop)
              (with_events-Accounts
                (rejected c.id unknown_error
                  ∷ (cancel_events unknown_error q ++ (error_event unknown_error ∷ [])))
                (c ∷ q) [] _ (abort-ids c.id unknown_error unknown_error q) (ih [] b p false))
        go (unknown n p) e ih =
            rw (e, process_loop)
              (with_events-Accounts (rejected c.id (unsupported_status n) ∷ []) (c ∷ q) q _ refl
                (ih q b p false))

    pub process-Accounts :
        (fresh : Op) (f : ℕ) (q : List (Command Op)) (b : Bytes) (o : ℕ)
        → Accounts q (process consume fresh f q b o)
    unfolding process
    process-Accounts fresh f [] b o = idle-Accounts Op (consume fresh b o).0 o
    process-Accounts fresh f (c ∷ q) b o = process_loop-Accounts f (c ∷ q) b o false

    -- Whatever the operations answer, where `process` ends, the promises that it settles, in
    -- their order, and those that it leaves in the queue are together the queue that it was
    -- given, in its order.
    pub process_accounts :
        (fresh : Op) (f : ℕ) (q : List (Command Op)) (b : Bytes) (o : ℕ) (p : Processed Op R)
        → process consume fresh f q b o ≡ some p
        → settled p.events ++ ids p.queue ≡ ids q
    process_accounts fresh f q b o p h = rw h at (process-Accounts fresh f q b o)
