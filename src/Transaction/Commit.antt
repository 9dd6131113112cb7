-- ===== src/Transaction/Commit.antt =====
-- The temporary record ids of lib/db/transaction.js, and how `commit` replaces them.
use orientjs.Prelude.{
  ℕ, suc, ◌<◌, ◌≡◌, ◌≢◌, ◌⊎◌, inl, inr, false, some, List, [], ◌∷◌, ◌==◌, if◌then◌else◌, ℤ, pos,
  negsuc, ◌+◌, ◌≤◌, refl, sym, ◌∙◌, true, none, ◌++◌, map, arith, ==_iff, ==_refl, Bool-cases,
  length, All,
}
use mathlib.Core.List.{append_assoc, append-nil}
use orientjs.RecordId.{Parsed, one}
use orientjs.Transaction.{
  Record, new_transaction, create, create_all, Created, is_at, assign, assign_all, committed,
}

abbrev pub temporary : ℕ → Parsed
temporary i = one (record { cluster = some (negsuc 0); position = some (negsuc (suc i)) })

abbrev pub real : ℕ → ℤ → Parsed
real c p = one (record { cluster = some (pos c); position = some p })

-- An entry of the answer, for the record at the place `i`.
abbrev pub entry : ℕ × ℕ × ℤ → Created
entry (i, c, p) = record {
  tmp_cluster = negsuc 0;
  tmp_position = negsuc (suc i);
  cluster = pos c;
  position = p;
}

-- The record ids of the record at the place `k`: its temporary one, or one with a cluster.
abbrev Slot : ℕ → Parsed → Type 0
Slot k r = (r ≡ temporary k) ⊎ ((c : ℕ) × (p : ℤ) × (r ≡ real c p))

is_at-temporary : (k : ℕ) → is_at (temporary k) (negsuc 0) (negsuc (suc k)) ≡ true
is_at-temporary k = ground arith

is_at-other :
    (k i : ℕ) (r : Parsed) → Slot k r → i ≢ k → is_at r (negsuc 0) (negsuc (suc i)) ≡ false
is_at-other k i r (inl e) h = rw e (ground arith)
is_at-other k i r (inr (c, p, e)) h = rw e

abbrev pub Answer : Type 0
Answer = ℕ × ℕ × ℤ

-- No place is answered twice.
abbrev pub Once : List Answer → Type 0
Once [] = Unit
Once (a ∷ answers) = All (λ b. b.0 ≢ a.0) answers × Once answers

module _ {D : Type 0} where
  abbrev Slots : ℕ → List (Record D) → Type 0
  Slots k [] = Unit
  Slots k (r ∷ rs) = Slot k r.rid × Slots (suc k) rs

  -- The place `i` is one of the records, which has its temporary record id still.
  abbrev Waits : ℕ → ℕ → List (Record D) → Type 0
  Waits k i [] = ⊥
  Waits k i (r ∷ rs) = ((i ≡ k) × (r.rid ≡ temporary k)) ⊎ ((k < i) × Waits (suc k) i rs)

  -- The record at the place `i` gets a record id, the first place being `k`.
  abbrev pub settled_at : ℕ → Answer → List (Record D) → List (Record D)
  settled_at k a [] = []
  settled_at k a (r ∷ rs) =
      let rest = settled_at (suc k) a rs in
      if a.0 == k then record r { rid = real a.1 a.2 } ∷ rs else r ∷ rest

  abbrev pub settled_all : List Answer → List (Record D) → List (Record D)
  settled_all [] rs = rs
  settled_all (a ∷ answers) rs = settled_all answers (settled_at 0 a rs)

  assign-settled_at :
      (k : ℕ) (a : Answer) (rs : List (Record D))
      → Slots k rs
      → Waits k a.0 rs
      → assign k (entry a) rs ≡ (some a.0, settled_at k a rs)
  unfolding assign
  assign-settled_at k a [] s w = absurd w
  assign-settled_at k a (r ∷ rs) (s, ss) (inl (e, t)) = rw (t, e, is_at-temporary k, ==_refl)
  assign-settled_at k a (r ∷ rs) (s, ss) (inr (l, w)) =
      let apart : a.0 == k ≡ false = ground arith in
      rw (is_at-other k a.0 r.rid s (λ e. omega arith), apart, assign-settled_at (suc k) a rs ss w)

  settled_at-Slots :
      (k : ℕ) (a : Answer) (rs : List (Record D)) → Slots k rs → Slots k (settled_at k a rs)
  settled_at-Slots k a [] s = tt
  settled_at-Slots k a (r ∷ rs) (s, ss) = elim (Bool-cases (a.0 == k)) [
    | inl e ↦ rw e (inr (a.1, a.2, refl), ss)
    | inr e ↦ rw e (s, settled_at-Slots (suc k) a rs ss)
  ]

  settled_at-Waits :
      (k i : ℕ) (a : Answer) (rs : List (Record D))
      → i ≢ a.0
      → Waits k i rs
      → Waits k i (settled_at k a rs)
  settled_at-Waits k i a [] h w = w
  settled_at-Waits k i a (r ∷ rs) h (inl (e, t)) =
      let apart : a.0 == k ≡ false = ground arith in rw apart (inl (e, t))
  settled_at-Waits k i a (r ∷ rs) h (inr (l, w)) = elim (Bool-cases (a.0 == k)) [
    | inl e ↦ rw e (inr (l, w))
    | inr e ↦ rw e (inr (l, settled_at-Waits (suc k) i a rs h w))
  ]

  others-Waits :
      (a : Answer) (answers : List Answer) (rs : List (Record D))
      → All (λ b. b.0 ≢ a.0) answers
      → All (λ b. Waits 0 b.0 rs) answers
      → All (λ b. Waits 0 b.0 (settled_at 0 a rs)) answers
  others-Waits a [] rs h w = tt
  others-Waits a (b ∷ answers) rs (h, hs) (w, ws) =
      (settled_at-Waits 0 b.0 a rs h w, others-Waits a answers rs hs ws)

  assign_all-settled_all :
      (answers : List Answer) (rs : List (Record D))
      → Once answers
      → Slots 0 rs
      → All (λ a. Waits 0 a.0 rs) answers
      → assign_all (map entry answers) rs ≡ (map (λ a. a.0) answers, settled_all answers rs)
  unfolding assign_all
  assign_all-settled_all [] rs o s w = refl
  assign_all-settled_all (a ∷ answers) rs (h, o) s (w, ws) = rw (
    assign-settled_at 0 a rs s w,
    assign_all-settled_all answers (settled_at 0 a rs) o (settled_at-Slots 0 a rs s)
        (others-Waits a answers rs h ws),
  )

  -- The records of a transaction, the first one at the place `k`.
  abbrev pub made : ℕ → List D → List (Record D)
  made k [] = []
  made k (x ∷ xs) = record { rid = temporary k; version = none; body = x } ∷ made (suc k) xs

  create_all-made :
      (xs : List D) (n : ℕ) (rs us ds : List (Record D))
      → (create_all xs
          (record { last_position = negsuc n; creates = rs; updates = us; deletes = ds })).creates
        ≡ rs ++ made n xs
  unfolding create_all create
  create_all-made [] n rs us ds = sym (append-nil rs)
  create_all-made (x ∷ xs) n rs us ds =
      create_all-made xs (suc n)
        (rs ++ (record { rid = temporary n; version = none; body = x } ∷ [])) us ds
      ∙ append_assoc rs _ (made (suc n) xs)

  made-Slots : (k : ℕ) (xs : List D) → Slots k (made k xs)
  made-Slots k [] = tt
  made-Slots k (x ∷ xs) = (inl refl, made-Slots (suc k) xs)

  made-Waits : (k i : ℕ) (xs : List D) → k ≤ i → i < k + length xs → Waits k i (made k xs)
  made-Waits k i [] l h = absurd (omega arith)
  made-Waits k i (x ∷ xs) l h = elim (Bool-cases (i == k)) [
    | inl e ↦ inl ((==_iff i k).0 e, refl)
    | inr e ↦ inr (ground arith, made-Waits (suc k) i xs (ground arith) (omega arith))
  ]

  answers-Waits :
      (answers : List Answer) (xs : List D)
      → All (λ a. a.0 < length xs) answers
      → All (λ a. Waits 0 a.0 (made 0 xs)) answers
  answers-Waits [] xs h = tt
  answers-Waits (a ∷ answers) xs (h, hs) =
      (made-Waits 0 a.0 xs (omega arith) (omega arith), answers-Waits answers xs hs)

  -- After records are created in a new transaction, and the server has answered some of them,
  -- each once and in any order, by their temporary record ids with record ids of a cluster that
  -- is not negative, `commit` returns the answered records in the order of the answers, and has
  -- given each the record id of its own answer and changed no other.
  pub committed-create_all :
      (xs : List D) (answers : List Answer)
      → Once answers
      → All (λ a. a.0 < length xs) answers
      → ((committed (map entry answers) [] (create_all xs new_transaction)).1
          ≡ map (λ a. a.0) answers)
        × ((committed (map entry answers) [] (create_all xs new_transaction)).0.creates
            ≡ settled_all answers (made 0 xs))
  unfolding committed
  committed-create_all xs answers o h =
      let start = create_all-made xs 0 [] [] [] in
      let all =
        assign_all-settled_all answers (made 0 xs) o (made-Slots 0 xs)
          (answers-Waits answers xs h) in
      rw (start, all) (refl, refl)
