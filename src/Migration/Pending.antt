-- ===== src/Migration/Pending.antt =====
-- What `up` of lib/migration/manager.js leaves: which migrations are recorded, and which pend.
use orientjs.Prelude.{
  ◌≡◌, refl, ap, ◌∙◌, inl, inr, Bool, true, ◌||◌, List, [], ◌∷◌, ◌++◌, if◌then◌else◌, Bool-cases,
  none, some, ℕ, sym,
}
use mathlib.Core.List.{append_assoc, append-nil}
use orientjs.Text.{Text, text_eq, text_eq_iff}
use orientjs.Migration.{
  Database, is_applied, pending, text_leb, insert, sort, list_available, list, limited, Run,
  with_name, apply_all, up,
}

is_applied-append :
    (x : Text) (xs ys : List Text) → is_applied x (xs ++ ys) ≡ (is_applied x xs || is_applied x ys)
unfolding is_applied
is_applied-append x [] ys = refl
is_applied-append x (z ∷ xs) ys = elim (Bool-cases (text_eq z x)) [
  | inl e ↦ rw e
  | inr e ↦ rw e (is_applied-append x xs ys)
]

-- A list with a member more.
abbrev adding : Text → Text → Bool → Bool
adding x y b = if text_eq y x then true else b

adding_more : (x y : Text) (b : Bool) → b ≡ true → adding x y b ≡ true
adding_more x y b h = elim (Bool-cases (text_eq y x)) [ inl e ↦ rw e | inr e ↦ rw (e, h) ]

adding_swap : (x y z : Text) (b : Bool) → adding x y (adding x z b) ≡ adding x z (adding x y b)
adding_swap x y z b = elim (Bool-cases (text_eq y x)) [
  | inl e ↦ elim (Bool-cases (text_eq z x)) [ inl f ↦ rw (e, f) | inr f ↦ rw (e, f) ]
  | inr e ↦ elim (Bool-cases (text_eq z x)) [ inl f ↦ rw (e, f) | inr f ↦ rw (e, f) ]
]

is_applied-insert :
    (x y : Text) (ys : List Text) → is_applied x (insert y ys) ≡ adding x y (is_applied x ys)
unfolding is_applied insert
is_applied-insert x y [] = refl
is_applied-insert x y (z ∷ ys) = elim (Bool-cases (text_leb y z)) [
  | inl e ↦ rw e
  | inr e ↦
      rw (e, is_applied)
        (ap (adding x z) (is_applied-insert x y ys) ∙ adding_swap x z y (is_applied x ys))
]

is_applied-sort : (x : Text) (xs : List Text) → is_applied x (sort xs) ≡ is_applied x xs
unfolding is_applied sort
is_applied-sort x [] = refl
is_applied-sort x (y ∷ xs) =
    is_applied-insert x y (sort xs) ∙ ap (adding x y) (is_applied-sort x xs)

text_eq_self : (x : Text) → text_eq x x ≡ true
text_eq_self x = (text_eq_iff x x).1 refl

-- Each migration is applied or pending.
all_applied :
    (xs applied more : List Text)
    → ((y : Text) → is_applied y (pending xs applied) ≡ true → is_applied y more ≡ true)
    → pending xs (applied ++ more) ≡ []
unfolding pending
all_applied [] applied more h = refl
all_applied (x ∷ xs) applied more h = elim (Bool-cases (is_applied x applied)) [
  | inl e ↦
      let now : is_applied x (applied ++ more) ≡ true = is_applied-append x applied more ∙ rw e in
      rw now (all_applied xs applied more (rw e at h))
  | inr e ↦
      let h' : (y : Text)
          → adding y x (is_applied y (pending xs applied)) ≡ true
          → is_applied y more ≡ true =
        rw e at h in
      let here : adding x x (is_applied x (pending xs applied)) ≡ true = rw (text_eq_self x) in
      let now : is_applied x (applied ++ more) ≡ true =
        is_applied-append x applied more ∙ rw (e, h' x here) in
      rw now (
        all_applied xs applied more
          (λ y k. h' y (adding_more y x (is_applied y (pending xs applied)) k)))
]

with_name-kept : {D : Type 0} (x : Text) (r : Run D) → (with_name x r).1 ≡ r.1
with_name-kept x (none, db) = refl
with_name-kept x (some xs, db) = refl

with_name-some :
    {D : Type 0} (x : Text) (r : Run D) (names : List Text)
    → (with_name x r).0 ≡ some names
    → (rest : List Text) × (r.0 ≡ some rest) × (names ≡ x ∷ rest)
with_name-some x (none, db) names h = cc
with_name-some x (some xs, db) names h = (xs, refl, cc)

with_name-none : {D : Type 0} (x : Text) (r : Run D) → (with_name x r).0 ≡ none → r.0 ≡ none
with_name-none x (none, db) h = refl
with_name-none x (some xs, db) h = cc

module _ {D : Type 0} (act : Text → D → D × Bool) where
  -- The run behind a migration that was applied.
  abbrev next : Text → Database D → Database D
  next x db = record { content = (act x db.content).0; applied = db.applied ++ (x ∷ []) }

  apply_all_done :
      (xs names : List Text) (db : Database D)
      → (apply_all act xs db).0 ≡ some names
      → (names ≡ xs) × ((apply_all act xs db).1.applied ≡ db.applied ++ xs)
  unfolding apply_all
  apply_all_done [] names db h = (cc, sym (append-nil db.applied))
  apply_all_done (x ∷ xs) names db h = elim (Bool-cases (act x db.content).1) [
    | inr e ↦ let h' = rw (apply_all, e) at h in cc
    | inl e ↦
        let (rest, e', same) =
          with_name-some x (apply_all act xs (next x db)) names (rw (apply_all, e) at h) in
        let (all, kept) = apply_all_done xs rest (next x db) e' in
        (
          same ∙ ap (◌∷◌ x) all,
          rw (apply_all, e)
              (ap (λ d. d.applied) (with_name-kept x (apply_all act xs (next x db)))
                ∙ kept
                ∙ append_assoc db.applied (x ∷ []) xs),
        )
  ]

  apply_all_failed :
      (xs : List Text) (db : Database D)
      → (apply_all act xs db).0 ≡ none
      → (done : List Text) × (x : Text) × (rest : List Text) × (xs ≡ done ++ (x ∷ rest))
        × ((apply_all act xs db).1.applied ≡ db.applied ++ done)
  unfolding apply_all
  apply_all_failed [] db h = cc
  apply_all_failed (x ∷ xs) db h = elim (Bool-cases (act x db.content).1) [
    | inr e ↦ ([], x, xs, refl, rw (apply_all, e) (sym (append-nil db.applied)))
    | inl e ↦
        let fails = with_name-none x (apply_all act xs (next x db)) (rw (apply_all, e) at h) in
        let (done, y, rest, split, kept) = apply_all_failed xs (next x db) fails in
        (
          x ∷ done,
          y,
          rest,
          ap (◌∷◌ x) split,
          rw (apply_all, e)
              (ap (λ d. d.applied) (with_name-kept x (apply_all act xs (next x db)))
                ∙ kept
                ∙ append_assoc db.applied (x ∷ []) done),
        )
  ]

  -- Where `up` without a limit is fulfilled, it gives the migrations that `list` gave before,
  -- in their order, they are recorded behind those that were applied already, and `list` gives
  -- none afterwards.
  pub up-list :
      (files names : List Text) (db : Database D)
      → (up act files 0 db).0 ≡ some names
      → (names ≡ list files db.applied)
        × ((up act files 0 db).1.applied ≡ db.applied ++ names)
        × (list files (up act files 0 db).1.applied ≡ [])
  unfolding up list sort
  up-list files names db h =
      let (all, kept) = apply_all_done (list files db.applied) names db h in
      let none_left : pending (list_available files) (db.applied ++ list files db.applied) ≡ [] =
        all_applied (list_available files) db.applied (list files db.applied)
          (λ y k. is_applied-sort y (pending (list_available files) db.applied) ∙ k) in
      (all, kept ∙ ap (λ x. db.applied ++ x) (sym all), rw (kept, none_left))

  -- Where `up` is rejected, the migrations that it was to apply fall into some, one, and
  -- others, and exactly the first ones are recorded, behind those that were applied already.
  pub up_failed :
      (files : List Text) (limit : ℕ) (db : Database D)
      → (up act files limit db).0 ≡ none
      → (done : List Text) × (x : Text) × (rest : List Text) × (limited limit
            (list files db.applied)
          ≡ done ++ (x ∷ rest))
        × ((up act files limit db).1.applied ≡ db.applied ++ done)
  unfolding up
  up_failed files limit db h = apply_all_failed (limited limit (list files db.applied)) db h
