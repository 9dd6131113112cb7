-- ===== src/Operation/Loop.antt =====
-- The loop of `consume` in lib/transport/binary/protocol33/operation.js and `consume` itself, when
-- the bytes of an answer come in pieces.
use orientjs.Prelude.{
  ℕ, suc, ◌≡◌, Option, some, zero, ◌+◌, ◌≤◌, refl, sym, ◌∙◌, none, ◌++◌, arith, ◌>>=◌, length, drop,
  ◌-◌, ap, inl, inr,
}
use orientjs.Buffer.{Bytes}
use orientjs.Operation.Machine.{Work, Client}
use orientjs.Operation.Consume.{reading, Turn, go_on, stop, throw, bottom_of, turn, loop}
use orientjs.Operation.Resume.{
  shift_turn, Within, turn-append, turn-shift, turn-Within, turn-Waiting, Waiting, IsCons,
}

module _ {R D : Type 0} (client : Client R D) where
  -- What the loop does with a round.
  abbrev pub after : ℕ → Bytes → Turn R D → Option (Turn R D)
  after f b (go_on u p) = loop client f u b p
  after f b (stop u c) = some (stop u c)
  after f b throw = some throw

  pub loop-after :
      (f : ℕ) (w : Work R D) (b : Bytes) (o : ℕ)
      → loop client (suc f) w b o ≡ after f b (turn client w.ops w b o)
  unfolding loop
  loop-after f w b o = go (turn client w.ops w b o)
    where
      go :
          (t : Turn R D)
          → (elim t as (λ x. Option (Turn R D)) [
            | go_on u p ↦ loop client f u b p
            | stop u c ↦ some (stop u c)
            | throw ↦ some throw
          ])
            ≡ after f b t
      go (go_on u p) = refl
      go (stop u c) = refl
      go throw = refl

  after_mono :
      (f j : ℕ) (b : Bytes) (t : Turn R D)
      → ((w : Work R D) (o : ℕ) → loop client f w b o ≡ some t → loop client (j + f) w b o ≡ some t)
      → (x : Turn R D) → after f b x ≡ some t
      → after (j + f) b x ≡ some t
  after_mono f j b t ih (go_on u p) h = ih u p h
  after_mono f j b t ih (stop u c) h = h
  after_mono f j b t ih throw h = h

  loop_mono :
      (f j : ℕ) (b : Bytes) (t : Turn R D) (w : Work R D) (o : ℕ)
      → loop client f w b o ≡ some t
      → loop client (j + f) w b o ≡ some t
  unfolding loop
  loop_mono zero j b t w o h = cc
  loop_mono (suc f) j b t w o h =
      let e : j + suc f ≡ suc (j + f) = omega arith in
      let h' = sym (loop-after f w b o) ∙ h in
      rw (e, loop-after)
        (after_mono f j b t (λ v q. loop_mono f j b t v q) (turn client w.ops w b o) h')

  -- More fuel gives the same.
  pub loop_enough :
      (f k : ℕ) (b : Bytes) {t : Turn R D} (w : Work R D) (o : ℕ)
      → f ≤ k
      → loop client f w b o ≡ some t
      → loop client k w b o ≡ some t
  loop_enough f k b {t} w o l h =
      let e : k ≡ (k - f) + f = omega arith in rw e (loop_mono f (k - f) b t w o h)

  after-shift :
      (f : ℕ) (b : Bytes) (p : ℕ)
      → ((w : Work R D) (o : ℕ)
          → loop client f w b (p + o)
            ≡ (loop client f w (drop p b) o >>= λ t. some (shift_turn p t)))
      → (t : Turn R D)
      → after f b (shift_turn p t) ≡ (after f (drop p b) t >>= λ t. some (shift_turn p t))
  after-shift f b p ih (go_on u q) = ih u q
  after-shift f b p ih (stop u c) = refl
  after-shift f b p ih throw = refl

  -- The loop at an offset is the loop in the rest of the buffer.
  pub loop-shift :
      (f : ℕ) (b : Bytes) (p : ℕ)
      → p ≤ length b
      → (w : Work R D) (o : ℕ)
      → loop client f w b (p + o) ≡ (loop client f w (drop p b) o >>= λ t. some (shift_turn p t))
  unfolding loop
  loop-shift zero b p h w o = refl
  loop-shift (suc f) b p h w o =
      loop-after f w b (p + o)
      ∙ ap (after f b) (turn-shift client w.ops w b p o h)
      ∙ after-shift f b p (loop-shift f b p h) (turn client w.ops w (drop p b) o)
      ∙ ap (λ x. x >>= λ t. some (shift_turn p t)) (sym (loop-after f w (drop p b) o))

  abbrev pub WithinOption : ℕ → ℕ → Option (Turn R D) → Type 0
  WithinOption o n none = Unit
  WithinOption o n (some t) = Within o n t

  wider : (o q n : ℕ) (x : Option (Turn R D)) → o ≤ q → WithinOption q n x → WithinOption o n x
  wider o q n none k i = tt
  wider o q n (some (go_on u p)) k i = omega arith
  wider o q n (some (stop u c)) k i = omega arith
  wider o q n (some throw) k i = tt

  after-Within :
      (f : ℕ) (b : Bytes) (o : ℕ)
      → ((w : Work R D) (q : ℕ) → q ≤ length b → WithinOption q (length b) (loop client f w b q))
      → (t : Turn R D) → Within o (length b) t
      → WithinOption o (length b) (after f b t)
  after-Within f b o ih (go_on u q) (k, i) = wider o q (length b) (loop client f u b q) k (ih u q i)
  after-Within f b o ih (stop u c) i = i
  after-Within f b o ih throw i = i

  pub loop-Within :
      (f : ℕ) (b : Bytes) (w : Work R D) (o : ℕ)
      → o ≤ length b
      → WithinOption o (length b) (loop client f w b o)
  unfolding loop
  loop-Within zero b w o h = tt
  loop-Within (suc f) b w o h = rw (loop-after f w b o) (
      after-Within f b o (loop-Within f b) (turn client w.ops w b o)
        (turn-Within client w.ops w b o h))

  -- The rounds behind one of a loop that waits for bytes.
  after_resume :
      (f g : ℕ) (w u : Work R D) (b m : Bytes) (o p : ℕ) (a : Option ℕ) (t : Turn R D)
      → ((v : Work R D) (q : ℕ)
          → loop client f v b q ≡ some (stop u (reading p a))
          → loop client (f + g) v (b ++ m) q ≡ some t)
      → loop client g u (b ++ m) p ≡ some t
      → (x : Turn R D) → turn client w.ops w b o ≡ x
      → Waiting w.ops w o x
      → after f b x ≡ some (stop u (reading p a))
      → loop client (suc f + g) w (b ++ m) o ≡ some t
  after_resume f g w u b m o p a t ih k (go_on v q) e i s =
      let l = ih v q s in
      elim (turn-append client w.ops w b m o) [
        | inl e' ↦ cc
        | inr e' ↦
            let same : turn client w.ops w (b ++ m) o ≡ go_on v q = e' ∙ e in
            let more : suc f + g ≡ suc (f + g) = omega arith in rw (more, loop-after, same) l
      ]
  after_resume f g w u b m o p a t ih k (stop v (reading q c)) e i s =
      let (v-w, q-o, n) = i in
      let v-u : v ≡ u = cc in
      let u-w : u ≡ w = cc in
      let p-o : p ≡ o = cc in
      let here = rw (u-w, p-o) at k in loop_enough g (suc f + g) (b ++ m) w o (omega arith) here
  after_resume f g w u b m o p a t ih k (stop v c) e i s = cc
  after_resume f g w u b m o p a t ih k throw e i s = cc

  -- A loop that waits for bytes goes on when they come.
  pub loop_resume :
      (f g : ℕ) (u : Work R D) (b m : Bytes) (p : ℕ) (a : Option ℕ) (t : Turn R D)
      → loop client g u (b ++ m) p ≡ some t
      → (w : Work R D) (o : ℕ) → loop client f w b o ≡ some (stop u (reading p a))
      → loop client (f + g) w (b ++ m) o ≡ some t
  unfolding loop
  loop_resume zero g u b m p a t k w o h = cc
  loop_resume (suc f) g u b m p a t k w o h =
      after_resume f g w u b m o p a t (loop_resume f g u b m p a t k) k (turn client w.ops w b o)
        refl (turn-Waiting client w.ops w b o) (sym (loop-after f w b o) ∙ h)

  after-IsCons :
      (f : ℕ) (w u : Work R D) (b : Bytes) (o p : ℕ) (a : Option ℕ)
      → ((v : Work R D) (q : ℕ) → loop client f v b q ≡ some (stop u (reading p a)) → IsCons u.ops)
      → (x : Turn R D) → Waiting w.ops w o x
      → after f b x ≡ some (stop u (reading p a))
      → IsCons u.ops
  after-IsCons f w u b o p a ih (go_on v q) i s = ih v q s
  after-IsCons f w u b o p a ih (stop v (reading q c)) i s =
      let (v-w, q-o, n) = i in let v-u : v ≡ u = cc in let u-w : u ≡ w = cc in rw u-w n
  after-IsCons f w u b o p a ih (stop v c) i s = cc
  after-IsCons f w u b o p a ih throw i s = cc

  -- A loop that waits for bytes has something left to do.
  pub loop-IsCons :
      (f : ℕ) (u : Work R D) (b : Bytes) (p : ℕ) (a : Option ℕ) (w : Work R D) (o : ℕ)
      → loop client f w b o ≡ some (stop u (reading p a))
      → IsCons u.ops
  unfolding loop
  loop-IsCons zero u b p a w o h = cc
  loop-IsCons (suc f) u b p a w o h =
      after-IsCons f w u b o p a (loop-IsCons f u b p a) (turn client w.ops w b o)
        (turn-Waiting client w.ops w b o) (sym (loop-after f w b o) ∙ h)

  -- No wait for bytes.
  abbrev pub Decided : Turn R D → Type 0
  Decided (stop u (reading p a)) = ⊥
  Decided _ = Unit

  after-append :
      (f : ℕ) (b m : Bytes) (t : Turn R D)
      → ((w : Work R D) (o : ℕ)
          → loop client f w b o ≡ some t
          → loop client f w (b ++ m) o ≡ some t)
      → (x : Turn R D) → after f b x ≡ some t
      → after f (b ++ m) x ≡ some t
  after-append f b m t ih (go_on u p) h = ih u p h
  after-append f b m t ih (stop u c) h = h
  after-append f b m t ih throw h = h

  -- What comes behind the bytes changes nothing.
  pub loop-append :
      (f : ℕ) (b m : Bytes) (t : Turn R D)
      → Decided t
      → (w : Work R D) (o : ℕ) → loop client f w b o ≡ some t
      → loop client f w (b ++ m) o ≡ some t
  unfolding loop
  loop-append zero b m t d w o h = cc
  loop-append (suc f) b m t d w o h =
      let h' = sym (loop-after f w b o) ∙ h in
      elim (turn-append client w.ops w b m o) [
        | inl e ↦
            let h2 = rw e at h' in
            let s : stop w (reading o (bottom_of w.stack)) ≡ t = cc in absurd (rw (← s) at d)
        | inr e ↦
            rw (loop-after f w (b ++ m) o, e)
              (after-append f b m t (loop-append f b m t d) (turn client w.ops w b o) h')
      ]
