-- ===== src/Transport/Retries.antt =====
-- Errors of the connection of lib/transport/binary/index.js, one after the other.
use orientjs.Prelude.{
  ℕ, zero, suc, ◌+◌, ◌≡◌, refl, inl, inr, arith, ltb, Bool-cases, sym, ap, ◌∙◌, ◌⊎◌, true, false,
}
use Prim.Native.Nat.{min}
use orientjs.Transport.{Transport, on_error, reconnect}

-- The transport after `n` errors.
unfoldable pub errors : ℕ → Transport → Transport
unfolding on_error
errors zero t = t
errors (suc n) t = (on_error (errors n t)).0

on_error-counted :
    (t : Transport)
    → ((on_error t).0.retries ≡ t.retries + 1) × ((on_error t).0.max_retries ≡ t.max_retries)
unfolding on_error reconnect
on_error-counted t = elim (Bool-cases (ltb t.max_retries t.retries)) [
  | inl e ↦ rw e (refl, refl)
  | inr e ↦ rw e (refl, refl)
]

errors-counted :
    (n : ℕ) (t : Transport)
    → ((errors n t).retries ≡ t.retries + n) × ((errors n t).max_retries ≡ t.max_retries)
unfolding errors
errors-counted zero t = (omega arith, refl)
errors-counted (suc n) t =
    let (r, m) = errors-counted n t in
    let (r', m') = on_error-counted (errors n t) in (omega (arith, r, r'), m' ∙ m)

-- An error that is passed on leaves the connection; any other makes a new one.
on_error_cases :
    (t : Transport)
    → (((on_error t).1 ≡ true)
        × ((on_error t).0.connections ≡ t.connections)
        × (ltb t.max_retries t.retries ≡ true))
      ⊎ (((on_error t).1 ≡ false)
          × ((on_error t).0.connections ≡ t.connections + 1)
          × (ltb t.max_retries t.retries ≡ false))
unfolding on_error reconnect
on_error_cases t = elim (Bool-cases (ltb t.max_retries t.retries)) [
  | inl e ↦ inl (rw e (refl, refl, refl))
  | inr e ↦ inr (rw e (refl, refl, refl))
]

connections_lem :
    (n : ℕ) (t : Transport)
    → t.retries ≡ 0
    → (errors n t).connections ≡ t.connections + min n (t.max_retries + 1)
unfolding errors
connections_lem zero t h = omega arith
connections_lem (suc n) t h =
    let (r, m) = errors-counted n t in
    let ih = connections_lem n t h in
    elim (on_error_cases (errors n t)) [
      | inl (a, c, b) ↦ ground (arith, r, m, ih, c, b, h)
      | inr (a, c, b) ↦ ground (arith, r, m, ih, c, b, h)
    ]

-- Counted from no retries, the transport passes on the error of its connection that follows `n`
-- others exactly where `n` is more than `maxRetries`, and `n` errors have made a new connection
-- each, up to `maxRetries` and one.
pub errors-emit :
    (n : ℕ) (t : Transport)
    → t.retries ≡ 0
    → ((on_error (errors n t)).1 ≡ ltb t.max_retries n)
      × ((errors n t).connections ≡ t.connections + min n (t.max_retries + 1))
errors-emit n t h =
    let (r, m) = errors-counted n t in
    let count : (errors n t).retries ≡ n = omega (arith, r, h) in
    (emitted m count, connections_lem n t h)
  where
    emitted :
        (errors n t).max_retries ≡ t.max_retries
        → (errors n t).retries ≡ n
        → (on_error (errors n t)).1 ≡ ltb t.max_retries n
    emitted m count = elim (on_error_cases (errors n t)) [
      | inl (a, c, b) ↦
          a ∙ sym b ∙ ap (λ k. ltb k (errors n t).retries) m ∙ ap (ltb t.max_retries) count
      | inr (a, c, b) ↦
          a ∙ sym b ∙ ap (λ k. ltb k (errors n t).retries) m ∙ ap (ltb t.max_retries) count
    ]
