-- ===== src/ClientPool/Order.antt =====
-- The clients that wait in the pool of lib/client/pool/index.js are served in their order.
use orientjs.Prelude.{
  ℕ, zero, suc, ◌≡◌, none, some, List, [], ◌∷◌, ◌++◌, arith, length, ◌≤◌, ◌<◌, refl, sym, ap, ◌∙◌,
}
use mathlib.Core.List.{append_assoc, append-nil}
use orientjs.ClientPool.{Pool, release, tick}

-- One release after the other.
unfoldable pub release_all : List ℕ → Pool → Pool
unfolding release
release_all [] p = p
release_all (d ∷ ds) p = release_all ds (release d p)

-- The ticks, until there is none or fuel is out: which client gets which database.
unfoldable pub handed : ℕ → Pool → List (ℕ × ℕ)
unfolding tick
handed zero p = []
handed (suc f) p =
    let (q, t) = tick p in let rest = handed f q in elim t [ none ↦ [] | some r ↦ r ∷ rest ]

abbrev pub pairs : List ℕ → List ℕ → List (ℕ × ℕ)
pairs [] ds = []
pairs (c ∷ cs) [] = []
pairs (c ∷ cs) (d ∷ ds) = (c, d) ∷ pairs cs ds

release_all-ticks :
    (cs ds rest : List ℕ) (p : Pool)
    → length cs ≡ length ds
    → release_all ds (record p { waiting = cs ++ rest })
      ≡ record p { waiting = rest; ticks = p.ticks ++ pairs cs ds }
unfolding release_all release
release_all-ticks [] [] rest p h =
    ap (λ t. record p { waiting = rest; ticks = t }) (sym (append-nil p.ticks))
release_all-ticks [] (d ∷ ds) rest p h = absurd (omega arith)
release_all-ticks (c ∷ cs) [] rest p h = absurd (omega arith)
release_all-ticks (c ∷ cs) (d ∷ ds) rest p h =
    release_all-ticks cs ds rest (record p { ticks = p.ticks ++ ((c, d) ∷ []) }) (omega arith)
    ∙ ap (λ t. record p { waiting = rest; ticks = t })
        (append_assoc p.ticks ((c, d) ∷ []) (pairs cs ds))

handed-ticks :
    (ts : List (ℕ × ℕ)) (f : ℕ) (p : Pool) → length ts < f → handed f (record p { ticks = ts }) ≡ ts
unfolding handed tick
handed-ticks ts zero p h = absurd (omega arith)
handed-ticks [] (suc f) p h = refl
handed-ticks (t ∷ ts) (suc f) p h = ap (◌∷◌ t) (handed-ticks ts f p (omega arith))

length-pairs : (cs ds : List ℕ) → length (pairs cs ds) ≤ length cs
length-pairs [] ds = omega arith
length-pairs (c ∷ cs) [] = omega arith
length-pairs (c ∷ cs) (d ∷ ds) = omega (arith, length-pairs cs ds)

-- As many releases as there are clients in the front of the queue, with no tick pending, hand the
-- released databases to these clients, in their order, at the following ticks; the other clients
-- go on waiting, and the pool keeps its free databases.
pub release_all-pairs :
    (cs ds rest : List ℕ) (p : Pool) (f : ℕ)
    → length cs ≡ length ds
    → length cs < f
    → (handed f (release_all ds (record p { waiting = cs ++ rest; ticks = [] })) ≡ pairs cs ds)
      × ((release_all ds (record p { waiting = cs ++ rest; ticks = [] })).waiting ≡ rest)
      × ((release_all ds (record p { waiting = cs ++ rest; ticks = [] })).available ≡ p.available)
release_all-pairs cs ds rest p f h k =
    let e = release_all-ticks cs ds rest (record p { ticks = [] }) h in
    rw e (
      handed-ticks (pairs cs ds) f (record p { waiting = rest })
          (omega (arith, length-pairs cs ds)),
      refl,
      refl,
    )
