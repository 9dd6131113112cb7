-- ===== src/Tests/Transactions.antt =====
-- Concrete runs of a transaction.
use orientjs.Prelude.{◌≡◌, List, [], ◌∷◌, map, arith, pos, ℕ}
use orientjs.Transaction.{new_transaction, create_all, committed}
use orientjs.Transaction.Commit.{entry, made, settled_all, Answer, Once, committed-create_all}

-- Two records, answered in the other order.
abbrev two_answers : List Answer
two_answers = (1, 12, pos 7) ∷ (0, 11, pos 4) ∷ []

abbrev two_bodies : List ℕ
two_bodies = 30 ∷ 31 ∷ []

two_answers-Once : Once two_answers
two_answers-Once = (((λ e. omega arith), tt), (tt, tt))

committed-create_all_example :
    ((committed (map entry two_answers) [] (create_all two_bodies new_transaction)).1 ≡ 1 ∷ 0 ∷ [])
    × ((committed (map entry two_answers) [] (create_all two_bodies new_transaction)).0.creates
        ≡ settled_all two_answers (made 0 two_bodies))
committed-create_all_example =
    committed-create_all two_bodies two_answers two_answers-Once (omega arith, (omega arith, tt))
