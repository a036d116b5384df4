-- ===== src/Tests/Store.antt =====
-- The key-value store, with a hash function that puts all keys in one bucket.
use ava_hotstuff.Prelude.{◌≡◌, refl, none, List, [], ◌∷◌}
use ava_hotstuff.Exec.{returns, ◌>>=◌}
use ava_hotstuff.Db.Memory.{InMemoryDb, open_db}
use ava_hotstuff.Db.Memory.Spec.{Request, ask, set, drop, select, serve_all, answers, fresh}
use ava_hotstuff.Db.Memory.Refinement.{serve_all-open_db}

abbrev requests : List Request
requests = set 5 7 ∷ set 6 8 ∷ set 5 9 ∷ ask 5 ∷ drop 6 ∷ ask 6 ∷ select 3 ∷ ask 5 ∷ []

-- The answers 9, "0" and "0" are those of the gets.
answers_example : answers requests fresh ≡ 49 ∷ 49 ∷ 49 ∷ 9 ∷ 0 ∷ 48 ∷ 0 ∷ 48 ∷ []
answers_example = refl

serve_all-open_db_example :
    (t : InMemoryDb) × ((open_db >>= λ _. serve_all (λ k. 0) requests)
        (record { active_table = 1; db = none })
      ≡ returns (answers requests fresh) t)
serve_all-open_db_example =
    serve_all-open_db (λ k. 0) requests (record { active_table = 1; db = none })
