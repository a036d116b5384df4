-- ===== src/Db/Memory/Spec.antt =====
-- What `InMemoryDB` of include/hotstuff/in_memory_db.cpp promises: a map from tables and keys to
-- values, the hash table and its buckets forgotten.
use ava_hotstuff.Prelude.{ℕ, ◌==◌, Option, none, some, List, [], ◌∷◌, if◌then◌else◌}
use ava_hotstuff.Exec.{Exec, pure, ◌>>=◌, ◌>>◌}
use ava_hotstuff.Db.Memory.{
  InMemoryDb, text_1, text_table1, found, get, put_value, remove, select_table,
}

pub data Request : Type 0 where
  ask : ℕ → Request
  set : ℕ → ℕ → Request
  drop : ℕ → Request
  select : ℕ → Request

pub record Spec : Type 0 where
  pub active : ℕ
  pub contents : ℕ → ℕ → Option ℕ

-- `contents` with another value for a key of the active table.
abbrev pub with_value : Spec → ℕ → Option ℕ → Spec
with_value a key o = record a {
  contents =
      λ t j. if a.active == t then (if key == j then o else a.contents t j) else a.contents t j;
}

abbrev pub answer : Request → Spec → ℕ
answer (ask key) a = found (a.contents a.active key)
answer (set key value) a = text_1
answer (drop key) a = 0
answer (select name) a = if name == a.active then 1 else 0

abbrev pub next : Request → Spec → Spec
next (ask key) a = a
next (set key value) a = with_value a key (some value)
next (drop key) a = with_value a key none
next (select name) a = record a { active = name }

abbrev pub answers : List Request → Spec → List ℕ
answers [] a = []
answers (r ∷ rs) a = answer r a ∷ answers rs (next r a)

abbrev pub fresh : Spec
fresh = record { active = text_table1; contents = λ t key. none }

module _ (hash_fn : ℕ → ℕ) where
  -- The operation for a request; `Remove`, which gives nothing, answers 0.
  unfoldable pub serve : Request → Exec InMemoryDb ℕ
  unfolding get put_value remove select_table
  serve (ask key) = get hash_fn key
  serve (set key value) = put_value hash_fn key value
  serve (drop key) = remove hash_fn key >> pure 0
  serve (select name) = select_table name

  -- The requests of a list, and their answers.
  unfoldable pub serve_all : List Request → Exec InMemoryDb (List ℕ)
  unfolding serve
  serve_all [] = pure []
  serve_all (r ∷ rs) = do n ← serve r; ns ← serve_all rs; pure (n ∷ ns)
