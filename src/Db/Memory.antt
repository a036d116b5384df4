-- ===== src/Db/Memory.antt =====
-- include/hotstuff/in_memory_db.cpp, `InMemoryDB`: tables by name, and the active one. What it
-- promises is in `Db.Memory.Spec`.
pub mod Spec
pub mod Refinement
use ava_hotstuff.Prelude.{ℕ, ◌==◌, Option, none, some, List, [], ◌∷◌, if◌then◌else◌}
use ava_hotstuff.Prelude.Assoc.{lookup, put}
use ava_hotstuff.Exec.{Exec, pure, crash, gets, modify, ◌>>=◌, ◌>>◌}
use ava_hotstuff.Db.HashMap.{HashMap, empty, hash_size_default}
use ava_hotstuff.Db.HashMap

abbrev pub Tables : Type 0
Tables = List (ℕ × HashMap ℕ)

-- `db` is `none` before `Open` and after `Close`, where the pointer leads nowhere.
pub record InMemoryDb : Type 0 where
  pub active_table : ℕ
  pub db : Option Tables

-- The strings "0", "1" and "table1", each as the number that its bytes spell.
abbrev pub text_0 : ℕ
text_0 = 48

abbrev pub text_1 : ℕ
text_1 = 49

abbrev pub text_table1 : ℕ
text_table1 = 127961611920689

-- `(*db)[name]`: a table that is not there is made, empty.
unfoldable pub table_of : Tables → ℕ → HashMap ℕ
unfolding lookup empty
table_of db name = elim (lookup name db) [ none ↦ empty hash_size_default | some m ↦ m ]

abbrev pub found : Option ℕ → ℕ
found none = text_0
found (some value) = value

unfoldable pub deref_db : Exec InMemoryDb Tables
deref_db s = elim s.db [ none ↦ crash s | some db ↦ pure db s ]

unfoldable pub store_table : ℕ → HashMap ℕ → Exec InMemoryDb (Unit {0})
unfolding put
store_table name m = do db ← deref_db; modify λ s. record s { db = some (put name m db) }

unfoldable pub open_db : Exec InMemoryDb ℕ
open_db = do modify λ s. record { active_table = text_table1; db = some [] }; pure 0

unfoldable pub select_table : ℕ → Exec InMemoryDb ℕ
select_table name = do
  active ← gets λ s. s.active_table
  if name == active then pure 1 else (do modify λ s. record s { active_table = name }; pure 0)

unfoldable pub close : Exec InMemoryDb ℕ
close = do modify λ s. record s { db = none }; pure 0

module _ (hash_fn : ℕ → ℕ) where
  unfoldable pub get : ℕ → Exec InMemoryDb ℕ
  unfolding deref_db store_table table_of HashMap.find
  get key = do
    db ← deref_db
    active ← gets λ s. s.active_table
    let m = table_of db active
    store_table active m
    pure (found (HashMap.find hash_fn key m))

  unfoldable pub put_value : ℕ → ℕ → Exec InMemoryDb ℕ
  unfolding deref_db store_table table_of HashMap.insert
  put_value key value = do
    db ← deref_db
    active ← gets λ s. s.active_table
    store_table active (HashMap.insert hash_fn key value (table_of db active))
    pure text_1

  unfoldable pub remove : ℕ → Exec InMemoryDb (Unit {0})
  unfolding deref_db store_table table_of HashMap.erase
  remove key = do
    db ← deref_db
    active ← gets λ s. s.active_table
    store_table active (HashMap.erase hash_fn key (table_of db active))
