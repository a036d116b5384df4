-- ===== src/Db/Memory/Refinement.antt =====
-- That `InMemoryDB` of include/hotstuff/in_memory_db.cpp is the map of `Db.Memory.Spec`.
use ava_hotstuff.Prelude.{
  ℕ, ◌≡◌, refl, sym, ap, subst, ◌∙◌, ◌==◌, ==_iff, true, false, Bool-cases, inl, inr, Option, none,
  some, List, [], ◌∷◌, arith, if◌then◌else◌,
}
use ava_hotstuff.Prelude.Assoc.{put, lookup-put}
use ava_hotstuff.Exec.{Exec, returns, pure, continue, ◌>>=◌}
use ava_hotstuff.Db.HashMap.{HashMap, empty, IsTable, empty-IsTable, hash_size_default}
use ava_hotstuff.Db.HashMap
use ava_hotstuff.Db.Memory.{
  Tables, InMemoryDb, text_table1, open_db, table_of, found, get, put_value, remove, select_table,
  deref_db, store_table,
}
use ava_hotstuff.Db.Memory.Spec.{
  Request, ask, set, drop, select, Spec, with_value, answer, next, answers, fresh, serve, serve_all,
}

module _ (hash_fn : ℕ → ℕ) where
  abbrev pub opened : ℕ → Tables → InMemoryDb
  opened active db = record { active_table = active; db = some db }

  pub record Refines (s : InMemoryDb) (a : Spec) : Type 0 where
    pub tables : Tables
    pub is_open : s ≡ opened a.active tables
    pub same_contents :
        (t key : ℕ) → HashMap.find hash_fn key (table_of tables t) ≡ a.contents t key
    pub are_tables : (t : ℕ) → IsTable (table_of tables t)

  table_of-put :
      (t u : ℕ) (m : HashMap ℕ) (db : Tables)
      → table_of (put t m db) u ≡ (if t == u then m else table_of db u)
  unfolding table_of
  table_of-put t u m db = ground (arith, lookup-put t u m db)

  table_of_self :
      (t u : ℕ) (m : HashMap ℕ) (db : Tables) → (t == u) ≡ true → table_of (put t m db) u ≡ m
  table_of_self t u m db e = table_of-put t u m db ∙ ap (λ b. if b then m else table_of db u) e

  table_of_other :
      (t u : ℕ) (m : HashMap ℕ) (db : Tables)
      → (t == u) ≡ false
      → table_of (put t m db) u ≡ table_of db u
  table_of_other t u m db e = table_of-put t u m db ∙ ap (λ b. if b then m else table_of db u) e

  find-put :
      (t u key : ℕ) (m : HashMap ℕ) (db : Tables)
      → HashMap.find hash_fn key (table_of (put t m db) u)
        ≡ (if t == u then HashMap.find hash_fn key m else HashMap.find hash_fn key (table_of db u))
  find-put t u key m db = elim (Bool-cases (t == u)) [
    | inl e ↦ rw e (ap (HashMap.find hash_fn key) (table_of_self t u m db e))
    | inr e ↦ rw e (ap (HashMap.find hash_fn key) (table_of_other t u m db e))
  ]

  put-IsTable :
      (t u : ℕ) (m : HashMap ℕ) (db : Tables)
      → IsTable m
      → IsTable (table_of db u)
      → IsTable (table_of (put t m db) u)
  put-IsTable t u m db d e = elim (Bool-cases (t == u)) [
    | inl h ↦ subst (λ (x : HashMap ℕ). IsTable x) (sym (table_of_self t u m db h)) d
    | inr h ↦ subst (λ (x : HashMap ℕ). IsTable x) (sym (table_of_other t u m db h)) e
  ]

  -- The active table is stored again as it was.
  stored_again :
      (a : Spec) (db : Tables)
      → ((t j : ℕ) → HashMap.find hash_fn j (table_of db t) ≡ a.contents t j)
      → ((t : ℕ) → IsTable (table_of db t))
      → Refines (opened a.active (put a.active (table_of db a.active) db)) a
  stored_again a db same are = record {
    tables = put a.active (table_of db a.active) db;
    is_open = refl;
    same_contents = λ t j. find-put a.active t j (table_of db a.active) db ∙ again t j;
    are_tables = λ t. put-IsTable a.active t (table_of db a.active) db (are a.active) (are t);
  }
    where
      again :
          (t j : ℕ)
          → (if a.active == t
              then HashMap.find hash_fn j (table_of db a.active)
              else HashMap.find hash_fn j (table_of db t))
            ≡ a.contents t j
      again t j = elim (Bool-cases (a.active == t)) [
        | inl e ↦ rw e (same a.active j ∙ ap (λ u. a.contents u j) ((==_iff a.active t).0 e))
        | inr e ↦ rw e (same t j)
      ]

  -- The active table is stored again, changed at one key.
  stored :
      (a : Spec) (db : Tables) (m : HashMap ℕ) (key : ℕ) (o : Option ℕ)
      → ((t j : ℕ) → HashMap.find hash_fn j (table_of db t) ≡ a.contents t j)
      → ((t : ℕ) → IsTable (table_of db t))
      → ((j : ℕ)
          → HashMap.find hash_fn j m
            ≡ (if key == j then o else HashMap.find hash_fn j (table_of db a.active)))
      → IsTable m
      → Refines (opened a.active (put a.active m db)) (with_value a key o)
  stored a db m key o same are found d = record {
    tables = put a.active m db;
    is_open = refl;
    same_contents = λ t j. find-put a.active t j m db ∙ changed t j;
    are_tables = λ t. put-IsTable a.active t m db d (are t);
  }
    where
      changed :
          (t j : ℕ)
          → (if a.active == t
              then HashMap.find hash_fn j m
              else HashMap.find hash_fn j (table_of db t))
            ≡ (with_value a key o).contents t j
      changed t j = elim (Bool-cases (a.active == t)) [
        | inr e ↦ rw e (same t j)
        | inl e ↦ rw e (
            found j
            ∙ ap (λ x. if key == j then o else x)
                (same a.active j ∙ ap (λ u. a.contents u j) ((==_iff a.active t).0 e)))
      ]

  stays :
      (name active : ℕ) (db : Tables)
      → (name == active) ≡ true
      → select_table name (opened active db)
        ≡ returns (if name == active then 1 else 0) (opened active db)
  unfolding select_table ◌>>=◌
  stays name active db e = rw e refl

  moves :
      (name active : ℕ) (db : Tables)
      → (name == active) ≡ false
      → select_table name (opened active db)
        ≡ returns (if name == active then 1 else 0) (opened name db)
  unfolding select_table ◌>>=◌
  moves name active db e = rw e refl

  -- Every request to an open database gets the answer of the map, and leaves the database as the map
  -- is then, whatever the hash function.
  pub serve_refines :
      (r : Request) (s : InMemoryDb) (a : Spec)
      → Refines s a
      → (t : InMemoryDb) × (serve hash_fn r s ≡ returns (answer r a) t) × Refines t (next r a)
  unfolding serve get put_value remove select_table deref_db store_table ◌>>=◌
  serve_refines (ask key) s a k = (
    opened a.active (put a.active (table_of k.tables a.active) k.tables),
    ap (serve hash_fn (ask key)) k.is_open
        ∙ ap
            (λ o.
              returns (found o)
                (opened a.active (put a.active (table_of k.tables a.active) k.tables)))
            (k.same_contents a.active key),
    stored_again a k.tables k.same_contents k.are_tables,
  )
  serve_refines (set key value) s a k =
      let m = HashMap.insert hash_fn key value (table_of k.tables a.active) in
      (
        opened a.active (put a.active m k.tables),
        ap (serve hash_fn (set key value)) k.is_open,
        stored a k.tables m key (some value) k.same_contents k.are_tables
            (λ j. HashMap.find-insert hash_fn (table_of k.tables a.active) key j value)
            (HashMap.insert-IsTable hash_fn (table_of k.tables a.active) key value
              (k.are_tables a.active)),
      )
  serve_refines (drop key) s a k =
      let m = HashMap.erase hash_fn key (table_of k.tables a.active) in
      (
        opened a.active (put a.active m k.tables),
        ap (serve hash_fn (drop key)) k.is_open,
        stored a k.tables m key none k.same_contents k.are_tables
            (λ j.
              HashMap.find-erase hash_fn (table_of k.tables a.active) key j (k.are_tables a.active))
            (HashMap.erase-IsTable hash_fn (table_of k.tables a.active) key
              (k.are_tables a.active)),
      )
  serve_refines (select name) s a k = elim (Bool-cases (name == a.active)) [
    | inl e ↦ (
      opened a.active k.tables,
      ap (serve hash_fn (select name)) k.is_open ∙ stays name a.active k.tables e,
      record {
        tables = k.tables;
        is_open = ap (λ n. opened n k.tables) (sym ((==_iff name a.active).0 e));
        same_contents = k.same_contents;
        are_tables = k.are_tables;
      },
    )
    | inr e ↦ (
      opened name k.tables,
      ap (serve hash_fn (select name)) k.is_open ∙ moves name a.active k.tables e,
      record {
        tables = k.tables;
        is_open = refl;
        same_contents = k.same_contents;
        are_tables = k.are_tables;
      },
    )
  ]

  then_returns :
      {A X : Type 0} (m : Exec InMemoryDb A) {s t : InMemoryDb} {a : A} (k : A → Exec InMemoryDb X)
      → m s ≡ returns a t
      → (m >>= k) s ≡ k a t
  unfolding ◌>>=◌
  then_returns m k e = ap (λ o. continue o k) e

  serve_all_refines :
      (rs : List Request) (s : InMemoryDb) (a : Spec)
      → Refines s a
      → (t : InMemoryDb) × (serve_all hash_fn rs s ≡ returns (answers rs a) t)
  unfolding serve_all pure
  serve_all_refines [] s a k = (s, refl)
  serve_all_refines (r ∷ rs) s a k =
      let (t, e, l) = serve_refines r s a k in
      let (u, f) = serve_all_refines rs t (next r a) l in
      (u, then_returns (serve hash_fn r) _ e ∙ then_returns (serve_all hash_fn rs) _ f)

  fresh-Refines : Refines (opened text_table1 []) fresh
  unfolding table_of HashMap.find
  fresh-Refines = record {
    tables = [];
    is_open = refl;
    same_contents = λ t key. refl;
    are_tables = λ t. empty-IsTable ℕ hash_size_default;
  }

  -- Once opened, from any state, a database answers every list of gets, puts, removals and selections
  -- of a table as the map from tables and keys to values does, empty and with table1 active at first,
  -- whatever the hash function: a get of a missing key with "0", and a put with "1", as the code does
  -- and not as include/hotstuff/database.h says.
  pub serve_all-open_db :
      (rs : List Request) (s : InMemoryDb)
      → (t : InMemoryDb) × ((open_db >>= λ _. serve_all hash_fn rs) s
          ≡ returns (answers rs fresh) t)
  unfolding open_db ◌>>=◌
  serve_all-open_db rs s = serve_all_refines rs (opened text_table1 []) fresh fresh-Refines
