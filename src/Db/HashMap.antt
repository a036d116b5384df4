-- ===== src/Db/HashMap.antt =====
-- include/hotstuff/HashMap.h: a table of `hash_size` buckets, and the hash function, a parameter.
use ava_hotstuff.Prelude.{
  ℕ, ◌≡◌, ◌%◌, refl, sym, ap, ◌∙◌, true, false, Option, none, some, List, [], ◌==◌, ltb, ==_iff,
  Bool-cases, inl, inr, arith, if◌then◌else◌,
}
use ava_hotstuff.Db.Bucket
use ava_hotstuff.Db.Bucket.{IsBucket, insert-IsBucket, erase-IsBucket}

abbrev pub hash_size_default : ℕ
hash_size_default = 28607

pub record HashMap (V : Type 0) : Type 0 where
  pub hash_table : ℕ → List (ℕ × V)
  pub hash_size : ℕ

module _ {V : Type 0} where
  unfoldable pub empty : ℕ → HashMap V
  empty size = record { hash_table = λ i. []; hash_size = size }

  -- `hashTable[i] = b`
  unfoldable pub set_bucket : HashMap V → ℕ → List (ℕ × V) → HashMap V
  set_bucket m i b = record m { hash_table = λ j. if j == i then b else m.hash_table j }

  unfoldable pub clear : HashMap V → HashMap V
  clear m = record m { hash_table = λ j. if ltb j m.hash_size then [] else m.hash_table j }

  -- No key stands twice in a bucket.
  abbrev pub IsTable : HashMap V → Type 0
  IsTable m = (i : ℕ) → IsBucket (m.hash_table i)

module _ {V : Type 0} (hash_fn : ℕ → ℕ) where
  unfoldable pub hash_value : HashMap V → ℕ → ℕ
  hash_value m key = hash_fn key % m.hash_size

  unfoldable pub find : ℕ → HashMap V → Option V
  unfolding Bucket.find hash_value
  find key m = Bucket.find key (m.hash_table (hash_value m key))

  unfoldable pub insert : ℕ → V → HashMap V → HashMap V
  unfolding Bucket.insert hash_value set_bucket
  insert key value m =
      set_bucket m (hash_value m key) (Bucket.insert key value (m.hash_table (hash_value m key)))

  unfoldable pub erase : ℕ → HashMap V → HashMap V
  unfolding Bucket.erase hash_value set_bucket
  erase key m = set_bucket m (hash_value m key) (Bucket.erase key (m.hash_table (hash_value m key)))

  set_bucket-IsTable :
      (m : HashMap V) (i : ℕ) (b : List (ℕ × V))
      → IsTable m
      → IsBucket b
      → IsTable (set_bucket m i b)
  unfolding set_bucket
  set_bucket-IsTable m i b d e j = elim (Bool-cases (j == i)) [
    | inl h ↦ rw h e
    | inr h ↦ rw h (d j)
  ]

  -- In a changed bucket, the other keys are found as before.
  find-set_bucket :
      (m : HashMap V) (key j : ℕ) (b : List (ℕ × V)) (o : Option V)
      → Bucket.find j b ≡ (if key == j then o else Bucket.find j (m.hash_table (hash_value m key)))
      → find j (set_bucket m (hash_value m key) b) ≡ (if key == j then o else find j m)
  unfolding find set_bucket hash_value
  find-set_bucket m key j b o e =
      elim (Bool-cases (hash_fn j % m.hash_size == hash_fn key % m.hash_size)) [
        | inl same ↦ rw same (
            e
            ∙ ap (λ i. if key == j then o else Bucket.find j (m.hash_table i))
                (sym ((==_iff _ _).0 same)))
        | inr other ↦ rw other (elim (Bool-cases (key == j)) [
          | inl same_key ↦ absurd (apart key j same_key other)
          | inr other_key ↦ rw other_key refl
        ])
      ]
    where
      apart :
          (k i : ℕ)
          → (k == i) ≡ true
          → (hash_fn i % m.hash_size == hash_fn k % m.hash_size) ≡ false
          → ⊥
      apart k i e f = ground (arith, ap hash_fn ((==_iff k i).0 e))

  -- `insert`, as a map sees it.
  pub find-insert :
      (m : HashMap V) (key j : ℕ) (value : V)
      → find j (insert key value m) ≡ (if key == j then some value else find j m)
  unfolding insert
  find-insert m key j value =
      find-set_bucket m key j _ (some value)
        (Bucket.find-insert key j value (m.hash_table (hash_value m key)))

  -- `erase`, as a map sees it.
  pub find-erase :
      (m : HashMap V) (key j : ℕ)
      → IsTable m
      → find j (erase key m) ≡ (if key == j then none else find j m)
  unfolding erase
  find-erase m key j d =
      find-set_bucket m key j _ none
        (Bucket.find-erase key j (m.hash_table (hash_value m key)) (d (hash_value m key)))

  pub insert-IsTable :
      (m : HashMap V) (key : ℕ) (value : V) → IsTable m → IsTable (insert key value m)
  unfolding insert
  insert-IsTable m key value d =
      set_bucket-IsTable m (hash_value m key) _ d
        (insert-IsBucket key value _ (d (hash_value m key)))

  pub erase-IsTable : (m : HashMap V) (key : ℕ) → IsTable m → IsTable (erase key m)
  unfolding erase
  erase-IsTable m key d =
      set_bucket-IsTable m (hash_value m key) _ d (erase-IsBucket key _ (d (hash_value m key)))

pub empty-IsTable : (V : Type 0) (size : ℕ) → IsTable (empty {V = V} size)
unfolding empty
empty-IsTable V size i = tt
