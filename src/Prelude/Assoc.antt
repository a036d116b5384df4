-- ===== src/Prelude/Assoc.antt =====
-- A `std::unordered_map` from numbers as an association list: the first entry of a key counts.
use ava_hotstuff.Prelude.{
  ℕ, ◌≡◌, refl, Option, none, some, List, [], ◌∷◌, arith, ◌==◌, if◌then◌else◌, length, suc,
}

module _ {ℓ} {V : Type ℓ} where
  -- `find(k)`
  unfoldable pub lookup : ℕ → List (ℕ × V) → Option V
  lookup k [] = none
  lookup k ((j, v) ∷ m) = if j == k then some v else lookup k m

  -- `m[k] = v`
  unfoldable pub put : ℕ → V → List (ℕ × V) → List (ℕ × V)
  put k v [] = (k, v) ∷ []
  put k v ((j, w) ∷ m) = if j == k then (k, v) ∷ m else (j, w) ∷ put k v m

  -- `insert(make_pair(k, v))`: a key that is there keeps its value.
  unfoldable pub insert_new : ℕ → V → List (ℕ × V) → List (ℕ × V)
  insert_new k v [] = (k, v) ∷ []
  insert_new k v ((j, w) ∷ m) = if j == k then (j, w) ∷ m else (j, w) ∷ insert_new k v m

  -- `erase(k)`
  unfoldable pub remove : ℕ → List (ℕ × V) → List (ℕ × V)
  remove k [] = []
  remove k ((j, w) ∷ m) = if j == k then remove k m else (j, w) ∷ remove k m

  pub lookup-put :
      (k j : ℕ) (v : V) (m : List (ℕ × V))
      → lookup j (put k v m) ≡ (if k == j then some v else lookup j m)
  unfolding lookup put
  lookup-put k j v [] = refl
  lookup-put k j v ((i, w) ∷ m) = ground (arith, lookup-put k j v m)

  -- What a lookup gives after `insert`: the old value where there was one.
  abbrev pub or_new : Option V → V → V
  or_new none v = v
  or_new (some w) v = w

  pub lookup-insert_new :
      (k j : ℕ) (v : V) (m : List (ℕ × V))
      → lookup j (insert_new k v m) ≡ (if k == j then some (or_new (lookup k m) v) else lookup j m)
  unfolding lookup insert_new
  lookup-insert_new k j v [] = ground arith
  lookup-insert_new k j v ((i, w) ∷ m) = ground (arith, lookup-insert_new k j v m)

  pub lookup-remove :
      (k j : ℕ) (m : List (ℕ × V)) → lookup j (remove k m) ≡ (if k == j then none else lookup j m)
  unfolding lookup remove
  lookup-remove k j [] = ground arith
  lookup-remove k j ((i, w) ∷ m) = ground (arith, lookup-remove k j m)

  pub length-insert_new :
      (k : ℕ) (v : V) (m : List (ℕ × V))
      → lookup k m ≡ none
      → length (insert_new k v m) ≡ suc (length m)
  unfolding lookup insert_new
  length-insert_new k v [] h = refl
  length-insert_new k v ((i, w) ∷ m) h = ground (arith, length-insert_new k v m)
