-- ===== src/Db/Bucket.antt =====
-- include/hotstuff/HashBucket.h: the nodes from `head` on, each a key and its value.
use ava_hotstuff.Prelude.{
  ℕ, ◌≡◌, refl, Bool, false, Option, none, some, List, [], ◌∷◌, ◌==◌, ◌||◌, arith, if◌then◌else◌,
}

module _ {V : Type 0} where
  -- `find`: the value of the first node with the key.
  unfoldable pub find : ℕ → List (ℕ × V) → Option V
  find key [] = none
  find key ((k, v) ∷ nodes) = if k == key then some v else find key nodes

  -- `insert`: the node with the key gets the value; without one, a new node is hung on the last.
  unfoldable pub insert : ℕ → V → List (ℕ × V) → List (ℕ × V)
  insert key value [] = (key, value) ∷ []
  insert key value ((k, v) ∷ nodes) =
      if k == key then (k, value) ∷ nodes else (k, v) ∷ insert key value nodes

  -- `erase`: the first node with the key is taken out.
  unfoldable pub erase : ℕ → List (ℕ × V) → List (ℕ × V)
  erase key [] = []
  erase key ((k, v) ∷ nodes) = if k == key then nodes else (k, v) ∷ erase key nodes

  unfoldable pub has_key : ℕ → List (ℕ × V) → Bool
  has_key key [] = false
  has_key key ((k, v) ∷ nodes) = k == key || has_key key nodes

  -- No key stands in two nodes.
  abbrev pub IsBucket : List (ℕ × V) → Type 0
  IsBucket [] = Unit {0}
  IsBucket ((k, v) ∷ nodes) = (has_key k nodes ≡ false) × IsBucket nodes

  pub find-insert :
      (key j : ℕ) (value : V) (b : List (ℕ × V))
      → find j (insert key value b) ≡ (if key == j then some value else find j b)
  unfolding find insert
  find-insert key j value [] = refl
  find-insert key j value ((k, v) ∷ nodes) = ground (arith, find-insert key j value nodes)

  find_absent : (key : ℕ) (b : List (ℕ × V)) → has_key key b ≡ false → find key b ≡ none
  unfolding find has_key
  find_absent key [] h = refl
  find_absent key ((k, v) ∷ nodes) h = ground (arith, find_absent key nodes)

  pub find-erase :
      (key j : ℕ) (b : List (ℕ × V))
      → IsBucket b
      → find j (erase key b) ≡ (if key == j then none else find j b)
  unfolding find erase
  find-erase key j [] d = ground arith
  find-erase key j ((k, v) ∷ nodes) d =
      ground (arith, find-erase key j nodes d.1, find_absent k nodes d.0)

  has_key-insert :
      (key j : ℕ) (value : V) (b : List (ℕ × V))
      → has_key j (insert key value b) ≡ (key == j || has_key j b)
  unfolding has_key insert
  has_key-insert key j value [] = refl
  has_key-insert key j value ((k, v) ∷ nodes) = ground (arith, has_key-insert key j value nodes)

  has_key-erase :
      (key j : ℕ) (b : List (ℕ × V)) → has_key j b ≡ false → has_key j (erase key b) ≡ false
  unfolding has_key erase
  has_key-erase key j [] h = refl
  has_key-erase key j ((k, v) ∷ nodes) h = ground (arith, has_key-erase key j nodes)

  pub insert-IsBucket :
      (key : ℕ) (value : V) (b : List (ℕ × V)) → IsBucket b → IsBucket (insert key value b)
  unfolding insert has_key
  insert-IsBucket key value [] d = ground arith
  insert-IsBucket key value ((k, v) ∷ nodes) d =
      ground (arith, insert-IsBucket key value nodes d.1, has_key-insert key k value nodes)

  pub erase-IsBucket : (key : ℕ) (b : List (ℕ × V)) → IsBucket b → IsBucket (erase key b)
  unfolding erase
  erase-IsBucket key [] d = tt
  erase-IsBucket key ((k, v) ∷ nodes) d =
      ground (arith, erase-IsBucket key nodes d.1, has_key-erase key k nodes d.0)
