-- ===== src/Clusters/Heard.antt =====
-- What `receive_mc_local` of src/hotstuff.cpp is for: a height is finished once every other cluster
-- has confirmed it, and is handed to `decide_after_mc` then, once.
use ava_hotstuff.Prelude.{
  ℕ, ◌+◌, ◌≤◌, ◌<◌, ◌≡◌, refl, ◌∙◌, Bool, false, ◌||◌, Option, none, some, List, [], ◌∷◌, ◌==◌,
  arith, lt→ltb, if◌then◌else◌, has, length, length-set, length-replicate, set,
}
use ava_hotstuff.Prelude.Int.{pos, pos_part, ◌-ℤ◌}
use ava_hotstuff.Clusters.Row.{
  new_row, write_at, bump, all_from, count_at, is_counted, count_at-set, count_at-new_row,
  get_elem?-count_at,
}
use ava_hotstuff.Clusters.Tracking.{start_row}

-- A message: its cluster, its height, and its configuration.
pub record Message : Type 0 where
  pub cluster : ℕ
  pub height : ℕ
  pub reconfig_count : ℕ
  pub leave_set : List ℕ

-- The clusters that messages about the height came from.
abbrev pub heard : ℕ → List Message → List ℕ
heard h [] = []
heard h (m ∷ ms) = if m.height == h then m.cluster ∷ heard h ms else heard h ms

-- Every cluster is the own one or has been heard, and one has been.
abbrev pub is_finished : ℕ → ℕ → List ℕ → Bool
is_finished n own [] = false
is_finished n own (c ∷ cs) = all_from n 0 (λ j. j == own || has j (c ∷ cs))

-- The row of a height counts the own cluster and those that were heard.
abbrev pub IsRow : ℕ → ℕ → List ℕ → Option (List ℕ) → Type 0
IsRow n own cs none = cs ≡ []
IsRow n own cs (some row) = (n ≤ length row) × ((j : ℕ) → is_counted row j ≡ (j == own || has j cs))

length-new_row : (n : ℕ) → length (new_row (pos 0) n) ≡ n
unfolding new_row ◌-ℤ◌
length-new_row n = length-replicate _ 0 ∙ whole n
  where
    whole : (m : ℕ) → pos_part (pos m -ℤ pos 0) ≡ m
    whole m = ground arith

-- A row to start from counts the clusters that were heard.
pub start_row-IsRow :
    (n own : ℕ) (cs : List ℕ) (o : Option (List ℕ))
    → own < n
    → IsRow n own cs o
    → (row : List ℕ) × (start_row (pos 0) o n own ≡ some row) × IsRow n own cs (some row)
unfolding start_row write_at has
start_row-IsRow n own cs (some row) h r = (row, refl, r)
start_row-IsRow n own cs none h r = (
  set (new_row (pos 0) n) own 1,
  rw (lt→ltb own (length (new_row (pos 0) n)) fits) refl,
  (
    omega (arith, length-set (new_row (pos 0) n) own 1, length-new_row n),
    λ j.
        ground
          (arith, count_at-set (new_row (pos 0) n) own j 1 fits, count_at-new_row (pos 0) n j, r),
  ),
)
  where
    fits : own < length (new_row (pos 0) n)
    fits = omega (arith, length-new_row n)

-- One more message.
pub bump-IsRow :
    (n own c : ℕ) (cs : List ℕ) (row : List ℕ)
    → c < n
    → IsRow n own cs (some row)
    → (row' : List ℕ) × (bump row c ≡ some row') × IsRow n own (c ∷ cs) (some row')
unfolding bump has
bump-IsRow n own c cs row h (long, counts) = (
  set row c (count_at row c + 1),
  ground (arith, get_elem?-count_at row c (omega arith)),
  (
    omega (arith, length-set row c (count_at row c + 1)),
    λ j. ground (arith, count_at-set row c j (count_at row c + 1) (omega arith), counts j),
  ),
)
