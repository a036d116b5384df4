-- ===== src/Clusters/Row.antt =====
-- The loops of `receive_mc_local` (src/hotstuff.cpp) over the row of counters of one height, a
-- `std::vector<int>`. `none` is an access out of range.
use ava_hotstuff.Prelude.{
  ℕ, zero, suc, ◌+◌, ◌≤◌, ◌<◌, ◌≡◌, refl, Bool, true, false, not, ◌&&◌, Option, none, some, List,
  [], ◌∷◌, ◌==◌, arith, ltb, if◌then◌else◌, length, get_elem?, get_or, set, replicate,
}
use ava_hotstuff.Prelude.Int.{ℤ, pos, pos_part, ◌-ℤ◌}

-- `for(int x; x < n_clusters; x++) push_back(0)`: what `x` starts from is not set.
unfoldable pub new_row : ℤ → ℕ → List ℕ
new_row x n = replicate (pos_part (pos n -ℤ x)) 0

-- `row[i] = v`
unfoldable pub write_at : List ℕ → ℕ → ℕ → Option (List ℕ)
write_at row i v = if ltb i (length row) then some (set row i v) else none

-- `row[i] = row[i] + 1`, of an `int` that does not overflow before 2 ^ 31 messages
unfoldable pub bump : List ℕ → ℕ → Option (List ℕ)
bump row i = elim (get_elem? row i) [ none ↦ none | some k ↦ some (set row i (k + 1)) ]

-- The loop that clears `test_flag` at a counter that is 0: `n` rounds from `i` on.
unfoldable pub test_from : ℕ → ℕ → List ℕ → Option Bool
test_from zero i row = some true
test_from (suc n) i row =
    let rest = test_from n (i + 1) row in
    elim (get_elem? row i) [
      | none ↦ none
      | some k ↦ elim rest [ none ↦ none | some b ↦ some (if k == 0 then false else b) ]
    ]

-- The loop that clears the row.
unfoldable pub clear_from : ℕ → ℕ → List ℕ → List ℕ
clear_from zero i row = row
clear_from (suc n) i row = clear_from n (i + 1) (set row i 0)

-- What a loop finds that wants `f` of `n` numbers from `i` on.
abbrev pub all_from : ℕ → ℕ → (ℕ → Bool) → Bool
all_from zero i f = true
all_from (suc n) i f = f i && all_from n (i + 1) f

abbrev pub count_at : List ℕ → ℕ → ℕ
count_at row i = get_or row i 0

abbrev pub is_counted : List ℕ → ℕ → Bool
is_counted row i = not (count_at row i == 0)

pub get_elem?-count_at :
    (row : List ℕ) (i : ℕ) → i < length row → get_elem? row i ≡ some (count_at row i)
get_elem?-count_at [] i h = absurd (omega arith)
get_elem?-count_at (k ∷ row) zero h = refl
get_elem?-count_at (k ∷ row) (suc i) h = get_elem?-count_at row i (omega arith)

pub count_at-set :
    (row : List ℕ) (i j v : ℕ)
    → i < length row
    → count_at (set row i v) j ≡ (if i == j then v else count_at row j)
count_at-set [] i j v h = absurd (omega arith)
count_at-set (k ∷ row) zero zero v h = refl
count_at-set (k ∷ row) zero (suc j) v h = ground arith
count_at-set (k ∷ row) (suc i) zero v h = ground arith
count_at-set (k ∷ row) (suc i) (suc j) v h = ground (arith, count_at-set row i j v)

pub count_at-new_row : (x : ℤ) (n j : ℕ) → count_at (new_row x n) j ≡ 0
unfolding new_row
count_at-new_row x n j = zeros (pos_part (pos n -ℤ x)) j
  where
    zeros : (m i : ℕ) → count_at (replicate m 0) i ≡ 0
    zeros zero i = refl
    zeros (suc m) zero = refl
    zeros (suc m) (suc i) = zeros m i

pub test_from-all_from :
    (n i : ℕ) (row : List ℕ)
    → i + n ≤ length row
    → test_from n i row ≡ some (all_from n i (is_counted row))
unfolding test_from
test_from-all_from zero i row h = refl
test_from-all_from (suc n) i row h =
    ground (
      arith,
      get_elem?-count_at row i (omega arith),
      test_from-all_from n (i + 1) row (omega arith),
    )

pub all_from-eq :
    (n i : ℕ) (f g : ℕ → Bool)
    → ((j : ℕ) → i ≤ j → j < i + n → f j ≡ g j)
    → all_from n i f ≡ all_from n i g
all_from-eq zero i f g h = refl
all_from-eq (suc n) i f g h = ground (
  arith,
  h i (omega arith) (omega arith),
  all_from-eq n (i + 1) f g (λ j low high. h j (omega arith) (omega arith)),
)
