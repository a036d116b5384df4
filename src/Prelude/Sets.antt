-- ===== src/Prelude/Sets.antt =====
-- A `std::set` or `std::unordered_set` of numbers as a list without repetition.
use Prim.Native.Nat.{ℕ, suc}
use mathlib.Core.Path.{◌≡◌}
use mathlib.Core.Bool.{Bool, false, ◌&&◌, ◌||◌, not}
use mathlib.Core.List.{List, [], ◌∷◌}
use native.Mathlib.Omega.{arith}
use ava_hotstuff.Prelude.Tests.{◌==◌, if◌then◌else◌}
use ava_hotstuff.Prelude.Lists.{length}

-- `count(a)` of a set.
unfoldable pub has : ℕ → List ℕ → Bool
has a [] = false
has a (x ∷ xs) = a == x || has a xs

-- `insert(a)`.
unfoldable pub insert : ℕ → List ℕ → List ℕ
unfolding has
insert a xs = if has a xs then xs else a ∷ xs

-- `erase(a)`.
unfoldable pub erase : ℕ → List ℕ → List ℕ
erase a [] = []
erase a (x ∷ xs) = if a == x then erase a xs else x ∷ erase a xs

-- No element twice.
abbrev pub Distinct : List ℕ → Type 0
Distinct [] = Unit {0}
Distinct (x ∷ xs) = (has x xs ≡ false) × Distinct xs

pub has-insert : (a b : ℕ) (xs : List ℕ) → has b (insert a xs) ≡ (b == a || has b xs)
unfolding insert
has-insert a b xs = ground arith

pub has-erase : (a b : ℕ) (xs : List ℕ) → has b (erase a xs) ≡ (not (b == a) && has b xs)
unfolding has erase
has-erase a b [] = ground arith
has-erase a b (x ∷ xs) = ground (arith, has-erase a b xs)

pub insert-Distinct : (a : ℕ) (xs : List ℕ) → Distinct xs → Distinct (insert a xs)
unfolding insert
insert-Distinct a xs d = ground arith

pub erase-Distinct : (a : ℕ) (xs : List ℕ) → Distinct xs → Distinct (erase a xs)
unfolding has erase
erase-Distinct a [] d = tt
erase-Distinct a (x ∷ xs) d = ground (arith, erase-Distinct a xs d.1, has-erase a x xs)

pub length-insert :
    (a : ℕ) (xs : List ℕ) → has a xs ≡ false → length (insert a xs) ≡ suc (length xs)
unfolding insert
length-insert a xs h = ground arith
