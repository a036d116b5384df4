-- ===== src/Prelude/Counting.antt =====
-- Counting the elements of sets that are lists without repetition.
use Prim.Native.Nat.{ℕ, suc, ◌+◌, ◌≤◌}
use mathlib.Core.Path.{◌≡◌, refl, ap, ◌∙◌}
use mathlib.Core.Logic.{inl, inr}
use mathlib.Core.Bool.{Bool, true, false, not, ◌&&◌, ◌||◌}
use mathlib.Core.List.{List, [], ◌∷◌, ◌++◌}
use native.Mathlib.Omega.{arith}
use ava_hotstuff.Prelude.Tests.{◌==◌, if◌then◌else◌, Bool-cases, ==_iff}
use ava_hotstuff.Prelude.Lists.{length, length-append}
use ava_hotstuff.Prelude.Sets.{has, erase, Distinct, has-erase, erase-Distinct}

-- Every element of `xs` is one of `ys`.
abbrev pub Subset : List ℕ → List ℕ → Type 0
Subset xs ys = (a : ℕ) → has a xs ≡ true → has a ys ≡ true

-- The elements of `xs` that are, or are not, in `ys`.
unfoldable pub common : List ℕ → List ℕ → List ℕ
unfolding has
common [] ys = []
common (x ∷ xs) ys = if has x ys then x ∷ common xs ys else common xs ys

unfoldable pub without : List ℕ → List ℕ → List ℕ
unfolding has
without [] ys = []
without (x ∷ xs) ys = if has x ys then without xs ys else x ∷ without xs ys

erase_absent : (a : ℕ) (xs : List ℕ) → has a xs ≡ false → length (erase a xs) ≡ length xs
unfolding has erase
erase_absent a [] h = refl
erase_absent a (x ∷ xs) h = ground (arith, erase_absent a xs)

length-erase :
    (a : ℕ) (xs : List ℕ) → Distinct xs → has a xs ≡ true → suc (length (erase a xs)) ≡ length xs
unfolding has erase
length-erase a [] d h = cc
length-erase a (x ∷ xs) d h = elim (Bool-cases (a == x)) [
  | inl e ↦ rw e (ap suc (erase_absent a xs (ap (λ b. has b xs) ((==_iff a x).0 e) ∙ d.0)))
  | inr e ↦ rw e (ap suc (length-erase a xs d.1 (ground (arith, h, e))))
]

smaller : (x : ℕ) (xs ys : List ℕ) → has x xs ≡ false → Subset (x ∷ xs) ys → Subset xs (erase x ys)
unfolding has
smaller x xs ys new s a h = elim (Bool-cases (a == x)) [
  | inl e ↦ absurd (clash (ap (λ b. has b xs) ((==_iff a x).0 e)))
  | inr e ↦ has-erase x a ys ∙ rw e (s a (rw e h))
]
  where
    clash : has a xs ≡ has x xs → ⊥
    clash e = cc

-- No more pigeons than holes.
pub length-Subset :
    (xs ys : List ℕ) → Distinct xs → Distinct ys → Subset xs ys → length xs ≤ length ys
unfolding has
length-Subset [] ys d e s = omega arith
length-Subset (x ∷ xs) ys d e s = omega (
  arith,
  length-erase x ys e (s x (ground arith)),
  length-Subset xs (erase x ys) d.1 (erase-Distinct x ys e) (smaller x xs ys d.0 s),
)

pub has-append : (a : ℕ) (xs ys : List ℕ) → has a (xs ++ ys) ≡ (has a xs || has a ys)
unfolding has
has-append a [] ys = refl
has-append a (x ∷ xs) ys = ground (arith, has-append a xs ys)

has-without : (a : ℕ) (xs ys : List ℕ) → has a (without xs ys) ≡ (has a xs && not (has a ys))
unfolding has without
has-without a [] ys = refl
has-without a (x ∷ xs) ys = elim (Bool-cases (has x ys)) [
  | inl e ↦
      rw e (has-without a xs ys ∙ old (a == x) (λ f. ap (λ b. has b ys) ((==_iff a x).0 f) ∙ e))
  | inr e ↦ rw e (
      ap (λ b. a == x || b) (has-without a xs ys)
      ∙ new (a == x) (λ f. ap (λ b. has b ys) ((==_iff a x).0 f) ∙ e))
]
  where
    old :
        (b : Bool)
        → (b ≡ true → has a ys ≡ true)
        → (has a xs && not (has a ys)) ≡ ((b || has a xs) && not (has a ys))
    old true f = rw (f refl) (ground arith)
    old false f = refl

    new :
        (b : Bool)
        → (b ≡ true → has a ys ≡ false)
        → (b || (has a xs && not (has a ys))) ≡ ((b || has a xs) && not (has a ys))
    new true f = rw (f refl) refl
    new false f = refl

without-Distinct : (xs ys : List ℕ) → Distinct xs → Distinct ys → Distinct (without xs ys ++ ys)
unfolding without
without-Distinct [] ys d e = e
without-Distinct (x ∷ xs) ys d e = elim (Bool-cases (has x ys)) [
  | inl f ↦ rw f (without-Distinct xs ys d.1 e)
  | inr f ↦ rw f (
    has-append x (without xs ys) ys ∙ rw f (rw (has-without x xs ys) (rw d.0 refl)),
    without-Distinct xs ys d.1 e,
  )
]

length-common : (xs ys : List ℕ) → length (common xs ys) + length (without xs ys) ≡ length xs
unfolding common without
length-common [] ys = refl
length-common (x ∷ xs) ys = ground (arith, length-common xs ys)

-- Two sets within a third have what they are too large to keep apart in common.
pub length-common_ge :
    (xs ys zs : List ℕ)
    → Distinct xs
    → Distinct ys
    → Distinct zs
    → Subset xs zs
    → Subset ys zs
    → length xs + length ys ≤ length zs + length (common xs ys)
length-common_ge xs ys zs d e f s t = omega (
  arith,
  length-common xs ys,
  length-append (without xs ys) ys,
  length-Subset (without xs ys ++ ys) zs (without-Distinct xs ys d e) f union,
)
  where
    union : Subset (without xs ys ++ ys) zs
    union a h = elim (Bool-cases (has a ys)) [
      | inl g ↦ t a g
      | inr g ↦ s a (ground (arith, h, g, has-append a (without xs ys) ys, has-without a xs ys))
    ]
