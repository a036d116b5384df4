-- ===== src/Core/Climb.antt =====
-- The loops `for (b = from; b->height > limit; b = b->parents[0])` of `update`, of
-- `on_receive_proposal` (src/consensus.cpp) and of `PMHighTail::check_ancestry` (liveness.h). Each is
-- given `height + 1` rounds, which is enough where a parent is lower than its child.
use ava_hotstuff.Prelude.{
  ℕ, zero, suc, ◌+◌, ◌≤◌, ◌<◌, ◌≡◌, ◌≢◌, refl, sym, ap, ◌∙◌, length, ◌⊎◌, inl, inr, true, false,
  List, [], ◌∷◌, arith, ltb, ltb→lt, Bool-cases,
}
use ava_hotstuff.Entity.Block.{Ref, Heap}

-- `reached` gives the blocks above the limit, highest first, and the block that ends the loop;
-- `no_parent` is a read of `parents[0]` of a block that has none.
pub data Walk : Type 0 where
  reached : List Ref → Ref → Walk
  no_parent : Walk
  no_rounds : Walk

abbrev pub above : Ref → Walk → Walk
above b (reached path last) = reached (b ∷ path) last
above b no_parent = no_parent
above b no_rounds = no_rounds

unfoldable pub climb : Heap → ℕ → ℕ → Ref → Walk
climb heap limit zero b = no_rounds
climb heap limit (suc rounds) b = elim (ltb limit (heap b).height) [
  | false ↦ reached [] b
  | true ↦ elim (heap b).parents [ [] ↦ no_parent | p ∷ _ ↦ above b (climb heap limit rounds p) ]
]

-- From `b` the first parents lead through the blocks of `path`, all above `limit`, to `stop`, which
-- is not above it.
pub data Climbs (heap : Heap) (limit : ℕ) : Ref → List Ref → Ref → Type 0 where
  stop : {b : Ref} → (heap b).height ≤ limit → Climbs heap limit b [] b
  step :
      {b p e : Ref} {ps : List Ref} {path : List Ref}
      → limit < (heap b).height
      → (heap b).parents ≡ p ∷ ps
      → Climbs heap limit p path e
      → Climbs heap limit b (b ∷ path) e

above-eq-reached :
    (b : Ref) (w : Walk) (path : List Ref) (e : Ref)
    → above b w ≡ reached path e
    → (rest : List Ref) × (w ≡ reached rest e) × (b ∷ rest ≡ path)
above-eq-reached b (reached rest last) path e h = (rest, ground arith, ground arith)
above-eq-reached b no_parent path e h = cc
above-eq-reached b no_rounds path e h = cc

reached-injective : {p q : List Ref} {a b : Ref} → reached p a ≡ reached q b → (p ≡ q) × (a ≡ b)
reached-injective h = (cc, cc)

no_parent-ne-reached : {p : List Ref} {a : Ref} → no_parent ≡ reached p a → ⊥
no_parent-ne-reached h = cc

no_parent-ne-no_rounds : no_parent ≡ no_rounds → ⊥
no_parent-ne-no_rounds h = cc

reached-ne-no_rounds : {p : List Ref} {a : Ref} → reached p a ≡ no_rounds → ⊥
reached-ne-no_rounds h = cc

-- The rounds of the loop, one by one.
pub climb_stop :
    (heap : Heap) (limit rounds : ℕ) (b : Ref)
    → ltb limit (heap b).height ≡ false
    → climb heap limit (suc rounds) b ≡ reached [] b
unfolding climb
climb_stop heap limit rounds b lo = ground arith

pub climb_step :
    (heap : Heap) (limit rounds : ℕ) (b p : Ref) (ps : List Ref)
    → ltb limit (heap b).height ≡ true
    → (heap b).parents ≡ p ∷ ps
    → climb heap limit (suc rounds) b ≡ above b (climb heap limit rounds p)
unfolding climb
climb_step heap limit rounds b p ps hi e = ground arith

climb_orphan :
    (heap : Heap) (limit rounds : ℕ) (b : Ref)
    → ltb limit (heap b).height ≡ true
    → (heap b).parents ≡ []
    → climb heap limit (suc rounds) b ≡ no_parent
unfolding climb
climb_orphan heap limit rounds b hi e = ground arith

List-cases : (xs : List Ref) → (xs ≡ []) ⊎ ((p : Ref) × (ps : List Ref) × (xs ≡ p ∷ ps))
List-cases [] = inl refl
List-cases (p ∷ ps) = inr (p, ps, refl)

-- The loop's answer is what the parents say.
pub climb_sound :
    (heap : Heap) (limit rounds : ℕ) (b : Ref) (path : List Ref) (e : Ref)
    → climb heap limit rounds b ≡ reached path e
    → Climbs heap limit b path e
climb_sound heap limit zero b path e h = absurd (unfold climb in cc)
climb_sound heap limit (suc rounds) b path e h = elim (Bool-cases (ltb limit (heap b).height)) [
  | inr lo ↦
      let at : reached [] b ≡ reached path e = sym (climb_stop heap limit rounds b lo) ∙ h in
      let (none_above, there) = reached-injective at in
      rw (← none_above, ← there) (stop (ground arith))
  | inl hi ↦ elim (List-cases (heap b).parents) [
    | inl orphan ↦
        absurd (no_parent-ne-reached (sym (climb_orphan heap limit rounds b hi orphan) ∙ h))
    | inr (p, ps, parents) ↦
        let (rest, further, whole) =
          above-eq-reached b (climb heap limit rounds p) path e
            (sym (climb_step heap limit rounds b p ps hi parents) ∙ h) in
        rw (← whole) (step (ground arith) parents (climb_sound heap limit rounds p rest e further))
  ]
]

-- And enough rounds give an answer: where the parents lead to a block that is not above the limit,
-- a round for each block above it and one more find it.
pub climb_complete :
    (heap : Heap) (limit : ℕ) {b e : Ref} {path : List Ref} (rounds : ℕ)
    → Climbs heap limit b path e
    → length path < rounds
    → climb heap limit rounds b ≡ reached path e
climb_complete heap limit zero c enough = absurd (omega arith)
climb_complete heap limit (suc rounds) (stop lo) enough =
    climb_stop heap limit rounds _ (ground arith)
climb_complete heap limit (suc rounds) (step {b} {p} {ps = ps} hi parents c) enough =
    climb_step heap limit rounds b p ps (ground arith) parents
    ∙ ap (above b) (climb_complete heap limit rounds c (omega arith))

-- A parent is lower than its child. `on_deliver_blk` sees to that while heights do not wrap.
abbrev pub Descends : Heap → Type 0
Descends heap =
    (b p : Ref) (ps : List Ref) → (heap b).parents ≡ p ∷ ps → (heap p).height < (heap b).height

-- Then a path has no more blocks than the height of its first.
pub Climbs-length :
    (heap : Heap) (limit : ℕ) {b e : Ref} {path : List Ref}
    → Descends heap
    → Climbs heap limit b path e
    → length path + (heap e).height ≤ (heap b).height
Climbs-length heap limit d (stop lo) = omega arith
Climbs-length heap limit d (step {b} {p} {ps = ps} hi parents c) =
    omega (arith, d b p ps parents, Climbs-length heap limit d c)

above-no_rounds : (b : Ref) (w : Walk) → above b w ≡ no_rounds → w ≡ no_rounds
above-no_rounds b (reached path last) h = cc
above-no_rounds b no_parent h = cc
above-no_rounds b no_rounds h = refl

-- And the loops end within the rounds that they are given.
pub climb-ne-no_rounds :
    (heap : Heap) (limit rounds : ℕ) (b : Ref)
    → Descends heap
    → (heap b).height < rounds
    → climb heap limit rounds b ≢ no_rounds
climb-ne-no_rounds heap limit zero b d enough h = absurd (omega arith)
climb-ne-no_rounds heap limit (suc rounds) b d enough h =
    elim (Bool-cases (ltb limit (heap b).height)) [
      | inr lo ↦ reached-ne-no_rounds (sym (climb_stop heap limit rounds b lo) ∙ h)
      | inl hi ↦ elim (List-cases (heap b).parents) [
        | inl orphan ↦ no_parent-ne-no_rounds (sym (climb_orphan heap limit rounds b hi orphan) ∙ h)
        | inr (p, ps, parents) ↦
            climb-ne-no_rounds heap limit rounds p d (omega (arith, d b p ps parents))
              (above-no_rounds b _ (sym (climb_step heap limit rounds b p ps hi parents) ∙ h))
      ]
    ]

-- Every block above height 0 has a parent.
abbrev pub HasParents : Heap → Type 0
HasParents heap = (b : Ref) → 0 < (heap b).height → (heap b).parents ≢ []

above-no_parent : (b : Ref) (w : Walk) → above b w ≡ no_parent → w ≡ no_parent
above-no_parent b (reached path last) h = cc
above-no_parent b no_parent h = refl
above-no_parent b no_rounds h = cc

reached-ne-no_parent : {p : List Ref} {a : Ref} → reached p a ≡ no_parent → ⊥
reached-ne-no_parent h = cc

-- Then the loops read no parent that is not there.
pub climb-ne-no_parent :
    (heap : Heap) (limit rounds : ℕ) (b : Ref)
    → HasParents heap
    → climb heap limit rounds b ≢ no_parent
climb-ne-no_parent heap limit zero b d h = absurd (unfold climb in cc)
climb-ne-no_parent heap limit (suc rounds) b d h = elim (Bool-cases (ltb limit (heap b).height)) [
  | inr lo ↦ reached-ne-no_parent (sym (climb_stop heap limit rounds b lo) ∙ h)
  | inl hi ↦ elim (List-cases (heap b).parents) [
    | inl orphan ↦ d b (omega (arith, ltb→lt _ _ hi)) orphan
    | inr (p, ps, parents) ↦
        climb-ne-no_parent heap limit rounds p d
          (above-no_parent b _ (sym (climb_step heap limit rounds b p ps hi parents) ∙ h))
  ]
]
