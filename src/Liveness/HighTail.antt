-- ===== src/Liveness/HighTail.antt =====
-- include/hotstuff/liveness.h, `PMHighTail`: the block to build on is the highest tail that follows
-- the block of the highest certificate. `none` is a read of `parents[0]` of a block that has none, or
-- a loop that has used its rounds.
pub mod Best
use ava_hotstuff.Prelude.{
  ℕ, suc, ◌≤◌, ◌<◌, ◌≡◌, ◌≢◌, refl, sym, ap, subst, ◌∙◌, ◌⊎◌, inl, inr, Bool, true, false, ◌&&◌,
  Option, none, some, List, [], ◌∷◌, ◌==◌, ==_iff, arith, ltb, ltb→lt, if◌then◌else◌, Bool-cases,
  Option-cases, has, length,
}
use ava_hotstuff.Entity.Block.{Ref, Heap}
use ava_hotstuff.Core.Climb.{
  climb, Walk, reached, no_parent, no_rounds, Climbs, climb_sound, climb_complete, Descends,
  Climbs-length, HasParents, climb-ne-no_parent, climb-ne-no_rounds,
}

abbrev pub ends_at : Ref → Walk → Option Bool
ends_at a (reached path last) = some (last == a)
ends_at a no_parent = none
ends_at a no_rounds = none

-- `check_ancestry(a, b)`: do the first parents of `b` lead to `a`?
unfoldable pub check_ancestry : Heap → Ref → Ref → Option Bool
unfolding climb
check_ancestry heap a b = ends_at a (climb heap (heap a).height (suc (heap b).height) b)

-- `if (check_ancestry(hqc, blk) && blk->height > hqc_tail->height) hqc_tail = blk;`
abbrev pub prefer : Heap → Ref → Ref → Bool → Ref
prefer heap blk tail follows =
    if follows && ltb (heap tail).height (heap blk).height then blk else tail

abbrev pub preferred : Heap → Ref → Ref → Option Bool → Option Ref
preferred heap blk tail none = none
preferred heap blk tail (some follows) = some (prefer heap blk tail follows)

unfoldable pub consider : Heap → Ref → Ref → Ref → Option Ref
unfolding check_ancestry
consider heap hqc blk tail = preferred heap blk tail (check_ancestry heap hqc blk)

-- The loop over the tails.
unfoldable pub consider_all : Heap → Ref → List Ref → Ref → Option Ref
unfolding consider
consider_all heap hqc [] tail = some tail
consider_all heap hqc (blk ∷ blks) tail = elim (consider heap hqc blk tail) [
  | none ↦ none
  | some tail' ↦ consider_all heap hqc blks tail'
]

-- The continuation of `reg_hqc_update`: the new `hqc_tail`.
unfoldable pub on_hqc_update : Heap → List Ref → Ref → Option Ref
unfolding consider_all
on_hqc_update heap tails hqc = consider_all heap hqc tails hqc

-- The continuation of `reg_receive_proposal`.
unfoldable pub on_tail_received : Heap → Ref → Ref → Ref → Option Ref
unfolding consider
on_tail_received heap hqc blk tail = consider heap hqc blk tail

-- The continuation of `reg_proposal`.
unfoldable pub on_tail_proposed : Ref → Ref → Ref
on_tail_proposed blk tail = blk

unfoldable pub get_parents : Ref → List Ref
get_parents tail = tail ∷ []
