-- ===== src/Liveness/HighTail/Best.antt =====
-- What `PMHighTail` (include/hotstuff/liveness.h) chooses to build on.
use ava_hotstuff.Prelude.{
  ℕ, suc, ◌≤◌, ◌≡◌, ◌≢◌, refl, sym, ap, subst, ◌∙◌, ◌⊎◌, inl, inr, Bool, true, false, Option, none,
  some, List, [], ◌∷◌, ◌==◌, ==_iff, arith, ltb, ltb→lt, Bool-cases, Option-cases, some-inj,
  none-ne-some, has,
}
use ava_hotstuff.Entity.Block.{Ref, Heap}
use ava_hotstuff.Core.Climb.{
  climb, Walk, reached, no_parent, no_rounds, Climbs, climb_sound, climb_complete, Descends,
  Climbs-length, HasParents, climb-ne-no_parent, climb-ne-no_rounds,
}
use ava_hotstuff.Liveness.HighTail.{
  ends_at, check_ancestry, prefer, preferred, consider, consider_all, on_hqc_update,
}

-- The first parents of `b` lead to `a`, above `a` all the way.
abbrev pub Follows : Heap → Ref → Ref → Type 0
Follows heap a b = (path : List Ref) × Climbs heap (heap a).height b path a

ends_at-eq :
    (a : Ref) (w : Walk) → ends_at a w ≡ some true → (path : List Ref) × (w ≡ reached path a)
ends_at-eq a (reached path last) e = (path, ap (reached path) ((==_iff last a).0 (some-inj e)))
ends_at-eq a no_parent e = cc
ends_at-eq a no_rounds e = cc

check_ancestry-Follows :
    (heap : Heap) (a b : Ref) → check_ancestry heap a b ≡ some true → Follows heap a b
unfolding check_ancestry
check_ancestry-Follows heap a b e =
    let (path, w) = ends_at-eq a (climb heap (heap a).height (suc (heap b).height) b) e in
    (path, climb_sound heap (heap a).height (suc (heap b).height) b path a w)

-- And the other way round, where parents are lower than their children.
Follows-check_ancestry :
    (heap : Heap) (a b : Ref)
    → Descends heap
    → Follows heap a b
    → check_ancestry heap a b ≡ some true
unfolding check_ancestry
Follows-check_ancestry heap a b d (path, c) =
    ap (ends_at a) (
      climb_complete heap (heap a).height (suc (heap b).height) c
        (omega (arith, Climbs-length heap (heap a).height d c)))
    ∙ ap some ((==_iff a a).1 refl)

-- What `t` is, chosen of `s` and the blocks that were considered.
pub record IsBest (heap : Heap) (hqc : Ref) (blks : List Ref) (s t : Ref) : Type 0 where
  pub chosen : (t ≡ s) ⊎ ((has t blks ≡ true) × Follows heap hqc t)
  pub no_lower : (heap s).height ≤ (heap t).height
  pub highest :
      (b : Ref) → has b blks ≡ true → Follows heap hqc b → (heap b).height ≤ (heap t).height

prefer-IsBest :
    (heap : Heap) (hqc blk s : Ref) (follows : Bool)
    → (follows ≡ true → Follows heap hqc blk)
    → (Follows heap hqc blk → follows ≡ true)
    → IsBest heap hqc (blk ∷ []) s (prefer heap blk s follows)
unfolding has
prefer-IsBest heap hqc blk s false f g = record {
  chosen = inl refl;
  no_lower = omega arith;
  highest = λ b h k. absurd (never (g (subst (Follows heap hqc) (only b h) k)));
}
  where
    never : false ≡ true → ⊥
    never e = cc

    only : (b : Ref) → has b (blk ∷ []) ≡ true → b ≡ blk
    only b h = ground (arith, h)
prefer-IsBest heap hqc blk s true f g = elim (Bool-cases (ltb (heap s).height (heap blk).height)) [
  | inl e ↦ rw e (record {
    chosen = inr (ground arith, f refl);
    no_lower = omega (arith, ltb→lt _ _ e);
    highest = λ b h k. omega (arith, ap (λ r. (heap r).height) (only b h));
  })
  | inr e ↦ rw e (record {
    chosen = inl refl;
    no_lower = omega arith;
    highest = λ b h k. omega (
      arith,
      ap (λ r. (heap r).height) (only b h),
      not_above (heap s).height (heap blk).height e,
    );
  })
]
  where
    only : (b : Ref) → has b (blk ∷ []) ≡ true → b ≡ blk
    only b h = ground (arith, h)

    not_above : (m n : ℕ) → ltb m n ≡ false → n ≤ m
    not_above m n h = ground (arith, h)

consider-IsBest :
    (heap : Heap) (hqc blk s t : Ref)
    → Descends heap
    → consider heap hqc blk s ≡ some t
    → IsBest heap hqc (blk ∷ []) s t
unfolding consider
consider-IsBest heap hqc blk s t d e = elim (Option-cases (check_ancestry heap hqc blk)) [
  | inl f ↦ absurd (none-ne-some (sym (ap (preferred heap blk s) f) ∙ e))
  | inr (follows, f) ↦
      subst (IsBest heap hqc (blk ∷ []) s) (same follows (sym (ap (preferred heap blk s) f) ∙ e)) (
        prefer-IsBest heap hqc blk s follows
          (λ g. check_ancestry-Follows heap hqc blk (f ∙ ap some g))
          (λ g. some-inj (sym f ∙ Follows-check_ancestry heap hqc blk d g)))
]
  where
    same : (b : Bool) → some (prefer heap blk s b) ≡ some t → prefer heap blk s b ≡ t
    same b h = cc

consider_all-IsBest :
    (heap : Heap) (hqc s t : Ref) (blks : List Ref)
    → Descends heap
    → consider_all heap hqc blks s ≡ some t
    → IsBest heap hqc blks s t
unfolding consider_all has
consider_all-IsBest heap hqc s t [] d e =
    subst (IsBest heap hqc [] s) (same e)
      (record { chosen = inl refl; no_lower = omega arith; highest = λ b h k. cc })
  where
    same : some s ≡ some t → s ≡ t
    same h = cc
consider_all-IsBest heap hqc s t (blk ∷ blks) d e = elim (Option-cases (consider heap hqc blk s)) [
  | inl f ↦ absurd (none-ne-some (sym (ap then_all f) ∙ e))
  | inr (u, f) ↦
      let first = consider-IsBest heap hqc blk s u d f in
      let rest = consider_all-IsBest heap hqc u t blks d (sym (ap then_all f) ∙ e) in
      record {
        chosen = elim rest.chosen [
          | inr (h, k) ↦ inr (ground (arith, h), k)
          | inl same ↦ elim first.chosen [
            | inl same' ↦ inl (same ∙ same')
            | inr (h, k) ↦ inr (rw same (ground (arith, h)), subst (Follows heap hqc) (sym same) k)
          ]
        ];
        no_lower = omega (arith, first.no_lower, rest.no_lower);
        highest = λ b h k. elim (Bool-cases (b == blk)) [
          | inl g ↦ omega (arith, first.highest b (rw g refl) k, rest.no_lower)
          | inr g ↦ rest.highest b (ground (arith, h, g)) k
        ];
      }
]
  where
    then_all : Option Ref → Option Ref
    then_all o = elim o [ none ↦ none | some v ↦ consider_all heap hqc blks v ]

ends_at-ne-none :
    (a : Ref) (w : Walk) → w ≢ no_parent → w ≢ no_rounds → (b : Bool) × (ends_at a w ≡ some b)
ends_at-ne-none a (reached path last) f g = (last == a, refl)
ends_at-ne-none a no_parent f g = absurd (f refl)
ends_at-ne-none a no_rounds f g = absurd (g refl)

check_ancestry_total :
    (heap : Heap) (a b : Ref)
    → Descends heap
    → HasParents heap
    → (follows : Bool) × (check_ancestry heap a b ≡ some follows)
unfolding check_ancestry
check_ancestry_total heap a b d h =
    let rounds = suc (heap b).height in
    ends_at-ne-none a (climb heap (heap a).height rounds b)
      (climb-ne-no_parent heap (heap a).height rounds b h)
      (climb-ne-no_rounds heap (heap a).height rounds b d (omega arith))

consider_all_total :
    (heap : Heap) (hqc s : Ref) (blks : List Ref)
    → Descends heap
    → HasParents heap
    → (t : Ref) × (consider_all heap hqc blks s ≡ some t)
unfolding consider_all consider
consider_all_total heap hqc s [] d h = (s, refl)
consider_all_total heap hqc s (blk ∷ blks) d h =
    let (follows, e) = check_ancestry_total heap hqc blk d h in
    let (t, f) = consider_all_total heap hqc (prefer heap blk s follows) blks d h in
    (t, ap (λ o. then_all (preferred heap blk s o)) e ∙ f)
  where
    then_all : Option Ref → Option Ref
    then_all o = elim o [ none ↦ none | some v ↦ consider_all heap hqc blks v ]

-- On a new highest certificate, where parents are lower than their children and no block above height
-- 0 lacks one: the update ends, and the block to build on is the certified block or a tail that
-- follows it, as high as every tail that follows it.
pub on_hqc_update-IsBest :
    (heap : Heap) (hqc : Ref) (tails : List Ref)
    → Descends heap
    → HasParents heap
    → (t : Ref) × (on_hqc_update heap tails hqc ≡ some t) × IsBest heap hqc tails hqc t
unfolding on_hqc_update
on_hqc_update-IsBest heap hqc tails d h =
    let (t, e) = consider_all_total heap hqc hqc tails d h in
    (t, e, consider_all-IsBest heap hqc hqc t tails d e)
