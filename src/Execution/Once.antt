-- ===== src/Execution/Once.antt =====
-- What is due for a height, given the blocks that were committed and the clusters that confirmed it: the
-- results of its block, once both are there (`did_update` and `did_receive_mc` of src/hotstuff.cpp).
pub mod Proof
use ava_hotstuff.Prelude.{
  ℕ, ◌≡◌, refl, sym, ap, subst, ◌∙◌, ==_iff, Bool, true, false, List, [], ◌∷◌, ◌++◌, ◌==◌, ◌&&◌,
  ◌||◌, not, has, if◌then◌else◌, Bool-cases, inl, inr, arith,
}
use mathlib.Core.List.{append-nil}
use ava_hotstuff.Entity.Block.{Ref, Block}
use ava_hotstuff.Core.Messages.{Finality}
use ava_hotstuff.Core.State.{State}
use ava_hotstuff.Clusters.Finished.{is_finished_more}
use ava_hotstuff.Clusters.Heard.{Message, heard, is_finished}
use ava_hotstuff.Execution.{Base}
use ava_hotstuff.Execution.Results.{only}
use ava_hotstuff.Execution.Commits.{results_of, no_results}
use ava_hotstuff.Execution.Hears.{IsStored}

module _ (s : State Base) where
  abbrev pub height_of : Ref → ℕ
  height_of r = (s.core.heap r).height

  abbrev pub heights : List Ref → List ℕ
  heights [] = []
  heights (r ∷ rs) = height_of r ∷ heights rs

  -- The committed block of a height.
  abbrev pub block_at : ℕ → List Ref → Ref
  block_at h [] = 0
  block_at h (r ∷ rs) = if height_of r == h then r else block_at h rs

  abbrev pub AreStored : List Ref → Type 0
  AreStored [] = Unit {0}
  AreStored (r ∷ rs) = IsStored (height_of r) r s × AreStored rs

  pub block_at-IsStored :
      (h : ℕ) (rs : List Ref)
      → AreStored rs
      → has h (heights rs) ≡ true
      → IsStored h (block_at h rs) s
  unfolding has
  block_at-IsStored h [] k e = cc
  block_at-IsStored h (r ∷ rs) k e = elim (Bool-cases (height_of r == h)) [
    | inl here ↦ rw here (subst (λ i. IsStored i r s) ((==_iff (height_of r) h).0 here) k.0)
    | inr other ↦ rw other (block_at-IsStored h rs k.1 (ground (arith, e, other)))
  ]

module _ (n own : ℕ) (s : State Base) where
  -- `cs` are the clusters that confirmed the height `j`.
  abbrev pub due : ℕ → List Ref → List ℕ → List Finality
  due j [] cs = []
  due j (r ∷ rs) cs =
      if height_of s r == j then only (is_finished n own cs) (results_of r s) else due j rs cs

  due_none : (j : ℕ) (rs : List Ref) (cs : List ℕ) → has j (heights s rs) ≡ false → due j rs cs ≡ []
  unfolding has
  due_none j [] cs e = refl
  due_none j (r ∷ rs) cs e = ground (arith, due_none j rs cs)

  due_at :
      (j : ℕ) (rs : List Ref) (cs : List ℕ)
      → has j (heights s rs) ≡ true
      → due j rs cs ≡ only (is_finished n own cs) (results_of (block_at s j rs) s)
  unfolding has
  due_at j [] cs e = cc
  due_at j (r ∷ rs) cs e = elim (Bool-cases (height_of s r == j)) [
    | inl here ↦ rw here refl
    | inr other ↦ rw other (due_at j rs cs (ground (arith, e, other)))
  ]

  -- A commit adds what is due for its height.
  pub due_commits :
      (j : ℕ) (r : Ref) (rs : List Ref) (ms : List Message)
      → has (height_of s r) (heights s rs) ≡ false
      → due j rs (heard j ms)
          ++ only
              (height_of s r == j)
              (only (is_finished n own (heard (height_of s r) ms)) (results_of r s))
        ≡ due j (r ∷ rs) (heard j ms)
  due_commits j r rs ms fresh = elim (Bool-cases (height_of s r == j)) [
    | inl here ↦
        let at = (==_iff (height_of s r) j).0 here in
        rw here (
          ap (λ fs. fs ++ only (is_finished n own (heard (height_of s r) ms)) (results_of r s))
            (due_none j rs (heard j ms) (subst (λ i. has i (heights s rs) ≡ false) at fresh))
          ∙ ap (λ i. only (is_finished n own (heard i ms)) (results_of r s)) at)
    | inr other ↦ rw other (append-nil (due j rs (heard j ms)))
  ]

  only_later :
      (a b : Bool) (fs : List Finality)
      → (a ≡ true → b ≡ true)
      → only a fs ++ only (not a && b) fs ≡ only b fs
  only_later true true fs h = append-nil fs
  only_later true false fs h = absurd (clash (h refl))
    where
      clash : false ≡ true → ⊥
      clash e = cc
  only_later false b fs h = refl

  -- A confirmation adds what is due for its height, if that is committed and was not finished.
  due_here :
      (m : Message) (rs : List Ref) (ms : List Message)
      → due m.height rs (heard m.height ms)
          ++ only
              (not (is_finished n own (heard m.height ms))
                && is_finished n own (m.cluster ∷ heard m.height ms))
              (only (has m.height (heights s rs)) (results_of (block_at s m.height rs) s))
        ≡ due m.height rs (m.cluster ∷ heard m.height ms)
  due_here m rs ms = elim (Bool-cases (has m.height (heights s rs))) [
    | inl there ↦ rw there (
        rw (due_at m.height rs (heard m.height ms) there) (
          rw (due_at m.height rs (m.cluster ∷ heard m.height ms) there) (
            only_later (is_finished n own (heard m.height ms)) _ _
              (is_finished_more n own m.cluster (heard m.height ms)))))
    | inr absent ↦ rw absent (
        rw (due_none m.height rs (heard m.height ms) absent)
          (rw (due_none m.height rs (m.cluster ∷ heard m.height ms) absent) (no_results _ [])))
  ]

  pub due_confirms :
      (j : ℕ) (m : Message) (rs : List Ref) (ms : List Message)
      → due j rs (heard j ms)
          ++ only (m.height == j) (
              only
                (not (is_finished n own (heard m.height ms))
                  && is_finished n own (heard m.height (m ∷ ms)))
                (only (has m.height (heights s rs)) (results_of (block_at s m.height rs) s)))
        ≡ due j rs (heard j (m ∷ ms))
  due_confirms j m rs ms = elim (Bool-cases (m.height == j)) [
    | inl here ↦
        subst
          (λ i.
            due i rs (heard i ms)
              ++ only (m.height == i) (
                  only
                    (not (is_finished n own (heard m.height ms))
                      && is_finished n own (heard m.height (m ∷ ms)))
                    (only (has m.height (heights s rs)) (results_of (block_at s m.height rs) s)))
            ≡ due i rs (heard i (m ∷ ms)))
          ((==_iff m.height j).0 here) (rw ((==_iff m.height m.height).1 refl) (due_here m rs ms))
    | inr other ↦ rw other (append-nil (due j rs (heard j ms)))
  ]
