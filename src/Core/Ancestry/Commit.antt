-- ===== src/Core/Ancestry/Commit.antt =====
-- `commit` of src/consensus.cpp on a delivered block: the walk down to the last executed block ends.
use ava_hotstuff.Prelude.{
  ℕ, suc, ◌≡◌, ◌≢◌, refl, subst, ◌∙◌, ◌⊎◌, inl, inr, true, false, List, reverse, arith, ◌==◌,
  ==_iff, Bool-cases,
}
use ava_hotstuff.Exec.{safety_breached, throws, throw, ◌>>=◌}
use ava_hotstuff.Entity.Block.{Ref}
use ava_hotstuff.Core.State.{State, Hooks}
use ava_hotstuff.Core.Climb.{climb, reached, Climbs, climb_sound}
use ava_hotstuff.Core.Update.{commit, commit_walk, commit_all, set_exec}
use ava_hotstuff.Core.Ancestry.{IsGrounded}
use ava_hotstuff.Core.Ancestry.Climbing.{climb_grounded}

module _ {B : Type 0} (hooks : Hooks B) where
  -- The last executed block is an ancestor, and the blocks of the path are committed, lowest first.
  abbrev pub CommitsPath : State B → Ref → Type 0
  CommitsPath s r =
      (path : List Ref) × Climbs s.core.heap (s.core.heap s.core.b_exec).height r path s.core.b_exec
      × (commit hooks r s ≡ (commit_all hooks (reverse path) >>= λ _. set_exec hooks r) s)

  -- The parents lead to another block, and nothing is done.
  abbrev pub Conflicts : State B → Ref → Type 0
  Conflicts s r =
      (path : List Ref) × (last : Ref) × Climbs s.core.heap (s.core.heap s.core.b_exec).height r
        path last
      × (last ≢ s.core.b_exec)
      × (commit hooks r s ≡ throws safety_breached s)

  walk_commits :
      (s : State B) (r last : Ref) (path : List Ref)
      → Climbs s.core.heap (s.core.heap s.core.b_exec).height r path last
      → commit hooks r s ≡ commit_walk hooks r s.core.b_exec (reached path last) s
      → CommitsPath s r ⊎ Conflicts s r
  unfolding commit_walk throw
  walk_commits s r last path way e = elim (Bool-cases (last == s.core.b_exec)) [
    | inl same ↦ inl (
      path,
      subst (λ x. Climbs s.core.heap (s.core.heap s.core.b_exec).height r path x)
          ((==_iff last s.core.b_exec).0 same) way,
      e ∙ rw same refl,
    )
    | inr other ↦ inr (
      path,
      last,
      way,
      (λ at. differ ((==_iff last s.core.b_exec).1 at) other),
      e ∙ rw other refl,
    )
  ]
    where
      differ : (last == s.core.b_exec) ≡ true → (last == s.core.b_exec) ≡ false → ⊥
      differ f h = cc

  commit_walks :
      (s : State B) (r last : Ref) (path : List Ref)
      → climb s.core.heap (s.core.heap s.core.b_exec).height (suc (s.core.heap r).height) r
        ≡ reached path last
      → commit hooks r s ≡ commit_walk hooks r s.core.b_exec (reached path last) s
  unfolding commit ◌>>=◌
  commit_walks s r last path there = rw there refl

  -- The commit of a delivered block does one or the other.
  pub commit_grounded :
      (s : State B) (r : Ref) (n : ℕ)
      → IsGrounded n s.core
      → (s.core.heap r).delivered ≡ true
      → CommitsPath s r ⊎ Conflicts s r
  commit_grounded s r n g d =
      let limit = (s.core.heap s.core.b_exec).height in
      let rounds = suc (s.core.heap r).height in
      let (path, last, there) = climb_grounded n s.core g limit rounds r d (omega arith) in
      walk_commits s r last path (climb_sound s.core.heap limit rounds r path last there)
        (commit_walks s r last path there)
