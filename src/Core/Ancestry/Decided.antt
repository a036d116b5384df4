-- ===== src/Core/Ancestry/Decided.antt =====
-- The decisions of `HotStuffCore` that climb to a parent, in every run from its start on.
use ava_hotstuff.Prelude.{ℕ, ◌^◌, ◌<◌, ◌≡◌, ◌⊎◌, true, some, List, length}
use ava_hotstuff.Exec.Returns.{Ends}
use ava_hotstuff.Entity.Config.{ReplicaId, ReplicaInfo}
use ava_hotstuff.Entity.Block.{Ref}
use ava_hotstuff.Core.State.{State, Hooks}
use ava_hotstuff.Core.Receive.{accept}
use ava_hotstuff.Core.Run.{Call, run_calls}
use ava_hotstuff.Core.Ancestry.Climbing.{Decides, accept-Decides}
use ava_hotstuff.Core.Ancestry.Commit.{CommitsPath, Conflicts, commit_grounded}
use ava_hotstuff.Core.Ancestry.Run.{AreParsed, started, run_calls-IsGrounded}

module _ {B : Type 0} (hooks : Hooks B) where
  -- After every run from the start of a replica of fewer than 2^32 calls, exceptions included, in which
  -- the blocks that are parsed are not delivered: the opinion on a delivered block comes to an end; it
  -- is good, and `vheight` becomes the block's height, if the block is above `vheight` and carries a
  -- certificate above the lock or extends the locked block; otherwise it is bad, and nothing changes.
  pub run_calls-accept :
      (id : ReplicaId) (cluster npeers : ℕ) (infos : List ReplicaInfo) (base : B)
      (calls : List Call) (t : State B) (r : Ref)
      → AreParsed calls
      → length calls < 2 ^ 32
      → run_calls hooks calls (started hooks id cluster npeers infos base) ≡ some t
      → (t.core.heap r).delivered ≡ true
      → Ends (Decides t r) (accept r t)
  run_calls-accept id cluster npeers infos base calls t r parsed low run =
      accept-Decides t r (length calls)
        (run_calls-IsGrounded hooks id cluster npeers infos base calls t parsed low run)

  -- After every run from the start of a replica of fewer than 2^32 calls, exceptions included, in which
  -- the blocks that are parsed are not delivered: the commit of a delivered block finds the last
  -- executed block among its first ancestors and commits the blocks down to it, lowest first; or they
  -- lead to another block that is not higher, and it throws the exception of a safety breach and
  -- changes nothing.
  pub run_calls-commit :
      (id : ReplicaId) (cluster npeers : ℕ) (infos : List ReplicaInfo) (base : B)
      (calls : List Call) (t : State B) (r : Ref)
      → AreParsed calls
      → length calls < 2 ^ 32
      → run_calls hooks calls (started hooks id cluster npeers infos base) ≡ some t
      → (t.core.heap r).delivered ≡ true
      → CommitsPath hooks t r ⊎ Conflicts hooks t r
  run_calls-commit id cluster npeers infos base calls t r parsed low run =
      commit_grounded hooks t r (length calls)
        (run_calls-IsGrounded hooks id cluster npeers infos base calls t parsed low run)
