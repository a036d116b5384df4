-- ===== src/Core/Update.antt =====
-- src/consensus.cpp, `update_hqc` and `update` in the three-step build: from a new block the
-- references of the certificates lead back over three blocks. They raise the highest certificate and
-- the lock, and commit the third where the three are a chain of parents.
use ava_hotstuff.Prelude.{
  ℕ, suc, ◌+◌, ◌-◌, ◌^◌, Option, none, some, List, [], ◌∷◌, ltb, ◌==◌, ◌&&◌, not, reverse,
  if◌then◌else◌,
}
use ava_hotstuff.Prelude.Int.{ℤ}
use ava_hotstuff.Exec.{
  Exec, safety_breached, pure, throw, crash, stuck, gets, run, modify, ◌>>=◌, ◌>>◌,
}
use ava_hotstuff.Entity.Config.{Hash}
use ava_hotstuff.Entity.Block.{Ref, Block}
use ava_hotstuff.Crypto.{QuorumCert}
use ava_hotstuff.Core.Messages.{cluster_proposal, finality}
use ava_hotstuff.Core.State.{
  State, Hooks, on_core, load, store, deref, first, emit, hqc_updated, consensus, decide,
  broadcast_other_clusters, start_timer, reset_timer, finished_update,
}
use ava_hotstuff.Core.Climb.{climb, Walk, reached, no_parent, no_rounds}

module _ {B : Type 0} (hooks : Hooks B) where
  unfoldable pub update_hqc : Ref → Option QuorumCert → Exec (State B) (Unit {0})
  unfolding load deref emit
  update_hqc r qc = do
    b ← load r
    high ← gets λ s. s.core.hqc
    old ← deref high
    ob ← load old.0
    if ltb ob.height b.height
        then (do
          q ← deref qc
          modify (on_core λ c. record c { hqc = some (r, q) })
          emit hooks hqc_updated)
        else pure tt

  unfoldable pub raise_lock : Ref → Exec (State B) (Unit {0})
  raise_lock r = do
    b ← load r
    lock ← gets λ s. s.core.b_lock
    l ← load lock
    if ltb l.height b.height then modify (on_core λ c. record c { b_lock = r }) else pure tt

  -- The loop over the commands of a block that is decided.
  unfoldable pub decide_all : Block → ℕ → List Hash → List ℤ → List ℤ → Exec (State B) (Unit {0})
  decide_all b i [] keys vals = pure tt
  decide_all b i (cmd ∷ cmds) (k ∷ keys) (v ∷ vals) = do
    id ← gets λ s. s.core.id
    emit hooks (decide (finality id 1 i b.height cmd b.hash) k v)
    decide_all b (i + 1) cmds keys vals
  decide_all b i (cmd ∷ cmds) keys vals = crash

  unfoldable pub leave_set : Exec (State B) (ℕ × List ℕ)
  leave_set =
      run λ s. (let (l, base') = hooks.get_leave_set s.base in (l, record s { base = base' }))

  -- The message to the other clusters. The height is compared with -6000 as a `uint32_t`.
  unfoldable pub amplify : Ref → Block → Exec (State B) (Unit {0})
  unfolding leave_set
  amplify r b = do
    left ← leave_set
    leader ← gets λ s. hooks.check_leader s.base
    c ← gets λ s. s.core
    if leader && not (c.cluster_id == 0 && b.height == 2 ^ 32 - 6000)
        then emit hooks (
            broadcast_other_clusters
              (cluster_proposal c.id r c.cluster_id c.cluster_id b.height 1 left.1 left.0))
        else pure tt

  -- `blk->decision = 1`
  unfoldable pub mark_decided : Ref → Exec (State B) (Unit {0})
  mark_decided r = do b ← load r; store r (record b { decision = 1 })

  -- The body of the loop over the commit queue.
  unfoldable pub commit_one : Ref → Exec (State B) (Unit {0})
  unfolding mark_decided decide_all amplify
  commit_one r = do
    mark_decided r
    b ← load r
    emit hooks (consensus r)
    amplify r b
    emit hooks (start_timer b.height r)
    emit hooks (finished_update b.height)
    received ← gets λ s. hooks.did_receive_mc b.height s.base
    if received
        then (do decide_all b 0 b.cmds b.keys b.vals; emit hooks (reset_timer b.height))
        else pure tt

  unfoldable pub commit_all : List Ref → Exec (State B) (Unit {0})
  unfolding commit_one
  commit_all [] = pure tt
  commit_all (r ∷ rs) = do commit_one r; commit_all rs

  unfoldable pub set_exec : Ref → Exec (State B) (Unit {0})
  set_exec r = modify (on_core λ c. record c { b_exec = r })

  -- What the walk from the block to the last executed one found.
  unfoldable pub commit_walk : Ref → Ref → Walk → Exec (State B) (Unit {0})
  unfolding commit_all set_exec
  commit_walk r exec no_parent = crash
  commit_walk r exec no_rounds = stuck
  commit_walk r exec (reached queue last) =
      if last == exec then (do commit_all (reverse queue); set_exec r) else throw safety_breached

  unfoldable pub commit : Ref → Exec (State B) (Unit {0})
  unfolding commit_walk climb
  commit r = do
    c ← gets λ s. s.core
    commit_walk r c.b_exec (climb c.heap (c.heap c.b_exec).height (suc (c.heap r).height) r)

  -- `blk2` and `blk1` are to have the next block for their first parent.
  unfoldable pub commit_direct : Block → Ref → Block → Ref → Exec (State B) (Unit {0})
  unfolding commit first
  commit_direct b2 blk1 b1 blk = do
    p2 ← first b2.parents
    if p2 == blk1
        then (do p1 ← first b1.parents; if p1 == blk then commit blk else pure tt)
        else pure tt

  unfoldable pub update_blk : Block → Ref → Block → Option Ref → Exec (State B) (Unit {0})
  unfolding commit_direct
  update_blk b2 blk1 b1 none = pure tt
  update_blk b2 blk1 b1 (some blk) = do
    b ← load blk
    if b.decision == 0 then commit_direct b2 blk1 b1 blk else pure tt

  unfoldable pub update_blk1 : Block → Option Ref → Exec (State B) (Unit {0})
  unfolding raise_lock update_blk
  update_blk1 b2 none = pure tt
  update_blk1 b2 (some blk1) = do
    b1 ← load blk1
    if b1.decision == 0 then (do raise_lock blk1; update_blk b2 blk1 b1 b1.qc_ref) else pure tt

  unfoldable pub update_blk2 : Block → Option Ref → Exec (State B) (Unit {0})
  unfolding update_hqc update_blk1
  update_blk2 nb none = pure tt
  update_blk2 nb (some blk2) = do
    b2 ← load blk2
    if b2.decision == 0 then (do update_hqc blk2 nb.qc; update_blk1 b2 b2.qc_ref) else pure tt

  unfoldable pub update : Ref → Exec (State B) (Unit {0})
  unfolding update_blk2 load store emit
  update nblk = do nb ← load nblk; update_blk2 nb nb.qc_ref
