-- ===== src/Core/Receive.antt =====
-- src/consensus.cpp, `on_receive_proposal`: catching up with the proposal, the opinion on it, and the
-- vote.
use ava_hotstuff.Prelude.{
  ℕ, suc, Bool, true, false, Option, none, some, ltb, ◌==◌, ◌&&◌, not, if◌then◌else◌,
}
use ava_hotstuff.Exec.{Exec, pure, crash, stuck, gets, modify, ◌>>=◌, ◌>>◌}
use ava_hotstuff.Entity.Config.{ReplicaId, Hash}
use ava_hotstuff.Entity.Block.{Ref, Heap}
use ava_hotstuff.Crypto.{Scheme, create_part_cert}
use ava_hotstuff.Core.Messages.{Proposal, Vote}
use ava_hotstuff.Core.State.{State, Hooks, on_core, load, store, emit, proposal_received}
use ava_hotstuff.Core.Climb.{climb, Walk, reached, no_parent, no_rounds}
use ava_hotstuff.Core.Deliver.{sanity_check_delivered}
use ava_hotstuff.Core.Update.{update}
use ava_hotstuff.Core.Vote.{on_qc_finish, do_vote}

-- The block's certificate is for a block above the lock.
unfoldable pub qc_above_lock : Heap → Ref → Option Ref → Bool
qc_above_lock heap lock none = false
qc_above_lock heap lock (some q) = ltb (heap lock).height (heap q).height

-- `Vote(id, blk_hash, create_part_cert(*priv_key, blk_hash), this)`
abbrev pub signed_vote : Scheme → ReplicaId → Hash → Vote
signed_vote scheme id h = record { voter = id; blk_hash = h; cert = create_part_cert scheme h }

module _ {B : Type 0} where
  unfoldable pub raise_vheight : ℕ → Exec (State B) Bool
  raise_vheight h = do modify (on_core λ c. record c { vheight = h }); pure true

  -- What the walk from the new block down to the height of the lock found.
  unfoldable pub extends_lock : ℕ → Ref → Walk → Exec (State B) Bool
  unfolding raise_vheight
  extends_lock h lock no_parent = crash
  extends_lock h lock no_rounds = stuck
  extends_lock h lock (reached path last) = if last == lock then raise_vheight h else pure false

  -- The opinion on a block, and the new `vheight`.
  unfoldable pub accept : Ref → Exec (State B) Bool
  unfolding extends_lock climb qc_above_lock load
  accept bnew = do
    c ← gets λ s. s.core
    let b = c.heap bnew
    if ltb c.vheight b.height
        then if qc_above_lock c.heap c.b_lock b.qc_ref
          then raise_vheight b.height
          else extends_lock b.height c.b_lock
              (climb c.heap (c.heap c.b_lock).height (suc b.height) bnew)
        else pure false

module _ {B : Type 0} (hooks : Hooks B) where
  unfoldable pub catch_up : Bool → Ref → Exec (State B) (Unit {0})
  unfolding sanity_check_delivered update
  catch_up true bnew = pure tt
  catch_up false bnew = do sanity_check_delivered bnew; update hooks bnew

  unfoldable pub finish_referred : Bool → Option Ref → Exec (State B) (Unit {0})
  unfolding on_qc_finish
  finish_referred false (some q) = on_qc_finish hooks q
  finish_referred false none = pure tt
  finish_referred true q = pure tt

  unfoldable pub cast_vote : ReplicaId → Ref → Exec (State B) (Unit {0})
  unfolding create_part_cert do_vote
  cast_vote proposer bnew = do
    b ← load bnew
    id ← gets λ s. s.core.id
    do_vote hooks proposer (signed_vote hooks.scheme id b.hash) b.height

  -- What follows the opinion; `self` tells the replica's own proposal.
  unfoldable pub after_opinion : Proposal → Bool → Bool → Exec (State B) (Unit {0})
  unfolding finish_referred cast_vote
  after_opinion prop self opinion = do
    b ← load prop.blk
    finish_referred self b.qc_ref
    emit hooks (proposal_received prop)
    disabled ← gets λ s. s.core.vote_disabled
    if opinion && not disabled then cast_vote prop.proposer prop.blk else pure tt

  unfoldable pub on_receive_proposal : Proposal → Exec (State B) (Unit {0})
  unfolding catch_up accept after_opinion load store emit
  on_receive_proposal prop = do
    id ← gets λ s. s.core.id
    let self = prop.proposer == id
    catch_up self prop.blk
    opinion ← accept prop.blk
    after_opinion prop self opinion
