-- ===== src/Core/Vote.antt =====
-- src/consensus.cpp, `on_receive_vote` and `on_qc_finish`; `do_vote` of src/hotstuff.cpp, which
-- hands a vote for oneself over at once. The `compute` of both kinds of certificate does nothing.
use ava_hotstuff.Prelude.{
  ℕ, ◌+◌, Option, none, some, leb, ◌==◌, has, insert, erase, length, if◌then◌else◌,
}
use ava_hotstuff.Exec.{Exec, pure, gets, modify, ◌>>=◌, ◌>>◌}
use ava_hotstuff.Entity.Config.{ReplicaId}
use ava_hotstuff.Entity.Block.{Ref}
use ava_hotstuff.Crypto.{QuorumCert, create_quorum_cert, add_part}
use ava_hotstuff.Core.Messages.{Vote}
use ava_hotstuff.Core.State.{State, Hooks, on_core, load, store, emit, qc_finished, vote}
use ava_hotstuff.Core.Deliver.{get_delivered_blk}
use ava_hotstuff.Core.Update.{update_hqc}

module _ {B : Type 0} (hooks : Hooks B) where
  unfoldable pub stop_waiting : Ref → Exec (State B) (Unit {0})
  unfolding erase
  stop_waiting r = modify (on_core λ c. record c { qc_waiting = erase r c.qc_waiting })

  -- The promise is resolved as an event. Its continuations, which the source runs at this point, are not
  -- part of the method.
  unfoldable pub on_qc_finish : Ref → Exec (State B) (Unit {0})
  unfolding has stop_waiting emit
  on_qc_finish r = do
    waiting ← gets λ s. s.core.qc_waiting
    if has r waiting then (do emit hooks (qc_finished r); stop_waiting r) else pure tt

  unfoldable pub store_self_qc : Ref → QuorumCert → Exec (State B) (Unit {0})
  store_self_qc r q = do b ← load r; store r (record b { self_qc = some q })

  -- `if (qc == nullptr) qc = create_quorum_cert(blk->get_hash())`
  unfoldable pub ensure_qc : Ref → Option QuorumCert → Exec (State B) QuorumCert
  unfolding create_quorum_cert store_self_qc
  ensure_qc r (some q) = pure q
  ensure_qc r none = do
    b ← load r
    config ← gets λ s. s.core.config
    let q = create_quorum_cert config b.hash
    store_self_qc r q
    pure q

  unfoldable pub add_vote : Ref → Vote → Exec (State B) QuorumCert
  unfolding ensure_qc add_part
  add_vote r v = do
    b ← load r
    q ← ensure_qc r b.self_qc
    q' ← add_part q v.voter v.cert
    store_self_qc r q'
    pure q'

  -- `blk->voted.insert(vote.voter)`
  unfoldable pub add_voter : Ref → ReplicaId → Exec (State B) (Unit {0})
  unfolding insert
  add_voter r voter = do b ← load r; store r (record b { voted = insert voter b.voted })

  -- A vote of a replica that has not voted for the block yet; `qsize` had voted before.
  unfoldable pub count_vote : Ref → Vote → ℕ → Exec (State B) (Unit {0})
  unfolding add_voter add_vote on_qc_finish update_hqc
  count_vote r v qsize = do
    add_voter r v.voter
    q ← add_vote r v
    config ← gets λ s. s.core.config
    if qsize + 1 == config.nmajority
        then (do update_hqc hooks r (some q); on_qc_finish r)
        else pure tt

  unfoldable pub on_receive_vote : Vote → Exec (State B) (Unit {0})
  unfolding count_vote get_delivered_blk load store
  on_receive_vote v = do
    r ← get_delivered_blk v.blk_hash
    b ← load r
    config ← gets λ s. s.core.config
    if leb config.nmajority (length b.voted)
        then pure tt
        else if has v.voter b.voted
        then pure tt
        else count_vote r v (length b.voted)

  unfoldable pub do_vote : ReplicaId → Vote → ℕ → Exec (State B) (Unit {0})
  unfolding on_receive_vote
  do_vote last_proposer v height = do
    emit hooks (vote last_proposer v height)
    proposer ← gets λ s. hooks.beat_resp last_proposer s.base
    id ← gets λ s. s.core.id
    if proposer == id then on_receive_vote v else pure tt
