-- ===== src/Core/Complain.antt =====
-- src/consensus.cpp, `start_local_complain`, `on_receive_LComplain` and `on_receive_RComplain`:
-- complaints about a block that another cluster has not confirmed. A majority of local complaints
-- makes a remote one, and the first remote complaint about a block is spread in the cluster.
pub mod Majority
use ava_hotstuff.Prelude.{ℕ, ◌+◌, leb, ltb, ◌==◌, has, insert, length, if◌then◌else◌}
use ava_hotstuff.Exec.{Exec, pure, gets, ◌>>=◌, ◌>>◌}
use ava_hotstuff.Entity.Config.{ReplicaId, Hash}
use ava_hotstuff.Entity.Block.{Ref}
use ava_hotstuff.Crypto.{Scheme, create_part_cert}
use ava_hotstuff.Core.Messages.{Complain}
use ava_hotstuff.Core.State.{
  State, Hooks, load, store, emit, send_lcomplain, send_rcomplain, send_rcomplain_local,
}
use ava_hotstuff.Core.Deliver.{get_delivered_blk}

-- `LComplain(id, height, blk_hash, create_part_cert(*priv_key, blk_hash), this)`; `RComplain` alike.
abbrev pub signed_complain : Scheme → ReplicaId → ℕ → Hash → Complain
signed_complain scheme id height h = record {
  voter = id;
  blk_height = height;
  blk_hash = h;
  cert = create_part_cert scheme h;
}

module _ {B : Type 0} (hooks : Hooks B) where
  unfoldable pub add_lcomplain : Ref → ReplicaId → Exec (State B) (Unit {0})
  unfolding insert
  add_lcomplain r voter = do
    b ← load r
    store r (record b { lcomplains = insert voter b.lcomplains })

  unfoldable pub add_rcomplain : Ref → ReplicaId → Exec (State B) (Unit {0})
  unfolding insert
  add_rcomplain r voter = do
    b ← load r
    store r (record b { rcomplains = insert voter b.rcomplains })

  -- A complaint of a replica that has not complained yet; `qsize` had complained before.
  unfoldable pub count_lcomplain : Ref → Complain → ℕ → Exec (State B) (Unit {0})
  unfolding create_part_cert add_lcomplain
  count_lcomplain r v qsize = do
    add_lcomplain r v.voter
    c ← gets λ s. s.core
    if qsize + 1 == c.config.nmajority
        then emit hooks (send_rcomplain (signed_complain hooks.scheme c.id v.blk_height v.blk_hash))
        else pure tt

  unfoldable pub on_receive_lcomplain : Complain → Exec (State B) (Unit {0})
  unfolding count_lcomplain get_delivered_blk load store emit
  on_receive_lcomplain v = do
    r ← get_delivered_blk v.blk_hash
    b ← load r
    config ← gets λ s. s.core.config
    if ltb config.nmajority (length b.lcomplains)
        then pure tt
        else if has v.voter b.lcomplains
        then pure tt
        else count_lcomplain r v (length b.lcomplains)

  unfoldable pub start_local_complain : ℕ → Hash → Exec (State B) (Unit {0})
  unfolding on_receive_lcomplain
  start_local_complain height h = do
    id ← gets λ s. s.core.id
    emit hooks (send_lcomplain (signed_complain hooks.scheme id height h))
    on_receive_lcomplain (signed_complain hooks.scheme id height h)

  unfoldable pub on_receive_rcomplain : Complain → Exec (State B) (Unit {0})
  unfolding get_delivered_blk load store emit add_rcomplain
  on_receive_rcomplain v = do
    r ← get_delivered_blk v.blk_hash
    b ← load r
    if leb 1 (length b.rcomplains)
        then pure tt
        else if has v.voter b.rcomplains
        then pure tt
        else (do add_rcomplain r v.voter; emit hooks (send_rcomplain_local v))
