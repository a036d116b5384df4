-- ===== src/Wire/Messages.antt =====
-- The messages as bytes: `serialize` and `unserialize` of include/hotstuff/consensus.h, and the
-- constructors and `postponed_parse` methods of src/hotstuff.cpp. A proposal is read with its block
-- beside it, which `add_blk` then stores, except for the message type 9.
pub mod Back
pub mod Proposals
use ava_hotstuff.Prelude.{
  ℕ, zero, suc, Option, none, some, List, [], ◌∷◌, ◌++◌, length, ◌==◌, if◌then◌else◌, insert,
}
use ava_hotstuff.Entity.Config.{ReplicaId, Hash}
use ava_hotstuff.Entity.Block.{Ref, Block}
use ava_hotstuff.Core.State.{Core}
use ava_hotstuff.Core.Messages.{Proposal, Vote, Complain, Finality, Recs}
use ava_hotstuff.Core.Propose.{add_new}
use ava_hotstuff.Wire.{Bytes, Reader, Stream}
use ava_hotstuff.Wire.Readers.{done, ◌>>=◌, feed, put_each, get_each, put_count, get_count, prepend}
use ava_hotstuff.Wire.Certs.{CertType, put_part_cert, get_part_cert}
use ava_hotstuff.Wire.Blocks.{put_block, get_block}

-- `MsgRecsAggEchoReady`
pub record RecsPhase : Type 0 where
  pub recs : Recs
  pub type : ℕ
  pub reconfig_count : ℕ

-- The proposal that is read, before its block is stored.
pub record Received : Type 0 where
  pub proposer : ReplicaId
  pub block : Block
  pub cluster_number : ℕ
  pub pre_amp_cluster_number : ℕ
  pub other_cluster_block_height : ℕ
  pub msg_type : ℕ
  pub current_peer_set : List ℕ
  pub reconfig_count : ℕ

-- `current_peer_set.clear()`, and an `insert` for each element
unfoldable pub insert_each : List ℕ → List ℕ → List ℕ
unfolding insert
insert_each [] set = set
insert_each (x ∷ xs) set = insert_each xs (insert x set)

module _ (st : Stream) where
  unfoldable pub put_vote : Vote → Bytes
  unfolding put_part_cert
  put_vote v = st.u16.put v.voter ++ (st.hash.put v.blk_hash ++ put_part_cert st v.cert)

  unfoldable pub get_vote : Reader Vote
  unfolding ◌>>=◌ get_part_cert done
  get_vote = do
    i ← st.u16.get
    h ← st.hash.get
    c ← get_part_cert st
    done (record { voter = i; blk_hash = h; cert = c })

  -- `LComplain` and `RComplain`
  unfoldable pub put_complain : Complain → Bytes
  unfolding put_part_cert
  put_complain v =
      st.u16.put v.voter
      ++ (st.u32.put v.blk_height ++ (st.hash.put v.blk_hash ++ put_part_cert st v.cert))

  unfoldable pub get_complain : Reader Complain
  unfolding ◌>>=◌ get_part_cert done
  get_complain = do
    i ← st.u16.get
    n ← st.u32.get
    h ← st.hash.get
    c ← get_part_cert st
    done (record { voter = i; blk_height = n; blk_hash = h; cert = c })

  unfoldable pub put_recs : Recs → Bytes
  put_recs r =
      st.u32.put r.cluster_number ++ (st.u32.put r.node_number ++ st.u32.put r.reconfig_mode)

  unfoldable pub get_recs : Reader Recs
  unfolding ◌>>=◌ done
  get_recs = do
    c ← st.u32.get
    n ← st.u32.get
    m ← st.u32.get
    done (record { cluster_number = c; node_number = n; reconfig_mode = m })

  unfoldable pub put_recs_phase : RecsPhase → Bytes
  unfolding put_recs
  put_recs_phase m = put_recs m.recs ++ (st.u32.put m.type ++ st.u32.put m.reconfig_count)

  unfoldable pub get_recs_phase : Reader RecsPhase
  unfolding ◌>>=◌ done get_recs
  get_recs_phase = do
    r ← get_recs
    t ← st.u32.get
    n ← st.u32.get
    done (record { recs = r; type = t; reconfig_count = n })

  -- The hash of the block is there if the decision is 1.
  unfoldable pub put_blk_hash : Finality → Bytes
  put_blk_hash f = if f.decision == 1 then st.hash.put f.blk_hash else []

  unfoldable pub put_finality : Finality → Bytes
  unfolding put_blk_hash
  put_finality f =
      st.u16.put f.rid
      ++ (st.u8.put f.decision
          ++ (st.u32.put f.cmd_idx
              ++ (st.u32.put f.cmd_height ++ (st.hash.put f.cmd_hash ++ put_blk_hash f))))

  -- `old` is what `blk_hash` held before.
  unfoldable pub get_blk_hash : Hash → ℕ → Reader Hash
  unfolding done
  get_blk_hash old decision = if decision == 1 then st.hash.get else done old

  unfoldable pub get_finality : Hash → Reader Finality
  unfolding ◌>>=◌ done get_blk_hash
  get_finality old = do
    i ← st.u16.get
    d ← st.u8.get
    k ← st.u32.get
    n ← st.u32.get
    c ← st.hash.get
    h ← get_blk_hash old d
    done (record { rid = i; decision = d; cmd_idx = k; cmd_height = n; cmd_hash = c; blk_hash = h })

  -- `MsgReqBlock`
  unfoldable pub put_req_block : List Hash → Bytes
  unfolding put_count put_each
  put_req_block hs = put_count st (length hs) ++ put_each st.hash hs

  unfoldable pub get_req_block : Reader (List Hash)
  unfolding ◌>>=◌ done get_count get_each
  get_req_block = do n ← get_count st; get_each st.hash n

  -- The proposal with its numbers and the bytes of its block.
  unfoldable pub put_proposal_with : Proposal → ℕ → ℕ → ℕ → ℕ → Option Bytes → Option Bytes
  unfolding put_each
  put_proposal_with p c a t n none = none
  put_proposal_with p c a t n (some block) = some (
      st.u32.put c
      ++ (st.u32.put a
          ++ (st.u32.put p.other_cluster_block_height
              ++ (st.u32.put t
                  ++ (st.u16.put p.proposer
                      ++ (block
                          ++ (st.size.put (length p.current_peer_set)
                              ++ (put_each st.u32 p.current_peer_set ++ st.u32.put n))))))))

  -- `Proposal::serialize`: fields that a constructor has left without a value cannot be written.
  unfoldable pub put_proposal : (Ref → Block) → Proposal → Option Bytes
  unfolding put_proposal_with put_block
  put_proposal heap p = elim p.cluster_number [
    | none ↦ none
    | some c ↦ elim p.pre_amp_cluster_number [
      | none ↦ none
      | some a ↦ elim p.msg_type [
        | none ↦ none
        | some t ↦ elim p.reconfig_count [
          | none ↦ none
          | some n ↦ put_proposal_with p c a t n (put_block st (heap p.blk))
        ]
      ]
    ]
  ]

  -- `Proposal::unserialize`, up to the storing of the block.
  unfoldable pub get_proposal : CertType → Reader Received
  unfolding ◌>>=◌ done get_block get_each insert_each
  get_proposal ty = do
    c ← st.u32.get
    a ← st.u32.get
    h ← st.u32.get
    t ← st.u32.get
    i ← st.u16.get
    b ← get_block st ty
    k ← st.size.get
    peers ← get_each st.u32 k
    n ← st.u32.get
    done (record {
      proposer = i;
      block = b;
      cluster_number = c;
      pre_amp_cluster_number = a;
      other_cluster_block_height = h;
      msg_type = t;
      current_peer_set = insert_each peers [];
      reconfig_count = n;
    })

-- The block is stored, if one with its hash is not there yet; the message of type 9 has a null block.
unfoldable pub store_received : Received → Core → Option Ref × Core
unfolding add_new
store_received p c =
    if p.msg_type == 9 then (none, c) else (let (r, c') = add_new p.block c in (some r, c'))
