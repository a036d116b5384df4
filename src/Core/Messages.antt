-- ===== src/Core/Messages.antt =====
-- include/hotstuff/consensus.h, the messages. Fields that a constructor leaves uninitialised are
-- `none`. An `int` that serves as a name (a node, a cluster, a cid) is kept as its 32-bit pattern.
use ava_hotstuff.Prelude.{ℕ, ◌^◌, ◌-◌, Option, none, some, List, []}
use ava_hotstuff.Entity.Config.{ReplicaId, Hash}
use ava_hotstuff.Entity.Block.{Ref}
use ava_hotstuff.Crypto.{PartCert}

pub record Proposal : Type 0 where
  pub proposer : ReplicaId
  pub blk : Ref
  pub cluster_number : Option ℕ
  pub pre_amp_cluster_number : Option ℕ
  pub other_cluster_block_height : ℕ
  pub msg_type : Option ℕ
  pub current_peer_set : List ℕ
  pub reconfig_count : Option ℕ

-- `Proposal(proposer, blk, hsc)`: the height of the other cluster's block is -1.
abbrev pub plain_proposal : ReplicaId → Ref → Proposal
plain_proposal proposer blk = record {
  proposer = proposer;
  blk = blk;
  cluster_number = none;
  pre_amp_cluster_number = none;
  other_cluster_block_height = 2 ^ 32 - 1;
  msg_type = none;
  current_peer_set = [];
  reconfig_count = none;
}

-- `Proposal(proposer, blk, hsc, c, pre_amp, oc_h, msg_type)`
abbrev pub amplified_proposal : ReplicaId → Ref → ℕ → ℕ → ℕ → ℕ → Proposal
amplified_proposal proposer blk c pre_amp oc_h msg_type = record {
  proposer = proposer;
  blk = blk;
  cluster_number = some c;
  pre_amp_cluster_number = some pre_amp;
  other_cluster_block_height = oc_h;
  msg_type = some msg_type;
  current_peer_set = [];
  reconfig_count = none;
}

-- `Proposal(proposer, blk, hsc, c, pre_amp, oc_h, msg_type, current_peer_set, reconfig_count)`
abbrev pub cluster_proposal : ReplicaId → Ref → ℕ → ℕ → ℕ → ℕ → List ℕ → ℕ → Proposal
cluster_proposal proposer blk c pre_amp oc_h msg_type peers count =
    record (amplified_proposal proposer blk c pre_amp oc_h msg_type) {
      current_peer_set = peers;
      reconfig_count = some count;
    }

pub record Vote : Type 0 where
  pub voter : ReplicaId
  pub blk_hash : Hash
  pub cert : PartCert

-- `LComplain` and `RComplain`
pub record Complain : Type 0 where
  pub voter : ReplicaId
  pub blk_height : ℕ
  pub blk_hash : Hash
  pub cert : PartCert

pub record Finality : Type 0 where
  pub rid : ReplicaId
  pub decision : ℕ
  pub cmd_idx : ℕ
  pub cmd_height : ℕ
  pub cmd_hash : Hash
  pub blk_hash : Hash

abbrev pub finality : ReplicaId → ℕ → ℕ → ℕ → Hash → Hash → Finality
finality rid decision idx height cmd blk = record {
  rid = rid;
  decision = decision;
  cmd_idx = idx;
  cmd_height = height;
  cmd_hash = cmd;
  blk_hash = blk;
}

-- `recs`: a request of a node to join (mode 0) or to leave (mode 1) its cluster.
pub record Recs : Type 0 where
  pub cluster_number : ℕ
  pub node_number : ℕ
  pub reconfig_mode : ℕ
