-- ===== src/Entity/Block.antt =====
-- include/hotstuff/entity.h, `Block`. Blocks are shared by pointer (`block_t`) and mutated, so they
-- live on a heap: a reference is a number, and two references are equal when the pointers are. The
-- keys and values of the commands are C++ `int`s; heights are `uint32_t`.
use ava_hotstuff.Prelude.{
  ℕ, ◌+◌, ◌%◌, ◌^◌, Bool, true, false, Option, none, some, List, [], ◌==◌, if◌then◌else◌,
}
use ava_hotstuff.Prelude.Int.{ℤ}
use ava_hotstuff.Entity.Config.{ReplicaId, Hash}
use ava_hotstuff.Crypto.{QuorumCert, dummy}

abbrev pub Ref : Type 0
Ref = ℕ

pub record Block : Type 0 where
  pub parent_hashes : List Hash
  pub cmds : List Hash
  pub keys : List ℤ
  pub vals : List ℤ
  pub lcomplains : List ReplicaId
  pub rcomplains : List ReplicaId
  pub qc : Option QuorumCert
  pub extra : List ℕ
  pub hash : Hash
  pub parents : List Ref
  pub qc_ref : Option Ref
  pub self_qc : Option QuorumCert
  pub height : ℕ
  pub delivered : Bool
  pub decision : ℕ
  pub voted : List ReplicaId

-- `Block()`
abbrev pub blank : Block
blank = record {
  parent_hashes = [];
  cmds = [];
  keys = [];
  vals = [];
  lcomplains = [];
  rcomplains = [];
  qc = none;
  extra = [];
  hash = 0;
  parents = [];
  qc_ref = none;
  self_qc = none;
  height = 0;
  delivered = false;
  decision = 0;
  voted = [];
}

-- `Block(delivered, decision)`: the genesis block, with the hash of its bytes.
abbrev pub genesis : Hash → Block
genesis h = record blank { qc = some (dummy 0); hash = h; delivered = true; decision = 1 }

-- `Block(parents, cmds, keys, vals, qc, extra, height, qc_ref, self_qc)`: a new block; the hash is
-- that of its bytes.
abbrev pub proposed :
    List Hash → List Ref → List Hash → List ℤ → List ℤ → QuorumCert → List ℕ → ℕ → Ref → Block
proposed hashes parents cmds keys vals qc extra height qc_ref = record blank {
  parent_hashes = hashes;
  parents = parents;
  cmds = cmds;
  keys = keys;
  vals = vals;
  qc = some qc;
  extra = extra;
  height = height;
  qc_ref = some qc_ref;
}

-- `height + 1` in a `uint32_t`.
unfoldable pub next_height : ℕ → ℕ
next_height h = (h + 1) % 2 ^ 32

abbrev pub Heap : Type 0
Heap = Ref → Block

unfoldable pub write : Heap → Ref → Block → Heap
write heap r b p = if p == r then b else heap p
