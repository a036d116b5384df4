-- ===== src/Tests.antt =====
-- Concrete replicas on which the definitions are run and the theorems applied.
pub mod Ancestors
pub mod Runs
pub mod Parts
pub mod Store
pub mod Votes
pub mod Others
pub mod Quorums
pub mod Pace
pub mod Complaints
pub mod Deliveries
pub mod Reconfigs
pub mod Wires
pub mod Desks
pub mod Fetches
pub mod Executions
pub mod Relays
pub mod Routes
pub mod Clocks
use ava_hotstuff.Prelude.{
  ℕ, zero, suc, ◌+◌, ◌*◌, Bool, true, false, Option, none, some, List, [], ◌∷◌, ◌==◌,
}
use ava_hotstuff.Prelude.Int.{pos}
use ava_hotstuff.Exec.{Outcome, returns, throws, fault, endless}
use ava_hotstuff.Entity.Config.{ReplicaInfo, ReplicaConfig}
use ava_hotstuff.Entity.Block.{Ref, Block, Heap, blank, genesis}
use ava_hotstuff.Entity.Storage.{EntityStorage, empty_storage}
use ava_hotstuff.Crypto.{Scheme, QuorumCert, dummy, secp256k1}
use ava_hotstuff.Core.State.{Core, State, Hooks, Event}

-- A signature of `h` is `h + 7`, whatever the key; a block's hash is made of its height and commands.
abbrev pub scheme : Scheme
scheme = record { sign = λ h. h + 7; verify = λ key h sig. sig == h + 7 }

abbrev pub hash_block : Block → ℕ
hash_block b = elim b.cmds [ [] ↦ 100 + b.height | c ∷ _ ↦ 100 + b.height + 1000 * c ]

-- A derived class that has no state of its own, where the last proposer leads.
abbrev pub hooks : Hooks (Unit {0})
hooks = record {
  scheme = scheme;
  get_hash = hash_block;
  handle = λ e b. b;
  get_leave_set = λ b. ((0, []), b);
  check_leader = λ b. true;
  did_receive_mc = λ h b. true;
  beat_resp = λ last b. last;
}

abbrev pub info : ℕ → ReplicaInfo
info i = record { id = i; peer_id = 50 + i; pubkey = 70 + i }

abbrev pub four : ReplicaConfig
four = record {
  replica_map = (0, info 0) ∷ (1, info 1) ∷ (2, info 2) ∷ (3, info 3) ∷ [];
  nreplicas = 4;
  nmajority = 3;
}

-- Blocks at heights 1 to 4, each on the one before and certifying it, and a fork at height 2.
abbrev pub on_top : ℕ → Ref → Block
on_top h p = record blank {
  parents = p ∷ [];
  qc_ref = some p;
  qc = some (dummy (100 + p));
  height = h;
  hash = 100 + h;
  delivered = true;
  cmds = h ∷ [];
  keys = pos 5 ∷ [];
  vals = pos 6 ∷ [];
}

abbrev pub chain : Heap
chain zero = genesis 100
chain (suc zero) = on_top 1 0
chain (suc (suc zero)) = on_top 2 1
chain (suc (suc (suc zero))) = on_top 3 2
chain (suc (suc (suc (suc zero)))) = on_top 4 3
chain (suc (suc (suc (suc (suc zero))))) = on_top 2 0
chain _ = blank

-- A replica that holds them and has voted up to height 3.
abbrev pub holding : Heap → State (Unit {0})
holding heap = record {
  core = record {
    heap = heap;
    next = 6;
    b0 = 0;
    hqc = some (2, dummy 102);
    b_lock = 1;
    b_exec = 0;
    vheight = 3;
    cluster_id = 1;
    tails = 4 ∷ [];
    config = four;
    qc_waiting = [];
    vote_disabled = false;
    id = 2;
    storage = record empty_storage {
      blk_cache = (100, 0) ∷ (101, 1) ∷ (102, 2) ∷ (103, 3) ∷ (104, 4) ∷ [];
    };
    trace = [];
  };
  base = tt;
}

abbrev pub after : {A : Type 0} → Outcome (State (Unit {0})) A → State (Unit {0})
after (returns a s) = s
after (throws e s) = s
after fault = holding chain
after endless = holding chain
