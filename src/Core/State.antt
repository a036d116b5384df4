-- ===== src/Core/State.antt =====
-- include/hotstuff/consensus.h, `HotStuffCore`: its fields, its virtual methods, and the reads and
-- writes that its methods are made of. The class derived from it is a parameter: `B` is the state
-- that it adds, and `Hooks` the virtual methods, as changes of that state. A call of a virtual method
-- that returns nothing, and the resolution of a promise, is an `Event`; `trace` is a record of these
-- for the proofs, newest first. What a promise's continuation does is not run inside a method.
use ava_hotstuff.Prelude.{ℕ, Bool, false, Option, none, some, List, [], ◌∷◌}
use ava_hotstuff.Prelude.Int.{ℤ}
use ava_hotstuff.Exec.{Exec, pure, crash, gets, modify}
use ava_hotstuff.Entity.Config.{ReplicaId, Hash, ReplicaConfig, empty_config}
use ava_hotstuff.Entity.Block.{Ref, Block, Heap, blank, genesis, write}
use ava_hotstuff.Entity.Storage.{EntityStorage, empty_storage, add_blk}
use ava_hotstuff.Crypto.{QuorumCert, Scheme}
use ava_hotstuff.Core.Messages.{Proposal, Vote, Complain, Finality}

pub data Event : Type 0 where
  hqc_updated : Event
  qc_finished : Ref → Event
  proposed proposal_received : Proposal → Event
  consensus : Ref → Event
  decide : Finality → ℤ → ℤ → Event
  broadcast_proposal broadcast_other_clusters : Proposal → Event
  start_timer : ℕ → Ref → Event
  reset_timer finished_update : ℕ → Event
  -- `do_vote(last_proposer, vote)`, and the height of the block that is voted for
  vote : ReplicaId → Vote → ℕ → Event
  send_lcomplain send_rcomplain send_rcomplain_local : Complain → Event

pub record Core : Type 0 where
  pub heap : Heap
  pub next : Ref
  pub b0 : Ref
  pub hqc : Option (Ref × QuorumCert)
  pub b_lock : Ref
  pub b_exec : Ref
  pub vheight : ℕ
  pub cluster_id : ℕ
  pub tails : List Ref
  pub config : ReplicaConfig
  pub qc_waiting : List Ref
  pub vote_disabled : Bool
  pub id : ReplicaId
  pub storage : EntityStorage
  pub trace : List Event

pub record State (B : Type 0) : Type 0 where
  pub core : Core
  pub base : B

pub record Hooks (B : Type 0) : Type 0 where
  pub scheme : Scheme
  -- the hash of a block's bytes
  pub get_hash : Block → Hash
  -- the virtual methods with no result
  pub handle : Event → B → B
  pub get_leave_set : B → (ℕ × List ℕ) × B
  pub check_leader : B → Bool
  pub did_receive_mc : ℕ → B → Bool
  -- the proposer to whom `PaceMaker::beat_resp` sends the vote
  pub beat_resp : ReplicaId → B → ReplicaId

-- The constructor. Reference 0 is the genesis block.
unfoldable pub init_core : ReplicaId → ℕ → (Block → Hash) → Core
unfolding add_blk write
init_core id cluster_id get_hash =
    let b0 = genesis (get_hash blank) in
    record {
      heap = write (λ r. blank) 0 b0;
      next = 1;
      b0 = 0;
      hqc = none;
      b_lock = 0;
      b_exec = 0;
      vheight = 0;
      cluster_id = cluster_id;
      tails = 0 ∷ [];
      config = empty_config;
      qc_waiting = [];
      vote_disabled = false;
      id = id;
      storage = (add_blk empty_storage b0.hash 0).1;
      trace = [];
    }

unfoldable pub push_event : Event → Core → Core
push_event e c = record c { trace = e ∷ c.trace }

-- Each lifts a change of a part to a change of the whole.
module _ {B : Type 0} where
  abbrev pub on_core : (Core → Core) → State B → State B
  on_core f s = record s { core = f s.core }

  unfoldable pub load : Ref → Exec (State B) Block
  unfolding gets
  load r = gets λ s. s.core.heap r

  unfoldable pub store : Ref → Block → Exec (State B) (Unit {0})
  unfolding modify write
  store r b = modify (on_core λ c. record c { heap = write c.heap r b })

  -- A null pointer is not to be read.
  unfoldable pub deref : {A : Type 0} → Option A → Exec (State B) A
  unfolding pure crash
  deref none = crash
  deref (some a) = pure a

  -- `v[0]`
  unfoldable pub first : List Ref → Exec (State B) Ref
  unfolding pure crash
  first [] = crash
  first (x ∷ xs) = pure x

module _ {B : Type 0} (hooks : Hooks B) where
  -- A call of a virtual method: it is recorded, and the derived class does its part.
  unfoldable pub emit : Event → Exec (State B) (Unit {0})
  unfolding modify push_event
  emit e = modify λ s. record { core = push_event e s.core; base = hooks.handle e s.base }
