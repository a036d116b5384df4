-- ===== src/Core/Setup.antt =====
-- src/consensus.cpp, `on_init`, `add_replica`, `update_config_parameters` and `async_qc_finish`, and
-- the calls of the first two in `start_mc` of src/hotstuff.cpp.
use ava_hotstuff.Prelude.{
  ℕ, ◌+◌, ◌/◌, List, [], ◌∷◌, Bool, true, false, some, length, leb, insert, if◌then◌else◌,
}
use ava_hotstuff.Exec.{Exec, pure, gets, modify, ◌>>=◌, ◌>>◌}
use ava_hotstuff.Entity.Config.{ReplicaId, ReplicaInfo, set_majority}
use ava_hotstuff.Entity.Config
use ava_hotstuff.Entity.Block.{Ref, write}
use ava_hotstuff.Crypto.{create_quorum_cert}
use ava_hotstuff.Core.State.{Core, State, on_core, load}

-- The genesis block is certified by its own hash, refers to itself, and is the highest certified.
unfoldable pub on_init : ℕ → Core → Core
unfolding set_majority create_quorum_cert write
on_init nfaulty c =
    let config = set_majority c.config nfaulty in
    let b = c.heap c.b0 in
    let qc = create_quorum_cert config b.hash in
    record c {
      config = config;
      heap = write c.heap c.b0 (record b { qc = some qc; self_qc = some qc; qc_ref = some c.b0 });
      hqc = some (c.b0, qc);
    }

-- Every replica counts as having voted for the genesis block.
unfoldable pub add_replica : ReplicaId → ReplicaInfo → Core → Core
unfolding Config.add_replica write insert
add_replica rid info c =
    let b = c.heap c.b0 in
    record c {
      config = Config.add_replica c.config rid info;
      heap = write c.heap c.b0 (record b { voted = insert rid b.voted });
    }

unfoldable pub set_peers : ℕ → Core → Core
unfolding Config.update_config_parameters
set_peers npeers c = record c { config = Config.update_config_parameters c.config npeers }

-- True if the promise is resolved at once; otherwise the block is waited for.
unfoldable pub async_qc_finish : {B : Type 0} → Ref → Exec (State B) Bool
unfolding insert
async_qc_finish r = do
  b ← load r
  config ← gets λ s. s.core.config
  if leb config.nmajority (length b.voted)
      then pure true
      else (do modify (on_core λ c. record c { qc_waiting = insert r c.qc_waiting }); pure false)

-- The loop of `HotStuffBase::start_mc` over the replicas of the cluster, from the number `i` on.
unfoldable pub add_replicas : ReplicaId → List ReplicaInfo → Core → Core
unfolding add_replica
add_replicas i [] c = c
add_replicas i (info ∷ infos) c = add_replicas (i + 1) infos (add_replica i info c)

-- What `start_mc` does to `HotStuffCore`; `npeers` of the replicas have another address than one's own.
unfoldable pub start_mc : ℕ → List ReplicaInfo → Core → Core
unfolding add_replicas on_init
start_mc npeers infos c = on_init (npeers / 3) (add_replicas 0 infos c)
