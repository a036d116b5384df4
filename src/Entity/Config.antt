-- ===== src/Entity/Config.antt =====
-- include/hotstuff/entity.h, `ReplicaInfo` and `ReplicaConfig`; the sizes of the quorums as
-- `on_init` and `update_config_parameters` of src/consensus.cpp compute them.
use ava_hotstuff.Prelude.{ℕ, ◌+◌, ◌-◌, ◌/◌, Option, none, some, List, []}
use ava_hotstuff.Prelude.Assoc.{lookup, insert_new}

-- The keys, peers and hashes of the libraries below are opaque: each is its number.
abbrev pub ReplicaId : Type 0
ReplicaId = ℕ

abbrev pub Hash : Type 0
Hash = ℕ

abbrev pub PubKey : Type 0
PubKey = ℕ

abbrev pub PeerId : Type 0
PeerId = ℕ

pub record ReplicaInfo : Type 0 where
  pub id : ReplicaId
  pub peer_id : PeerId
  pub pubkey : PubKey

pub record ReplicaConfig : Type 0 where
  pub replica_map : List (ReplicaId × ReplicaInfo)
  pub nreplicas : ℕ
  pub nmajority : ℕ

abbrev pub empty_config : ReplicaConfig
empty_config = record { replica_map = []; nreplicas = 0; nmajority = 0 }

unfoldable pub add_replica : ReplicaConfig → ReplicaId → ReplicaInfo → ReplicaConfig
unfolding insert_new
add_replica c rid info = record c {
  replica_map = insert_new rid info c.replica_map;
  nreplicas = c.nreplicas + 1;
}

-- `none` is the read through `end()`: the check that would throw is commented out in the source.
unfoldable pub get_info : ReplicaConfig → ReplicaId → Option ReplicaInfo
unfolding lookup
get_info c rid = lookup rid c.replica_map

unfoldable pub get_pubkey : ReplicaConfig → ReplicaId → Option PubKey
unfolding get_info
get_pubkey c rid = elim (get_info c rid) [ none ↦ none | some info ↦ some info.pubkey ]

unfoldable pub get_peer_id : ReplicaConfig → ReplicaId → Option PeerId
unfolding get_info
get_peer_id c rid = elim (get_info c rid) [ none ↦ none | some info ↦ some info.peer_id ]

-- `on_init`: the majority of the replicas that were added.
unfoldable pub set_majority : ReplicaConfig → ℕ → ReplicaConfig
set_majority c nfaulty = record c { nmajority = c.nreplicas - nfaulty }

-- `update_config_parameters(current_peers)`: the other replicas that have not left, and oneself.
unfoldable pub update_config_parameters : ReplicaConfig → ℕ → ReplicaConfig
update_config_parameters c npeers =
    let nreplicas = npeers + 1 in
    record c { nreplicas = nreplicas; nmajority = nreplicas - npeers / 3 }
