-- ===== src/Entity/Quorum.antt =====
-- That the sizes of the quorums, which `on_init` and `update_config_parameters` of src/consensus.cpp
-- set, make any two quorums share a replica that is not faulty.
use ava_hotstuff.Prelude.{ℕ, ◌+◌, ◌*◌, ◌/◌, ◌≤◌, ◌<◌, ◌≡◌, List, length, Distinct, arith}
use ava_hotstuff.Prelude.Counting.{Subset, common, length-common_ge}
use ava_hotstuff.Entity.Config.{ReplicaId, ReplicaConfig, set_majority, update_config_parameters}

-- A set of the replicas `all` with as many as the configuration asks for.
pub record IsQuorum (c : ReplicaConfig) (all xs : List ReplicaId) : Type 0 where
  pub distinct : Distinct xs
  pub of_replicas : Subset xs all
  pub enough : c.nmajority ≤ length xs

-- With more than three times as many replicas as can be faulty, two quorums of `on_init` have more
-- replicas in common than can be faulty.
pub set_majority_overlap :
    (c : ReplicaConfig) (nfaulty : ℕ) (all xs ys : List ReplicaId)
    → 3 * nfaulty < c.nreplicas
    → Distinct all
    → length all ≡ c.nreplicas
    → IsQuorum (set_majority c nfaulty) all xs
    → IsQuorum (set_majority c nfaulty) all ys
    → nfaulty < length (common xs ys)
unfolding set_majority
set_majority_overlap c nfaulty all xs ys few d size q r = omega (
  arith,
  length-common_ge xs ys all q.distinct r.distinct d q.of_replicas r.of_replicas,
  q.enough,
  r.enough,
)

-- After a reconfiguration to `npeers` other replicas, two quorums have more replicas in common than a
-- third of these, rounded down.
pub update_config_parameters_overlap :
    (c : ReplicaConfig) (npeers : ℕ) (all xs ys : List ReplicaId)
    → Distinct all
    → length all ≡ npeers + 1
    → IsQuorum (update_config_parameters c npeers) all xs
    → IsQuorum (update_config_parameters c npeers) all ys
    → npeers / 3 < length (common xs ys)
unfolding update_config_parameters
update_config_parameters_overlap c npeers all xs ys d size q r = omega (
  arith,
  length-common_ge xs ys all q.distinct r.distinct d q.of_replicas r.of_replicas,
  q.enough,
  r.enough,
)
