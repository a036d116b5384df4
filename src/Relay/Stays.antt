-- ===== src/Relay/Stays.antt =====
-- `other_peers_f_plus_one` of src/hotstuff.cpp is added to and never cleared.
use ava_hotstuff.Prelude.{
  ◌+◌, ◌/◌, ◌≡◌, true, List, [], ◌∷◌, ◌==◌, ltb, leb, has, length, Bool-cases, inl, inr,
}
use ava_hotstuff.Entity.Config.{PeerId}
use ava_hotstuff.Relay.{
  Relay, transmit, init_others, do_broadcast_proposal_other_clusters, update_other_f_plus_one,
  count_nodes, send_rcomplain_others,
}
use ava_hotstuff.Relay.Run.{Relaying, broadcast, update, complains, relay, relay_all}
use ava_hotstuff.Relay.Reach.{Subset-left}

relay-stays :
    (c : Relaying) (s : Relay) (p : PeerId)
    → has p s.other_peers_f_plus_one ≡ true
    → has p (relay c s).other_peers_f_plus_one ≡ true
unfolding relay do_broadcast_proposal_other_clusters init_others transmit update_other_f_plus_one
    send_rcomplain_others
relay-stays broadcast s p h = elim (Bool-cases (s.other_peers_f_plus_one_init == 0)) [
  | inl start ↦ rw start (Subset-left s.other_peers_f_plus_one _ p h)
  | inr later ↦ rw later h
]
relay-stays (update leave_set changed) s p h = Subset-left s.other_peers_f_plus_one _ p h
relay-stays complains s p h = elim (Bool-cases (ltb 0 (length s.other_peers_f_plus_one))) [
  | inl some_peers ↦ elim (Bool-cases (leb s.id (count_nodes s.cluster_id s.cluster_map / 3 + 1))) [
    | inl among ↦ rw some_peers (rw among h)
    | inr beyond ↦ rw some_peers (rw beyond h)
  ]
  | inr nobody ↦ rw nobody h
]

-- A peer of another cluster that messages go to is sent them for good: no sequence of calls takes it
-- off the list, not even the updates for a reconfiguration in which it leaves.
pub relay_all-stays :
    (calls : List Relaying) (s : Relay) (p : PeerId)
    → has p s.other_peers_f_plus_one ≡ true
    → has p (relay_all calls s).other_peers_f_plus_one ≡ true
unfolding relay_all
relay_all-stays [] s p h = h
relay_all-stays (c ∷ calls) s p h = relay_all-stays calls (relay c s) p (relay-stays c s p h)
