-- ===== src/Tests/Relays.antt =====
-- A node of cluster 0, and two other clusters of four peers.
use ava_hotstuff.Prelude.{◌≡◌, refl, true, false, inl, inr, List, [], ◌∷◌, has, arith}
use ava_hotstuff.Entity.Config.{PeerId}
use ava_hotstuff.Relay.{
  Relay, transmit, initial_others, init_others, do_broadcast_proposal_other_clusters, leave_peers,
  staying_peers, f_plus_one, more_others, update_other_f_plus_one,
}
use ava_hotstuff.Relay.Run.{Relaying, broadcast, update, relay, relay_all}
use ava_hotstuff.Relay.Reach.{relay_all-reaches}
use ava_hotstuff.Relay.Stays.{relay_all-stays}

abbrev pub node : Relay
node = record {
  id = 1;
  cluster_id = 0;
  cluster_map = (0, 0) ∷ (1, 0) ∷ (2, 0) ∷ (3, 0) ∷ [];
  all_peers = 50 ∷ 51 ∷ 52 ∷ 53 ∷ 60 ∷ 61 ∷ 62 ∷ 63 ∷ 70 ∷ 71 ∷ 72 ∷ 73 ∷ [];
  cluster_to_nodes =
      (0, 50 ∷ 51 ∷ 52 ∷ 53 ∷ []) ∷ (1, 60 ∷ 61 ∷ 62 ∷ 63 ∷ []) ∷ (2, 70 ∷ 71 ∷ 72 ∷ 73 ∷ []) ∷ [];
  other_peers_f_plus_one = [];
  other_peers_f_plus_one_init = 0;
  sent = [];
}

-- The node 4, the peer 60, leaves cluster 1.
abbrev calls : List Relaying
calls = broadcast ∷ update (4 ∷ []) 1 ∷ []

listed : (relay_all calls node).other_peers_f_plus_one ≡ 60 ∷ 61 ∷ 70 ∷ 71 ∷ 61 ∷ 70 ∷ 71 ∷ []
unfolding relay_all relay do_broadcast_proposal_other_clusters init_others initial_others transmit
    update_other_f_plus_one leave_peers more_others staying_peers f_plus_one has
listed = refl

relay_all-reaches_example :
    (p : PeerId) × (has p (60 ∷ 61 ∷ 62 ∷ 63 ∷ []) ≡ true)
    × (has p (60 ∷ []) ≡ false)
    × (has p (60 ∷ 61 ∷ 70 ∷ 71 ∷ []) ≡ true)
unfolding relay_all relay do_broadcast_proposal_other_clusters init_others initial_others transmit
    update_other_f_plus_one has
relay_all-reaches_example =
    relay_all-reaches calls node (60 ∷ 61 ∷ 70 ∷ 71 ∷ []) 1 (60 ∷ 61 ∷ 62 ∷ 63 ∷ []) (60 ∷ []) refl
      refl (inl refl) (inr (inl (refl, refl))) (λ e. cc) (refl, (refl, (refl, (refl, tt))))
      (omega arith) (refl, tt) (omega arith)

-- The peer that left is still sent to.
relay_all-stays_example :
    has 60
      (relay_all (update (4 ∷ []) 1 ∷ broadcast ∷ []) (relay_all calls node)).other_peers_f_plus_one
    ≡ true
unfolding relay_all relay do_broadcast_proposal_other_clusters init_others initial_others transmit
    update_other_f_plus_one has
relay_all-stays_example =
    relay_all-stays (update (4 ∷ []) 1 ∷ broadcast ∷ []) (relay_all calls node) 60 refl
