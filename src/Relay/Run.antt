-- ===== src/Relay/Run.antt =====
-- Any sequence of the calls of src/hotstuff.cpp that send to the other clusters.
use ava_hotstuff.Prelude.{ℕ, List, [], ◌∷◌}
use ava_hotstuff.Relay.{
  Relay, do_broadcast_proposal_other_clusters, update_other_f_plus_one, send_rcomplain_others,
}

pub data Relaying : Type 0 where
  broadcast : Relaying
  update : List ℕ → ℕ → Relaying
  complains : Relaying

unfoldable pub relay : Relaying → Relay → Relay
unfolding do_broadcast_proposal_other_clusters update_other_f_plus_one send_rcomplain_others
relay broadcast s = do_broadcast_proposal_other_clusters s
relay (update leave_set changed) s = update_other_f_plus_one leave_set changed s
relay complains s = send_rcomplain_others s

unfoldable pub relay_all : List Relaying → Relay → Relay
unfolding relay
relay_all [] s = s
relay_all (c ∷ calls) s = relay_all calls (relay c s)
