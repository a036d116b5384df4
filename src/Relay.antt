-- ===== src/Relay.antt =====
-- src/hotstuff.cpp, the messages to the other clusters: `do_broadcast_proposal_other_clusters`,
-- `update_other_f_plus_one` and `send_RComplain`. Clusters and nodes are numbered from 0, and the maps
-- are walked in the order of their lists. What is sent is recorded, newest first.
pub mod Run
pub mod Reach
pub mod Stays
use ava_hotstuff.Prelude.{
  ℕ, zero, suc, ◌+◌, ◌-◌, ◌/◌, ◌%◌, ◌^◌, Bool, Option, none, some, List, [], ◌∷◌, ◌++◌, ◌==◌, ltb,
  leb, has, take, get_elem?, length, if◌then◌else◌,
}
use ava_hotstuff.Entity.Config.{PeerId}

pub data Sending : Type 0 where
  -- `MsgPropose` and `MsgRComplain`, to these peers
  propose complain : List PeerId → Sending

pub record Relay : Type 0 where
  pub id : ℕ
  pub cluster_id : ℕ
  pub cluster_map : List (ℕ × ℕ)
  pub all_peers : List PeerId
  pub cluster_to_nodes : List (ℕ × List PeerId)
  pub other_peers_f_plus_one : List PeerId
  pub other_peers_f_plus_one_init : ℕ
  pub sent : List Sending

unfoldable pub transmit : Sending → Relay → Relay
transmit e s = record s { sent = e ∷ s.sent }

-- A third and one of the peers of each other cluster.
unfoldable pub initial_others : ℕ → List (ℕ × List PeerId) → List PeerId
initial_others own [] = []
initial_others own ((c, ps) ∷ m) =
    let rest = initial_others own m in
    if c == own then rest else take (length ps / 3 + 1) ps ++ rest

unfoldable pub init_others : Relay → Relay
unfolding initial_others
init_others s =
    if s.other_peers_f_plus_one_init == 0
    then record s {
      other_peers_f_plus_one =
          s.other_peers_f_plus_one ++ initial_others s.cluster_id s.cluster_to_nodes;
      other_peers_f_plus_one_init = 1;
    }
    else s

unfoldable pub do_broadcast_proposal_other_clusters : Relay → Relay
unfolding transmit init_others
do_broadcast_proposal_other_clusters s =
    let s' = init_others s in transmit (propose s'.other_peers_f_plus_one) s'

-- `leave_peer_ids`: numbers out of range are passed over.
unfoldable pub leave_peers : List ℕ → List PeerId → List PeerId
leave_peers [] peers = []
leave_peers (i ∷ is) peers = elim (get_elem? peers i) [
  | none ↦ leave_peers is peers
  | some p ↦ p ∷ leave_peers is peers
]

-- Up to that many of the peers that are not leaving.
unfoldable pub staying_peers : ℕ → List PeerId → List PeerId → List PeerId
unfolding has
staying_peers zero gone ps = []
staying_peers (suc n) gone [] = []
staying_peers (suc n) gone (p ∷ ps) =
    if has p gone then staying_peers (suc n) gone ps else p ∷ staying_peers n gone ps

-- `(size - leaving - 1) / 3 + 1` on `size_t`
unfoldable pub f_plus_one : ℕ → ℕ → ℕ
f_plus_one size leaving = (size + (2 ^ 64 - (leaving + 1) % 2 ^ 64)) % 2 ^ 64 / 3 + 1

unfoldable pub more_others : ℕ → ℕ → ℕ → List PeerId → List (ℕ × List PeerId) → List PeerId
unfolding staying_peers f_plus_one
more_others own changed leaving gone [] = []
more_others own changed leaving gone ((c, ps) ∷ m) =
    let rest = more_others own changed leaving gone m in
    if c == own
    then rest
    else if c == changed
    then staying_peers (f_plus_one (length ps) leaving) gone ps ++ rest
    else take (f_plus_one (length ps) 0) ps ++ rest

unfoldable pub update_other_f_plus_one : List ℕ → ℕ → Relay → Relay
unfolding leave_peers more_others
update_other_f_plus_one leave_set changed s = record s {
  other_peers_f_plus_one =
      s.other_peers_f_plus_one
      ++ more_others s.cluster_id changed (length leave_set) (leave_peers leave_set s.all_peers)
          s.cluster_to_nodes;
}

-- The nodes of a cluster.
unfoldable pub count_nodes : ℕ → List (ℕ × ℕ) → ℕ
count_nodes own [] = 0
count_nodes own ((node, c) ∷ m) =
    let rest = count_nodes own m in if c == own then rest + 1 else rest

unfoldable pub send_rcomplain_others : Relay → Relay
unfolding transmit count_nodes
send_rcomplain_others s =
    if ltb 0 (length s.other_peers_f_plus_one)
    then (if leb s.id (count_nodes s.cluster_id s.cluster_map / 3 + 1)
        then transmit (complain s.other_peers_f_plus_one) s
        else s)
    else s
