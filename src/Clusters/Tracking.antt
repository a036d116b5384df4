-- ===== src/Clusters/Tracking.antt =====
-- `receive_mc_local` of src/hotstuff.cpp on the fields of `HotStuffBase` that it reads and writes, and
-- the sets of finished heights. `decided` and `peer_updates` record its calls of
-- `on_receive_other_cluster_` and of `update_other_f_plus_one`, newest first.
use ava_hotstuff.Prelude.{
  ℕ, ◌+◌, Bool, true, false, Option, none, some, List, [], ◌∷◌, ◌==◌, if◌then◌else◌, has, insert,
}
use ava_hotstuff.Prelude.Int.{ℤ}
use ava_hotstuff.Prelude.Assoc.{lookup, put, or_new}
use ava_hotstuff.Clusters.Row.{new_row, write_at, bump, test_from, clear_from}

pub record Tracker : Type 0 where
  pub n_clusters : ℕ
  pub cluster_id : ℕ
  pub cluster_tracker_array : List ℕ
  pub cid_to_cluster_tracker_array : List (ℕ × List ℕ)
  pub finished_mc_cids : List ℕ
  pub finished_update_cids : List ℕ
  pub cluster_msg_count : ℕ
  pub clusterid_to_reconfig_count : List (ℕ × ℕ)
  pub decided : List ℕ
  pub peer_updates : List (ℕ × List ℕ)

abbrev pub init_tracker : ℕ → ℕ → Tracker
init_tracker n own = record {
  n_clusters = n;
  cluster_id = own;
  cluster_tracker_array = [];
  cid_to_cluster_tracker_array = [];
  finished_mc_cids = [];
  finished_update_cids = [];
  cluster_msg_count = 0;
  clusterid_to_reconfig_count = [];
  decided = [];
  peer_updates = [];
}

unfoldable pub did_receive_mc : ℕ → Tracker → Bool
unfolding has
did_receive_mc h s = has h s.finished_mc_cids

unfoldable pub did_update : ℕ → Tracker → Bool
unfolding has
did_update h s = has h s.finished_update_cids

unfoldable pub update_finished_update_cids : ℕ → Tracker → Tracker
unfolding insert
update_finished_update_cids h s = record s {
  finished_update_cids = insert h s.finished_update_cids;
}

-- The row of a height: the stored one, or a new one in which the own cluster counts.
unfoldable pub start_row : ℤ → Option (List ℕ) → ℕ → ℕ → Option (List ℕ)
unfolding new_row write_at
start_row x none n own = write_at (new_row x n) own 1
start_row x (some row) n own = some row

-- `cid_to_cluster_tracker_array[h] = cluster_tracker_array`
unfoldable pub store_row : ℕ → List ℕ → Tracker → Tracker
unfolding put
store_row h row s = record s {
  cluster_tracker_array = row;
  cid_to_cluster_tracker_array = put h row s.cid_to_cluster_tracker_array;
}

-- `finished_mc_cids.insert(h); on_receive_other_cluster_(h);`
unfoldable pub finish : ℕ → Tracker → Tracker
unfolding insert
finish h s = record s {
  cluster_msg_count = s.cluster_msg_count + 1;
  finished_mc_cids = insert h s.finished_mc_cids;
  decided = h ∷ s.decided;
}

-- What follows the test of the row.
unfoldable pub after_test : Option Bool → ℕ → List ℕ → Tracker → Option Tracker
unfolding finish clear_from write_at store_row
after_test none h row s = none
after_test (some false) h row s = some (store_row h row s)
after_test (some true) h row s = elim (write_at (clear_from s.n_clusters 0 row) s.cluster_id 1) [
  | none ↦ none
  | some cleared ↦ some (store_row h cleared (finish h s))
]

unfoldable pub count_cluster : Option (List ℕ) → ℕ → Tracker → Option Tracker
unfolding after_test test_from
count_cluster none h s = none
count_cluster (some row) h s = after_test (test_from s.n_clusters 0 row) h row s

unfoldable pub bump_row : Option (List ℕ) → ℕ → Option (List ℕ)
unfolding bump
bump_row none c = none
bump_row (some row) c = bump row c

-- The second part of `receive_mc_local`, for a message about height `h` from cluster `c`.
unfoldable pub track : ℤ → ℕ → ℕ → Tracker → Option Tracker
unfolding start_row bump_row count_cluster has
track x c h s =
    if has h s.finished_mc_cids
    then some s
    else count_cluster
        (bump_row (start_row x (lookup h s.cid_to_cluster_tracker_array) s.n_clusters s.cluster_id)
          c)
        h s

-- The first part: a change of the cluster's configuration is taken over once.
unfoldable pub reconfigure : ℕ → ℕ → List ℕ → Tracker → Tracker
unfolding lookup put
reconfigure c count leave_set s =
    if or_new (lookup c s.clusterid_to_reconfig_count) 0 == count
    then record s { clusterid_to_reconfig_count = put c count s.clusterid_to_reconfig_count }
    else record s {
      clusterid_to_reconfig_count = put c count s.clusterid_to_reconfig_count;
      peer_updates = (c, leave_set) ∷ s.peer_updates;
    }

-- `receive_mc_local(prop)`: the proposal's `pre_amp_cluster_number`, `other_cluster_block_height`,
-- `reconfig_count` and `current_peer_set`.
unfoldable pub receive_mc_local : ℤ → ℕ → ℕ → ℕ → List ℕ → Tracker → Option Tracker
unfolding track reconfigure
receive_mc_local x c h count leave_set s = track x c h (reconfigure c count leave_set s)
