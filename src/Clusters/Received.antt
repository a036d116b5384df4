-- ===== src/Clusters/Received.antt =====
-- A height is finished once every other cluster has confirmed it (`receive_mc_local` of
-- src/hotstuff.cpp).
use ava_hotstuff.Prelude.{
  ℕ, ◌<◌, ◌≡◌, refl, ap, ◌∙◌, Option, none, some, List, [], ◌∷◌, arith, Bool-cases, inl, inr, has,
  Distinct,
}
use ava_hotstuff.Prelude.Int.{pos}
use ava_hotstuff.Prelude.Assoc.{lookup}
use ava_hotstuff.Clusters.Row.{test_from, all_from-eq, test_from-all_from}
use ava_hotstuff.Clusters.Tracking.{
  Tracker, init_tracker, start_row, after_test, count_cluster, bump_row, track, reconfigure,
  receive_mc_local, did_receive_mc,
}
use ava_hotstuff.Clusters.Heard.{Message, heard, is_finished, start_row-IsRow, bump-IsRow}
use ava_hotstuff.Clusters.Finished.{
  IsTracking, init-IsTracking, reconfigure-IsTracking, late-IsTracking, after_test-IsTracking,
}

-- One message.
track-IsTracking :
    (n own : ℕ) (s : Tracker) (m : Message) (ms : List Message)
    → IsTracking n own s ms
    → own < n
    → m.cluster < n
    → (t : Tracker) × (track (pos 0) m.cluster m.height s ≡ some t) × IsTracking n own t (m ∷ ms)
unfolding track count_cluster bump_row
track-IsTracking n own s m ms k inside from = elim (Bool-cases (has m.height s.finished_mc_cids)) [
  | inl late ↦ (s, rw late refl, late-IsTracking n own s m ms k late)
  | inr e ↦
      let cs = heard m.height ms in
      let old = lookup m.height s.cid_to_cluster_tracker_array in
      let (row, e1, r1) = start_row-IsRow n own cs old inside (k.rows m.height e) in
      let (row', e2, r2) = bump-IsRow n own m.cluster cs row from r1 in
      let start : start_row (pos 0) old s.n_clusters s.cluster_id ≡ some row =
        ap (λ a. start_row (pos 0) old a s.cluster_id) k.clusters
        ∙ ap (λ a. start_row (pos 0) old n a) k.itself
        ∙ e1 in
      let bumped = ap (λ o. bump_row o m.cluster) start ∙ e2 in
      let flag =
        ap (λ a. test_from a 0 row') k.clusters
        ∙ test_from-all_from n 0 row' (omega (arith, r2.0))
        ∙ ap some (all_from-eq n 0 _ _ (λ j low high. r2.1 j)) in
      let (t, e3, done) =
        after_test-IsTracking n own s m ms row' (is_finished n own (m.cluster ∷ cs)) k inside e r2
          refl in
      (
        t,
        rw e (
            ap (λ o. count_cluster o m.height s) bumped
            ∙ ap (λ o. after_test o m.height row' s) flag
            ∙ e3),
        done,
      )
]

pub receive_mc_local-IsTracking :
    (n own : ℕ) (s : Tracker) (m : Message) (ms : List Message)
    → IsTracking n own s ms
    → own < n
    → m.cluster < n
    → (t : Tracker) × (receive_mc_local (pos 0) m.cluster m.height m.reconfig_count m.leave_set s
        ≡ some t)
      × IsTracking n own t (m ∷ ms)
unfolding receive_mc_local
receive_mc_local-IsTracking n own s m ms k inside from =
    track-IsTracking n own (reconfigure m.cluster m.reconfig_count m.leave_set s) m ms
      (reconfigure-IsTracking n own m.cluster m.reconfig_count m.leave_set s ms k) inside from

-- The messages of a list, the last first.
unfoldable pub receive_all : List Message → Tracker → Option Tracker
unfolding receive_mc_local
receive_all [] s = some s
receive_all (m ∷ ms) s = elim (receive_all ms s) [
  | none ↦ none
  | some t ↦ receive_mc_local (pos 0) m.cluster m.height m.reconfig_count m.leave_set t
]

abbrev pub AreFrom : ℕ → List Message → Type 0
AreFrom n [] = Unit {0}
AreFrom n (m ∷ ms) = (m.cluster < n) × AreFrom n ms

receive_all-IsTracking :
    (n own : ℕ) (ms : List Message)
    → own < n
    → AreFrom n ms
    → (t : Tracker) × (receive_all ms (init_tracker n own) ≡ some t) × IsTracking n own t ms
unfolding receive_all
receive_all-IsTracking n own [] inside from = (init_tracker n own, refl, init-IsTracking n own)
receive_all-IsTracking n own (m ∷ ms) inside from =
    let (u, e, k) = receive_all-IsTracking n own ms inside from.1 in
    let (t, f, done) = receive_mc_local-IsTracking n own u m ms k inside from.0 in (t, rw e f, done)

-- Where the loop that fills a new row starts from 0, the confirmations of any heights, in any order
-- and as often as they come, are all received without an access out of range; a height is finished
-- exactly when every cluster but the own one has confirmed it and one has; and each finished height
-- has been handed to `on_receive_other_cluster_` once.
pub receive_all-is_finished :
    (n own : ℕ) (ms : List Message)
    → own < n
    → AreFrom n ms
    → (t : Tracker) × (receive_all ms (init_tracker n own) ≡ some t)
      × ((h : ℕ) → did_receive_mc h t ≡ is_finished n own (heard h ms))
      × (t.decided ≡ t.finished_mc_cids)
      × Distinct t.decided
unfolding did_receive_mc
receive_all-is_finished n own ms inside from =
    let (t, e, k) = receive_all-IsTracking n own ms inside from in
    (t, e, k.done, k.handed_over, k.once)
