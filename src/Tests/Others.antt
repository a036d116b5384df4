-- ===== src/Tests/Others.antt =====
-- Confirmations of three clusters.
use ava_hotstuff.Prelude.{ℕ, ◌≡◌, refl, true, false, some, List, [], ◌∷◌, Distinct, has, arith}
use ava_hotstuff.Clusters.Tracking.{Tracker, init_tracker, did_receive_mc}
use ava_hotstuff.Clusters.Heard.{Message, heard, is_finished}
use ava_hotstuff.Clusters.Received.{receive_all, receive_all-is_finished}

abbrev pub from : ℕ → ℕ → Message
from c h = record { cluster = c; height = h; reconfig_count = 1; leave_set = 4 ∷ [] }

-- The last first: cluster 2 confirms height 7 after cluster 1, and cluster 1 confirms height 8 twice.
abbrev messages : List Message
messages = from 2 7 ∷ from 1 8 ∷ from 1 7 ∷ from 1 8 ∷ []

finishes_7 :
    (is_finished 3 0 (heard 7 messages) ≡ true) × (is_finished 3 0 (heard 8 messages) ≡ false)
unfolding has
finishes_7 = (refl, refl)

receive_all-is_finished_example :
    (t : Tracker) × (receive_all messages (init_tracker 3 0) ≡ some t)
    × ((h : ℕ) → did_receive_mc h t ≡ is_finished 3 0 (heard h messages))
    × (t.decided ≡ t.finished_mc_cids)
    × Distinct t.decided
receive_all-is_finished_example =
    receive_all-is_finished 3 0 messages (omega arith)
      (omega arith, (omega arith, (omega arith, (omega arith, tt))))
