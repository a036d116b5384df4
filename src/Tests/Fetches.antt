-- ===== src/Tests/Fetches.antt =====
-- A replica that is asked for a block that it does not have, and one whose new block is not verified.
use ava_hotstuff.Prelude.{◌≡◌, refl, true, false, List, [], ◌∷◌}
use ava_hotstuff.Exec.Keeps.{Leaves}
use ava_hotstuff.Exec.Returns.{Ends}
use ava_hotstuff.Core.State.{State}
use ava_hotstuff.Fetching.{Waiting, nothing_waits, deliver_verified}
use ava_hotstuff.Fetching.Run.{
  Act, deliver_hash, now_fetched, now_verified, requested, responded, timed_out, act_all,
}
use ava_hotstuff.Fetching.Balance.{IsBalanced}
use ava_hotstuff.Fetching.Balance.Acts.{act_all-IsBalanced}
use ava_hotstuff.Fetching.Settled.{DeliversBase}
use ava_hotstuff.Fetching.Settled.Verified.{deliver_verified-DeliversIf}
use ava_hotstuff.Entity.Storage.{find_blk}
use ava_hotstuff.Prelude.Assoc.{lookup}
use ava_hotstuff.Crypto.{get_obj_hash}
use ava_hotstuff.Tests.{holding}
use ava_hotstuff.Tests.Deliveries.{with_new}

abbrev waiter : State Waiting
waiter = record { core = (holding with_new).core; base = nothing_waits }

-- The block 6 comes in for its hash 105, and is verified.
abbrev acts : List Act
acts =
    deliver_hash 105 51
    ∷ requested (105 ∷ 101 ∷ [])
    ∷ timed_out 105
    ∷ responded (6 ∷ [])
    ∷ now_fetched 6 51
    ∷ now_verified true 6
    ∷ []

act_all-IsBalanced_example : Leaves (λ t. IsBalanced 105 t.base) (act_all true acts waiter)
act_all-IsBalanced_example = act_all-IsBalanced 105 true acts waiter refl

abbrev expecting : State Waiting
expecting = record waiter { base = record nothing_waits { blk_delivery_waiting = 105 ∷ [] } }

deliver_verified-DeliversIf_example :
    Ends
      (λ ok t. (ok ≡ false) × DeliversBase 6 expecting t)
      (deliver_verified true false 6 expecting)
unfolding find_blk lookup get_obj_hash
deliver_verified-DeliversIf_example =
    deliver_verified-DeliversIf 6 expecting refl 104 [] (4 ∷ []) refl (refl, refl, tt) (3, refl)
      true false
