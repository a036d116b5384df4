-- ===== src/Tests/Complaints.antt =====
-- The complaint that makes a majority.
use ava_hotstuff.Prelude.{zero, suc, ◌≡◌, refl, [], ◌∷◌}
use ava_hotstuff.Exec.{returns}
use ava_hotstuff.Entity.Block.{Heap}
use ava_hotstuff.Entity.Storage.{find_blk}
use ava_hotstuff.Core.Messages.{Complain}
use ava_hotstuff.Core.State.{State}
use ava_hotstuff.Core.Complain.{on_receive_lcomplain}
use ava_hotstuff.Core.Complain.Majority.{Complained, on_receive_lcomplain-Complained}
use ava_hotstuff.Tests.{hooks, chain, holding, on_top}

-- Block 4 with the complaints of the replicas 1 and 2.
abbrev complained_of : Heap
complained_of (suc (suc (suc (suc zero)))) = record (on_top 4 3) { lcomplains = 1 ∷ 2 ∷ [] }
complained_of r = chain r

abbrev complain_of_3 : Complain
complain_of_3 = record {
  voter = 3;
  blk_height = 4;
  blk_hash = 104;
  cert = record { obj_hash = 104; sig = 111 };
}

on_receive_lcomplain-Complained_example :
    (t : State (Unit {0})) × (on_receive_lcomplain hooks complain_of_3 (holding complained_of)
      ≡ returns tt t)
    × Complained hooks complain_of_3 4 (holding complained_of) t
on_receive_lcomplain-Complained_example =
    on_receive_lcomplain-Complained hooks complain_of_3 (holding complained_of) 4
      (unfold find_blk in refl) refl
