-- ===== src/Tests/Deliveries.antt =====
-- A block from a peer that extends the chain and certifies the block at height 3.
use ava_hotstuff.Prelude.{◌≡◌, refl, true, [], some, [], ◌∷◌, ◌==◌, if◌then◌else◌}
use ava_hotstuff.Prelude.Assoc.{lookup}
use ava_hotstuff.Exec.{pure, throw, crash, gets, modify, ◌>>=◌}
use ava_hotstuff.Entity.Block.{Heap, blank, write, next_height}
use ava_hotstuff.Entity.Storage.{find_blk}
use ava_hotstuff.Crypto.{dummy, get_obj_hash}
use ava_hotstuff.Core.State.{load, store, first}
use ava_hotstuff.Core.Deliver.{
  on_deliver_blk, deliver, clear_parents, push_parents, push_parent, get_delivered_blk,
  need_delivered, sanity_check_delivered, set_height, refer_qc, set_qc_ref, replace_tails,
  mark_delivered, store_in_map_for_mc,
}
use ava_hotstuff.Core.Deliver.Delivered.{Delivers, on_deliver_blk-Delivery}
use ava_hotstuff.Core.Deliver.Complete.{on_deliver_blk_complete}
use ava_hotstuff.Tests.{chain, holding, after}

abbrev pub with_new : Heap
with_new r =
    if r == 6
    then record blank { parent_hashes = 104 ∷ []; qc = some (dummy 103); hash = 105 }
    else chain r

on_deliver_blk-Delivery_example :
    Delivers 6 (holding with_new) (after (on_deliver_blk 6 (holding with_new)))
unfolding on_deliver_blk deliver clear_parents push_parents push_parent get_delivered_blk
    need_delivered sanity_check_delivered set_height refer_qc set_qc_ref replace_tails
    mark_delivered store_in_map_for_mc find_blk get_obj_hash lookup write load store first pure
    throw crash gets modify next_height ◌>>=◌
on_deliver_blk-Delivery_example = (on_deliver_blk-Delivery 6 (holding with_new)).1

on_deliver_blk_complete_example :
    ((after (on_deliver_blk 6 (holding with_new))).core.heap 6).delivered ≡ true
unfolding on_deliver_blk deliver clear_parents push_parents push_parent get_delivered_blk
    need_delivered sanity_check_delivered set_height refer_qc set_qc_ref replace_tails
    mark_delivered store_in_map_for_mc find_blk get_obj_hash lookup write load store first pure
    throw crash gets modify next_height ◌>>=◌
on_deliver_blk_complete_example =
    (on_deliver_blk_complete 6 (holding with_new) refl 104 [] (4 ∷ []) refl (refl, refl, tt)
      (3, refl)).1.is_delivered
