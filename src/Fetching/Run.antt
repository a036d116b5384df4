-- ===== src/Fetching/Run.antt =====
-- Any sequence of the calls of src/hotstuff.cpp that fetch and deliver blocks.
use ava_hotstuff.Prelude.{Bool, Option, List, [], ◌∷◌}
use ava_hotstuff.Exec.{Exec, pure, run, modify, ◌>>◌}
use ava_hotstuff.Entity.Config.{Hash, PeerId}
use ava_hotstuff.Entity.Block.{Ref}
use ava_hotstuff.Core.State.{State}
use ava_hotstuff.Fetching.{
  Waiting, on_base, timeout_cb, async_fetch_blk, async_deliver_blk, deliver_fetched,
  deliver_verified, req_blk_handler, resp_blk_handler,
}

pub data Act : Type 0 where
  fetch : Hash → Option PeerId → Bool → Act
  deliver_hash : Hash → PeerId → Act
  -- a block that has been fetched for its delivery, from that replica
  now_fetched : Ref → PeerId → Act
  -- a block whose verification ended, its parents delivered and its certificate's block fetched
  now_verified : Bool → Ref → Act
  requested : List Hash → Act
  responded : List Ref → Act
  timed_out : Hash → Act

unfoldable pub act : Bool → Act → Exec (State Waiting) (Unit {0})
unfolding async_fetch_blk async_deliver_blk deliver_fetched deliver_verified req_blk_handler
    resp_blk_handler timeout_cb
act normal_log (fetch h replica fetch_now) = do run (async_fetch_blk h replica fetch_now); pure tt
act normal_log (deliver_hash h replica) = do run (async_deliver_blk h replica); pure tt
act normal_log (now_fetched r replica) = deliver_fetched r replica
act normal_log (now_verified verified r) = do deliver_verified normal_log verified r; pure tt
act normal_log (requested hs) = modify (req_blk_handler hs)
act normal_log (responded rs) = modify (resp_blk_handler rs)
act normal_log (timed_out h) = modify (on_base (timeout_cb h))

unfoldable pub act_all : Bool → List Act → Exec (State Waiting) (Unit {0})
unfolding act
act_all normal_log [] = pure tt
act_all normal_log (a ∷ rest) = do act normal_log a; act_all normal_log rest
