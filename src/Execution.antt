-- ===== src/Execution.antt =====
-- src/hotstuff.cpp, `HotStuffBase` as the class derived from `HotStuffCore`: its virtual methods on the
-- timers, the sets of finished heights and the commands, `decide_after_mc`, and `receive_mc_local` with
-- the call of it. The pacemaker and the libraries are those of a parameter.
pub mod Results
pub mod Commits
pub mod Hears
pub mod Run
pub mod Once
use ava_hotstuff.Prelude.{
  ℕ, Bool, true, false, Option, none, some, List, [], ◌∷◌, ◌&&◌, not, if◌then◌else◌,
}
use ava_hotstuff.Prelude.Int.{pos}
use ava_hotstuff.Prelude.Assoc.{put, remove}
use ava_hotstuff.Exec.{Exec, pure, crash, gets, modify, ◌>>=◌, ◌>>◌}
use ava_hotstuff.Entity.Config.{Hash}
use ava_hotstuff.Entity.Block.{Ref, Block}
use ava_hotstuff.Entity.Storage.{EntityStorage, find_blk, find_blk_hash_for_cid}
use ava_hotstuff.Core.State.{
  Event, decide, start_timer, reset_timer, finished_update, State, Hooks, load, deref, emit,
}
use ava_hotstuff.Core.Update.{decide_all, commit_one}
use ava_hotstuff.Clusters.Tracking.{
  Tracker, did_receive_mc, did_update, update_finished_update_cids, receive_mc_local,
}
use ava_hotstuff.Clusters.Heard.{Message}
use ava_hotstuff.Reconfig.{Site, get_leave_set}
use ava_hotstuff.Commands.{Desk, do_decide}

-- `timers` is `cid_to_remote_view_change_timer`: the block that each timer is for.
pub record Base : Type 0 where
  pub site : Site
  pub tracker : Tracker
  pub desk : Desk
  pub timers : List (ℕ × Ref)

-- The virtual methods with no result that write to these fields.
unfoldable pub handle_event : Event → Base → Base
unfolding do_decide put remove update_finished_update_cids
handle_event (decide fin key val) b = record b { desk = do_decide fin key val b.desk }
handle_event (start_timer h r) b = record b { timers = put h r b.timers }
handle_event (reset_timer h) b = record b { timers = remove h b.timers }
handle_event (finished_update h) b = record b { tracker = update_finished_update_cids h b.tracker }
handle_event _ b = b

-- `on_receive_other_cluster_(h)` is called where the height enters `finished_mc_cids`.
unfoldable pub newly_finished : ℕ → Tracker → Tracker → Bool
unfolding did_receive_mc
newly_finished h before after = not (did_receive_mc h before) && did_receive_mc h after

module _ (outer : Hooks (Unit {0})) where
  abbrev pub base_hooks : Hooks Base
  base_hooks = record {
    scheme = outer.scheme;
    get_hash = outer.get_hash;
    handle = handle_event;
    get_leave_set =
        λ b. (let (left, site') = get_leave_set b.site in (left, record b { site = site' }));
    check_leader = λ b. outer.check_leader tt;
    did_receive_mc = λ h b. did_receive_mc h b.tracker;
    beat_resp = λ last b. outer.beat_resp last tt;
  }

  -- The block of a height that is committed.
  unfoldable pub decide_blk : ℕ → Ref → Exec (State Base) (Unit {0})
  unfolding load emit decide_all
  decide_blk h r = do
    b ← load r
    decide_all base_hooks b 0 b.cmds b.keys b.vals
    emit base_hooks (reset_timer h)

  -- `find_blk`, whose result is read once the height is committed.
  unfoldable pub decide_found : ℕ → Option Hash → Exec (State Base) (Unit {0})
  unfolding find_blk did_update deref decide_blk
  decide_found h none = pure tt
  decide_found h (some hash) = do
    found ← gets λ s. find_blk s.core.storage hash
    updated ← gets λ s. did_update h s.base.tracker
    if updated then (do r ← deref found; decide_blk h r) else pure tt

  unfoldable pub decide_after_mc : ℕ → Exec (State Base) (Unit {0})
  unfolding decide_found find_blk_hash_for_cid
  decide_after_mc h = do
    hash ← gets λ s. find_blk_hash_for_cid s.core.storage h
    decide_found h hash

  unfoldable pub take_tracker : Message → Option Tracker → Exec (State Base) (Unit {0})
  unfolding newly_finished decide_after_mc
  take_tracker m none = crash
  take_tracker m (some t) = do
    before ← gets λ s. s.base.tracker
    modify λ s. record s { base = record s.base { tracker = t } }
    if newly_finished m.height before t then decide_after_mc m.height else pure tt

  unfoldable pub receive_mc : Message → Exec (State Base) (Unit {0})
  unfolding receive_mc_local take_tracker
  receive_mc m = do
    t ←
        gets λ s.
          receive_mc_local (pos 0) m.cluster m.height m.reconfig_count m.leave_set s.base.tracker
    take_tracker m t
