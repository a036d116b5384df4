-- ===== src/Handlers/Steady.antt =====
-- What the replica itself does on behalf of a handler leaves the tasks, the record of what was routed
-- and the configuration as they are.
use ava_hotstuff.Prelude.{ℕ, arith, ◌≡◌, refl, ap, Option, none, some}
use ava_hotstuff.Exec.{Exec}
use ava_hotstuff.Exec.Keeps.{
  Keeps, Keeps-pure, Keeps-gets, Keeps-bind, Keeps-crash, Keeps-if, Keeps-run, Keeps-modify,
  Keeps-zoom,
}
use ava_hotstuff.Entity.Config.{Hash, PeerId}
use ava_hotstuff.Entity.Block.{Ref}
use ava_hotstuff.Core.State.{State, Hooks}
use ava_hotstuff.Core.Progress.{Advances, Advances-preorder, Advances-refl, emit-Advances}
use ava_hotstuff.Core.Progress.Handlers.{Advances-rules}
use ava_hotstuff.Core.Rules.{load-Keeps, deref-Keeps}
use ava_hotstuff.Core.Rules.Methods.{decide_all-Keeps}
use ava_hotstuff.Clusters.Heard.{Message}
use ava_hotstuff.Clusters.Tracking.{Tracker}
use ava_hotstuff.Fetching.{Waiting, async_deliver_blk, async_fetch_blk}
use ava_hotstuff.Execution.{
  Base, base_hooks, receive_mc, take_tracker, decide_after_mc, decide_found, decide_blk,
}
use ava_hotstuff.Handlers.{Router, within, await}

pub record IsSteady (r q : Router) : Type 0 where
  pub same_config : q.node.core.config ≡ r.node.core.config
  pub same_cluster : q.node.core.cluster_id ≡ r.node.core.cluster_id
  pub same_tasks : q.tasks ≡ r.tasks
  pub same_routed : q.routed ≡ r.routed

pub within-IsSteady :
    {A : Type 0} {m : Exec (State Base) A} → Keeps Advances m → Keeps IsSteady (within m)
unfolding within
within-IsSteady k =
    Keeps-zoom _ _
      (λ r n h. record {
        same_config = h.same_config;
        same_cluster = h.same_cluster;
        same_tasks = refl;
        same_routed = refl;
      })
      k

-- Waiting for a block changes nothing of `HotStuffCore`.
async_deliver_blk-core :
    (h : Hash) (peer : PeerId) (s : State Waiting) → (async_deliver_blk h peer s).1.core ≡ s.core
unfolding async_deliver_blk async_fetch_blk
async_deliver_blk-core h peer s = ground arith

pub await-IsSteady : (h : Hash) (peer : PeerId) → Keeps IsSteady (await h peer)
unfolding await
await-IsSteady h peer = Keeps-run _ λ r.
    let same = async_deliver_blk-core h peer (record { core = r.node.core; base = r.waiting }) in
    record {
      same_config = ap (λ c. c.config) same;
      same_cluster = ap (λ c. c.cluster_id) same;
      same_tasks = refl;
      same_routed = refl;
    }

module _ (outer : Hooks (Unit {0})) where
  decide_blk-Advances : (h : ℕ) (r : Ref) → Keeps Advances (decide_blk outer h r)
  unfolding decide_blk
  decide_blk-Advances h r = Keeps-bind Advances-preorder (load-Keeps Advances-preorder r) λ b.
      Keeps-bind Advances-preorder
        (decide_all-Keeps (base_hooks outer) (Advances-rules (base_hooks outer)) b 0 b.cmds b.keys
          b.vals)
        λ _. emit-Advances (base_hooks outer) _

  decide_found-Advances : (h : ℕ) (o : Option Hash) → Keeps Advances (decide_found outer h o)
  unfolding decide_found
  decide_found-Advances h none = Keeps-pure Advances-preorder tt
  decide_found-Advances h (some hash) =
      Keeps-bind Advances-preorder (Keeps-gets Advances-preorder _) λ found.
        Keeps-bind Advances-preorder (Keeps-gets Advances-preorder _) λ updated.
          Keeps-if updated
            (Keeps-bind Advances-preorder (deref-Keeps Advances-preorder found)
              (decide_blk-Advances h))
            (Keeps-pure Advances-preorder tt)

  take_tracker-Advances :
      (m : Message) (o : Option Tracker) → Keeps Advances (take_tracker outer m o)
  unfolding take_tracker decide_after_mc
  take_tracker-Advances m none = Keeps-crash
  take_tracker-Advances m (some t) =
      Keeps-bind Advances-preorder (Keeps-gets Advances-preorder _) λ before.
        Keeps-bind Advances-preorder (Keeps-modify _ λ s. Advances-refl s.core) λ _.
          Keeps-if _
            (Keeps-bind Advances-preorder (Keeps-gets Advances-preorder _)
              (decide_found-Advances m.height))
            (Keeps-pure Advances-preorder tt)

  -- The confirmation of another cluster, with what it executes.
  pub receive_mc-Advances : (m : Message) → Keeps Advances (receive_mc outer m)
  unfolding receive_mc
  receive_mc-Advances m =
      Keeps-bind Advances-preorder (Keeps-gets Advances-preorder _) (take_tracker-Advances m)
