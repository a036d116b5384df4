-- ===== src/Handlers/Timers.antt =====
-- src/hotstuff.cpp, the remote view change: the callback that `start_remote_view_change_timer` sets,
-- and `send_RComplain_local`. `signals` records what happens, newest first.
pub mod Spaced
use ava_hotstuff.Prelude.{
  ℕ, ◌-◌, ◌^◌, ◌≡◌, refl, sym, ap, subst, ◌∙◌, Bool, true, false, Option, none, some, List, [], ◌∷◌,
  not, ◌&&◌, ltb, ltb→lt, has, if◌then◌else◌, arith, Bool-cases, Option-cases, inl, inr,
}
use ava_hotstuff.Prelude.Int.{ℤ, pos, negsuc, ◌-ℤ◌, ltb_ℤ}
use ava_hotstuff.Exec.{
  left_by, Outcome, returns, throws, fault, endless, Exec, pure, crash, gets, modify, zoom, ◌>>=◌,
  ◌>>◌,
}
use ava_hotstuff.Exec.Keeps.{
  Preorder, Keeps, Keeps-pure, Keeps-gets, Keeps-bind, Keeps-if, Keeps-crash, Keeps-modify,
  Keeps-zoom, Keeps-any, Leaves-bind, Leaves, Leaves-given,
}
use ava_hotstuff.Entity.Config.{PeerId}
use ava_hotstuff.Entity.Block.{Ref}
use ava_hotstuff.Entity.Storage.{find_blk, find_blk_hash_for_cid}
use ava_hotstuff.Core.Messages.{Complain}
use ava_hotstuff.Core.State.{State, Hooks}
use ava_hotstuff.Core.Complain.{start_local_complain}
use ava_hotstuff.Execution.{Base, base_hooks}
use ava_hotstuff.Relay.{Relay, do_broadcast_proposal_other_clusters}

pub data Signal : Type 0 where
  -- a timer sends a complaint about a height; the complaint has been handled by oneself too, and
  -- `last_rvc` is set; a remote complaint is passed on
  complains timed_out remote : ℤ → Signal
  -- `MsgRComplain(vote)` to these peers
  multicast : Complain → List PeerId → Signal
  -- `pmaker->rotate()`
  rotated : Signal

pub record Clock : Type 0 where
  pub node : State Base
  pub relay : Relay
  pub last_rvc : ℤ
  pub signals : List Signal

-- `int(height)` of a `uint32_t`
unfoldable pub to_int : ℕ → ℤ
to_int h = if ltb h (2 ^ 31) then pos h else negsuc (2 ^ 32 - h - 1)

unfoldable pub signal : Signal → Exec Clock (Unit {0})
signal e = modify λ c. record c { signals = e ∷ c.signals }

unfoldable pub set_last_rvc : (ℤ → Signal) → ℤ → Exec Clock (Unit {0})
set_last_rvc e n = modify λ c. record c { last_rvc = n; signals = e n ∷ c.signals }

unfoldable pub found : {A : Type 0} → Option A → Exec Clock A
unfolding crash pure
found none = crash
found (some a) = pure a

unfoldable pub send_rcomplain_local : Complain → Exec Clock (Unit {0})
unfolding signal found find_blk find_blk_hash_for_cid do_broadcast_proposal_other_clusters to_int
    set_last_rvc
send_rcomplain_local v = do
  s ← gets λ c. c.node
  signal (multicast v s.base.site.peers_current)
  h ← found (find_blk_hash_for_cid s.core.storage v.blk_height)
  found (find_blk s.core.storage h)
  modify λ c. record c { relay = do_broadcast_proposal_other_clusters c.relay }
  set_last_rvc remote (to_int v.blk_height)
  signal rotated

module _ (outer : Hooks (Unit {0})) where
  unfoldable pub complain_about : Ref → Exec Clock (Unit {0})
  unfolding zoom start_local_complain
  complain_about r = do
    b ← gets λ c. c.node.core.heap r
    zoom (λ c. c.node) (λ n c. record c { node = n })
        (start_local_complain (base_hooks outer) b.height b.hash)

  -- The timer of a height is fired, for its block. `start_local_complain` sends the complaint first,
  -- before anything in it can throw.
  unfoldable pub on_timer : ℕ → Ref → Exec Clock (Unit {0})
  unfolding to_int ◌-ℤ◌ has complain_about set_last_rvc signal
  on_timer h r = do
    c ← gets λ c. c
    let cid = to_int h
    if not (has h c.node.base.tracker.finished_mc_cids) && ltb_ℤ (pos 100) (cid -ℤ c.last_rvc)
        then (do signal (complains cid); complain_about r; set_last_rvc timed_out cid)
        else pure tt

pub data Tick : Type 0 where
  fires : ℕ → Ref → Tick
  passes_on : Complain → Tick

module _ (outer : Hooks (Unit {0})) where
  unfoldable pub tick : Tick → Exec Clock (Unit {0})
  unfolding on_timer send_rcomplain_local
  tick (fires h r) = on_timer outer h r
  tick (passes_on v) = send_rcomplain_local v

  -- An exception ends a tick and leaves what it wrote.
  unfoldable pub tick_all : List Tick → Clock → Option Clock
  unfolding tick
  tick_all [] c = some c
  tick_all (i ∷ is) c = elim (left_by (tick i c)) [ none ↦ none | some d ↦ tick_all is d ]
