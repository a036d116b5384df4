-- ===== src/Core/Voting/Run.antt =====
-- Every run of the protocol whose calls do not nest keeps the votes in order.
use ava_hotstuff.Prelude.{ℕ, ◌≡◌, refl, subst, true, false, some, List, [], ◌∷◌, leb}
use ava_hotstuff.Prelude.Int.{ℤ}
use ava_hotstuff.Exec.{
  left_by, Exec, Outcome, returns, throws, fault, endless, pure, ◌>>=◌, not_above_vheight,
  empty_parents,
}
use ava_hotstuff.Exec.Keeps.{
  Keeps, Keeps-pure, Keeps-throw, Keeps-gets, Keeps-bind, Keeps-if, Keeps-modify, Keeps-run,
  Keeps-mono, Leaves,
}
use ava_hotstuff.Entity.Config.{Hash}
use ava_hotstuff.Entity.Block.{Ref}
use ava_hotstuff.Core.Messages.{plain_proposal}
use ava_hotstuff.Core.State.{State, Hooks}
use ava_hotstuff.Core.Deliver.{on_deliver_blk}
use ava_hotstuff.Core.Propose.{allocate, drop_tails, make_block, propose_block, on_propose, add_new}
use ava_hotstuff.Core.Setup.{async_qc_finish}
use ava_hotstuff.Core.Run.{
  Call, fetch, deliver, receive_proposal, receive_vote, propose, receive_lcomplain,
  receive_rcomplain, complain, wait_qc, set_vote_disabled, perform, run_calls, run_from,
}
use ava_hotstuff.Core.Rules.{load-Keeps, deref-Keeps, first-Keeps}
use ava_hotstuff.Core.Rules.Methods.{update-Keeps, on_receive_vote-Keeps}
use ava_hotstuff.Core.Rules.Delivery.{on_deliver_blk-Keeps}
use ava_hotstuff.Core.Rules.Complaints.{
  on_receive_lcomplain-Keeps, on_receive_rcomplain-Keeps, start_local_complain-Keeps,
}
use ava_hotstuff.Core.Voting.{Quiet, Quiet-preorder, Quiet-rules, Quiet-delivery}
use ava_hotstuff.Core.Voting.Once.{
  IsOrderly, Orderly, Orderly-preorder, Quiet-Orderly, on_receive_proposal-Orderly,
}

module _ {B : Type 0} (hooks : Hooks B) where
  on_deliver_blk-Quiet : (r : Ref) → Keeps Quiet (on_deliver_blk {B = B} r)
  on_deliver_blk-Quiet r = on_deliver_blk-Keeps r (Quiet-delivery hooks r)

  quietly : {A : Type 0} {m : Exec (State B) A} → Keeps Quiet m → Keeps Orderly m
  quietly k = Keeps-mono Quiet-Orderly k

  make_block-Quiet :
      (cmds : List Hash) (keys vals : List ℤ) (parents : List Ref) (extra : List ℕ)
      → Keeps Quiet (make_block hooks cmds keys vals parents extra)
  unfolding make_block
  make_block-Quiet cmds keys vals parents extra =
      Keeps-bind Quiet-preorder (Keeps-gets Quiet-preorder _) λ c.
        Keeps-bind Quiet-preorder (deref-Keeps Quiet-preorder c.hqc) λ high.
          Keeps-bind Quiet-preorder (first-Keeps Quiet-preorder parents) λ p.
            Keeps-bind Quiet-preorder (load-Keeps Quiet-preorder p)
              λ pb. Keeps-pure Quiet-preorder _

  propose_block-Orderly : (r : Ref) → Keeps Orderly (propose_block hooks r)
  unfolding propose_block
  propose_block-Orderly r = Keeps-bind Orderly-preorder (load-Keeps Orderly-preorder r) λ b.
      Keeps-bind Orderly-preorder (Keeps-gets Orderly-preorder _) λ config.
        Keeps-bind Orderly-preorder (quietly ((Quiet-rules hooks).stores_qc r _)) λ _.
          Keeps-bind Orderly-preorder (quietly (on_deliver_blk-Quiet r)) λ _.
            Keeps-bind Orderly-preorder (quietly (update-Keeps hooks (Quiet-rules hooks) r)) λ _.
              Keeps-bind Orderly-preorder (load-Keeps Orderly-preorder r) λ b'.
                Keeps-bind Orderly-preorder (Keeps-gets Orderly-preorder _) λ c.
                  Keeps-if (leb b'.height c.vheight)
                    (Keeps-throw Orderly-preorder not_above_vheight)
                    (Keeps-bind Orderly-preorder
                      (on_receive_proposal-Orderly hooks (plain_proposal c.id r))
                      λ _.
                        Keeps-bind Orderly-preorder (quietly ((Quiet-rules hooks).emits _ refl))
                          λ _.
                            Keeps-bind Orderly-preorder (quietly ((Quiet-rules hooks).emits _ refl))
                              λ _. Keeps-pure Orderly-preorder r)

  on_propose-Orderly :
      (cmds : List Hash) (keys vals : List ℤ) (parents : List Ref) (extra : List ℕ)
      → Keeps Orderly (on_propose hooks cmds keys vals parents extra)
  unfolding on_propose drop_tails allocate add_new
  on_propose-Orderly cmds keys vals [] extra = Keeps-throw Orderly-preorder empty_parents
  on_propose-Orderly cmds keys vals (p ∷ ps) extra =
      Keeps-bind Orderly-preorder (Keeps-modify _ λ s f. f) λ _.
        Keeps-bind Orderly-preorder
          (Keeps-mono Quiet-Orderly (make_block-Quiet cmds keys vals (p ∷ ps) extra))
          λ b. Keeps-bind Orderly-preorder (Keeps-run _ λ s f. f) λ r. propose_block-Orderly r

  -- `m >> pure tt`
  ends : {A : Type 0} {m : Exec (State B) A} → Keeps Orderly m → Keeps Orderly (m >>= λ _. pure tt)
  ends k = Keeps-bind Orderly-preorder k λ _. Keeps-pure Orderly-preorder tt

  async_qc_finish-Orderly : (r : Ref) → Keeps Orderly (async_qc_finish {B = B} r)
  unfolding async_qc_finish
  async_qc_finish-Orderly r = Keeps-bind Orderly-preorder (load-Keeps Orderly-preorder r) λ b.
      Keeps-bind Orderly-preorder (Keeps-gets Orderly-preorder _) λ config.
        Keeps-if _ (Keeps-pure Orderly-preorder true) (
          Keeps-bind Orderly-preorder (Keeps-modify _ λ s f. f)
            λ _. Keeps-pure Orderly-preorder false)

  perform-Orderly : (c : Call) → Keeps Orderly (perform hooks c)
  unfolding perform add_new
  perform-Orderly (fetch b) = ends (Keeps-run _ λ s f. f)
  perform-Orderly (deliver r) = ends (quietly (on_deliver_blk-Quiet r))
  perform-Orderly (receive_proposal p) = on_receive_proposal-Orderly hooks p
  perform-Orderly (receive_vote v) = quietly (on_receive_vote-Keeps hooks (Quiet-rules hooks) v)
  perform-Orderly (propose cmds keys vals parents extra) =
      ends (on_propose-Orderly cmds keys vals parents extra)
  perform-Orderly (receive_lcomplain v) =
      quietly (on_receive_lcomplain-Keeps hooks (Quiet-rules hooks) v)
  perform-Orderly (receive_rcomplain v) =
      quietly (on_receive_rcomplain-Keeps hooks (Quiet-rules hooks) v)
  perform-Orderly (complain height h) =
      quietly (start_local_complain-Keeps hooks (Quiet-rules hooks) height h)
  perform-Orderly (wait_qc r) = ends (async_qc_finish-Orderly r)
  perform-Orderly (set_vote_disabled b) = Keeps-modify _ λ s f. f

  run_from-IsOrderly :
      {A : Type 0} (s t : State B) (calls : List Call) (o : Outcome (State B) A)
      → Leaves (Orderly s) o
      → IsOrderly s.core
      → ((u : State B) → IsOrderly u.core → run_calls hooks calls u ≡ some t → IsOrderly t.core)
      → run_from hooks calls (left_by o) ≡ some t
      → IsOrderly t.core
  unfolding run_calls
  run_from-IsOrderly s t calls (returns a u) keep f next e = next u (keep f) e
  run_from-IsOrderly s t calls (throws x u) keep f next e = next u (keep f) e
  run_from-IsOrderly s t calls fault keep f next e = cc
  run_from-IsOrderly s t calls endless keep f next e = cc

  -- In every run of calls that are made one after another, none of them from within another (as the
  -- continuation of a promise that `on_qc_finish` resolves could), through every exception: a replica's
  -- votes go to strictly rising heights, none above its `vheight`, where they did at the start. So it
  -- never votes twice at one height, nor goes back.
  pub run_calls-IsOrderly :
      (calls : List Call) (s t : State B)
      → IsOrderly s.core
      → run_calls hooks calls s ≡ some t
      → IsOrderly t.core
  unfolding run_calls
  run_calls-IsOrderly [] s t f e =
      let same : s ≡ t = cc in subst (λ (w : State B). IsOrderly w.core) same f
  run_calls-IsOrderly (c ∷ calls) s t f e =
      run_from-IsOrderly s t calls (perform hooks c s) ((perform-Orderly c).at s) f
        (λ u. run_calls-IsOrderly calls u t) e
