-- ===== src/Core/Run.antt =====
-- Any run of `HotStuffCore`: the calls that its user makes (include/hotstuff/consensus.h, "Inputs of
-- the state machine"), in any order. An exception ends a call and leaves what it wrote; the caller
-- goes on. After undefined behaviour there is no run. The calls are made one after another, none from
-- within another: not those that the continuation of a promise makes while `on_qc_finish` resolves it.
use ava_hotstuff.Prelude.{ℕ, Bool, Option, none, some, List, [], ◌∷◌}
use ava_hotstuff.Prelude.Int.{ℤ}
use ava_hotstuff.Exec.{left_by, Exec, pure, modify, ◌>>◌}
use ava_hotstuff.Entity.Config.{Hash}
use ava_hotstuff.Entity.Block.{Ref, Block}
use ava_hotstuff.Core.Messages.{Proposal, Vote, Complain}
use ava_hotstuff.Core.State.{State, Hooks, on_core}
use ava_hotstuff.Core.Deliver.{on_deliver_blk}
use ava_hotstuff.Core.Vote.{on_receive_vote}
use ava_hotstuff.Core.Receive.{on_receive_proposal}
use ava_hotstuff.Core.Propose.{allocate, on_propose}
use ava_hotstuff.Core.Complain.{on_receive_lcomplain, on_receive_rcomplain, start_local_complain}
use ava_hotstuff.Core.Setup.{async_qc_finish}

pub data Call : Type 0 where
  -- a block that was parsed is put in the storage
  fetch : Block → Call
  deliver : Ref → Call
  receive_proposal : Proposal → Call
  receive_vote : Vote → Call
  propose : List Hash → List ℤ → List ℤ → List Ref → List ℕ → Call
  receive_lcomplain receive_rcomplain : Complain → Call
  complain : ℕ → Hash → Call
  wait_qc : Ref → Call
  set_vote_disabled : Bool → Call

module _ {B : Type 0} (hooks : Hooks B) where
  unfoldable pub perform : Call → Exec (State B) (Unit {0})
  unfolding allocate on_deliver_blk on_receive_proposal on_receive_vote on_propose
      on_receive_lcomplain on_receive_rcomplain start_local_complain async_qc_finish
  perform (fetch b) = allocate hooks b >> pure tt
  perform (deliver r) = on_deliver_blk r >> pure tt
  perform (receive_proposal p) = on_receive_proposal hooks p
  perform (receive_vote v) = on_receive_vote hooks v
  perform (propose cmds keys vals parents extra) =
      on_propose hooks cmds keys vals parents extra >> pure tt
  perform (receive_lcomplain v) = on_receive_lcomplain hooks v
  perform (receive_rcomplain v) = on_receive_rcomplain hooks v
  perform (complain height h) = start_local_complain hooks height h
  perform (wait_qc r) = async_qc_finish r >> pure tt
  perform (set_vote_disabled b) = modify (on_core λ c. record c { vote_disabled = b })

  unfoldable pub run_calls : List Call → State B → Option (State B)
  run_calls [] s = some s
  run_calls (c ∷ cs) s = elim (left_by (perform c s)) [ none ↦ none | some t ↦ run_calls cs t ]

  -- The same on what an earlier call left.
  abbrev pub run_from : List Call → Option (State B) → Option (State B)
  run_from cs o = elim o [ none ↦ none | some t ↦ run_calls cs t ]
