-- ===== src/Liveness/RoundRobin.antt =====
-- include/hotstuff/liveness.h, `PMRoundRobinProposer`: the proposer moves on with each timeout until a
-- block of the new one is decided. A promise is the number of the call that made it, and each of its
-- continuations an operation. `id` and `nreplicas` are those of `hsc`; what becomes of beats and what
-- is proposed is recorded, newest first. The lengths of the timers are left out.
pub mod Beats
use ava_hotstuff.Prelude.{
  ℕ, suc, ◌+◌, ◌%◌, ◌^◌, Bool, true, false, not, Option, none, some, List, [], ◌∷◌, ◌++◌, ◌==◌,
  ◌&&◌, leb, if◌then◌else◌,
}
use ava_hotstuff.Prelude.Assoc.{lookup, insert_new}
use ava_hotstuff.Entity.Config.{ReplicaId, Hash}
use ava_hotstuff.Entity.Block.{Ref}

pub record RoundRobin : Type 0 where
  pub id : ReplicaId
  pub nreplicas : ℕ
  pub proposer : ReplicaId
  pub prop_blk : List (ReplicaId × Ref)
  pub rotating : Bool
  pub pending_beats : List ℕ
  pub last_proposed : Ref
  pub locked : Bool
  -- the beat that waits for a certificate, whether the next proposal is waited for, and the round of
  -- `do_new_consensus` that waits
  pub pm_qc_finish : Option ℕ
  pub pm_wait_propose : Bool
  pub pm_qc_manual : Option ℕ
  pub next_promise : ℕ
  pub queued_beats : List ℕ
  pub resolved_beats : List (ℕ × ReplicaId)
  pub rejected_beats : List ℕ
  pub proposals : List (List Hash)

-- `pm_qc_finish.reject()`: the promise of the certificate is rejected, and the beat that waits for it
-- is never settled.
unfoldable pub reject_qc_finish : RoundRobin → RoundRobin
reject_qc_finish s = elim s.pm_qc_finish [
  | none ↦ s
  | some pm ↦ record s { pm_qc_finish = none; rejected_beats = pm ∷ s.rejected_beats }
]

unfoldable pub next_beat : List ℕ → RoundRobin → RoundRobin
unfolding reject_qc_finish
next_beat [] s = s
next_beat (pm ∷ pms) s = record (reject_qc_finish s) {
  pending_beats = pms;
  pm_qc_finish = some pm;
  locked = true;
}

unfoldable pub proposer_schedule_next : RoundRobin → RoundRobin
unfolding next_beat
proposer_schedule_next s = if s.locked then s else next_beat s.pending_beats s

-- The continuation of `async_qc_finish` in `proposer_schedule_next`.
unfoldable pub on_beat_qc : RoundRobin → RoundRobin
on_beat_qc s = elim s.pm_qc_finish [
  | none ↦ s
  | some pm ↦ record s { pm_qc_finish = none; resolved_beats = (pm, s.proposer) ∷ s.resolved_beats }
]

-- The continuation of `async_wait_proposal` in `proposer_update_last_proposed`.
unfoldable pub on_wait_propose : Ref → RoundRobin → RoundRobin
unfolding proposer_schedule_next
on_wait_propose blk s =
    if s.pm_wait_propose
    then proposer_schedule_next (record s { last_proposed = blk; locked = false })
    else s

-- The continuations of `reg_proposal` and `reg_receive_proposal`.
unfoldable pub on_registered : ReplicaId → Ref → RoundRobin → RoundRobin
unfolding insert_new
on_registered who blk s = record s { prop_blk = insert_new who blk s.prop_blk }

unfoldable pub do_new_consensus : ℕ → List Hash → RoundRobin → RoundRobin
do_new_consensus x cmds s = record s { pm_qc_manual = some x; proposals = cmds ∷ s.proposals }

-- The continuation of `async_qc_finish` in `do_new_consensus`.
unfoldable pub on_manual_qc : RoundRobin → RoundRobin
unfolding do_new_consensus
on_manual_qc s = elim s.pm_qc_manual [
  | none ↦ s
  | some x ↦ if leb 3 x then record s { pm_qc_manual = none } else do_new_consensus (x + 1) [] s
]

unfoldable pub on_exp_timeout : RoundRobin → RoundRobin
unfolding do_new_consensus
on_exp_timeout s = if s.proposer == s.id then do_new_consensus 0 [] s else s

unfoldable pub rotate_proposer : RoundRobin → RoundRobin
unfolding reject_qc_finish
rotate_proposer s = record (reject_qc_finish s) {
  prop_blk = [];
  rotating = true;
  proposer = (s.proposer + 1) % s.nreplicas % 2 ^ 16;
  pm_wait_propose = false;
  pm_qc_manual = none;
}

unfoldable pub stop_rotate : Ref → RoundRobin → RoundRobin
unfolding reject_qc_finish
stop_rotate genesis s = record (reject_qc_finish s) {
  pm_qc_manual = none;
  rotating = false;
  locked = false;
  last_proposed = genesis;
  pm_wait_propose = true;
}

-- The call that `stop_rotate` leaves to the event loop, with the commands of `decision_waiting`.
unfoldable pub repropose : List Hash → RoundRobin → RoundRobin
unfolding do_new_consensus
repropose [] s = s
repropose (c ∷ cs) s = do_new_consensus 0 (c ∷ cs) s

unfoldable pub stop_if : Option Ref → Ref → Ref → RoundRobin → RoundRobin
unfolding stop_rotate
stop_if none genesis blk s = s
stop_if (some p) genesis blk s = if p == blk then stop_rotate genesis s else s

unfoldable pub on_consensus : Ref → Ref → RoundRobin → RoundRobin
unfolding stop_if lookup
on_consensus genesis blk s = stop_if (lookup s.proposer s.prop_blk) genesis blk s

unfoldable pub impeach : RoundRobin → RoundRobin
unfolding rotate_proposer
impeach s = if s.rotating then s else rotate_proposer s

-- `beat()`: the answer where the promise is resolved at once.
unfoldable pub beat_proposer : RoundRobin → Option ReplicaId × RoundRobin
unfolding proposer_schedule_next
beat_proposer s =
    if not s.rotating && s.proposer == s.id
    then (
      none,
      proposer_schedule_next (record s {
        pending_beats = s.pending_beats ++ s.next_promise ∷ [];
        queued_beats = s.next_promise ∷ s.queued_beats;
        next_promise = suc s.next_promise;
      }),
    )
    else (some s.proposer, s)

-- The constructor, and `init()`.
unfoldable pub init_rotation : ReplicaId → ℕ → Ref → RoundRobin
unfolding stop_rotate
init_rotation id nreplicas genesis = stop_rotate genesis (record {
  id = id;
  nreplicas = nreplicas;
  proposer = 0;
  prop_blk = [];
  rotating = false;
  pending_beats = [];
  last_proposed = genesis;
  locked = false;
  pm_qc_finish = none;
  pm_wait_propose = false;
  pm_qc_manual = none;
  next_promise = 0;
  queued_beats = [];
  resolved_beats = [];
  rejected_beats = [];
  proposals = [];
})
