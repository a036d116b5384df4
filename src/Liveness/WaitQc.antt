-- ===== src/Liveness/WaitQc.antt =====
-- include/hotstuff/liveness.h, `PMWaitQC`: a beat is a promise to a caller that wants to propose. One
-- at a time waits for the certificate of the block proposed last. A promise is the number of the
-- call that made it. The promises of `qc_waiting` that this pacemaker uses are kept by their blocks,
-- and the blocks that have their certificate, which `async_qc_finish` tests. What a caller does when
-- its beat is resolved is a later step.
pub mod Settled
pub mod Fair
use ava_hotstuff.Prelude.{
  ℕ, zero, suc, ◌+◌, Bool, true, false, Option, none, some, List, [], ◌∷◌, ◌++◌, length, ◌==◌, has,
  if◌then◌else◌,
}
use ava_hotstuff.Entity.Config.{ReplicaId}
use ava_hotstuff.Entity.Block.{Ref}

pub record WaitQc : Type 0 where
  pub pending_beats : List ℕ
  pub last_proposed : Ref
  pub locked : Bool
  -- the beat that waits for the certificate of the block, where `pm_qc_finish` is pending
  pub pm_qc_finish : Option (ℕ × Ref)
  -- the number of the next promise
  pub next_promise : ℕ
  -- the blocks with a certificate, and those whose promise in `qc_waiting` has been rejected
  pub certified : List Ref
  pub rejected : List Ref
  -- the beats that were taken from the queue, in order; those of them that were resolved, with the
  -- block that they waited for; and those whose certificate's promise was rejected, which are never
  -- settled
  pub taken : List ℕ
  pub resolved : List (ℕ × Ref)
  pub lost : List ℕ
  -- how often a block was proposed
  pub proposals : ℕ

unfoldable pub init : Ref → WaitQc
init genesis = record {
  pending_beats = [];
  last_proposed = genesis;
  locked = false;
  pm_qc_finish = none;
  next_promise = 0;
  certified = [];
  rejected = [];
  taken = [];
  resolved = [];
  lost = [];
  proposals = 0;
}

-- `pm_qc_finish.reject()`
unfoldable pub drop_waiting : WaitQc → WaitQc
drop_waiting s = elim s.pm_qc_finish [
  | none ↦ s
  | some (pm, blk) ↦ record s {
    pm_qc_finish = none;
    rejected = blk ∷ s.rejected;
    lost = pm ∷ s.lost;
  }
]

-- `(pm_qc_finish = hsc->async_qc_finish(last_proposed)).then(...)`
unfoldable pub await_qc : ℕ → WaitQc → WaitQc
unfolding has
await_qc pm s =
    if has s.last_proposed s.certified
    then record s { resolved = (pm, s.last_proposed) ∷ s.resolved }
    else if has s.last_proposed s.rejected
    then record s { lost = pm ∷ s.lost }
    else record s { pm_qc_finish = some (pm, s.last_proposed) }

unfoldable pub take_next : List ℕ → WaitQc → WaitQc
unfolding drop_waiting await_qc
take_next [] s = s
take_next (pm ∷ pms) s = record (await_qc pm (drop_waiting s)) {
  pending_beats = pms;
  locked = true;
  taken = s.taken ++ pm ∷ [];
}

unfoldable pub schedule_next : WaitQc → WaitQc
unfolding take_next
schedule_next s = if s.locked then s else take_next s.pending_beats s

unfoldable pub beat : WaitQc → ℕ × WaitQc
unfolding schedule_next
beat s = (
  s.next_promise,
  schedule_next (record s {
    pending_beats = s.pending_beats ++ s.next_promise ∷ [];
    next_promise = suc s.next_promise;
  }),
)

-- The continuation of `update_last_proposed`.
unfoldable pub on_last_proposed : Ref → WaitQc → WaitQc
unfolding schedule_next
on_last_proposed blk s =
    schedule_next (record s { last_proposed = blk; locked = false; proposals = s.proposals + 1 })

-- The certificate of a block is complete: `on_qc_finish` resolves its promise.
unfoldable pub on_certificate : Ref → WaitQc → WaitQc
on_certificate blk s =
    let s' = record s { certified = blk ∷ s.certified } in
    elim s.pm_qc_finish [
      | none ↦ s'
      | some (pm, b) ↦
          if b == blk
          then record s' { pm_qc_finish = none; resolved = (pm, b) ∷ s.resolved }
          else s'
    ]

unfoldable pub get_pending_size : WaitQc → ℕ
get_pending_size s = length s.pending_beats

unfoldable pub beat_resp : ReplicaId → ReplicaId
beat_resp last_proposer = last_proposer

pub data Step : Type 0 where
  wants : Step
  proposal certificate : Ref → Step

unfoldable pub step : Step → WaitQc → WaitQc
unfolding beat on_last_proposed on_certificate
step wants s = (beat s).1
step (proposal blk) s = on_last_proposed blk s
step (certificate blk) s = on_certificate blk s

unfoldable pub steps : List Step → WaitQc → WaitQc
unfolding step
steps [] s = s
steps (x ∷ xs) s = steps xs (step x s)
