-- ===== src/Tests/Pace.antt =====
-- The pacemakers on the blocks of `chain`.
use ava_hotstuff.Prelude.{ℕ, zero, suc, ◌<◌, ◌≡◌, refl, some, List, [], ◌∷◌, arith}
use ava_hotstuff.Entity.Block.{Ref}
use ava_hotstuff.Core.Climb.{HasParents, climb}
use ava_hotstuff.Liveness.HighTail.{on_hqc_update}
use ava_hotstuff.Liveness.HighTail.Best.{IsBest, on_hqc_update-IsBest}
use ava_hotstuff.Liveness.WaitQc.{Step, steps, init, wants, proposal, certificate}
use ava_hotstuff.Liveness.Fixed.{rotate_times, rotate_times-reaches}
use ava_hotstuff.Liveness.RoundRobin.{
  init_rotation, stop_rotate, reject_qc_finish, beat_proposer, proposer_schedule_next, next_beat,
  on_beat_qc, on_wait_propose, rotate_proposer,
}
use ava_hotstuff.Liveness.RoundRobin.Beats.{
  IsAccounted, Move, beats, beat_qc, rotates, waited, move, moves, moves-IsAccounted,
}
use ava_hotstuff.Tests.{chain}
use ava_hotstuff.Tests.Runs.{chain-Descends}

chain-HasParents : HasParents chain
chain-HasParents zero low e = absurd (omega arith)
chain-HasParents (suc zero) low e = cc
chain-HasParents (suc (suc zero)) low e = cc
chain-HasParents (suc (suc (suc zero))) low e = cc
chain-HasParents (suc (suc (suc (suc zero)))) low e = cc
chain-HasParents (suc (suc (suc (suc (suc zero))))) low e = cc
chain-HasParents (suc (suc (suc (suc (suc (suc n)))))) low e = absurd (omega arith)

-- Block 5 is a tail that does not follow block 2; block 4 does.
builds_on_4 : on_hqc_update chain (5 ∷ 4 ∷ []) 2 ≡ some 4
unfolding on_hqc_update climb
builds_on_4 = refl

on_hqc_update-IsBest_example :
    (t : Ref) × (on_hqc_update chain (5 ∷ 4 ∷ []) 2 ≡ some t) × IsBest chain 2 (5 ∷ 4 ∷ []) 2 t
on_hqc_update-IsBest_example =
    on_hqc_update-IsBest chain 2 (5 ∷ 4 ∷ []) chain-Descends chain-HasParents

-- The beat 0 waits for block 0, is resolved, and block 1 is proposed; the beat 1 waits for block 1 when
-- block 2 is proposed, and is lost.
abbrev asks : List Step
asks =
    wants
    ∷ wants
    ∷ wants
    ∷ certificate 0
    ∷ proposal 1
    ∷ proposal 2
    ∷ certificate 1
    ∷ certificate 2
    ∷ []

beat_lost : (steps asks (init 0)).lost ≡ 1 ∷ []
unfolding steps init
beat_lost = refl

two_resolved : (steps asks (init 0)).resolved ≡ (2, 2) ∷ (0, 0) ∷ []
unfolding steps init
two_resolved = refl

rotate_times-reaches_example : (k : ℕ) × (k < 4) × (rotate_times k 4 3 ≡ 1)
rotate_times-reaches_example = rotate_times-reaches 4 3 1 (omega arith) (omega arith) (omega arith)

-- The second beat waits for its certificate when the proposer changes, and is rejected.
abbrev turns : List Move
turns = beats ∷ beat_qc ∷ waited 1 ∷ beats ∷ rotates ∷ []

moves-IsAccounted_example : IsAccounted 1 (moves turns (init_rotation 0 4 0))
moves-IsAccounted_example = moves-IsAccounted 0 4 0 turns 1

second_rejected : (moves turns (init_rotation 0 4 0)).rejected_beats ≡ 1 ∷ []
unfolding moves move init_rotation stop_rotate reject_qc_finish beat_proposer proposer_schedule_next
    next_beat on_beat_qc rotate_proposer on_wait_propose
second_rejected = refl
