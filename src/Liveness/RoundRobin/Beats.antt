-- ===== src/Liveness/RoundRobin/Beats.antt =====
-- What becomes of the beats of `PMRoundRobinProposer` (include/hotstuff/liveness.h).
use ava_hotstuff.Prelude.{
  ℕ, suc, ◌+◌, ◌≡◌, refl, ap, ◌∙◌, Bool, true, false, not, Option, none, some, List, [], ◌∷◌, ◌++◌,
  ◌==◌, ◌&&◌, leb, arith, if◌then◌else◌, Option-cases, inl, inr,
}
use ava_hotstuff.Prelude.Assoc.{lookup}
use ava_hotstuff.Entity.Config.{ReplicaId, Hash}
use ava_hotstuff.Entity.Block.{Ref}
use ava_hotstuff.Liveness.RoundRobin.{
  RoundRobin, reject_qc_finish, next_beat, proposer_schedule_next, on_beat_qc, on_wait_propose,
  on_registered, do_new_consensus, on_manual_qc, on_exp_timeout, rotate_proposer, stop_rotate,
  repropose, stop_if, on_consensus, impeach, beat_proposer, init_rotation,
}

pub data Move : Type 0 where
  beats beat_qc manual_qc expires rotates impeaches : Move
  waited : Ref → Move
  registered : ReplicaId → Ref → Move
  reproposes : List Hash → Move
  consensus_on : Ref → Ref → Move

unfoldable pub move : Move → RoundRobin → RoundRobin
unfolding beat_proposer on_beat_qc on_manual_qc on_exp_timeout rotate_proposer impeach
    on_wait_propose on_registered repropose on_consensus
move beats s = (beat_proposer s).1
move beat_qc s = on_beat_qc s
move manual_qc s = on_manual_qc s
move expires s = on_exp_timeout s
move rotates s = rotate_proposer s
move impeaches s = impeach s
move (waited blk) s = on_wait_propose blk s
move (registered who blk) s = on_registered who blk s
move (reproposes cmds) s = repropose cmds s
move (consensus_on genesis blk) s = on_consensus genesis blk s

unfoldable pub moves : List Move → RoundRobin → RoundRobin
unfolding move
moves [] s = s
moves (m ∷ ms) s = moves ms (move m s)

abbrev pub times : ℕ → List ℕ → ℕ
times pm [] = 0
times pm (b ∷ bs) = (if b == pm then 1 else 0) + times pm bs

abbrev pub resolved_times : ℕ → List (ℕ × ReplicaId) → ℕ
resolved_times pm [] = 0
resolved_times pm ((b, p) ∷ bs) = (if b == pm then 1 else 0) + resolved_times pm bs

abbrev waiting_times : ℕ → Option ℕ → ℕ
waiting_times pm none = 0
waiting_times pm (some b) = if b == pm then 1 else 0

-- Each beat is resolved, given up with its certificate's promise, next, or in the queue, as often as it
-- was queued.
abbrev pub IsAccounted : ℕ → RoundRobin → Type 0
IsAccounted pm s =
    times pm s.queued_beats
    ≡ ((resolved_times pm s.resolved_beats + times pm s.rejected_beats)
        + waiting_times pm s.pm_qc_finish)
      + times pm s.pending_beats

pub times-append : (pm : ℕ) (bs cs : List ℕ) → times pm (bs ++ cs) ≡ times pm bs + times pm cs
times-append pm [] cs = omega arith
times-append pm (b ∷ bs) cs = omega (arith, times-append pm bs cs)

-- The state in which a beat has been queued.
abbrev with_beat : RoundRobin → RoundRobin
with_beat s = record s {
  pending_beats = s.pending_beats ++ s.next_promise ∷ [];
  queued_beats = s.next_promise ∷ s.queued_beats;
  next_promise = suc s.next_promise;
}

abbrev proposed : Ref → RoundRobin → RoundRobin
proposed blk s = record s { last_proposed = blk; locked = false }

abbrev state_of : Option ReplicaId × RoundRobin → RoundRobin
state_of r = r.1

module _ (pm : ℕ) where
  either-IsAccounted :
      (c : Bool) (t u : RoundRobin)
      → IsAccounted pm t
      → IsAccounted pm u
      → IsAccounted pm (if c then t else u)
  either-IsAccounted true t u h k = h
  either-IsAccounted false t u h k = k

  answer-IsAccounted :
      (c : Bool) (a b : Option ReplicaId) (t u : RoundRobin)
      → IsAccounted pm t
      → IsAccounted pm u
      → IsAccounted pm (state_of (if c then (a, t) else (b, u)))
  answer-IsAccounted true a b t u h k = h
  answer-IsAccounted false a b t u h k = k

  reject_qc_finish-IsAccounted :
      (s : RoundRobin) → IsAccounted pm s → IsAccounted pm (reject_qc_finish s)
  unfolding reject_qc_finish
  reject_qc_finish-IsAccounted s k = elim (Option-cases s.pm_qc_finish) [
    | inl e ↦ rw e (rw e at k)
    | inr (b, e) ↦ rw e (omega (arith, rw e at k))
  ]

  reject_qc_finish-none : (s : RoundRobin) → (reject_qc_finish s).pm_qc_finish ≡ none
  unfolding reject_qc_finish
  reject_qc_finish-none s = go s.pm_qc_finish refl
    where
      go :
          (o : Option ℕ)
          → s.pm_qc_finish ≡ o
          → (elim o as (λ _. RoundRobin) [
            | none ↦ s
            | some b ↦ record s { pm_qc_finish = none; rejected_beats = b ∷ s.rejected_beats }
          ]).pm_qc_finish
            ≡ none
      go none e = e
      go (some b) e = refl

  reject_qc_finish-pending : (s : RoundRobin) → (reject_qc_finish s).pending_beats ≡ s.pending_beats
  unfolding reject_qc_finish
  reject_qc_finish-pending s = elim (Option-cases s.pm_qc_finish) [
    | inl e ↦ rw e refl
    | inr (b, e) ↦ rw e refl
  ]

  next_beat-IsAccounted :
      (bs : List ℕ) (s : RoundRobin)
      → s.pending_beats ≡ bs
      → IsAccounted pm s
      → IsAccounted pm (next_beat bs s)
  unfolding next_beat
  next_beat-IsAccounted [] s e k = k
  next_beat-IsAccounted (b ∷ bs) s e k = omega (
    arith,
    reject_qc_finish-IsAccounted s k,
    ap (waiting_times pm) (reject_qc_finish-none s),
    ap (times pm) (reject_qc_finish-pending s ∙ e),
  )

  schedule-IsAccounted :
      (s : RoundRobin) → IsAccounted pm s → IsAccounted pm (proposer_schedule_next s)
  unfolding proposer_schedule_next
  schedule-IsAccounted s k =
      either-IsAccounted s.locked s _ k (next_beat-IsAccounted s.pending_beats s refl k)

  rotate_proposer-IsAccounted :
      (s : RoundRobin) → IsAccounted pm s → IsAccounted pm (rotate_proposer s)
  unfolding rotate_proposer
  rotate_proposer-IsAccounted s k = reject_qc_finish-IsAccounted s k

  move-IsAccounted : (m : Move) (s : RoundRobin) → IsAccounted pm s → IsAccounted pm (move m s)
  unfolding move beat_proposer on_beat_qc on_manual_qc do_new_consensus on_exp_timeout impeach
      on_wait_propose on_registered repropose on_consensus stop_if stop_rotate
  move-IsAccounted beats s k =
      answer-IsAccounted (not s.rotating && s.proposer == s.id) _ _ _ s
        (schedule-IsAccounted (with_beat s)
          (omega (arith, k, times-append pm s.pending_beats (s.next_promise ∷ []))))
        k
  move-IsAccounted beat_qc s k = elim (Option-cases s.pm_qc_finish) [
    | inl e ↦ rw e (rw e at k)
    | inr (b, e) ↦ rw e (omega (arith, rw e at k))
  ]
  move-IsAccounted manual_qc s k = elim (Option-cases s.pm_qc_manual) [
    | inl e ↦ rw e k
    | inr (x, e) ↦ rw e (either-IsAccounted (leb 3 x) _ _ k k)
  ]
  move-IsAccounted expires s k = either-IsAccounted (s.proposer == s.id) _ s k k
  move-IsAccounted rotates s k = rotate_proposer-IsAccounted s k
  move-IsAccounted impeaches s k =
      either-IsAccounted s.rotating s _ k (rotate_proposer-IsAccounted s k)
  move-IsAccounted (waited blk) s k =
      either-IsAccounted s.pm_wait_propose _ s (schedule-IsAccounted (proposed blk s) k) k
  move-IsAccounted (registered who blk) s k = k
  move-IsAccounted (reproposes []) s k = k
  move-IsAccounted (reproposes (c ∷ cs)) s k = k
  move-IsAccounted (consensus_on genesis blk) s k =
      elim (Option-cases (lookup s.proposer s.prop_blk)) [
        | inl e ↦ rw e k
        | inr (p, e) ↦ rw e (either-IsAccounted (p == blk) _ s (reject_qc_finish-IsAccounted s k) k)
      ]

moves_from-IsAccounted :
    (ms : List Move) (s : RoundRobin) (pm : ℕ) → IsAccounted pm s → IsAccounted pm (moves ms s)
unfolding moves
moves_from-IsAccounted [] s pm k = k
moves_from-IsAccounted (m ∷ ms) s pm k =
    moves_from-IsAccounted ms (move m s) pm (move-IsAccounted pm m s k)

-- Along any sequence of beats, proposals, certificates, timeouts, rotations, impeachments and
-- decisions, from the start: each beat has been resolved, has been given up because its certificate's
-- promise was rejected, waits for its certificate or is in the queue as often, all in all, as it was
-- queued. So none is resolved twice, and none is lost but by such a rejection.
pub moves-IsAccounted :
    (id : ReplicaId) (n : ℕ) (genesis : Ref) (ms : List Move) (pm : ℕ)
    → IsAccounted pm (moves ms (init_rotation id n genesis))
unfolding init_rotation stop_rotate reject_qc_finish
moves-IsAccounted id n genesis ms pm =
    moves_from-IsAccounted ms (init_rotation id n genesis) pm (omega arith)
