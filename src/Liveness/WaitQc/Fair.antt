-- ===== src/Liveness/WaitQc/Fair.antt =====
-- What becomes of the beats of `PMWaitQC` (include/hotstuff/liveness.h).
use ava_hotstuff.Prelude.{
  ℕ, zero, suc, ◌+◌, ◌≤◌, ◌≡◌, false, not, List, [], ◌∷◌, ◌++◌, length, once,
}
use ava_hotstuff.Liveness.WaitQc.{WaitQc}
use ava_hotstuff.Liveness.WaitQc.Settled.{IsSettled}

-- The numbers below `n`, from 0 on.
abbrev pub numbers : ℕ → ℕ → List ℕ
numbers i zero = []
numbers i (suc n) = i ∷ numbers (i + 1) n

pub record IsFair (s : WaitQc) : Type 0 where
  -- beats are left in the queue only after a beat was taken and before the next proposal,
  pub idle : s.locked ≡ false → s.pending_beats ≡ []
  -- one at most is taken before the first proposal and after each,
  pub one_each : length s.taken + once (not s.locked) ≤ s.proposals + 1
  -- and in the order of the calls
  pub in_order : s.taken ++ s.pending_beats ≡ numbers 0 s.next_promise
  pub settled : IsSettled s.taken s

-- What a call is made on: nothing is said of the queue when nothing is locked.
record IsSound (s : WaitQc) : Type 0 where
  pub one_each : length s.taken + once (not s.locked) ≤ s.proposals + 1
  pub in_order : s.taken ++ s.pending_beats ≡ numbers 0 s.next_promise
  pub settled : IsSettled s.taken s

-- What waiting leaves of the calls.
record SameCalls (s t : WaitQc) : Type 0 where
  pub same_next : t.next_promise ≡ s.next_promise
  pub same_proposals : t.proposals ≡ s.proposals

-- What a certificate leaves.
record SameQueue (s t : WaitQc) : Type 0 where
  pub same_locked : t.locked ≡ s.locked
  pub same_pending : t.pending_beats ≡ s.pending_beats
  pub same_taken : t.taken ≡ s.taken
  pub calls : SameCalls s t
