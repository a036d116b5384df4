-- ===== src/Commands/Answers.antt =====
-- Every client is answered once: the callbacks of `decision_waiting` in src/hotstuff.cpp.
use ava_hotstuff.Prelude.{
  ℕ, once, ◌+◌, ◌≡◌, refl, ap, ◌∙◌, some, List, [], ◌∷◌, ◌++◌, ◌==◌, arith, Bool-cases,
  Option-cases, inl, inr,
}
use ava_hotstuff.Prelude.Int.{ℤ}
use ava_hotstuff.Entity.Config.{ReplicaId, Hash}
use ava_hotstuff.Core.Messages.{Finality, finality}
use ava_hotstuff.Commands.{
  Callback, ClientCommandVars, Effect, answer, db_write, Desk, new_desk, note, exec_command,
  find_waiting, erase_waiting, call_waiting, answer_waiting, execute_cmd, do_decide_read_only,
  send_reconfig_ack, do_decide, is_read_only, is_reconfig, enter_waiting, register, reconfigure_if,
  read_if, buffer_if, propose_batch, batch_if, handle_cmd, drain_from, drain,
}
use ava_hotstuff.Commands.Run.{Turn, submit, handle, decided, take_turn, take_turns}
use ava_hotstuff.Commands.Idle.{submitted, submitted-cons, do_decide-Idle}

-- How often a callback has been called, waits for its command, and waits in the queue.
abbrev pub answers : Callback → List Effect → ℕ
answers cb [] = 0
answers cb (answer b fin ∷ es) = once (b == cb) + answers cb es
answers cb (_ ∷ es) = answers cb es

abbrev pub waiting : Callback → List (Hash × Callback) → ℕ
waiting cb [] = 0
waiting cb ((h, b) ∷ m) = once (b == cb) + waiting cb m

abbrev pub queued : Callback → List (ClientCommandVars × Callback) → ℕ
queued cb [] = 0
queued cb ((c, b) ∷ es) = once (b == cb) + queued cb es

module _ (cb : Callback) where
  abbrev held : Desk → ℕ
  held s = answers cb s.effects + waiting cb s.decision_waiting

  waiting-erase_waiting :
      (h : Hash) (m : List (Hash × Callback)) (b : Callback)
      → find_waiting h m ≡ some b
      → waiting cb m ≡ once (b == cb) + waiting cb (erase_waiting h m)
  unfolding find_waiting erase_waiting
  waiting-erase_waiting h [] b e = cc
  waiting-erase_waiting h ((j, a) ∷ m) b e = ground (arith, waiting-erase_waiting h m b)

  answer_waiting-held : (fin : Finality) (s : Desk) → held (answer_waiting fin s) ≡ held s
  unfolding answer_waiting call_waiting
  answer_waiting-held fin s = elim (Option-cases (find_waiting fin.cmd_hash s.decision_waiting)) [
    | inl e ↦ rw e refl
    | inr (b, e) ↦ rw e (omega (arith, waiting-erase_waiting fin.cmd_hash s.decision_waiting b e))
  ]

  execute_cmd-held : (fin : Finality) (s : Desk) → held (execute_cmd fin s) ≡ held s
  unfolding execute_cmd note
  execute_cmd-held fin s = refl

  abbrev done_of : ClientCommandVars → Desk → Finality
  done_of c s = finality s.id 1 0 0 c.cmd_hash 0

  reconfigure_if-held : (c : ClientCommandVars) (s : Desk) → held (reconfigure_if c s) ≡ held s
  unfolding reconfigure_if send_reconfig_ack note
  reconfigure_if-held c s = elim (Bool-cases (is_reconfig c.reconfig_mode)) [
    | inl on ↦ rw on (
        answer_waiting-held (done_of c s) (execute_cmd (done_of c s) s)
        ∙ execute_cmd-held (done_of c s) s)
    | inr off ↦ rw off refl
  ]

  read_if-held : (c : ClientCommandVars) (s : Desk) → held (read_if c s) ≡ held s
  unfolding read_if do_decide_read_only
  read_if-held c s = elim (Bool-cases (is_read_only c.key)) [
    | inl on ↦ rw on (
        answer_waiting-held (done_of c s) (execute_cmd (done_of c s) s)
        ∙ execute_cmd-held (done_of c s) s)
    | inr off ↦ rw off refl
  ]

  do_decide-held : (fin : Finality) (k v : ℤ) (s : Desk) → held (do_decide fin k v s) ≡ held s
  unfolding do_decide note
  do_decide-held fin k v s =
      answer_waiting-held fin (note (db_write k v) (execute_cmd fin s)) ∙ execute_cmd-held fin s

  register-held :
      (c : ClientCommandVars) (b : Callback) (s : Desk)
      → held (register c b s) ≡ once (b == cb) + held s
  unfolding register enter_waiting note
  register-held c b s = elim (Option-cases (find_waiting c.cmd_hash s.decision_waiting)) [
    | inl e ↦ rw e (omega arith)
    | inr (a, e) ↦ rw e (omega arith)
  ]

  buffer_if-held : (c : ClientCommandVars) (s : Desk) → held (buffer_if c s) ≡ held s
  unfolding buffer_if
  buffer_if-held c s = ground arith

  batch_if-held : (s : Desk) → held (batch_if s).1 ≡ held s
  unfolding batch_if propose_batch note
  batch_if-held s = ground arith

  handle_cmd-held :
      (p : ReplicaId) (c : ClientCommandVars) (b : Callback) (s : Desk)
      → held (handle_cmd p c b s).1 ≡ once (b == cb) + held s
  unfolding handle_cmd
  handle_cmd-held p c b s =
      let u = reconfigure_if c (register c b s) in
      let e = read_if-held c u ∙ reconfigure_if-held c (register c b s) ∙ register-held c b s in
      elim (Bool-cases (p == s.id)) [
        | inl leads ↦
            rw leads
              (batch_if-held (buffer_if c (read_if c u)) ∙ buffer_if-held c (read_if c u) ∙ e)
        | inr follows ↦ rw follows e
      ]

  drain_from-held :
      (p : ReplicaId) (es : List (ClientCommandVars × Callback)) (s : Desk)
      → held (drain_from p es s) + queued cb (drain_from p es s).cmd_pending ≡ held s + queued cb es
  unfolding drain_from
  drain_from-held p [] s = refl
  drain_from-held p ((c, b) ∷ es) s = elim (Bool-cases (handle_cmd p c b s).0) [
    | inl stop ↦ rw stop (omega (arith, handle_cmd-held p c b s))
    | inr more ↦
        rw more
          (omega (arith, handle_cmd-held p c b s, drain_from-held p es (handle_cmd p c b s).1))
  ]

  queued-append :
      (es fs : List (ClientCommandVars × Callback))
      → queued cb (es ++ fs) ≡ queued cb es + queued cb fs
  queued-append [] fs = omega arith
  queued-append ((c, b) ∷ es) fs = omega (arith, queued-append es fs)

  take_turn-held :
      (t : Turn) (s : Desk)
      → held (take_turn t s) + queued cb (take_turn t s).cmd_pending
        ≡ (held s + queued cb s.cmd_pending) + queued cb (submitted (t ∷ []))
  unfolding take_turn exec_command drain
  take_turn-held (submit c b) s = omega (arith, queued-append s.cmd_pending ((c, b) ∷ []))
  take_turn-held (handle p) s = omega (arith, drain_from-held p s.cmd_pending s)
  take_turn-held (decided fin k v) s =
      omega
        (arith, do_decide-held fin k v s, ap (queued cb) (do_decide-Idle fin k v s).same_pending)

  take_turns-held :
      (ts : List Turn) (s : Desk)
      → held (take_turns ts s) + queued cb (take_turns ts s).cmd_pending
        ≡ (held s + queued cb s.cmd_pending) + queued cb (submitted ts)
  unfolding take_turns
  take_turns-held [] s = omega arith
  take_turns-held (t ∷ ts) s = omega (
    arith,
    take_turns-held ts (take_turn t s),
    take_turn-held t s,
    queued-append (submitted (t ∷ [])) (submitted ts),
    ap (queued cb) (submitted-cons t ts),
  )

-- Along any sequence of submissions, runs of the handler and decisions, whoever is the proposer, a
-- client's callback has been called, waits for its command or waits in the queue as often, all in
-- all, as it was submitted: no client is answered twice and none is forgotten.
pub take_turns_answered :
    (id : ReplicaId) (n : ℕ) (ts : List Turn) (cb : Callback)
    → let t = take_turns ts (new_desk id n) in
      (answers cb t.effects + waiting cb t.decision_waiting) + queued cb t.cmd_pending
      ≡ queued cb (submitted ts)
take_turns_answered id n ts cb = omega (arith, take_turns-held cb ts (new_desk id n))
