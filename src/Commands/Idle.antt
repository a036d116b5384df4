-- ===== src/Commands/Idle.antt =====
-- Steps of src/hotstuff.cpp that propose nothing and leave the buffer of the commands.
use ava_hotstuff.Prelude.{
  ℕ, ◌≡◌, refl, ◌∙◌, Option, List, [], ◌∷◌, ◌++◌, length, if◌then◌else◌, arith, Bool-cases, inl,
  inr,
}
use ava_hotstuff.Prelude.Int.{ℤ}
use ava_hotstuff.Core.Messages.{Finality, Recs}
use ava_hotstuff.Commands.{
  Callback, ClientCommandVars, Effect, db_write, beat, ack, Desk, note, find_waiting, call_waiting,
  answer_waiting, execute_cmd, do_decide_read_only, send_reconfig_ack, do_decide, is_read_only,
  is_reconfig, enter_waiting, register, reconfigure_if, read_if, buffered,
}
use ava_hotstuff.Commands.Run.{Turn, submit, handle, decided}

-- The commands that were handed to the pacemaker, oldest first.
abbrev pub proposed : List Effect → List ClientCommandVars
proposed [] = []
proposed (beat cs ∷ es) = proposed es ++ cs
proposed (_ ∷ es) = proposed es

-- Each of the batches has `n` commands.
abbrev pub AreFull : ℕ → List Effect → Type 0
AreFull n [] = Unit {0}
AreFull n (beat cs ∷ es) = (length cs ≡ n) × AreFull n es
AreFull n (_ ∷ es) = AreFull n es

-- The commands that write, as they are buffered.
abbrev pub writes : List (ClientCommandVars × Callback) → List ClientCommandVars
writes [] = []
writes ((c, cb) ∷ es) = if is_read_only c.key then writes es else buffered c ∷ writes es

abbrev pub submitted : List Turn → List (ClientCommandVars × Callback)
submitted [] = []
submitted (submit c cb ∷ ts) = (c, cb) ∷ submitted ts
submitted (_ ∷ ts) = submitted ts

pub submitted-cons :
    (t : Turn) (ts : List Turn) → submitted (t ∷ ts) ≡ submitted (t ∷ []) ++ submitted ts
submitted-cons (submit c cb) ts = refl
submitted-cons (handle p) ts = refl
submitted-cons (decided fin k v) ts = refl

-- A step that proposes nothing and leaves the buffer.
pub record Idle (s t : Desk) : Type 0 where
  pub same_id : t.id ≡ s.id
  pub same_size : t.blk_size ≡ s.blk_size
  pub same_buffer : t.cmd_pending_buffer ≡ s.cmd_pending_buffer
  pub same_pending : t.cmd_pending ≡ s.cmd_pending
  pub same_proposed : proposed t.effects ≡ proposed s.effects
  pub still_full : (n : ℕ) → AreFull n s.effects → AreFull n t.effects

pub Idle-trans : (s t u : Desk) → Idle s t → Idle t u → Idle s u
Idle-trans s t u h k = record {
  same_id = k.same_id ∙ h.same_id;
  same_size = k.same_size ∙ h.same_size;
  same_buffer = k.same_buffer ∙ h.same_buffer;
  same_pending = k.same_pending ∙ h.same_pending;
  same_proposed = k.same_proposed ∙ h.same_proposed;
  still_full = λ n f. k.still_full n (h.still_full n f);
}

call_waiting-Idle :
    (o : Option Callback) (fin : Finality) (s : Desk) → Idle s (call_waiting o fin s)
unfolding call_waiting
call_waiting-Idle o fin s = ground arith

answer_waiting-Idle : (fin : Finality) (s : Desk) → Idle s (answer_waiting fin s)
unfolding answer_waiting
answer_waiting-Idle fin s = call_waiting-Idle (find_waiting fin.cmd_hash s.decision_waiting) fin s

execute_cmd-Idle : (fin : Finality) (s : Desk) → Idle s (execute_cmd fin s)
unfolding execute_cmd note
execute_cmd-Idle fin s = ground arith

note_ack-Idle : (r : Recs) (s : Desk) → Idle s (note (ack r) s)
unfolding note
note_ack-Idle r s = ground arith

note_write-Idle : (k v : ℤ) (s : Desk) → Idle s (note (db_write k v) s)
unfolding note
note_write-Idle k v s = ground arith

do_decide_read_only-Idle : (fin : Finality) (s : Desk) → Idle s (do_decide_read_only fin s)
unfolding do_decide_read_only
do_decide_read_only-Idle fin s =
    Idle-trans s _ _ (execute_cmd-Idle fin s) (answer_waiting-Idle fin (execute_cmd fin s))

send_reconfig_ack-Idle : (fin : Finality) (r : Recs) (s : Desk) → Idle s (send_reconfig_ack fin r s)
unfolding send_reconfig_ack
send_reconfig_ack-Idle fin r s =
    let t = answer_waiting fin (execute_cmd fin s) in
    Idle-trans s t _
      (Idle-trans s _ t (execute_cmd-Idle fin s) (answer_waiting-Idle fin (execute_cmd fin s)))
      (note_ack-Idle r t)

pub do_decide-Idle : (fin : Finality) (k v : ℤ) (s : Desk) → Idle s (do_decide fin k v s)
unfolding do_decide
do_decide-Idle fin k v s =
    let t = note (db_write k v) (execute_cmd fin s) in
    Idle-trans s t _
      (Idle-trans s _ t (execute_cmd-Idle fin s) (note_write-Idle k v (execute_cmd fin s)))
      (answer_waiting-Idle fin t)

register-Idle : (c : ClientCommandVars) (cb : Callback) (s : Desk) → Idle s (register c cb s)
unfolding register enter_waiting note
register-Idle c cb s = ground arith

pub Idle-refl : (s : Desk) → Idle s s
Idle-refl s = ground arith

reconfigure_if-Idle : (c : ClientCommandVars) (s : Desk) → Idle s (reconfigure_if c s)
unfolding reconfigure_if
reconfigure_if-Idle c s = elim (Bool-cases (is_reconfig c.reconfig_mode)) [
  | inl on ↦ rw on (send_reconfig_ack-Idle _ _ s)
  | inr off ↦ rw off (Idle-refl s)
]

read_if-Idle : (c : ClientCommandVars) (s : Desk) → Idle s (read_if c s)
unfolding read_if
read_if-Idle c s = elim (Bool-cases (is_read_only c.key)) [
  | inl on ↦ rw on (do_decide_read_only-Idle _ s)
  | inr off ↦ rw off (Idle-refl s)
]

-- The part of a round before the buffer.
abbrev pub entered : ClientCommandVars → Callback → Desk → Desk
entered c cb s = read_if c (reconfigure_if c (register c cb s))

pub entered-Idle : (c : ClientCommandVars) (cb : Callback) (s : Desk) → Idle s (entered c cb s)
entered-Idle c cb s =
    let t = register c cb s in
    let u = reconfigure_if c t in
    Idle-trans s u _ (Idle-trans s t u (register-Idle c cb s) (reconfigure_if-Idle c t))
      (read_if-Idle c u)
