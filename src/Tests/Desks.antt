-- ===== src/Tests/Desks.antt =====
-- A proposer with blocks of two commands.
use ava_hotstuff.Prelude.{ℕ, ◌+◌, ◌<◌, ◌≡◌, refl, List, [], ◌∷◌, ◌++◌, length, arith}
use ava_hotstuff.Prelude.Int.{pos, negsuc}
use ava_hotstuff.Core.Messages.{finality}
use ava_hotstuff.Commands.{
  ClientCommandVars, Desk, new_desk, exec_command, find_waiting, erase_waiting, call_waiting,
  answer_waiting, execute_cmd, do_decide_read_only, do_decide, is_read_only, is_reconfig,
  enter_waiting, register, reconfigure_if, read_if, buffered, buffer_if, propose_batch, batch_if,
  handle_cmd, drain_from, drain, note,
}
use ava_hotstuff.Commands.Run.{Turn, submit, handle, decided, take_turn, take_turns}
use ava_hotstuff.Commands.Idle.{proposed, AreFull, writes, submitted}
use ava_hotstuff.Commands.Order.{take_turns_ordered}
use ava_hotstuff.Commands.Answers.{answers, waiting, queued, take_turns_answered}

abbrev command : ℕ → ℕ → ClientCommandVars
command h key = record {
  cmd_hash = h;
  key = pos key;
  val = pos 7;
  cluster_number = 1;
  node_number = 2;
  reconfig_mode = negsuc 0;
}

-- Three writes and a read; the second block is short of a command.
abbrev turns : List Turn
turns =
    submit (command 11 1) 901
    ∷ submit (command 12 2) 902
    ∷ submit (command 13 3) 903
    ∷ submit (command 14 44) 904
    ∷ handle 2
    ∷ handle 2
    ∷ decided (finality 2 1 0 5 12 105) (pos 2) (pos 7)
    ∷ []

abbrev desk : Desk
desk = take_turns turns (new_desk 2 2)

take_turns_ordered_example :
    ((proposed desk.effects ++ desk.cmd_pending_buffer) ++ writes desk.cmd_pending
      ≡ writes (submitted turns))
    × AreFull 2 desk.effects
    × (length desk.cmd_pending_buffer < 2)
take_turns_ordered_example = take_turns_ordered 2 2 turns (omega arith) (omega arith)

take_turns_answered_example :
    (answers 902 desk.effects + waiting 902 desk.decision_waiting) + queued 902 desk.cmd_pending
    ≡ queued 902 (submitted turns)
take_turns_answered_example = take_turns_answered 2 2 turns 902

one_left : desk.cmd_pending_buffer ≡ buffered (command 13 3) ∷ []
unfolding take_turns take_turn exec_command drain drain_from handle_cmd register enter_waiting
    find_waiting reconfigure_if read_if buffer_if batch_if propose_batch is_read_only is_reconfig
    do_decide_read_only do_decide answer_waiting call_waiting erase_waiting execute_cmd note
    buffered
one_left = refl
