-- ===== src/Commands/Run.antt =====
-- Any sequence of calls of src/hotstuff.cpp that handle the commands of the clients.
use ava_hotstuff.Prelude.{List, [], ◌∷◌}
use ava_hotstuff.Prelude.Int.{ℤ}
use ava_hotstuff.Entity.Config.{ReplicaId}
use ava_hotstuff.Core.Messages.{Finality}
use ava_hotstuff.Commands.{Callback, ClientCommandVars, Desk, exec_command, drain, do_decide}

pub data Turn : Type 0 where
  submit : ClientCommandVars → Callback → Turn
  -- the handler of `cmd_pending`, with the proposer of the time
  handle : ReplicaId → Turn
  decided : Finality → ℤ → ℤ → Turn

unfoldable pub take_turn : Turn → Desk → Desk
unfolding exec_command drain do_decide
take_turn (submit c cb) s = exec_command c cb s
take_turn (handle proposer) s = drain proposer s
take_turn (decided fin key val) s = do_decide fin key val s

unfoldable pub take_turns : List Turn → Desk → Desk
unfolding take_turn
take_turns [] s = s
take_turns (t ∷ ts) s = take_turns ts (take_turn t s)
