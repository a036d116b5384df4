-- ===== src/Reconfig/Run.antt =====
-- Any sequence of the inputs of src/hotstuff.cpp that take part in a reconfiguration.
use ava_hotstuff.Prelude.{ℕ, Option, none, some, List, [], ◌∷◌}
use ava_hotstuff.Entity.Config.{ReplicaId}
use ava_hotstuff.Core.Messages.{Recs}
use ava_hotstuff.Reconfig.{Site, on_recs, acknowledge, on_recs_agg_echo_ready, get_leave_set}

pub data Input : Type 0 where
  -- `MsgRecs` and the acknowledgement of one's own client, with the proposer of the time
  recs ack : ReplicaId → Recs → Input
  -- `MsgRecsAggEchoReady`
  phase : ℕ → Recs → ℕ → Input
  ask_leave_set : Input

unfoldable pub react : Input → Site → Option Site
unfolding on_recs acknowledge on_recs_agg_echo_ready get_leave_set
react (recs proposer r) s = some (on_recs proposer r s)
react (ack proposer r) s = some (acknowledge proposer r s)
react (phase type r count) s = on_recs_agg_echo_ready type r count s
react ask_leave_set s = some (get_leave_set s).1

abbrev pub continue : Option Site → (Site → Option Site) → Option Site
continue none k = none
continue (some s) k = k s

unfoldable pub react_all : List Input → Site → Option Site
unfolding react
react_all [] s = some s
react_all (i ∷ is) s = continue (react i s) (react_all is)
