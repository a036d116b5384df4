-- ===== src/Commands.antt =====
-- src/hotstuff.cpp, the commands of the clients: `exec_command`, the handler of `cmd_pending` that
-- `start_mc` registers, `do_decide`, `do_decide_read_only` and `send_reconfig_ack`. A client's
-- callback is a number. What a command does outside of the fields of `HotStuffBase` is recorded in
-- `effects`, newest first.
pub mod Run
pub mod Idle
pub mod Batches
pub mod Order
pub mod Answers
use ava_hotstuff.Prelude.{
  ℕ, suc, ◌+◌, ◌-◌, ◌%◌, Bool, true, false, Option, none, some, List, [], ◌∷◌, ◌++◌, ◌==◌, leb, ltb,
  map, take, drop, length, if◌then◌else◌,
}
use ava_hotstuff.Prelude.Int.{ℤ, pos, negsuc}
use ava_hotstuff.Entity.Config.{ReplicaId, Hash}
use ava_hotstuff.Core.Messages.{Finality, finality, Recs}

abbrev pub Callback : Type 0
Callback = ℕ

-- `ClientCommandVars`; the node and the cluster by their 32-bit patterns
pub record ClientCommandVars : Type 0 where
  pub cmd_hash : Hash
  pub key : ℤ
  pub val : ℤ
  pub cluster_number : ℕ
  pub node_number : ℕ
  pub reconfig_mode : ℤ

pub data Effect : Type 0 where
  -- the call of a client's callback
  answer : Callback → Finality → Effect
  -- `state_machine_execute`, and `db_write`
  execute : Finality → Effect
  db_write : ℤ → ℤ → Effect
  -- `pmaker->beat()`, with the commands that are proposed once it answers
  beat : List ClientCommandVars → Effect
  -- `send_reconfig_ack`, the part that goes to the proposer
  ack : Recs → Effect

pub record Desk : Type 0 where
  pub id : ReplicaId
  pub blk_size : ℕ
  pub cmd_pending : List (ClientCommandVars × Callback)
  pub cmd_pending_buffer : List ClientCommandVars
  pub decision_waiting : List (Hash × Callback)
  pub part_decided : ℕ
  pub effects : List Effect

abbrev pub new_desk : ReplicaId → ℕ → Desk
new_desk id blk_size = record {
  id = id;
  blk_size = blk_size;
  cmd_pending = [];
  cmd_pending_buffer = [];
  decision_waiting = [];
  part_decided = 0;
  effects = [];
}

unfoldable pub note : Effect → Desk → Desk
note e s = record s { effects = e ∷ s.effects }

-- `exec_command`
unfoldable pub exec_command : ClientCommandVars → Callback → Desk → Desk
exec_command c cb s = record s { cmd_pending = s.cmd_pending ++ (c, cb) ∷ [] }

-- `decision_waiting.find(h)`, and what is left after `erase`
unfoldable pub find_waiting : Hash → List (Hash × Callback) → Option Callback
find_waiting h [] = none
find_waiting h ((j, cb) ∷ m) = if j == h then some cb else find_waiting h m

unfoldable pub erase_waiting : Hash → List (Hash × Callback) → List (Hash × Callback)
erase_waiting h [] = []
erase_waiting h ((j, cb) ∷ m) = if j == h then m else (j, cb) ∷ erase_waiting h m

-- `it->second(std::move(fin)); decision_waiting.erase(it);`
unfoldable pub call_waiting : Option Callback → Finality → Desk → Desk
unfolding erase_waiting
call_waiting none fin s = s
call_waiting (some cb) fin s = record s {
  decision_waiting = erase_waiting fin.cmd_hash s.decision_waiting;
  effects = answer cb fin ∷ s.effects;
}

unfoldable pub answer_waiting : Finality → Desk → Desk
unfolding find_waiting call_waiting
answer_waiting fin s = call_waiting (find_waiting fin.cmd_hash s.decision_waiting) fin s

-- `part_decided` is a `uint32_t` that only the statistics read.
unfoldable pub execute_cmd : Finality → Desk → Desk
unfolding note
execute_cmd fin s = note (execute fin) (record s { part_decided = s.part_decided + 1 })

unfoldable pub do_decide_read_only : Finality → Desk → Desk
unfolding execute_cmd answer_waiting
do_decide_read_only fin s = answer_waiting fin (execute_cmd fin s)

unfoldable pub send_reconfig_ack : Finality → Recs → Desk → Desk
unfolding execute_cmd answer_waiting note
send_reconfig_ack fin r s = note (ack r) (answer_waiting fin (execute_cmd fin s))

unfoldable pub do_decide : Finality → ℤ → ℤ → Desk → Desk
unfolding execute_cmd answer_waiting note
do_decide fin key val s = answer_waiting fin (note (db_write key val) (execute_cmd fin s))

-- `key % 100 > 15`: the remainder of a negative number is not positive.
unfoldable pub is_read_only : ℤ → Bool
is_read_only (pos n) = ltb 15 (n % 100)
is_read_only (negsuc n) = false

-- `reconfig_number >= 0`
unfoldable pub is_reconfig : ℤ → Bool
is_reconfig (pos n) = true
is_reconfig (negsuc n) = false

-- A mode that is not negative, as a number.
unfoldable pub mode_of : ℤ → ℕ
mode_of (pos n) = n
mode_of (negsuc n) = 0

unfoldable pub enter_waiting : Option Callback → ClientCommandVars → Callback → Desk → Desk
unfolding note
enter_waiting none c cb s = record s { decision_waiting = (c.cmd_hash, cb) ∷ s.decision_waiting }
enter_waiting (some old) c cb s = note (answer cb (finality s.id 0 0 0 c.cmd_hash 0)) s

-- The callback waits for its command, or is answered at once if another one waits for it.
unfoldable pub register : ClientCommandVars → Callback → Desk → Desk
unfolding find_waiting enter_waiting
register c cb s = enter_waiting (find_waiting c.cmd_hash s.decision_waiting) c cb s

unfoldable pub reconfigure_if : ClientCommandVars → Desk → Desk
unfolding is_reconfig send_reconfig_ack mode_of
reconfigure_if c s =
    if is_reconfig c.reconfig_mode
    then send_reconfig_ack (finality s.id 1 0 0 c.cmd_hash 0)
        (record {
          cluster_number = c.cluster_number;
          node_number = c.node_number;
          reconfig_mode = mode_of c.reconfig_mode;
        })
        s
    else s

unfoldable pub read_if : ClientCommandVars → Desk → Desk
unfolding is_read_only do_decide_read_only
read_if c s =
    if is_read_only c.key then do_decide_read_only (finality s.id 1 0 0 c.cmd_hash 0) s else s

-- `cmd_pending_buffer.push(ClientCommandVars{...})`, which leaves the mode out.
unfoldable pub buffered : ClientCommandVars → ClientCommandVars
buffered c = record c { reconfig_mode = pos 0 }

unfoldable pub buffer_if : ClientCommandVars → Desk → Desk
unfolding is_read_only buffered
buffer_if c s =
    if is_read_only c.key
    then s
    else record s { cmd_pending_buffer = s.cmd_pending_buffer ++ buffered c ∷ [] }

-- A block's worth of commands leaves the buffer.
unfoldable pub propose_batch : Desk → Desk
unfolding note
propose_batch s =
    note (beat (take s.blk_size s.cmd_pending_buffer))
      (record s { cmd_pending_buffer = drop s.blk_size s.cmd_pending_buffer })

-- True if the handler returns.
unfoldable pub batch_if : Desk → Bool × Desk
unfolding propose_batch
batch_if s =
    if leb s.blk_size (length s.cmd_pending_buffer) then (true, propose_batch s) else (false, s)

-- One round of the loop of the handler.
unfoldable pub handle_cmd : ReplicaId → ClientCommandVars → Callback → Desk → Bool × Desk
unfolding register reconfigure_if read_if buffer_if batch_if
handle_cmd proposer c cb s =
    let s' = read_if c (reconfigure_if c (register c cb s)) in
    if proposer == s.id then batch_if (buffer_if c s') else (false, s')

unfoldable pub drain_from : ReplicaId → List (ClientCommandVars × Callback) → Desk → Desk
unfolding handle_cmd
drain_from proposer [] s = record s { cmd_pending = [] }
drain_from proposer ((c, cb) ∷ es) s =
    let (stop, s') = handle_cmd proposer c cb s in
    let rest = drain_from proposer es s' in if stop then record s' { cmd_pending = es } else rest

-- The handler of `cmd_pending`, where `proposer` is that of the pacemaker.
unfoldable pub drain : ReplicaId → Desk → Desk
unfolding drain_from
drain proposer s = drain_from proposer s.cmd_pending s
