-- ===== src/Reconfig.antt =====
-- src/hotstuff.cpp, the reconfiguration of a cluster: a node's request to join or to leave is
-- acknowledged to the proposer (`send_reconfig_ack`, `MsgRecs_handler`) and agreed on in three phases
-- (`MsgRecsAggEchoReady_handler`). A message to oneself or from a peer of no name is not modelled; the
-- counts are `int`s that do not overflow. `none` is a read of `all_peers` out of range.
pub mod Run
pub mod Changes
pub mod Current
pub mod Peers
pub mod Ready
use ava_hotstuff.Prelude.{
  ℕ, ◌+◌, Bool, true, false, not, ◌&&◌, Option, none, some, List, [], ◌∷◌, ◌==◌, ltb, length,
  get_elem?, has, insert, erase, if◌then◌else◌,
}
use ava_hotstuff.Prelude.Assoc.{lookup, put, or_new}
use ava_hotstuff.Entity.Config.{ReplicaId, PeerId, ReplicaConfig, update_config_parameters}
use ava_hotstuff.Core.Messages.{Recs}

-- `My_AGG`, `My_ECHO` and `My_READY`
abbrev pub my_agg : ℕ
my_agg = 0

abbrev pub my_echo : ℕ
my_echo = 1

abbrev pub my_ready : ℕ
my_ready = 2

-- What is handed to the network.
pub data Sent : Type 0 where
  -- `MsgRecsAggEchoReady(r, type, count)` to all of the peers, and to one
  multicast : ℕ → Recs → ℕ → List PeerId → Sent
  send_one : ℕ → Recs → ℕ → PeerId → Sent
  -- `MsgRecs(r)` to the proposer
  send_recs : Recs → ReplicaId → Sent

-- The fields of `HotStuffBase` that take part; `sent` is newest first.
pub record Site : Type 0 where
  pub id : ReplicaId
  pub config : ReplicaConfig
  pub peers : List PeerId
  pub all_peers : List PeerId
  pub peers_current : List PeerId
  pub leave_set : List PeerId
  pub leave_set_int : List ℕ
  pub pending_recs : List (Recs × ℕ)
  pub reconfig_echo_counter : List (ℕ × ℕ)
  pub reconfig_ready_counter : List (ℕ × ℕ)
  pub reconfig_count : ℕ
  pub reconfig_sent : ℕ
  pub sent : List Sent

-- `recs::operator==`
unfoldable pub same_recs : Recs → Recs → Bool
same_recs a b =
    a.cluster_number == b.cluster_number
    && a.node_number == b.node_number
    && a.reconfig_mode == b.reconfig_mode

-- `pending_recs[r]`, and `pending_recs[r]++`
unfoldable pub recs_count : Recs → List (Recs × ℕ) → ℕ
unfolding same_recs
recs_count r [] = 0
recs_count r ((q, n) ∷ m) = if same_recs q r then n else recs_count r m

unfoldable pub bump_recs : Recs → List (Recs × ℕ) → List (Recs × ℕ)
unfolding same_recs
bump_recs r [] = (r, 1) ∷ []
bump_recs r ((q, n) ∷ m) = if same_recs q r then (q, n + 1) ∷ m else (q, n) ∷ bump_recs r m

-- `counter[count]`, and `counter[count]++`
unfoldable pub tally : ℕ → List (ℕ × ℕ) → ℕ
unfolding lookup
tally count m = or_new (lookup count m) 0

unfoldable pub bump_tally : ℕ → List (ℕ × ℕ) → List (ℕ × ℕ)
unfolding tally put
bump_tally count m = put count (tally count m + 1) m

unfoldable pub send : Sent → Site → Site
send m s = record s { sent = m ∷ s.sent }

unfoldable pub count_echo : ℕ → Site → Site
unfolding bump_tally
count_echo count s = record s { reconfig_echo_counter = bump_tally count s.reconfig_echo_counter }

unfoldable pub count_ready : ℕ → Site → Site
unfolding bump_tally
count_ready count s = record s {
  reconfig_ready_counter = bump_tally count s.reconfig_ready_counter;
}

unfoldable pub count_recs : Recs → Site → Site
unfolding bump_recs
count_recs r s = record s { pending_recs = bump_recs r s.pending_recs }

-- The proposer starts the agreement on a request.
unfoldable pub start_agreement : Recs → Site → Site
unfolding send count_echo
start_agreement r s =
    let count = s.reconfig_count + 1 in
    let s' = record s { reconfig_count = count } in
    count_echo count (
      send (multicast my_echo r count s.peers_current)
        (send (multicast my_agg r count s.peers_current) s'))

-- More than a majority do nothing more.
unfoldable pub on_counted_recs : Recs → Site → Site
unfolding recs_count start_agreement
on_counted_recs r s =
    if recs_count r s.pending_recs == s.config.nmajority then start_agreement r s else s

-- `MsgRecs_handler`
unfoldable pub on_recs : ReplicaId → Recs → Site → Site
unfolding count_recs on_counted_recs
on_recs proposer r s = if s.id == proposer then on_counted_recs r (count_recs r s) else s

-- The last part of `send_reconfig_ack`.
unfoldable pub acknowledge : ReplicaId → Recs → Site → Site
unfolding send count_recs
acknowledge proposer r s =
    if s.id == proposer then count_recs r s else send (send_recs r proposer) s

unfoldable pub on_agg : Recs → ℕ → Site → Site
unfolding send count_echo
on_agg r count s = count_echo count (send (multicast my_echo r count s.peers_current) s)

unfoldable pub send_ready : Recs → ℕ → Site → Option Site
unfolding send count_ready
send_ready r count s = elim (get_elem? s.all_peers r.node_number) [
  | none ↦ none
  | some peer ↦ some (
      count_ready count (
        send (send_one my_ready r count peer)
          (send (multicast my_ready r count s.peers_current) s)))
]

unfoldable pub on_echo : Recs → ℕ → Site → Option Site
unfolding count_echo send_ready tally
on_echo r count s =
    let s' = count_echo count s in
    if tally count s'.reconfig_echo_counter == s'.config.nmajority
    then send_ready r count s'
    else some s'

-- `peers_current`: the peers that have not left.
unfoldable pub staying : List PeerId → List PeerId → List PeerId
unfolding has
staying leave_set [] = []
staying leave_set (p ∷ ps) =
    if has p leave_set then staying leave_set ps else p ∷ staying leave_set ps

unfoldable pub refresh : Site → Site
unfolding staying update_config_parameters
refresh s =
    let current = staying s.leave_set s.peers in
    record s {
      peers_current = current;
      config = update_config_parameters s.config (length current);
    }

unfoldable pub leave : PeerId → ℕ → Site → Site
unfolding refresh insert
leave peer node s =
    refresh (record s {
      leave_set = insert peer s.leave_set;
      leave_set_int = insert node s.leave_set_int;
    })

unfoldable pub join : PeerId → ℕ → Site → Site
unfolding refresh erase
join peer node s =
    refresh
      (record s { leave_set = erase peer s.leave_set; leave_set_int = erase node s.leave_set_int })

unfoldable pub take_over : Recs → Site → Option Site
unfolding leave join
take_over r s = elim (get_elem? s.all_peers r.node_number) [
  | none ↦ none
  | some peer ↦ some (
      if r.reconfig_mode == 1
      then leave peer r.node_number s
      else if r.reconfig_mode == 0
      then join peer r.node_number s
      else s)
]

unfoldable pub on_ready : Recs → ℕ → Site → Option Site
unfolding count_ready take_over tally
on_ready r count s =
    let s' = count_ready count s in
    if tally count s'.reconfig_ready_counter == s'.config.nmajority then take_over r s' else some s'

-- `MsgRecsAggEchoReady_handler`
unfoldable pub on_recs_agg_echo_ready : ℕ → Recs → ℕ → Site → Option Site
unfolding on_agg on_echo on_ready
on_recs_agg_echo_ready type r count s =
    if type == my_agg
    then some (on_agg r count s)
    else if type == my_echo
    then on_echo r count s
    else if type == my_ready
    then on_ready r count s
    else some s

-- `get_leave_set`: the nodes that have left, once after each reconfiguration that was started.
unfoldable pub get_leave_set : Site → (ℕ × List ℕ) × Site
get_leave_set s =
    if ltb s.reconfig_sent s.reconfig_count
    then ((s.reconfig_count, s.leave_set_int), record s { reconfig_sent = s.reconfig_count })
    else ((s.reconfig_count, []), s)
