-- ===== src/Handlers.antt =====
-- src/hotstuff.cpp, the handlers of what the peers send to the protocol: `propose_handler`,
-- `vote_handler`, `LComplain_handler` and `RComplain_handler`, on messages that are parsed. A promise
-- that a handler waits for is kept in a task; `settled` and `answered` are the settlements of the
-- delivery of a block and the answers of the pool of verifiers. `routed` is a record for the proofs of
-- what the handlers relay and hand over to `HotStuffCore`, newest first.
pub mod Run
pub mod Steady
pub mod Legit
pub mod Parts
pub mod Genuine
pub mod Sound
pub mod Timers
use ava_hotstuff.Prelude.{
  ℕ, Bool, true, false, Option, none, some, List, [], ◌∷◌, ◌++◌, ◌==◌, ◌&&◌, not, ltb, has,
  if◌then◌else◌,
}
use ava_hotstuff.Exec.{
  Exec, Outcome, returns, throws, fault, endless, pure, crash, gets, run, modify, zoom, ◌>>=◌, ◌>>◌,
}
use ava_hotstuff.Entity.Config.{ReplicaId, Hash, PeerId, PubKey, get_pubkey, get_peer_id}
use ava_hotstuff.Entity.Block.{Ref}
use ava_hotstuff.Entity.Storage.{find_blk_hash_for_cid}
use ava_hotstuff.Crypto.{Scheme, PartCert}
use ava_hotstuff.Core.Messages.{Proposal, Vote, Complain, cluster_proposal}
use ava_hotstuff.Core.State.{State, Hooks}
use ava_hotstuff.Core.Receive.{on_receive_proposal}
use ava_hotstuff.Core.Vote.{on_receive_vote}
use ava_hotstuff.Core.Complain.{on_receive_lcomplain, on_receive_rcomplain}
use ava_hotstuff.Clusters.Heard.{Message}
use ava_hotstuff.Fetching.{Waiting, async_deliver_blk}
use ava_hotstuff.Execution.{Base, base_hooks, receive_mc}

-- What a continuation goes on with.
pub data Job : Type 0 where
  take_proposal : Proposal → Job
  take_vote : Vote → Job
  take_lcomplain : Complain → Job

-- `promise::all` of the delivery of a block and of a verification: whether each is resolved, and what
-- the verification says.
pub record Task : Type 0 where
  pub hash : Hash
  pub there : Bool
  pub answered : Bool
  pub verdict : Bool
  pub job : Job

pub data Routed : Type 0 where
  -- a message of the other clusters that a peer sent, and that is multicast as the second proposal
  relayed : PeerId → Proposal → Proposal → List PeerId → Routed
  counted : Vote → Routed
  complained : Complain → Routed

pub record Router : Type 0 where
  pub node : State Base
  pub waiting : Waiting
  pub tasks : List Task
  pub routed : List Routed

-- `cert->verify(pubkey) && cert->get_obj_hash() == blk_hash`, of a vote and of a complaint
unfoldable pub verify_part : Scheme → PubKey → Hash → PartCert → Bool
verify_part scheme pk h cert = scheme.verify pk cert.obj_hash cert.sig && cert.obj_hash == h

unfoldable pub need : {A : Type 0} → Option A → Exec Router A
unfolding pure crash
need none = crash
need (some a) = pure a

unfoldable pub route : Routed → Exec Router (Unit {0})
route e = modify λ r. record r { routed = e ∷ r.routed }

-- An action of the replica itself.
unfoldable pub within : {A : Type 0} → Exec (State Base) A → Exec Router A
unfolding zoom
within m = zoom (λ r. r.node) (λ n r. record r { node = n }) m

abbrev is_some : Option Ref → Bool
is_some none = false
is_some (some r) = true

-- `async_deliver_blk`; true if its promise is resolved at once.
unfoldable pub await : Hash → PeerId → Exec Router Bool
unfolding async_deliver_blk
await h peer = run λ r.
    let (found, s) = async_deliver_blk h peer (record { core = r.node.core; base = r.waiting }) in
    (is_some found, record r { node = record r.node { core = s.core }; waiting = s.base })

-- The tasks that still wait.
unfoldable pub unready : List Task → List Task
unready [] = []
unready (t ∷ ts) = if t.there && t.answered then unready ts else t ∷ unready ts

module _ (outer : Hooks (Unit {0})) where
  -- The continuations.
  unfoldable pub run_job : Bool → Job → Exec Router (Unit {0})
  unfolding within route on_receive_proposal on_receive_vote on_receive_lcomplain
  run_job verdict (take_proposal p) = within (on_receive_proposal (base_hooks outer) p)
  run_job true (take_vote v) = do route (counted v); within (on_receive_vote (base_hooks outer) v)
  run_job true (take_lcomplain v) = do
    route (complained v)
    within (on_receive_lcomplain (base_hooks outer) v)
  run_job false (take_vote v) = pure tt
  run_job false (take_lcomplain v) = pure tt

  -- `promise::all(...).then(...)`
  unfoldable pub enlist : Task → Exec Router (Unit {0})
  unfolding run_job
  enlist t =
      if t.there && t.answered
      then run_job t.verdict t.job
      else modify λ r. record r { tasks = r.tasks ++ t ∷ [] }

  unfoldable pub run_ready : List Task → Exec Router (Unit {0})
  unfolding run_job
  run_ready [] = pure tt
  run_ready (t ∷ ts) =
      if t.there && t.answered then (do run_job t.verdict t.job; run_ready ts) else run_ready ts

  -- The promises of some tasks are resolved: those whose two are run, in their order.
  unfoldable pub resolve : (List Task → List Task) → Exec Router (Unit {0})
  unfolding run_ready unready
  resolve f = do ts ← gets λ r. f r.tasks; modify λ r. record r { tasks = unready ts }; run_ready ts

  -- `verify(vpool)` of a vote, whose answer comes later: the key is read at once.
  unfoldable pub verify_later : ReplicaId → Hash → PartCert → Exec Router Bool
  unfolding need get_pubkey verify_part
  verify_later voter h cert = do
    config ← gets λ r. r.node.core.config
    pk ← need (get_pubkey config voter)
    pure (verify_part outer.scheme pk h cert)

  unfoldable pub wait_for : Hash → PeerId → ReplicaId → PartCert → Job → Exec Router (Unit {0})
  unfolding await verify_later enlist
  wait_for h peer voter cert job = do
    there ← await h peer
    verdict ← verify_later voter h cert
    enlist (record { hash = h; there = there; answered = false; verdict = verdict; job = job })

  -- A message from a peer of no name is dropped.
  unfoldable pub vote_handler : Option PeerId → Vote → Exec Router (Unit {0})
  unfolding wait_for
  vote_handler none v = pure tt
  vote_handler (some peer) v = wait_for v.blk_hash peer v.voter v.cert (take_vote v)

  unfoldable pub lcomplain_handler : Option PeerId → Complain → Exec Router (Unit {0})
  unfolding wait_for
  lcomplain_handler none v = pure tt
  lcomplain_handler (some peer) v = wait_for v.blk_hash peer v.voter v.cert (take_lcomplain v)

  -- The block is the replica's own of that height; the signature is not verified.
  unfoldable pub rcomplain_handler : Option PeerId → Complain → Exec Router (Unit {0})
  unfolding need within find_blk_hash_for_cid on_receive_rcomplain
  rcomplain_handler none v = pure tt
  rcomplain_handler (some peer) v = do
    storage ← gets λ r. r.node.core.storage
    h ← need (find_blk_hash_for_cid storage v.blk_height)
    within (on_receive_rcomplain (base_hooks outer) (record v { blk_hash = h }))

  -- `receive_mc_local(prop)`
  unfoldable pub receive_proposal_mc : Proposal → Exec Router (Unit {0})
  unfolding need within receive_mc
  receive_proposal_mc p = do
    cluster ← need p.pre_amp_cluster_number
    count ← need p.reconfig_count
    within (
        receive_mc outer (record {
          cluster = cluster;
          height = p.other_cluster_block_height;
          reconfig_count = count;
          leave_set = p.current_peer_set;
        }))

  -- A message of another cluster is passed on in the own one, unless its height is finished.
  unfoldable pub relay_mc : PeerId → Proposal → Exec Router (Unit {0})
  unfolding need route receive_proposal_mc
  relay_mc peer p = do
    s ← gets λ r. r.node
    cluster ← need p.cluster_number
    count ← need p.reconfig_count
    let second =
        cluster_proposal s.core.id p.blk s.core.cluster_id cluster p.other_cluster_block_height 2
          p.current_peer_set count
    if has p.other_cluster_block_height s.base.tracker.finished_mc_cids then pure tt else (do
      route (relayed peer p second s.base.site.peers_current)
      receive_proposal_mc second)

  -- In the own cluster the proposer that is named should be the peer.
  unfoldable pub is_from : PeerId → Proposal → Exec Router Bool
  unfolding need get_peer_id
  is_from peer p = do
    c ← gets λ r. r.node.core
    cluster ← need p.cluster_number
    if c.cluster_id == cluster
        then (do proposer ← need (get_peer_id c.config p.proposer); pure (peer == proposer))
        else pure true

  unfoldable pub route_proposal : PeerId → ℕ → Proposal → Exec Router (Unit {0})
  unfolding relay_mc receive_proposal_mc await enlist
  route_proposal peer msg_type p =
      if msg_type == 1
      then relay_mc peer p
      else if msg_type == 2
      then receive_proposal_mc p
      else (do
        h ← gets λ r. (r.node.core.heap p.blk).hash
        there ← await h peer
        enlist (record {
          hash = h;
          there = there;
          answered = true;
          verdict = true;
          job = take_proposal p;
        }))

  unfoldable pub propose_handler : Option PeerId → Proposal → Exec Router (Unit {0})
  unfolding is_from need route_proposal
  propose_handler none p = pure tt
  propose_handler (some peer) p = do
    genuine ← is_from peer p
    msg_type ← need p.msg_type
    if not genuine && ltb msg_type 3 then pure tt else route_proposal peer msg_type p
