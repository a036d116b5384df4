-- ===== src/Handlers/Sound.antt =====
-- That every input is handled soundly, by any replica and from any peer.
use ava_hotstuff.Prelude.{
  ℕ, zero, suc, ◌≡◌, refl, subst, true, false, none, some, List, [], ◌∷◌, ◌==◌, Bool-cases, inl,
  inr,
}
use ava_hotstuff.Exec.{left_by, Outcome, returns, throws, fault, endless}
use ava_hotstuff.Exec.Keeps.{Preorder, Keeps, Keeps-pure, Leaves}
use ava_hotstuff.Entity.Config.{Hash, ReplicaConfig}
use ava_hotstuff.Core.State.{State, Hooks}
use ava_hotstuff.Execution.{Base}
use ava_hotstuff.Fetching.{Waiting}
use ava_hotstuff.Handlers.{take_vote, take_lcomplain, Task, Router, vote_handler, lcomplain_handler}
use ava_hotstuff.Handlers.Run.{
  Input, msg_propose, msg_vote, msg_lcomplain, msg_rcomplain, settled, answered, arrive, give_up,
  answer_at, handle, handle_all, handle_from,
}
use ava_hotstuff.Handlers.Legit.{
  AllLegit, AllWarranted, IsSound, Soundly, Soundly-preorder, given, resolve-Soundly,
}
use ava_hotstuff.Handlers.Parts.{wait_for-Soundly, rcomplain_handler-Soundly}
use ava_hotstuff.Handlers.Genuine.{propose_handler-Soundly}

module _ (outer : Hooks (Unit {0})) (config : ReplicaConfig) (own : ℕ) where
  abbrev Sound : Router → Router → Type 0
  Sound = Soundly outer config own

  abbrev Holds : Router → Type 0
  Holds = IsSound outer config own

  abbrev order : Preorder Sound
  order = Soundly-preorder outer config own

  arrive-AllWarranted :
      (h : Hash) (ts : List Task)
      → AllWarranted outer config own ts
      → AllWarranted outer config own (arrive h ts)
  unfolding arrive
  arrive-AllWarranted h [] ws = tt
  arrive-AllWarranted h (t ∷ ts) (w, ws) = elim (Bool-cases (t.hash == h)) [
    | inl e ↦ rw e (w, arrive-AllWarranted h ts ws)
    | inr e ↦ rw e (w, arrive-AllWarranted h ts ws)
  ]

  give_up-AllWarranted :
      (h : Hash) (ts : List Task)
      → AllWarranted outer config own ts
      → AllWarranted outer config own (give_up h ts)
  unfolding give_up
  give_up-AllWarranted h [] ws = tt
  give_up-AllWarranted h (t ∷ ts) (w, ws) = elim (Bool-cases (t.hash == h)) [
    | inl e ↦ rw e (give_up-AllWarranted h ts ws)
    | inr e ↦ rw e (w, give_up-AllWarranted h ts ws)
  ]

  answer_at-AllWarranted :
      (i : ℕ) (ts : List Task)
      → AllWarranted outer config own ts
      → AllWarranted outer config own (answer_at i ts)
  unfolding answer_at
  answer_at-AllWarranted i [] ws = tt
  answer_at-AllWarranted zero (t ∷ ts) ws = ws
  answer_at-AllWarranted (suc i) (t ∷ ts) (w, ws) = (w, answer_at-AllWarranted i ts ws)

  handle-Soundly : (i : Input) → Keeps Sound (handle outer i)
  unfolding handle vote_handler lcomplain_handler
  handle-Soundly (msg_propose peer p) = propose_handler-Soundly outer config own peer p
  handle-Soundly (msg_vote none v) = Keeps-pure order tt
  handle-Soundly (msg_vote (some peer) v) =
      wait_for-Soundly outer config own v.blk_hash peer v.voter v.cert (take_vote v) λ verdict f. f
  handle-Soundly (msg_lcomplain none v) = Keeps-pure order tt
  handle-Soundly (msg_lcomplain (some peer) v) =
      wait_for-Soundly outer config own v.blk_hash peer v.voter v.cert (take_lcomplain v)
        λ verdict f. f
  handle-Soundly (msg_rcomplain peer v) = rcomplain_handler-Soundly outer config own peer v
  handle-Soundly (settled h true) =
      resolve-Soundly outer config own (arrive h) (arrive-AllWarranted h)
  handle-Soundly (settled h false) =
      resolve-Soundly outer config own (give_up h) (give_up-AllWarranted h)
  handle-Soundly (answered i) =
      resolve-Soundly outer config own (answer_at i) (answer_at-AllWarranted i)

  handle_from-IsSound :
      {A : Type 0} (q : Router) (is : List Input) (o : Outcome Router A)
      → Leaves Holds o
      → ((u : Router)
          → IsSound outer config own u
          → handle_all outer is u ≡ some q
          → IsSound outer config own q)
      → handle_from outer is (left_by o) ≡ some q
      → IsSound outer config own q
  handle_from-IsSound q is (returns a u) g next e = next u g e
  handle_from-IsSound q is (throws x u) g next e = next u g e
  handle_from-IsSound q is fault g next e = cc
  handle_from-IsSound q is endless g next e = cc

  handle_all-IsSound :
      (is : List Input) (r q : Router)
      → IsSound outer config own r
      → handle_all outer is r ≡ some q
      → IsSound outer config own q
  unfolding handle_all
  handle_all-IsSound [] r q g e = let same : r ≡ q = cc in subst Holds same g
  handle_all-IsSound (i ∷ is) r q g e =
      handle_from-IsSound q is (handle outer i r) (given outer config own (handle-Soundly i) r g)
        (λ u. handle_all-IsSound is u q) e

-- Along any sequence of messages, settled deliveries and answers of the verifiers, exceptions included,
-- from a replica where nothing waits: each vote and each local complaint that a handler hands over to
-- `HotStuffCore` is of a replica of the configuration, and its signature of the block's hash verifies
-- under that replica's key; and each message of another cluster that is passed on, if it claims to be
-- of the own cluster, came from the peer that is the proposer it names.
pub handle_all-AllLegit :
    (outer : Hooks (Unit {0})) (is : List Input) (node : State Base) (waiting : Waiting)
    (q : Router)
    → handle_all outer is (record { node = node; waiting = waiting; tasks = []; routed = [] })
      ≡ some q
    → AllLegit outer node.core.config node.core.cluster_id q.routed
handle_all-AllLegit outer is node waiting q e =
    (handle_all-IsSound outer node.core.config node.core.cluster_id is
      (record { node = node; waiting = waiting; tasks = []; routed = [] }) q
      (record { config_eq = refl; cluster_eq = refl; warranted = tt; legit = tt }) e).legit
