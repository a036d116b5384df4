-- ===== src/Tests/Routes.antt =====
-- The replica of the parent module, of cluster 1 of three, and messages of its peers.
use ava_hotstuff.Prelude.{ℕ, ◌≡◌, refl, none, some, List, [], ◌∷◌}
use ava_hotstuff.Prelude.Int.{◌-ℤ◌}
use ava_hotstuff.Exec.{◌>>=◌}
use ava_hotstuff.Core.Messages.{Vote, cluster_proposal}
use ava_hotstuff.Core.State.{State, load, store, deref, emit}
use ava_hotstuff.Clusters.Tracking.{init_tracker}
use ava_hotstuff.Commands.{new_desk}
use ava_hotstuff.Execution.{Base}
use ava_hotstuff.Fetching.{nothing_waits}
use ava_hotstuff.Handlers.{Router, counted, relayed}
use ava_hotstuff.Handlers.Run.{Input, msg_propose, msg_vote, answered, handle_all}
use ava_hotstuff.Handlers.Legit.{AllLegit}
use ava_hotstuff.Handlers.Sound.{handle_all-AllLegit}
use ava_hotstuff.Tests.{hooks, chain, holding}
use ava_hotstuff.Tests.Reconfigs.{site}

abbrev pub node : State Base
node = record {
  core = (holding chain).core;
  base = record { site = site; tracker = init_tracker 3 1; desk = new_desk 2 2; timers = [] };
}

-- Votes of replica 0 for block 4, one with a wrong signature; a message of cluster 2 about height 4; and
-- one that claims to be of the own cluster and does not come from the proposer that it names.
abbrev vote_with : ℕ → Vote
vote_with sig = record { voter = 0; blk_hash = 104; cert = record { obj_hash = 104; sig = sig } }

abbrev inputs : List Input
inputs =
    msg_vote (some 50) (vote_with 9)
    ∷ msg_vote (some 50) (vote_with 111)
    ∷ answered 0
    ∷ answered 0
    ∷ msg_propose (some 99) (cluster_proposal 1 4 2 2 4 1 [] 0)
    ∷ msg_propose (some 99) (cluster_proposal 3 4 1 1 4 1 [] 0)
    ∷ []

abbrev before : Router
before = record { node = node; waiting = nothing_waits; tasks = []; routed = [] }

abbrev after : Router
after = elim (handle_all hooks inputs before) [ none ↦ before | some r ↦ r ]

handles : handle_all hooks inputs before ≡ some after
unfolding handle_all ◌>>=◌ load store deref emit ◌-ℤ◌
handles = refl

-- The vote that is signed is counted, and the message of cluster 2 is passed on.
two_routed :
    after.routed
    ≡ relayed 99
        (cluster_proposal 1 4 2 2 4 1 [] 0)
        (cluster_proposal 2 4 1 2 4 2 [] 0)
        site.peers_current
      ∷ counted (vote_with 111)
      ∷ []
unfolding handle_all ◌>>=◌ load store deref emit ◌-ℤ◌
two_routed = refl

handle_all-AllLegit_example : AllLegit hooks node.core.config node.core.cluster_id after.routed
handle_all-AllLegit_example = handle_all-AllLegit hooks inputs node nothing_waits after handles
