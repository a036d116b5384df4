-- ===== src/Tests/Executions.antt =====
-- A replica of cluster 0 of three, with the blocks at heights 1 and 2 in its storage.
use ava_hotstuff.Prelude.{ℕ, ◌≡◌, refl, List, [], ◌∷◌, has, arith}
use ava_hotstuff.Prelude.Assoc.{lookup}
use ava_hotstuff.Exec.Returns.{Ends}
use ava_hotstuff.Entity.Storage.{find_blk, find_blk_hash_for_cid}
use ava_hotstuff.Core.Messages.{finality}
use ava_hotstuff.Core.State.{Core, State}
use ava_hotstuff.Clusters.Tracking.{init_tracker}
use ava_hotstuff.Clusters.Heard.{heard}
use ava_hotstuff.Commands.{new_desk}
use ava_hotstuff.Execution.{Base}
use ava_hotstuff.Execution.Results.{executed}
use ava_hotstuff.Execution.Run.{Step, commits, confirms, take_steps, committed, messages}
use ava_hotstuff.Execution.Once.{due}
use ava_hotstuff.Execution.Once.Proof.{take_steps-executes}
use ava_hotstuff.Tests.{hooks, chain, holding}
use ava_hotstuff.Tests.Reconfigs.{site}
use ava_hotstuff.Tests.Others.{from}

abbrev core : Core
core = (holding chain).core

abbrev replica : State Base
replica = record {
  core = record core { storage = record core.storage { cid_blkhash = (1, 101) ∷ (2, 102) ∷ [] } };
  base = record { site = site; tracker = init_tracker 3 0; desk = new_desk 2 2; timers = [] };
}

-- The last first: height 1 is confirmed by both clusters after its commit, height 2 by one.
abbrev steps : List Step
steps = confirms (from 2 1) ∷ commits 2 ∷ confirms (from 2 2) ∷ commits 1 ∷ confirms (from 1 1) ∷ []

take_steps-executes_example :
    Ends
      (λ _ t.
        (j : ℕ)
        → executed j t.base.desk.effects
          ≡ due 3 0 replica j (committed steps) (heard j (messages steps)))
      (take_steps hooks steps replica)
unfolding find_blk find_blk_hash_for_cid lookup has
take_steps-executes_example = take_steps-executes hooks 3 0 replica (omega arith) steps refl refl (
  omega arith,
  (
    record {
      its_hash = 102;
      by_height = refl;
      by_hash = refl;
      its_height = refl;
      has_args = (omega arith, omega arith);
    },
    refl,
    (
      omega arith,
      (
        record {
          its_hash = 101;
          by_height = refl;
          by_hash = refl;
          its_height = refl;
          has_args = (omega arith, omega arith);
        },
        refl,
        (omega arith, tt),
      ),
    ),
  ),
)

only_1 :
    (due 3 0 replica 1 (committed steps) (heard 1 (messages steps)) ≡ finality 2 1 0 1 1 101 ∷ [])
    × (due 3 0 replica 2 (committed steps) (heard 2 (messages steps)) ≡ [])
unfolding has
only_1 = (refl, refl)
