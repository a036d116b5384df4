-- ===== src/Execution/Run.antt =====
-- Commits (src/consensus.cpp) and the confirmations of the other clusters (src/hotstuff.cpp), in any
-- order.
use ava_hotstuff.Prelude.{List, [], ◌∷◌}
use ava_hotstuff.Exec.{Exec, pure, ◌>>◌}
use ava_hotstuff.Entity.Block.{Ref}
use ava_hotstuff.Core.State.{State, Hooks}
use ava_hotstuff.Core.Update.{commit_one}
use ava_hotstuff.Clusters.Heard.{Message}
use ava_hotstuff.Execution.{Base, base_hooks, receive_mc}

pub data Step : Type 0 where
  commits : Ref → Step
  confirms : Message → Step

module _ (outer : Hooks (Unit {0})) where
  unfoldable pub take_step : Step → Exec (State Base) (Unit {0})
  unfolding commit_one receive_mc
  take_step (commits r) = commit_one (base_hooks outer) r
  take_step (confirms m) = receive_mc outer m

  -- The steps of a list, the last first.
  unfoldable pub take_steps : List Step → Exec (State Base) (Unit {0})
  unfolding take_step
  take_steps [] = pure tt
  take_steps (i ∷ steps) = do take_steps steps; take_step i

abbrev pub committed : List Step → List Ref
committed [] = []
committed (commits r ∷ steps) = r ∷ committed steps
committed (confirms m ∷ steps) = committed steps

abbrev pub messages : List Step → List Message
messages [] = []
messages (commits r ∷ steps) = messages steps
messages (confirms m ∷ steps) = m ∷ messages steps
