-- ===== src/Tests/Ancestors.antt =====
-- A replica that starts, and is given a block on the genesis block, a second one on the first, and the
-- proposal of the second.
use ava_hotstuff.Prelude.{ℕ, ◌≡◌, refl, ◌⊎◌, true, none, some, List, [], ◌∷◌, arith}
use ava_hotstuff.Exec.{◌>>=◌}
use ava_hotstuff.Exec.Returns.{Ends}
use ava_hotstuff.Entity.Block.{Block, blank}
use ava_hotstuff.Crypto.{dummy}
use ava_hotstuff.Core.Messages.{plain_proposal}
use ava_hotstuff.Core.State.{State, init_core, load, store, first, deref, emit, push_event}
use ava_hotstuff.Core.Receive.{accept}
use ava_hotstuff.Core.Setup.{start_mc}
use ava_hotstuff.Core.Run.{Call, fetch, deliver, receive_proposal, perform, run_calls}
use ava_hotstuff.Core.Ancestry.{IsGrounded}
use ava_hotstuff.Core.Ancestry.Climbing.{Decides}
use ava_hotstuff.Core.Ancestry.Commit.{CommitsPath, Conflicts}
use ava_hotstuff.Core.Ancestry.Run.{AreParsed, started, run_calls-IsGrounded}
use ava_hotstuff.Core.Ancestry.Decided.{run_calls-accept, run_calls-commit}
use ava_hotstuff.Tests.{hooks, info}

abbrev beginning : State (Unit {0})
beginning = started hooks 0 0 3 (info 0 ∷ info 1 ∷ info 2 ∷ info 3 ∷ []) tt

abbrev genesis_hash : ℕ
genesis_hash = (beginning.core.heap 0).hash

abbrev child : ℕ → ℕ → Block
child parent h = record blank {
  parent_hashes = parent ∷ [];
  qc = some (dummy genesis_hash);
  hash = h;
}

abbrev calls : List Call
calls =
    fetch (child genesis_hash 501)
    ∷ deliver 1
    ∷ fetch (child 501 502)
    ∷ deliver 2
    ∷ receive_proposal (plain_proposal 3 2)
    ∷ []

abbrev ended : State (Unit {0})
ended = elim (run_calls hooks calls beginning) [ none ↦ beginning | some t ↦ t ]

ends : run_calls hooks calls beginning ≡ some ended
unfolding run_calls perform ◌>>=◌ load store first deref emit push_event start_mc init_core
ends = refl

parsed : AreParsed calls
parsed = (refl, (tt, (refl, (tt, (tt, tt)))))

run_calls-IsGrounded_example : IsGrounded 5 ended.core
run_calls-IsGrounded_example =
    run_calls-IsGrounded hooks 0 0 3 (info 0 ∷ info 1 ∷ info 2 ∷ info 3 ∷ []) tt calls ended parsed
      (omega arith) ends

-- The second block is two above the genesis block.
is_second :
    ((ended.core.heap 2).delivered ≡ true)
    × ((ended.core.heap 2).height ≡ 2)
    × ((ended.core.vheight) ≡ 2)
unfolding run_calls perform ◌>>=◌ load store first deref emit push_event start_mc init_core
is_second = (refl, refl, refl)

run_calls-accept_example : Ends (Decides ended 2) (accept 2 ended)
run_calls-accept_example =
    run_calls-accept hooks 0 0 3 (info 0 ∷ info 1 ∷ info 2 ∷ info 3 ∷ []) tt calls ended 2 parsed
      (omega arith) ends is_second.0

run_calls-commit_example : CommitsPath hooks ended 2 ⊎ Conflicts hooks ended 2
run_calls-commit_example =
    run_calls-commit hooks 0 0 3 (info 0 ∷ info 1 ∷ info 2 ∷ info 3 ∷ []) tt calls ended 2 parsed
      (omega arith) ends is_second.0
