-- ===== src/Tests/Runs.antt =====
-- The theorems of `HotStuffCore` on the replica of the parent module.
use ava_hotstuff.Prelude.{
  ℕ, zero, suc, ◌<◌, ◌≡◌, refl, subst, ◌⊎◌, true, none, some, List, [], ◌∷◌, arith,
}
use ava_hotstuff.Exec.{returns, ◌>>=◌}
use ava_hotstuff.Exec.Keeps.{Keeps}
use ava_hotstuff.Entity.Block.{Ref}
use ava_hotstuff.Core.Messages.{plain_proposal}
use ava_hotstuff.Core.State.{State, load, store, first, deref, emit, push_event}
use ava_hotstuff.Core.Climb.{climb, Descends}
use ava_hotstuff.Core.Update.{update, commit}
use ava_hotstuff.Core.Receive.{accept, on_receive_proposal}
use ava_hotstuff.Core.Vote.{on_receive_vote}
use ava_hotstuff.Core.Run.{Call, receive_proposal, receive_vote, perform, run_calls}
use ava_hotstuff.Core.Commit.Chain.{CommitsChain, update_three_chain}
use ava_hotstuff.Core.Commit.{Settled}
use ava_hotstuff.Core.Progress.{Advances}
use ava_hotstuff.Core.Progress.Handlers.{on_receive_proposal-Advances, on_receive_vote-Advances}
use ava_hotstuff.Core.Voting.Rule.{accept_sound, IsLive, Extends}
use ava_hotstuff.Core.Voting.Once.{IsOrderly}
use ava_hotstuff.Core.Voting.Run.{run_calls-IsOrderly}
use ava_hotstuff.Tests.{hooks, chain, holding, after}

abbrev updated : State (Unit {0})
updated = after (update hooks 4 (holding chain))

updates : update hooks 4 (holding chain) ≡ returns tt updated
unfolding update ◌>>=◌ load store first deref emit push_event commit climb
updates = refl

commits_one : updated.core.b_exec ≡ 1
unfolding update ◌>>=◌ load store first deref emit push_event commit climb
commits_one = refl

update_three_chain_example :
    Settled (holding chain) updated ⊎ CommitsChain (holding chain).core 4 updated.core
update_three_chain_example = update_three_chain hooks 4 (holding chain) updated updates

parent_below :
    (q p h : ℕ) (ps : List Ref) → q ∷ [] ≡ p ∷ ps → (chain q).height < h → (chain p).height < h
parent_below q p h ps e low = let same : q ≡ p = cc in subst (λ r. (chain r).height < h) same low

-- The parents of the blocks of `chain`.
pub chain-Descends : Descends chain
chain-Descends zero p ps e = cc
chain-Descends (suc zero) p ps e = parent_below 0 p 1 ps e (omega arith)
chain-Descends (suc (suc zero)) p ps e = parent_below 1 p 2 ps e (omega arith)
chain-Descends (suc (suc (suc zero))) p ps e = parent_below 2 p 3 ps e (omega arith)
chain-Descends (suc (suc (suc (suc zero)))) p ps e = parent_below 3 p 4 ps e (omega arith)
chain-Descends (suc (suc (suc (suc (suc zero))))) p ps e = parent_below 0 p 2 ps e (omega arith)
chain-Descends (suc (suc (suc (suc (suc (suc n)))))) p ps e = cc

abbrev agreed : State (Unit {0})
agreed = after (accept 4 (holding chain))

accepts : accept 4 (holding chain) ≡ returns true agreed
unfolding accept ◌>>=◌ load
accepts = refl

accept_sound_example : (3 < 4) × (IsLive (holding chain).core 4 ⊎ Extends (holding chain).core 4)
accept_sound_example = accept_sound (holding chain) agreed 4 accepts

abbrev calls : List Call
calls =
    receive_proposal (plain_proposal 3 4)
    ∷ receive_proposal (plain_proposal 3 4)
    ∷ receive_vote
        (record { voter = 0; blk_hash = 104; cert = record { obj_hash = 104; sig = 111 } })
    ∷ []

abbrev run : State (Unit {0})
run = elim (run_calls hooks calls (holding chain)) [ none ↦ holding chain | some t ↦ t ]

runs : run_calls hooks calls (holding chain) ≡ some run
unfolding run_calls perform ◌>>=◌ load store first deref emit push_event
runs = refl

run_calls-IsOrderly_example : IsOrderly run.core
run_calls-IsOrderly_example = run_calls-IsOrderly hooks calls (holding chain) run tt runs

-- The second proposal of block 4 is not voted for.
votes_once : (run.core.vheight ≡ 4) × ((run.core.heap 4).voted ≡ 0 ∷ [])
unfolding run_calls perform ◌>>=◌ load store first deref emit push_event
votes_once = (refl, refl)

on_receive_proposal-Advances_example :
    Keeps Advances (on_receive_proposal hooks (plain_proposal 3 4))
on_receive_proposal-Advances_example = on_receive_proposal-Advances hooks (plain_proposal 3 4)

on_receive_vote-Advances_example : Keeps Advances (
    on_receive_vote hooks
      (record { voter = 0; blk_hash = 104; cert = record { obj_hash = 104; sig = 111 } }))
on_receive_vote-Advances_example = on_receive_vote-Advances hooks _
