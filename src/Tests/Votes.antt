-- ===== src/Tests/Votes.antt =====
-- A vote for a block that nobody has voted for yet.
use ava_hotstuff.Prelude.{◌≤◌, ◌≡◌, refl, [], arith, length}
use ava_hotstuff.Exec.{returns, ◌>>=◌}
use ava_hotstuff.Entity.Config.{get_pubkey}
use ava_hotstuff.Entity.Storage.{find_blk}
use ava_hotstuff.Core.Messages.{Vote}
use ava_hotstuff.Core.State.{State, load, store, deref, emit}
use ava_hotstuff.Core.Vote.{on_receive_vote}
use ava_hotstuff.Core.Quorum.{IsBallot}
use ava_hotstuff.Core.Quorum.Votes.{counted}
use ava_hotstuff.Core.Quorum.Certificate.{IsCertified, on_receive_vote-IsBallot}
use ava_hotstuff.Tests.{four, hooks, scheme, chain, holding, after}

-- Block 4 before any vote, and the vote of replica 0 with its signature 111 of the hash 104.
abbrev vote_of_0 : Vote
vote_of_0 = record { voter = 0; blk_hash = 104; cert = record { obj_hash = 104; sig = 111 } }

abbrev voted : State (Unit {0})
voted = after (on_receive_vote hooks vote_of_0 (holding chain))

receives : on_receive_vote hooks vote_of_0 (holding chain) ≡ returns tt voted
unfolding on_receive_vote ◌>>=◌ load store deref emit
receives = refl

on_receive_vote-IsBallot_example :
    ((voted.core.heap 4).voted ≡ counted four 0 [])
    × IsBallot scheme four (voted.core.heap 4)
    × (3 ≤ length (voted.core.heap 4).voted → IsCertified scheme four (voted.core.heap 4))
on_receive_vote-IsBallot_example =
    on_receive_vote-IsBallot hooks vote_of_0 (holding chain) voted 4 (unfold find_blk in refl) refl
      refl (70, unfold get_pubkey in refl, refl) (omega arith) receives
