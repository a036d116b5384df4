-- ===== src/Handlers/Run.antt =====
-- Any sequence of messages, of settled deliveries and of answers of the verifiers. An exception ends
-- one of these and leaves what it wrote; after undefined behaviour there is no run.
use ava_hotstuff.Prelude.{
  ℕ, zero, suc, Bool, true, false, Option, none, some, List, [], ◌∷◌, ◌==◌, if◌then◌else◌,
}
use ava_hotstuff.Exec.{left_by, Exec}
use ava_hotstuff.Entity.Config.{Hash, PeerId}
use ava_hotstuff.Core.Messages.{Proposal, Vote, Complain}
use ava_hotstuff.Core.State.{Hooks}
use ava_hotstuff.Handlers.{
  Router, Task, resolve, propose_handler, vote_handler, lcomplain_handler, rcomplain_handler,
}

pub data Input : Type 0 where
  msg_propose : Option PeerId → Proposal → Input
  msg_vote : Option PeerId → Vote → Input
  msg_lcomplain msg_rcomplain : Option PeerId → Complain → Input
  -- the delivery of the block is resolved, or rejected
  settled : Hash → Bool → Input
  -- the verification of a task is done, by the place of the task
  answered : ℕ → Input

-- The promise of a block.
unfoldable pub arrive : Hash → List Task → List Task
arrive h [] = []
arrive h (t ∷ ts) =
    let rest = arrive h ts in if t.hash == h then record t { there = true } ∷ rest else t ∷ rest

unfoldable pub give_up : Hash → List Task → List Task
give_up h [] = []
give_up h (t ∷ ts) = let rest = give_up h ts in if t.hash == h then rest else t ∷ rest

unfoldable pub answer_at : ℕ → List Task → List Task
answer_at i [] = []
answer_at zero (t ∷ ts) = record t { answered = true } ∷ ts
answer_at (suc i) (t ∷ ts) = t ∷ answer_at i ts

module _ (outer : Hooks (Unit {0})) where
  unfoldable pub handle : Input → Exec Router (Unit {0})
  unfolding propose_handler vote_handler lcomplain_handler rcomplain_handler resolve arrive give_up
      answer_at
  handle (msg_propose peer p) = propose_handler outer peer p
  handle (msg_vote peer v) = vote_handler outer peer v
  handle (msg_lcomplain peer v) = lcomplain_handler outer peer v
  handle (msg_rcomplain peer v) = rcomplain_handler outer peer v
  handle (settled h true) = resolve outer (arrive h)
  handle (settled h false) = resolve outer (give_up h)
  handle (answered i) = resolve outer (answer_at i)

  unfoldable pub handle_all : List Input → Router → Option Router
  unfolding handle
  handle_all [] r = some r
  handle_all (i ∷ is) r = elim (left_by (handle i r)) [ none ↦ none | some q ↦ handle_all is q ]

  -- The same on what an earlier input left.
  abbrev pub handle_from : List Input → Option Router → Option Router
  handle_from is o = elim o [ none ↦ none | some q ↦ handle_all is q ]
