-- ===== src/Core/Propose.antt =====
-- src/consensus.cpp, `on_propose`: a new block on the given parents, which carries the highest
-- certificate, is delivered, voted for and broadcast.
use ava_hotstuff.Prelude.{ℕ, ◌+◌, List, [], ◌∷◌, leb, if◌then◌else◌}
use ava_hotstuff.Prelude.Int.{ℤ}
use ava_hotstuff.Exec.{
  Exec, empty_parents, not_above_vheight, pure, throw, gets, run, modify, ◌>>=◌, ◌>>◌,
}
use ava_hotstuff.Entity.Config.{Hash}
use ava_hotstuff.Entity.Block.{Ref, Block, proposed, next_height, write}
use ava_hotstuff.Entity.Storage.{add_blk}
use ava_hotstuff.Crypto.{create_quorum_cert}
use ava_hotstuff.Core.Messages.{plain_proposal}
use ava_hotstuff.Core.State.{
  Core, State, Hooks, on_core, load, store, deref, first, emit, broadcast_proposal,
}
use ava_hotstuff.Core.State
use ava_hotstuff.Core.Deliver.{on_deliver_blk, erase_all}
use ava_hotstuff.Core.Update.{update}
use ava_hotstuff.Core.Vote.{store_self_qc}
use ava_hotstuff.Core.Receive.{on_receive_proposal}

-- `new Block(...)` and `storage->add_blk(blk)`: a block that has the hash already is kept instead.
unfoldable pub add_new : Block → Core → Ref × Core
unfolding write add_blk
add_new b c =
    let (r, storage) = add_blk c.storage b.hash c.next in
    (r, record c { heap = write c.heap c.next b; next = c.next + 1; storage = storage })

-- `get_hashes`
unfoldable pub get_hashes : (Ref → Block) → List Ref → List Hash
get_hashes heap [] = []
get_hashes heap (r ∷ rs) = (heap r).hash ∷ get_hashes heap rs

module _ {B : Type 0} (hooks : Hooks B) where
  unfoldable pub drop_tails : List Ref → Exec (State B) (Unit {0})
  unfolding erase_all
  drop_tails ps = modify (on_core λ c. record c { tails = erase_all ps c.tails })

  unfoldable pub allocate : Block → Exec (State B) Ref
  unfolding add_new
  allocate b = run λ s. (let (r, c) = add_new b s.core in (r, record s { core = c }))

  -- The block with its hash, which is taken of the other fields.
  unfoldable pub hashed : Block → Block
  hashed b = record b { hash = hooks.get_hash b }

  unfoldable pub make_block : List Hash → List ℤ → List ℤ → List Ref → List ℕ → Exec (State B) Block
  unfolding hashed get_hashes next_height
  make_block cmds keys vals parents extra = do
    c ← gets λ s. s.core
    high ← deref c.hqc
    p ← first parents
    pb ← load p
    pure (
        hashed (
          proposed (get_hashes c.heap parents) parents cmds keys vals high.1 extra
            (next_height pb.height) high.0))

  -- From the new block on: it is certified by nobody yet, delivered, and proposed.
  unfoldable pub propose_block : Ref → Exec (State B) Ref
  unfolding on_deliver_blk update on_receive_proposal create_quorum_cert load store_self_qc emit
  propose_block bnew = do
    b ← load bnew
    config ← gets λ s. s.core.config
    store_self_qc hooks bnew (create_quorum_cert config b.hash)
    on_deliver_blk bnew
    update hooks bnew
    b' ← load bnew
    c ← gets λ s. s.core
    if leb b'.height c.vheight then throw not_above_vheight else (do
      on_receive_proposal hooks (plain_proposal c.id bnew)
      emit hooks (State.proposed (plain_proposal c.id bnew))
      emit hooks (broadcast_proposal (plain_proposal c.id bnew))
      pure bnew)

  unfoldable pub on_propose : List Hash → List ℤ → List ℤ → List Ref → List ℕ → Exec (State B) Ref
  unfolding make_block propose_block allocate drop_tails
  on_propose cmds keys vals [] extra = throw empty_parents
  on_propose cmds keys vals (p ∷ ps) extra = do
    drop_tails (p ∷ ps)
    b ← make_block cmds keys vals (p ∷ ps) extra
    bnew ← allocate b
    propose_block bnew
