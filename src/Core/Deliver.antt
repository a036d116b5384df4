-- ===== src/Core/Deliver.antt =====
-- src/consensus.cpp, `get_delivered_blk`, `sanity_check_delivered` and `on_deliver_blk`: a block is
-- delivered once its parents are delivered and the block of its certificate is fetched. The call
-- `store_in_map_for_mc` is that of src/hotstuff.cpp, which writes to the storage of this class.
pub mod Parents
pub mod Complete
pub mod Delivered
use ava_hotstuff.Prelude.{
  Bool, true, false, Option, none, some, List, [], ◌∷◌, ◌++◌, insert, erase, if◌then◌else◌,
}
use ava_hotstuff.Exec.{
  Exec, block_not_delivered, qc_not_fetched, pure, throw, gets, modify, ◌>>=◌, ◌>>◌,
}
use ava_hotstuff.Entity.Config.{Hash}
use ava_hotstuff.Entity.Block.{Ref, Block, next_height}
use ava_hotstuff.Entity.Storage.{find_blk, add_cid_blkhash}
use ava_hotstuff.Crypto.{QuorumCert, get_obj_hash}
use ava_hotstuff.Core.State.{State, on_core, load, store, first}

-- `for (auto pblk : parents) tails.erase(pblk)`
unfoldable pub erase_all : List Ref → List Ref → List Ref
unfolding erase
erase_all [] tails = tails
erase_all (p ∷ ps) tails = erase_all ps (erase p tails)

module _ {B : Type 0} where
  unfoldable pub sanity_check_delivered : Ref → Exec (State B) (Unit {0})
  sanity_check_delivered r = do
    b ← load r
    if b.delivered then pure tt else throw block_not_delivered

  -- What `find_blk` found, if it is delivered.
  unfoldable pub need_delivered : Option Ref → Exec (State B) Ref
  unfolding sanity_check_delivered
  need_delivered none = throw block_not_delivered
  need_delivered (some r) = do sanity_check_delivered r; pure r

  unfoldable pub get_delivered_blk : Hash → Exec (State B) Ref
  unfolding need_delivered find_blk
  get_delivered_blk h = do found ← gets λ s. find_blk s.core.storage h; need_delivered found

  unfoldable pub push_parent : Ref → Ref → Exec (State B) (Unit {0})
  push_parent r p = do b ← load r; store r (record b { parents = b.parents ++ p ∷ [] })

  -- The loop over `parent_hashes`.
  unfoldable pub push_parents : Ref → List Hash → Exec (State B) (Unit {0})
  unfolding get_delivered_blk push_parent
  push_parents r [] = pure tt
  push_parents r (h ∷ hs) = do p ← get_delivered_blk h; push_parent r p; push_parents r hs

  unfoldable pub set_qc_ref : Ref → Option Ref → Exec (State B) (Unit {0})
  set_qc_ref r none = throw qc_not_fetched
  set_qc_ref r (some q) = do b ← load r; store r (record b { qc_ref = some q })

  unfoldable pub refer_qc : Ref → Option QuorumCert → Exec (State B) (Unit {0})
  unfolding set_qc_ref find_blk get_obj_hash
  refer_qc r none = pure tt
  refer_qc r (some qc) = do
    found ← gets λ s. find_blk s.core.storage (get_obj_hash qc)
    set_qc_ref r found

  unfoldable pub replace_tails : List Ref → Ref → Exec (State B) (Unit {0})
  unfolding erase_all insert
  replace_tails parents r =
      modify (on_core λ c. record c { tails = insert r (erase_all parents c.tails) })

  unfoldable pub store_in_map_for_mc : Ref → Exec (State B) (Unit {0})
  unfolding add_cid_blkhash
  store_in_map_for_mc r = do
    b ← load r
    modify (on_core λ c. record c { storage = add_cid_blkhash c.storage b.height b.hash })

  unfoldable pub set_height : Ref → Exec (State B) (Unit {0})
  unfolding first next_height
  set_height r = do
    b ← load r
    p ← first b.parents
    pb ← load p
    store r (record b { height = next_height pb.height })

  unfoldable pub mark_delivered : Ref → Exec (State B) (Unit {0})
  mark_delivered r = do b ← load r; store r (record b { delivered = true })

  unfoldable pub clear_parents : Ref → Exec (State B) (Unit {0})
  clear_parents r = do b ← load r; store r (record b { parents = [] })

  unfoldable pub deliver : Ref → Block → Exec (State B) Bool
  unfolding clear_parents push_parents set_height refer_qc replace_tails mark_delivered
      store_in_map_for_mc
  deliver r b = do
    clear_parents r
    push_parents r b.parent_hashes
    set_height r
    refer_qc r b.qc
    b' ← load r
    replace_tails b'.parents r
    mark_delivered r
    store_in_map_for_mc r
    pure true

  unfoldable pub on_deliver_blk : Ref → Exec (State B) Bool
  unfolding deliver load store
  on_deliver_blk r = do b ← load r; if b.delivered then pure false else deliver r b
