-- ===== src/Entity/Storage.antt =====
-- include/hotstuff/entity.h, `EntityStorage`: blocks and commands by their hash, the hash of the
-- block that was delivered at a height, and the two counters of joins. A cid is an `int` made from
-- a `uint32_t` height, which loses nothing; it is kept as that height.
use ava_hotstuff.Prelude.{
  ℕ, ◌+◌, Bool, true, false, Option, none, some, List, [], ◌∷◌, ◌==◌, if◌then◌else◌, length,
}
use ava_hotstuff.Prelude.Assoc.{lookup, put, insert_new, remove, or_new}
use ava_hotstuff.Entity.Config.{Hash}
use ava_hotstuff.Entity.Block.{Ref, Heap}

pub record EntityStorage : Type 0 where
  pub blk_cache : List (Hash × Ref)
  pub cid_blkhash : List (ℕ × Hash)
  pub cmd_cache : List (Hash × ℕ)
  pub cid_join1 : List (ℕ × ℕ)
  pub cid_join2 : List (ℕ × ℕ)

abbrev pub empty_storage : EntityStorage
empty_storage = record {
  blk_cache = [];
  cid_blkhash = [];
  cmd_cache = [];
  cid_join1 = [];
  cid_join2 = [];
}

unfoldable pub find_blk : EntityStorage → Hash → Option Ref
unfolding lookup
find_blk st h = lookup h st.blk_cache

unfoldable pub is_blk_fetched : EntityStorage → Hash → Bool
unfolding find_blk
is_blk_fetched st h = elim (find_blk st h) [ none ↦ false | some r ↦ true ]

unfoldable pub is_blk_delivered : EntityStorage → Heap → Hash → Bool
unfolding find_blk
is_blk_delivered st heap h = elim (find_blk st h) [ none ↦ false | some r ↦ (heap r).delivered ]

-- The three overloads of `add_blk`: the block that the cache holds under the hash afterwards.
unfoldable pub add_blk : EntityStorage → Hash → Ref → Ref × EntityStorage
unfolding lookup insert_new
add_blk st h r =
    (or_new (lookup h st.blk_cache) r, record st { blk_cache = insert_new h r st.blk_cache })

-- `find_blk_cid`: the first block of the cache at that height.
unfoldable pub find_blk_cid : List (Hash × Ref) → Heap → ℕ → Option Ref
find_blk_cid [] heap cid = none
find_blk_cid ((h, r) ∷ m) heap cid =
    if cid == (heap r).height then some r else find_blk_cid m heap cid

unfoldable pub add_cid_blkhash : EntityStorage → ℕ → Hash → EntityStorage
unfolding insert_new
add_cid_blkhash st cid h = record st { cid_blkhash = insert_new cid h st.cid_blkhash }

-- `find_blk_hash_for_cid`: `none` is the hash made of the byte 0xFF, which says "not there".
unfoldable pub find_blk_hash_for_cid : EntityStorage → ℕ → Option Hash
unfolding lookup
find_blk_hash_for_cid st cid = lookup cid st.cid_blkhash

-- The counting of `add_cid_join1` and `add_cid_join2`: false the first time, true afterwards.
unfoldable pub join_count : ℕ → List (ℕ × ℕ) → Bool × List (ℕ × ℕ)
unfolding lookup put
join_count cid m = elim (lookup cid m) [
  | none ↦ (false, put cid 1 m)
  | some n ↦ (if n + 1 == 0 then false else true, put cid (n + 1) m)
]

unfoldable pub add_cid_join1 : EntityStorage → ℕ → Bool × EntityStorage
unfolding join_count
add_cid_join1 st cid = let (b, m) = join_count cid st.cid_join1 in (b, record st { cid_join1 = m })

unfoldable pub add_cid_join2 : EntityStorage → ℕ → Bool × EntityStorage
unfolding join_count
add_cid_join2 st cid = let (b, m) = join_count cid st.cid_join2 in (b, record st { cid_join2 = m })

unfoldable pub add_cmd : EntityStorage → Hash → ℕ → ℕ × EntityStorage
unfolding lookup insert_new
add_cmd st h c =
    (or_new (lookup h st.cmd_cache) c, record st { cmd_cache = insert_new h c st.cmd_cache })

unfoldable pub find_cmd : EntityStorage → Hash → Option ℕ
unfolding lookup
find_cmd st h = lookup h st.cmd_cache

unfoldable pub is_cmd_fetched : EntityStorage → Hash → Bool
unfolding find_cmd
is_cmd_fetched st h = elim (find_cmd st h) [ none ↦ false | some c ↦ true ]

unfoldable pub get_cmd_cache_size : EntityStorage → ℕ
get_cmd_cache_size st = length st.cmd_cache

unfoldable pub get_blk_cache_size : EntityStorage → ℕ
get_blk_cache_size st = length st.blk_cache

-- `cnt` is the count of the pointers to the object, which the caller's pointer and the cache make.
unfoldable pub try_release_cmd : EntityStorage → ℕ → Hash → Bool × EntityStorage
unfolding remove
try_release_cmd st cnt h =
    if cnt == 2 then (true, record st { cmd_cache = remove h st.cmd_cache }) else (false, st)

unfoldable pub try_release_blk : EntityStorage → ℕ → Hash → Bool × EntityStorage
unfolding remove
try_release_blk st cnt h =
    if cnt == 2 then (true, record st { blk_cache = remove h st.blk_cache }) else (false, st)
