-- ===== src/Fetching/Settled/Verified.antt =====
-- The continuation of `promise::all` in `async_deliver_blk` of src/hotstuff.cpp, for any result of the
-- verification.
use ava_hotstuff.Prelude.{
  ◌≡◌, refl, ap, ◌∙◌, Bool, true, false, List, [], ◌∷◌, ◌||◌, has, has-erase, if◌then◌else◌, arith,
  Bool-cases, inl, inr,
}
use ava_hotstuff.Exec.{returns, pure, gets, run, ◌>>=◌}
use ava_hotstuff.Exec.Returns.{Ends, Ends-bind}
use ava_hotstuff.Entity.Config.{Hash}
use ava_hotstuff.Entity.Block.{Ref, Block}
use ava_hotstuff.Entity.Storage.{EntityStorage, find_blk, add_cid_blkhash}
use ava_hotstuff.Core.State.{State, load}
use ava_hotstuff.Core.Deliver.{on_deliver_blk}
use ava_hotstuff.Core.Deliver.Parents.{AreDelivered}
use ava_hotstuff.Core.Deliver.Delivered.{Delivers, distinct}
use ava_hotstuff.Core.Deliver.Complete.{IsFetched}
use ava_hotstuff.Fetching.{
  Waiting, settle_delivery, settle, base_on_deliver_blk, log_delivery, deliver_verified,
}
use ava_hotstuff.Fetching.Settled.{
  resolved, assert_delivered-returns, DeliversBase, base_on_deliver_blk-DeliversBase,
}

-- The block is delivered, or nothing has changed.
abbrev pub DeliversIf : Bool → Ref → State Waiting → State Waiting → Type 0
DeliversIf true r s t = DeliversBase r s t
DeliversIf false r s t = t ≡ s

find_blk-add_cid :
    (st : EntityStorage) (c : _) (h j : Hash) → find_blk (add_cid_blkhash st c h) j ≡ find_blk st j
unfolding find_blk add_cid_blkhash
find_blk-add_cid st c h j = refl

not_waiting :
    (h : Hash) (r : Ref) (w : Waiting) → has h (resolved h r w).blk_delivery_waiting ≡ false
not_waiting h r w = elim (Bool-cases (has h w.blk_delivery_waiting)) [
  | inl e ↦ rw e (ground (arith, has-erase h h w.blk_delivery_waiting))
  | inr e ↦ rw e e
]

module _ (r : Ref) (s : State Waiting) (early : (s.core.heap r).delivered ≡ false) where
  still_delivered :
      (t : State Waiting)
      → Delivers r s t
      → (hs : List Hash) (ps : List Ref) → AreDelivered s.core hs ps
      → AreDelivered t.core hs ps
  still_delivered t d [] [] ds = tt
  still_delivered t d [] (p ∷ ps) ds = ds
  still_delivered t d (h ∷ hs) [] ds = ds
  still_delivered t d (h ∷ hs) (p ∷ ps) (found, ready, ds) = (
    ap (λ st. find_blk st h) d.its_storage
        ∙ find_blk-add_cid s.core.storage (t.core.heap r).height (t.core.heap r).hash h
        ∙ found,
    ap (λ (b : Block). b.delivered) (d.others p (distinct r s p early ready)) ∙ ready,
    still_delivered t d hs ps ds,
  )

  -- A second delivery finds the block delivered, and nobody waits for it.
  again :
      (ps : List Ref) (t : State Waiting)
      → AreDelivered s.core (s.core.heap r).parent_hashes ps
      → DeliversBase r s t
      → base_on_deliver_blk r t ≡ returns true t
  unfolding base_on_deliver_blk on_deliver_blk settle settle_delivery load gets run pure ◌>>=◌
  again ps t ready d =
      let names = d.same_names r in
      let idle =
        ap (λ (w : Waiting). has (s.core.heap r).hash w.blk_delivery_waiting) d.its_promise
        ∙ not_waiting (s.core.heap r).hash r s.base in
      rw names.same_parent_hashes (
        rw
          (assert_delivered-returns (s.core.heap r).parent_hashes ps t
            (still_delivered t d.delivers (s.core.heap r).parent_hashes ps ready))
          (rw d.delivers.is_delivered (rw names.same_hash (rw idle refl))))

  -- A block that is not delivered yet and names a parent, whose parents are all delivered and whose
  -- certificate, if it has one, is of a block in the storage: the end of async_deliver_blk says what the
  -- verification said, and delivers the block, with its promise, if it was verified, and also if it was
  -- not and the program is built with HOTSTUFF_NORMAL_LOG. Without both, nothing changes.
  pub deliver_verified-DeliversIf :
      (h : Hash) (hs' : List Hash) (ps : List Ref)
      → (s.core.heap r).parent_hashes ≡ h ∷ hs'
      → AreDelivered s.core (s.core.heap r).parent_hashes ps
      → IsFetched s.core.storage (s.core.heap r).qc
      → (normal_log verified : Bool)
      → Ends
          (λ ok t. (ok ≡ verified) × DeliversIf (normal_log || verified) r s t)
          (deliver_verified normal_log verified r s)
  unfolding deliver_verified log_delivery pure ◌>>=◌
  deliver_verified-DeliversIf h hs' ps some_hash ready fetched false false = (refl, refl)
  deliver_verified-DeliversIf h hs' ps some_hash ready fetched false true =
      base_on_deliver_blk-DeliversBase r s early h hs' ps some_hash ready fetched
  deliver_verified-DeliversIf h hs' ps some_hash ready fetched true verified =
      Ends-bind (λ ok t. (ok ≡ true) × DeliversBase r s t) _ (base_on_deliver_blk r) _ s
        (base_on_deliver_blk-DeliversBase r s early h hs' ps some_hash ready fetched)
        λ _ t (_, d). next verified t d
    where
      next :
          (v : Bool) (t : State Waiting)
          → DeliversBase r s t
          → Ends
              (λ ok t. (ok ≡ v) × DeliversBase r s t)
              ((if v then base_on_deliver_blk r else pure false) t)
      next false t d = (refl, d)
      next true t d = rw (again ps t ready d) (refl, d)
