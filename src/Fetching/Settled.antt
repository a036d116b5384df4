-- ===== src/Fetching/Settled.antt =====
-- `HotStuffBase::on_deliver_blk` of src/hotstuff.cpp, and the end of `async_deliver_blk` that calls it.
pub mod Names
pub mod Verified
use ava_hotstuff.Prelude.{
  ◌≡◌, refl, sym, ap, ◌∙◌, Bool, true, false, some, List, [], ◌∷◌, has, erase, if◌then◌else◌,
  Bool-cases, inl, inr,
}
use ava_hotstuff.Exec.{Exec, returns, pure, crash, gets, run, ◌>>=◌}
use ava_hotstuff.Exec.Returns.{Ends, Ends-bind, Ends-Leaves}
use ava_hotstuff.Entity.Config.{Hash}
use ava_hotstuff.Entity.Block.{Ref}
use ava_hotstuff.Entity.Storage.{find_blk, is_blk_delivered}
use ava_hotstuff.Core.State.{Core, State, load}
use ava_hotstuff.Core.Deliver.{on_deliver_blk}
use ava_hotstuff.Core.Deliver.Parents.{AreDelivered}
use ava_hotstuff.Core.Deliver.Delivered.{Delivers}
use ava_hotstuff.Core.Deliver.Complete.{IsFetched, on_deliver_blk_complete}
use ava_hotstuff.Fetching.{
  delivery_done, delivery_failed, Waiting, notice, assert_delivered, settle_delivery, settle,
  base_on_deliver_blk,
}
use ava_hotstuff.Fetching.Balance.Acts.{SameBase, on_deliver_blk-SameBase}
use ava_hotstuff.Fetching.Settled.Names.{SameNames, on_deliver_blk-SameNames}

-- The promise of a delivery is resolved where there is one, and no other changes.
abbrev pub resolved : Hash → Ref → Waiting → Waiting
resolved h r w =
    if has h w.blk_delivery_waiting
    then record w {
      blk_delivery_waiting = erase h w.blk_delivery_waiting;
      notices = delivery_done h r ∷ w.notices;
    }
    else w

pub ready_blk :
    (c : Core) (h : Hash) (p : Ref)
    → find_blk c.storage h ≡ some p
    → (c.heap p).delivered ≡ true
    → is_blk_delivered c.storage c.heap h ≡ true
unfolding is_blk_delivered
ready_blk c h p found ready = rw (found, is_blk_delivered) ready

pub assert_delivered-returns :
    (hs : List Hash) (ps : List Ref) (s : State Waiting)
    → AreDelivered s.core hs ps
    → assert_delivered hs s ≡ returns tt s
unfolding assert_delivered gets pure ◌>>=◌
assert_delivered-returns [] ps s ds = refl
assert_delivered-returns (h ∷ hs) [] s ds = absurd ds
assert_delivered-returns (h ∷ hs) (p ∷ ps) s (found, ready, ds) =
    rw (ready_blk s.core h p found ready) (assert_delivered-returns hs ps s ds)

settle-resolved :
    (h : Hash) (r : Ref) (w : Waiting) → settle_delivery true h r w ≡ (true, resolved h r w)
unfolding settle_delivery notice
settle-resolved h r w = elim (Bool-cases (has h w.blk_delivery_waiting)) [
  | inl e ↦ rw e refl
  | inr e ↦ rw e refl
]

-- What the delivery of `r` leaves, with its promise.
pub record DeliversBase (r : Ref) (s t : State Waiting) : Type 0 where
  pub delivers : Delivers r s t
  pub its_promise : t.base ≡ resolved (s.core.heap r).hash r s.base
  pub same_names : SameNames s t

module _ (r : Ref) (s : State Waiting) (early : (s.core.heap r).delivered ≡ false) where
  settled-Delivers :
      (u : State Waiting) (w : Waiting) → Delivers r s u → Delivers r s (record u { base = w })
  settled-Delivers u w d = record {
    parents = d.parents;
    are_delivered = d.are_delivered;
    its_parents = d.its_parents;
    its_height = d.its_height;
    is_delivered = d.is_delivered;
    others = d.others;
    its_next = d.its_next;
    its_tails = d.its_tails;
    its_storage = d.its_storage;
  }

  settle-DeliversBase :
      (u : State Waiting)
      → Delivers r s u
      → SameBase s u
      → SameNames s u
      → Ends (λ ok t. (ok ≡ true) × DeliversBase r s t) (run (settle true (s.core.heap r).hash r) u)
  unfolding settle run
  settle-DeliversBase u d same names = rw (settle-resolved (s.core.heap r).hash r u.base) (
    refl,
    record {
      delivers = settled-Delivers u _ d;
      its_promise = ap (resolved (s.core.heap r).hash r) (sym same);
      same_names = names;
    },
  )

  pub base_on_deliver_blk-DeliversBase :
      (h : Hash) (hs' : List Hash) (ps : List Ref)
      → (s.core.heap r).parent_hashes ≡ h ∷ hs'
      → AreDelivered s.core (s.core.heap r).parent_hashes ps
      → IsFetched s.core.storage (s.core.heap r).qc
      → Ends (λ ok t. (ok ≡ true) × DeliversBase r s t) (base_on_deliver_blk r s)
  unfolding base_on_deliver_blk load gets ◌>>=◌
  base_on_deliver_blk-DeliversBase h hs' ps some_hash ready fetched =
      rw (assert_delivered-returns (s.core.heap r).parent_hashes ps s ready) (
        Ends-bind (λ ok u. (((ok ≡ true) × Delivers r s u) × SameBase s u) × SameNames s u) _
          (on_deliver_blk r) _ s
          (Ends-Leaves (λ ok u. ((ok ≡ true) × Delivers r s u) × SameBase s u) (SameNames s)
            (on_deliver_blk r s)
            (Ends-Leaves (λ ok u. (ok ≡ true) × Delivers r s u) (SameBase s) (on_deliver_blk r s)
              (on_deliver_blk_complete r s early h hs' ps some_hash ready fetched)
              ((on_deliver_blk-SameBase r).at s))
            ((on_deliver_blk-SameNames r).at s))
          λ ok u (((e, d), same), names). rw e (settle-DeliversBase u d same names))
