-- ===== src/Core/Deliver/Complete.antt =====
-- When `on_deliver_blk` of src/consensus.cpp returns.
use ava_hotstuff.Prelude.{
  ◌≡◌, refl, ap, subst, ◌∙◌, Bool, true, false, Option, none, some, List, [], ◌∷◌, ◌++◌,
  if◌then◌else◌,
}
use ava_hotstuff.Exec.{Outcome, returns, throws, fault, endless, pure, gets, modify, ◌>>=◌}
use ava_hotstuff.Exec.Returns.{Returns, Ends, Succeeds, Succeeds-bind}
use ava_hotstuff.Entity.Config.{Hash}
use ava_hotstuff.Entity.Block.{Ref, Block}
use ava_hotstuff.Entity.Storage.{EntityStorage, find_blk}
use ava_hotstuff.Crypto.{QuorumCert, get_obj_hash}
use ava_hotstuff.Core.State.{State, load, store, first}
use ava_hotstuff.Core.Deliver.{
  get_delivered_blk, need_delivered, sanity_check_delivered, clear_parents, push_parent,
  push_parents, set_height, set_qc_ref, refer_qc, replace_tails, mark_delivered,
  store_in_map_for_mc, deliver, on_deliver_blk,
}
use ava_hotstuff.Core.Deliver.Parents.{
  AreDelivered, Changes, written, written-eq, written-Changes, Pushed, push_parents-Returns,
}
use ava_hotstuff.Core.Deliver.Delivered.{
  distinct, HasHeight, set_height-Returns, refer_qc-Returns, finish, cleared, unchanged, Delivers,
  Delivery, on_deliver_blk-Delivery,
}

-- The certificate of a block, if it has one, is of a block in the storage.
abbrev pub IsFetched : EntityStorage → Option QuorumCert → Type 0
IsFetched storage none = Unit {0}
IsFetched storage (some qc) = (q : Ref) × (find_blk storage (get_obj_hash qc) ≡ some q)

module _ {B : Type 0} (r : Ref) (s : State B) (early : (s.core.heap r).delivered ≡ false) where
  abbrev with_parent : Ref → State B → Block
  with_parent p u = record (u.core.heap r) { parents = (u.core.heap r).parents ++ p ∷ [] }

  push_parents-Succeeds :
      (hs : List Hash) (ps : List Ref) (u : State B)
      → Changes r s.core u.core
      → AreDelivered s.core hs ps
      → Succeeds (push_parents r hs u)
  unfolding push_parents push_parent get_delivered_blk need_delivered sanity_check_delivered gets
      load store pure ◌>>=◌
  push_parents-Succeeds [] ps u k ds = tt
  push_parents-Succeeds (h ∷ hs) [] u k ds = absurd ds
  push_parents-Succeeds (h ∷ hs) (p ∷ ps) u k (found, ready, ds) =
      rw (ap (λ c. find_blk c h) k.same_storage ∙ found) (
        rw (ap (λ (b : Block). b.delivered) (k.others p (distinct r s p early ready)) ∙ ready) (
          push_parents-Succeeds hs ps (written r s (with_parent p u) u)
            (written-Changes r s (with_parent p u) u k.early k) ds))

  set_height-Succeeds :
      (hs hs' : List Hash) (h : Hash) (ps : List Ref) (u : State B)
      → hs ≡ h ∷ hs'
      → (u.core.heap r).parents ≡ ps
      → AreDelivered s.core hs ps
      → Succeeds (set_height r u)
  unfolding set_height first pure load store ◌>>=◌
  set_height-Succeeds hs hs' h [] u some_hash e ds =
      absurd (subst (λ l. AreDelivered s.core l []) some_hash ds)
  set_height-Succeeds hs hs' h (p ∷ ps) u some_hash e ds = rw e tt

  refer_qc-Succeeds :
      (c : Option QuorumCert) (u : State B)
      → Changes r s.core u.core
      → IsFetched s.core.storage c
      → Succeeds (refer_qc r c u)
  unfolding refer_qc set_qc_ref pure gets load store ◌>>=◌
  refer_qc-Succeeds none u k fetched = tt
  refer_qc-Succeeds (some qc) u k (q, e) =
      rw (ap (λ c. find_blk c (get_obj_hash qc)) k.same_storage ∙ e) tt

  finish-Succeeds : (u : State B) → Succeeds (finish r s u)
  unfolding load pure replace_tails mark_delivered store_in_map_for_mc modify store ◌>>=◌
  finish-Succeeds u = tt

  deliver-Succeeds :
      (h : Hash) (hs' : List Hash) (ps : List Ref)
      → (s.core.heap r).parent_hashes ≡ h ∷ hs'
      → AreDelivered s.core (s.core.heap r).parent_hashes ps
      → IsFetched s.core.storage (s.core.heap r).qc
      → Succeeds (deliver r (s.core.heap r) s)
  unfolding deliver clear_parents load store pure ◌>>=◌
  deliver-Succeeds h hs' ps some_hash ready fetched =
      Succeeds-bind (λ _. Pushed r s hs []) (push_parents r hs) _ (cleared r s)
        (push_parents-Returns r s hs [] (cleared r s) k0 (
          ap (λ (b : Block). b.parents)
            (written-eq r s (record (s.core.heap r) { parents = [] }) s)))
        (push_parents-Succeeds hs ps (cleared r s) k0 ready)
        λ _ t (k, qs, e, ds).
          Succeeds-bind (λ _. HasHeight r s qs) (set_height r) _ t
            (set_height-Returns r s hs qs t early k e ds)
            (set_height-Succeeds hs hs' h qs t some_hash e ds)
            λ _ u g.
              Succeeds-bind (λ _. HasHeight r s qs) (refer_qc r (s.core.heap r).qc) _ u
                (refer_qc-Returns r s (s.core.heap r).qc qs u g)
                (refer_qc-Succeeds (s.core.heap r).qc u g.changes fetched)
                λ _ v _. finish-Succeeds v
    where
      hs : List Hash
      hs = (s.core.heap r).parent_hashes

      k0 : Changes r s.core (cleared r s).core
      k0 =
          written-Changes r s (record (s.core.heap r) { parents = [] }) s early
            (unchanged r s early)

  on_deliver_blk-Succeeds :
      (h : Hash) (hs' : List Hash) (ps : List Ref)
      → (s.core.heap r).parent_hashes ≡ h ∷ hs'
      → AreDelivered s.core (s.core.heap r).parent_hashes ps
      → IsFetched s.core.storage (s.core.heap r).qc
      → Succeeds (on_deliver_blk r s)
  unfolding on_deliver_blk load pure ◌>>=◌
  on_deliver_blk-Succeeds h hs' ps some_hash ready fetched = go (s.core.heap r).delivered
    where
      go : (d : Bool) → Succeeds ((if d then pure false else deliver r (s.core.heap r)) s)
      go true = tt
      go false = deliver-Succeeds h hs' ps some_hash ready fetched

  -- A block that is not delivered yet and names a parent, whose parents are all delivered, and whose
  -- certificate, if it has one, is of a block in the storage, is delivered: on_deliver_blk returns true.
  pub on_deliver_blk_complete :
      (h : Hash) (hs' : List Hash) (ps : List Ref)
      → (s.core.heap r).parent_hashes ≡ h ∷ hs'
      → AreDelivered s.core (s.core.heap r).parent_hashes ps
      → IsFetched s.core.storage (s.core.heap r).qc
      → Ends (λ ok t. (ok ≡ true) × Delivers r s t) (on_deliver_blk r s)
  on_deliver_blk_complete h hs' ps some_hash ready fetched =
      go (on_deliver_blk r s) (on_deliver_blk-Delivery r s)
        (on_deliver_blk-Succeeds h hs' ps some_hash ready fetched)
    where
      clash : (s.core.heap r).delivered ≡ true → ⊥
      clash e = cc

      go :
          (o : Outcome (State B) Bool)
          → Returns (Delivery r s) o
          → Succeeds o
          → Ends (λ ok t. (ok ≡ true) × Delivers r s t) o
      go (returns true t) (_, d) _ = (refl, d)
      go (returns false t) (e, _) _ = absurd (clash e)
      go (throws e t) _ never = never
      go fault _ never = never
      go endless _ never = never
