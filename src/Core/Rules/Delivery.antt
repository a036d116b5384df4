-- ===== src/Core/Rules/Delivery.antt =====
-- `on_deliver_blk` keeps what the rules of its changes keep. The rules are for one block, since the
-- changes are made only to a block that is not delivered yet.
use ava_hotstuff.Prelude.{true, false, Option, none, some, List, [], ◌∷◌}
use ava_hotstuff.Exec.{qc_not_fetched}
use ava_hotstuff.Exec.Keeps.{
  Preorder, Keeps, Keeps-pure, Keeps-throw, Keeps-gets, Keeps-bind, Keeps-if,
}
use ava_hotstuff.Entity.Config.{Hash}
use ava_hotstuff.Entity.Block.{Ref, Block}
use ava_hotstuff.Crypto.{QuorumCert}
use ava_hotstuff.Core.State.{State}
use ava_hotstuff.Core.Deliver.{
  push_parent, push_parents, clear_parents, set_height, set_qc_ref, refer_qc, replace_tails,
  mark_delivered, store_in_map_for_mc, deliver, on_deliver_blk,
}
use ava_hotstuff.Core.Rules.{load-Keeps, get_delivered_blk-Keeps}

module _ {B : Type 0} (R : State B → State B → Type 0) where
  -- The changes up to the block of the certificate, where an exception may be thrown.
  pub record ReferenceRules (r : Ref) : Type 0 where
    pub preorder : Preorder R
    pub clears : Keeps R (clear_parents {B = B} r)
    pub pushes : (p : Ref) → Keeps R (push_parent {B = B} r p)
    pub sets_height : Keeps R (set_height {B = B} r)
    pub refers : (q : Ref) → Keeps R (set_qc_ref {B = B} r (some q))

  pub record DeliveryRules (r : Ref) : Type 0 where
    pub references : ReferenceRules r
    pub moves_tails : (ps : List Ref) → Keeps R (replace_tails {B = B} ps r)
    pub delivers : Keeps R (mark_delivered {B = B} r)
    pub maps_cid : Keeps R (store_in_map_for_mc {B = B} r)

module _ {B : Type 0} {R : State B → State B → Type 0} (r : Ref) (k : ReferenceRules R r) where
  open k use {preorder}

  pub push_parents-Keeps : (hs : List Hash) → Keeps R (push_parents {B = B} r hs)
  unfolding push_parents
  push_parents-Keeps [] = Keeps-pure preorder tt
  push_parents-Keeps (h ∷ hs) =
      Keeps-bind preorder (get_delivered_blk-Keeps preorder h)
        λ p. Keeps-bind preorder (k.pushes p) λ _. push_parents-Keeps hs

  set_qc_ref-Keeps : (o : Option Ref) → Keeps R (set_qc_ref {B = B} r o)
  set_qc_ref-Keeps none = unfold set_qc_ref in Keeps-throw preorder qc_not_fetched
  set_qc_ref-Keeps (some q) = k.refers q

  pub refer_qc-Keeps : (o : Option QuorumCert) → Keeps R (refer_qc {B = B} r o)
  unfolding refer_qc
  refer_qc-Keeps none = Keeps-pure preorder tt
  refer_qc-Keeps (some q) = Keeps-bind preorder (Keeps-gets preorder _) set_qc_ref-Keeps

module _ {B : Type 0} {R : State B → State B → Type 0} (r : Ref) (k : DeliveryRules R r) where
  open k.references use {preorder}

  pub deliver-Keeps : (b : Block) → Keeps R (deliver {B = B} r b)
  unfolding deliver
  deliver-Keeps b = Keeps-bind preorder k.references.clears λ _.
      Keeps-bind preorder (push_parents-Keeps r k.references b.parent_hashes) λ _.
        Keeps-bind preorder k.references.sets_height λ _.
          Keeps-bind preorder (refer_qc-Keeps r k.references b.qc) λ _.
            Keeps-bind preorder (load-Keeps preorder r) λ b'.
              Keeps-bind preorder (k.moves_tails b'.parents) λ _.
                Keeps-bind preorder k.delivers
                  λ _. Keeps-bind preorder k.maps_cid λ _. Keeps-pure preorder true

  -- A block that is delivered is left as it is.
  pub on_deliver_blk-Keeps : Keeps R (on_deliver_blk {B = B} r)
  unfolding on_deliver_blk
  on_deliver_blk-Keeps =
      Keeps-bind preorder (load-Keeps preorder r)
        λ b. Keeps-if _ (Keeps-pure preorder false) (deliver-Keeps b)
