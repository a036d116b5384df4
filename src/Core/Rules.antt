-- ===== src/Core/Rules.antt =====
-- Facts that every method of src/consensus.cpp passes on: a relation between states that each single
-- read, write and virtual call keeps is kept by the methods, on every branch and through every throw.
-- `Rules` lists the single changes, `Rules.Methods` goes through the methods.
pub mod Methods
pub mod Complaints
pub mod Delivery
use ava_hotstuff.Prelude.{
  ◌≡◌, refl, Bool, true, false, Option, none, some, List, [], ◌∷◌, if◌then◌else◌,
}
use ava_hotstuff.Exec.{block_not_delivered, cert_mismatch}
use ava_hotstuff.Exec.Keeps.{
  Preorder, Keeps, Keeps-pure, Keeps-throw, Keeps-gets, Keeps-bind, Keeps-crash, Keeps-if,
}
use ava_hotstuff.Entity.Config.{ReplicaId, Hash}
use ava_hotstuff.Entity.Block.{Ref, Block}
use ava_hotstuff.Crypto.{QuorumCert, dummy, secp256k1, PartCert, add_part}
use ava_hotstuff.Core.State.{State, Hooks, Event, vote, load, deref, first, emit}
use ava_hotstuff.Core.Deliver.{
  need_delivered, get_delivered_blk, sanity_check_delivered, push_parent, clear_parents, set_height,
  set_qc_ref, replace_tails, mark_delivered, store_in_map_for_mc,
}
use ava_hotstuff.Core.Update.{update_hqc, raise_lock, leave_set, mark_decided, set_exec}
use ava_hotstuff.Core.Vote.{stop_waiting, store_self_qc, add_voter}
use ava_hotstuff.Core.Complain.{add_lcomplain, add_rcomplain}

abbrev pub is_vote : Event → Bool
is_vote (vote last v height) = true
is_vote _ = false

module _ {B : Type 0} (hooks : Hooks B) (R : State B → State B → Type 0) where
  -- The changes that `update` and the handlers of votes, proposals and complaints make, other than
  -- the new `vheight` and the vote.
  pub record HandlerRules : Type 0 where
    pub preorder : Preorder R
    pub emits : (e : Event) → is_vote e ≡ false → Keeps R (emit hooks e)
    pub raises_hqc : (r : Ref) (qc : Option QuorumCert) → Keeps R (update_hqc hooks r qc)
    pub raises_lock : (r : Ref) → Keeps R (raise_lock hooks r)
    pub takes_leave_set : Keeps R (leave_set hooks)
    pub marks : (r : Ref) → Keeps R (mark_decided hooks r)
    pub executes : (r : Ref) → Keeps R (set_exec hooks r)
    pub stops_waiting : (r : Ref) → Keeps R (stop_waiting hooks r)
    pub stores_qc : (r : Ref) (q : QuorumCert) → Keeps R (store_self_qc hooks r q)
    pub adds_voter : (r : Ref) (i : ReplicaId) → Keeps R (add_voter hooks r i)
    pub adds_lcomplain : (r : Ref) (i : ReplicaId) → Keeps R (add_lcomplain hooks r i)
    pub adds_rcomplain : (r : Ref) (i : ReplicaId) → Keeps R (add_rcomplain hooks r i)

module _ {B : Type 0} {R : State B → State B → Type 0} (p : Preorder R) where
  pub load-Keeps : (r : Ref) → Keeps R (load {B = B} r)
  unfolding load
  load-Keeps r = Keeps-gets p _

  pub deref-Keeps : {A : Type 0} (o : Option A) → Keeps R (deref {B = B} o)
  unfolding deref
  deref-Keeps none = Keeps-crash
  deref-Keeps (some a) = Keeps-pure p a

  pub first-Keeps : (rs : List Ref) → Keeps R (first {B = B} rs)
  unfolding first
  first-Keeps [] = Keeps-crash
  first-Keeps (r ∷ rs) = Keeps-pure p r

  pub sanity_check_delivered-Keeps : (r : Ref) → Keeps R (sanity_check_delivered {B = B} r)
  unfolding sanity_check_delivered
  sanity_check_delivered-Keeps r =
      Keeps-bind p (load-Keeps r)
        λ b. Keeps-if b.delivered (Keeps-pure p tt) (Keeps-throw p block_not_delivered)

  need_delivered-Keeps : (o : Option Ref) → Keeps R (need_delivered {B = B} o)
  unfolding need_delivered
  need_delivered-Keeps none = Keeps-throw p block_not_delivered
  need_delivered-Keeps (some r) = Keeps-bind p (sanity_check_delivered-Keeps r) λ _. Keeps-pure p r

  pub get_delivered_blk-Keeps : (h : Hash) → Keeps R (get_delivered_blk {B = B} h)
  unfolding get_delivered_blk
  get_delivered_blk-Keeps h = Keeps-bind p (Keeps-gets p _) need_delivered-Keeps

  pub add_part-Keeps :
      (q : QuorumCert) (i : ReplicaId) (c : PartCert) → Keeps R (add_part {S = State B} q i c)
  unfolding add_part
  add_part-Keeps (dummy h) i c = Keeps-pure p _
  add_part-Keeps (secp256k1 q) i c =
      Keeps-if _ (Keeps-if _ (Keeps-pure p _) Keeps-crash) (Keeps-throw p cert_mismatch)
