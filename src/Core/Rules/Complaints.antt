-- ===== src/Core/Rules/Complaints.antt =====
-- The handlers of complaints keep what the rules of their changes keep.
use ava_hotstuff.Prelude.{ℕ, refl}
use ava_hotstuff.Exec.Keeps.{Keeps, Keeps-pure, Keeps-gets, Keeps-bind, Keeps-if}
use ava_hotstuff.Entity.Config.{Hash}
use ava_hotstuff.Entity.Block.{Ref}
use ava_hotstuff.Core.Messages.{Complain}
use ava_hotstuff.Core.State.{State, Hooks}
use ava_hotstuff.Core.Complain.{
  count_lcomplain, on_receive_lcomplain, start_local_complain, on_receive_rcomplain,
  signed_complain,
}
use ava_hotstuff.Core.Rules.{HandlerRules, load-Keeps, get_delivered_blk-Keeps}

module _ {B : Type 0} (hooks : Hooks B) {R : State B → State B → Type 0}
    (k : HandlerRules hooks R) where
  open k use {preorder}

  count_lcomplain-Keeps : (r : Ref) (v : Complain) (n : ℕ) → Keeps R (count_lcomplain hooks r v n)
  unfolding count_lcomplain
  count_lcomplain-Keeps r v n = Keeps-bind preorder (k.adds_lcomplain r v.voter) λ _.
      Keeps-bind preorder (Keeps-gets preorder _)
        λ c. Keeps-if _ (k.emits _ refl) (Keeps-pure preorder tt)

  pub on_receive_lcomplain-Keeps : (v : Complain) → Keeps R (on_receive_lcomplain hooks v)
  unfolding on_receive_lcomplain
  on_receive_lcomplain-Keeps v =
      Keeps-bind preorder (get_delivered_blk-Keeps preorder v.blk_hash) λ r.
        Keeps-bind preorder (load-Keeps preorder r) λ b.
          Keeps-bind preorder (Keeps-gets preorder _) λ config.
            Keeps-if _ (Keeps-pure preorder tt)
              (Keeps-if _ (Keeps-pure preorder tt) (count_lcomplain-Keeps r v _))

  pub start_local_complain-Keeps :
      (height : ℕ) (h : Hash) → Keeps R (start_local_complain hooks height h)
  unfolding start_local_complain
  start_local_complain-Keeps height h = Keeps-bind preorder (Keeps-gets preorder _) λ id.
      Keeps-bind preorder (k.emits _ refl)
        λ _. on_receive_lcomplain-Keeps (signed_complain hooks.scheme id height h)

  pub on_receive_rcomplain-Keeps : (v : Complain) → Keeps R (on_receive_rcomplain hooks v)
  unfolding on_receive_rcomplain
  on_receive_rcomplain-Keeps v =
      Keeps-bind preorder (get_delivered_blk-Keeps preorder v.blk_hash) λ r.
        Keeps-bind preorder (load-Keeps preorder r) λ b. Keeps-if _ (Keeps-pure preorder tt) (
          Keeps-if _ (Keeps-pure preorder tt)
            (Keeps-bind preorder (k.adds_rcomplain r v.voter) λ _. k.emits _ refl))
