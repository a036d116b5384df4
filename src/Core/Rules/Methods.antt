-- ===== src/Core/Rules/Methods.antt =====
-- The methods of `HotStuffCore` keep what the rules of their changes keep: `update`, the handlers of
-- votes and complaints, and the parts of the handler of proposals.
use ava_hotstuff.Prelude.{
  ℕ, ◌+◌, refl, Bool, true, false, Option, none, some, List, [], ◌∷◌, reverse,
}
use ava_hotstuff.Prelude.Int.{ℤ}
use ava_hotstuff.Exec.{safety_breached}
use ava_hotstuff.Exec.Keeps.{
  Keeps, Keeps-pure, Keeps-throw, Keeps-gets, Keeps-bind, Keeps-crash, Keeps-stuck, Keeps-if,
}
use ava_hotstuff.Entity.Config.{Hash}
use ava_hotstuff.Entity.Block.{Ref, Block}
use ava_hotstuff.Crypto.{QuorumCert}
use ava_hotstuff.Core.Messages.{Vote}
use ava_hotstuff.Core.State.{State, Hooks}
use ava_hotstuff.Core.Climb.{Walk, reached, no_parent, no_rounds}
use ava_hotstuff.Core.Update.{
  decide_all, amplify, commit_one, commit_all, commit_walk, commit, commit_direct, update_blk,
  update_blk1, update_blk2, update,
}
use ava_hotstuff.Core.Vote.{on_qc_finish, ensure_qc, add_vote, count_vote, on_receive_vote}
use ava_hotstuff.Core.Receive.{catch_up, finish_referred}
use ava_hotstuff.Core.Rules.{
  HandlerRules, load-Keeps, first-Keeps, sanity_check_delivered-Keeps, get_delivered_blk-Keeps,
  add_part-Keeps,
}

module _ {B : Type 0} (hooks : Hooks B) {R : State B → State B → Type 0}
    (k : HandlerRules hooks R) where
  open k use {preorder}

  pub decide_all-Keeps :
      (b : Block) (i : ℕ) (cmds : List Hash) (keys vals : List ℤ)
      → Keeps R (decide_all hooks b i cmds keys vals)
  unfolding decide_all
  decide_all-Keeps b i [] keys vals = Keeps-pure preorder tt
  decide_all-Keeps b i (c ∷ cmds) (key ∷ keys) (val ∷ vals) =
      Keeps-bind preorder (Keeps-gets preorder _)
        λ id. Keeps-bind preorder (k.emits _ refl) λ _. decide_all-Keeps b (i + 1) cmds keys vals
  decide_all-Keeps b i (c ∷ cmds) (key ∷ keys) [] = Keeps-crash
  decide_all-Keeps b i (c ∷ cmds) [] vals = Keeps-crash

  amplify-Keeps : (r : Ref) (b : Block) → Keeps R (amplify hooks r b)
  unfolding amplify
  amplify-Keeps r b = Keeps-bind preorder k.takes_leave_set λ left.
      Keeps-bind preorder (Keeps-gets preorder _) λ leader.
        Keeps-bind preorder (Keeps-gets preorder _)
          λ c. Keeps-if _ (k.emits _ refl) (Keeps-pure preorder tt)

  commit_one-Keeps : (r : Ref) → Keeps R (commit_one hooks r)
  unfolding commit_one
  commit_one-Keeps r = Keeps-bind preorder (k.marks r) λ _.
      Keeps-bind preorder (load-Keeps preorder r) λ b. Keeps-bind preorder (k.emits _ refl) λ _.
        Keeps-bind preorder (amplify-Keeps r b) λ _. Keeps-bind preorder (k.emits _ refl) λ _.
          Keeps-bind preorder (k.emits _ refl) λ _.
            Keeps-bind preorder (Keeps-gets preorder _) λ received.
              Keeps-if received
                (Keeps-bind preorder (decide_all-Keeps b 0 b.cmds b.keys b.vals)
                  λ _. k.emits _ refl)
                (Keeps-pure preorder tt)

  commit_all-Keeps : (rs : List Ref) → Keeps R (commit_all hooks rs)
  unfolding commit_all
  commit_all-Keeps [] = Keeps-pure preorder tt
  commit_all-Keeps (r ∷ rs) = Keeps-bind preorder (commit_one-Keeps r) λ _. commit_all-Keeps rs

  commit_walk-Keeps : (r exec : Ref) (w : Walk) → Keeps R (commit_walk hooks r exec w)
  unfolding commit_walk
  commit_walk-Keeps r exec no_parent = Keeps-crash
  commit_walk-Keeps r exec no_rounds = Keeps-stuck
  commit_walk-Keeps r exec (reached queue last) =
      Keeps-if _ (Keeps-bind preorder (commit_all-Keeps (reverse queue)) λ _. k.executes r)
        (Keeps-throw preorder safety_breached)

  commit_direct-Keeps :
      (b2 : Block) (blk1 : Ref) (b1 : Block) (blk : Ref)
      → Keeps R (commit_direct hooks b2 blk1 b1 blk)
  unfolding commit_direct commit
  commit_direct-Keeps b2 blk1 b1 blk = Keeps-bind preorder (first-Keeps preorder b2.parents) λ p2.
      Keeps-if _
        (Keeps-bind preorder (first-Keeps preorder b1.parents) λ p1.
          Keeps-if _
            (Keeps-bind preorder (Keeps-gets preorder _) λ c. commit_walk-Keeps blk c.b_exec _)
            (Keeps-pure preorder tt))
        (Keeps-pure preorder tt)

  update_blk-Keeps :
      (b2 : Block) (blk1 : Ref) (b1 : Block) (o : Option Ref)
      → Keeps R (update_blk hooks b2 blk1 b1 o)
  unfolding update_blk
  update_blk-Keeps b2 blk1 b1 none = Keeps-pure preorder tt
  update_blk-Keeps b2 blk1 b1 (some blk) =
      Keeps-bind preorder (load-Keeps preorder blk)
        λ b. Keeps-if _ (commit_direct-Keeps b2 blk1 b1 blk) (Keeps-pure preorder tt)

  update_blk1-Keeps : (b2 : Block) (o : Option Ref) → Keeps R (update_blk1 hooks b2 o)
  unfolding update_blk1
  update_blk1-Keeps b2 none = Keeps-pure preorder tt
  update_blk1-Keeps b2 (some blk1) = Keeps-bind preorder (load-Keeps preorder blk1) λ b1.
      Keeps-if _
        (Keeps-bind preorder (k.raises_lock blk1) λ _. update_blk-Keeps b2 blk1 b1 b1.qc_ref)
        (Keeps-pure preorder tt)

  update_blk2-Keeps : (nb : Block) (o : Option Ref) → Keeps R (update_blk2 hooks nb o)
  unfolding update_blk2
  update_blk2-Keeps nb none = Keeps-pure preorder tt
  update_blk2-Keeps nb (some blk2) = Keeps-bind preorder (load-Keeps preorder blk2) λ b2.
      Keeps-if _ (Keeps-bind preorder (k.raises_hqc blk2 nb.qc) λ _. update_blk1-Keeps b2 b2.qc_ref)
        (Keeps-pure preorder tt)

  pub update-Keeps : (r : Ref) → Keeps R (update hooks r)
  unfolding update
  update-Keeps r = Keeps-bind preorder (load-Keeps preorder r) λ nb. update_blk2-Keeps nb nb.qc_ref

  pub on_qc_finish-Keeps : (r : Ref) → Keeps R (on_qc_finish hooks r)
  unfolding on_qc_finish
  on_qc_finish-Keeps r = Keeps-bind preorder (Keeps-gets preorder _) λ waiting.
      Keeps-if _ (Keeps-bind preorder (k.emits _ refl) λ _. k.stops_waiting r)
        (Keeps-pure preorder tt)

  ensure_qc-Keeps : (r : Ref) (o : Option QuorumCert) → Keeps R (ensure_qc hooks r o)
  unfolding ensure_qc
  ensure_qc-Keeps r (some q) = Keeps-pure preorder q
  ensure_qc-Keeps r none = Keeps-bind preorder (load-Keeps preorder r) λ b.
      Keeps-bind preorder (Keeps-gets preorder _)
        λ config. Keeps-bind preorder (k.stores_qc r _) λ _. Keeps-pure preorder _

  add_vote-Keeps : (r : Ref) (v : Vote) → Keeps R (add_vote hooks r v)
  unfolding add_vote
  add_vote-Keeps r v = Keeps-bind preorder (load-Keeps preorder r) λ b.
      Keeps-bind preorder (ensure_qc-Keeps r b.self_qc) λ q.
        Keeps-bind preorder (add_part-Keeps preorder q v.voter v.cert)
          λ q'. Keeps-bind preorder (k.stores_qc r q') λ _. Keeps-pure preorder q'

  count_vote-Keeps : (r : Ref) (v : Vote) (n : ℕ) → Keeps R (count_vote hooks r v n)
  unfolding count_vote
  count_vote-Keeps r v n = Keeps-bind preorder (k.adds_voter r v.voter) λ _.
      Keeps-bind preorder (add_vote-Keeps r v) λ q.
        Keeps-bind preorder (Keeps-gets preorder _) λ config.
          Keeps-if _ (Keeps-bind preorder (k.raises_hqc r (some q)) λ _. on_qc_finish-Keeps r)
            (Keeps-pure preorder tt)

  pub on_receive_vote-Keeps : (v : Vote) → Keeps R (on_receive_vote hooks v)
  unfolding on_receive_vote
  on_receive_vote-Keeps v = Keeps-bind preorder (get_delivered_blk-Keeps preorder v.blk_hash) λ r.
      Keeps-bind preorder (load-Keeps preorder r) λ b.
        Keeps-bind preorder (Keeps-gets preorder _) λ config.
          Keeps-if _ (Keeps-pure preorder tt)
            (Keeps-if _ (Keeps-pure preorder tt) (count_vote-Keeps r v _))

  pub catch_up-Keeps : (self : Bool) (r : Ref) → Keeps R (catch_up hooks self r)
  unfolding catch_up
  catch_up-Keeps true r = Keeps-pure preorder tt
  catch_up-Keeps false r =
      Keeps-bind preorder (sanity_check_delivered-Keeps preorder r) λ _. update-Keeps r

  pub finish_referred-Keeps :
      (self : Bool) (o : Option Ref) → Keeps R (finish_referred hooks self o)
  unfolding finish_referred
  finish_referred-Keeps false (some q) = on_qc_finish-Keeps q
  finish_referred-Keeps false none = Keeps-pure preorder tt
  finish_referred-Keeps true o = Keeps-pure preorder tt
