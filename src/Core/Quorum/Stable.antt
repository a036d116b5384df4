-- ===== src/Core/Quorum/Stable.antt =====
-- What `on_receive_vote` of src/consensus.cpp leaves alone once a vote is in its block.
use ava_hotstuff.Prelude.{◌≡◌, refl, ◌∙◌, Option, some, ltb, erase, has}
use ava_hotstuff.Exec.{Exec, Outcome, returns, throws, fault, endless}
use ava_hotstuff.Exec.Returns.{Returns}
use ava_hotstuff.Exec.Keeps.{
  Leaves, Preorder, Keeps, Keeps-gets, Keeps-bind, Keeps-if, Keeps-modify, Keeps-pure,
}
use ava_hotstuff.Entity.Block.{Ref}
use ava_hotstuff.Crypto.{QuorumCert}
use ava_hotstuff.Core.State.{State, Hooks, Event, hqc_updated, qc_finished, on_core, emit}
use ava_hotstuff.Core.Rules.{load-Keeps, deref-Keeps}
use ava_hotstuff.Core.Vote.{on_qc_finish, stop_waiting}
use ava_hotstuff.Core.Update.{update_hqc}

module _ {B : Type 0} where
  -- The rest of the handler leaves the blocks and the configuration.
  pub record IsStable (s t : State B) : Type 0 where
    pub same_heap : t.core.heap ≡ s.core.heap
    pub same_config : t.core.config ≡ s.core.config

  pub IsStable-preorder : Preorder IsStable
  IsStable-preorder = record {
    same = λ s. record { same_heap = refl; same_config = refl };
    trans = λ s t u h k. record {
      same_heap = k.same_heap ∙ h.same_heap;
      same_config = k.same_config ∙ h.same_config;
    };
  }

  pub Keeps-Returns :
      {A : Type 0} {Q : State B → Type 0} {m : Exec (State B) A} (s : State B)
      → Keeps IsStable m
      → ((t : State B) → IsStable s t → Q t)
      → Returns (λ _. Q) (m s)
  Keeps-Returns {A} {Q} {m} s k f = go (m s) (k.at s)
    where
      go : (o : Outcome (State B) A) → Leaves (IsStable s) o → Returns (λ _. Q) o
      go (returns a t) h = f t h
      go (throws e t) h = tt
      go fault h = tt
      go endless h = tt

module _ {B : Type 0} (hooks : Hooks B) (r : Ref) where
  emit-IsStable : (e : Event) → Keeps IsStable (emit hooks e)
  unfolding emit
  emit-IsStable e = Keeps-modify _ λ s. record { same_heap = refl; same_config = refl }

  pub update_hqc-IsStable : (q : Option QuorumCert) → Keeps IsStable (update_hqc hooks r q)
  unfolding update_hqc
  update_hqc-IsStable q = Keeps-bind IsStable-preorder (load-Keeps IsStable-preorder r) λ b.
      Keeps-bind IsStable-preorder (Keeps-gets IsStable-preorder _) λ high.
        Keeps-bind IsStable-preorder (deref-Keeps IsStable-preorder high) λ old.
          Keeps-bind IsStable-preorder (load-Keeps IsStable-preorder old.0) λ ob.
            Keeps-if (ltb ob.height b.height)
              (Keeps-bind IsStable-preorder (deref-Keeps IsStable-preorder q) λ q'.
                Keeps-bind IsStable-preorder
                  (Keeps-modify (on_core λ c. record c { hqc = some (r, q') })
                    λ s. record { same_heap = refl; same_config = refl })
                  λ _. emit-IsStable hqc_updated)
              (Keeps-pure IsStable-preorder tt)

  pub on_qc_finish-IsStable : Keeps IsStable (on_qc_finish hooks r)
  unfolding on_qc_finish stop_waiting
  on_qc_finish-IsStable = Keeps-bind IsStable-preorder (Keeps-gets IsStable-preorder _) λ waiting.
      Keeps-if (has r waiting)
        (Keeps-bind IsStable-preorder (emit-IsStable (qc_finished r)) λ _.
          Keeps-modify (on_core λ c. record c { qc_waiting = erase r c.qc_waiting })
            λ s. record { same_heap = refl; same_config = refl })
        (Keeps-pure IsStable-preorder tt)
