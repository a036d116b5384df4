-- ===== src/Core/Commit/Steps.antt =====
-- That the parts of `update` of src/consensus.cpp keep or make these relations.
use ava_hotstuff.Prelude.{
  ℕ, ◌+◌, ◌≡◌, refl, sym, subst, ap, ◌∙◌, false, Option, List, [], ◌∷◌, if◌then◌else◌, has,
}
use mathlib.Core.List.{reverse_aux}
use ava_hotstuff.Exec.{pure, gets, returns, ◌>>=◌, ◌>>◌}
use ava_hotstuff.Exec.Keeps.{
  Keeps, Keeps-pure, Keeps-gets, Keeps-bind, Keeps-if, Keeps-modify, Keeps-run, Keeps-crash,
  bind-returns, Keeps-returns,
}
use ava_hotstuff.Prelude.Int.{ℤ}
use ava_hotstuff.Entity.Config.{Hash}
use ava_hotstuff.Entity.Block.{Ref, Block, write}
use ava_hotstuff.Crypto.{QuorumCert}
use ava_hotstuff.Core.State.{
  State, Hooks, Event, consensus, hqc_updated, start_timer, reset_timer, finished_update, load,
  store, push_event, emit,
}
use ava_hotstuff.Core.Update.{
  update_hqc, raise_lock, decide_all, leave_set, amplify, mark_decided, commit_one, commit_all,
}
use ava_hotstuff.Core.Rules.{load-Keeps, deref-Keeps}
use ava_hotstuff.Core.Commit.{
  is_consensus, decided, other_event, write-decided, twice, Settled, Settled-preorder, Committed,
  returned, at_once,
}

module _ {B : Type 0} (hooks : Hooks B) where
  emit-Settled : (e : Event) → is_consensus e ≡ false → Keeps Settled (emit hooks e)
  unfolding emit
  emit-Settled e h = Keeps-modify _ λ s. record {
    same_heap = refl;
    same_exec = refl;
    same_consensus = other_event e s.core.trace h;
  }

  decide_all-Settled :
      (b : Block) (i : ℕ) (cmds : List Hash) (keys vals : List ℤ)
      → Keeps Settled (decide_all hooks b i cmds keys vals)
  unfolding decide_all
  decide_all-Settled b i [] keys vals = Keeps-pure Settled-preorder tt
  decide_all-Settled b i (c ∷ cmds) (key ∷ keys) (val ∷ vals) =
      Keeps-bind Settled-preorder (Keeps-gets Settled-preorder _) λ id.
        Keeps-bind Settled-preorder (emit-Settled _ refl)
          λ _. decide_all-Settled b (i + 1) cmds keys vals
  decide_all-Settled b i (c ∷ cmds) (key ∷ keys) [] = Keeps-crash
  decide_all-Settled b i (c ∷ cmds) [] vals = Keeps-crash

  amplify-Settled : (r : Ref) (b : Block) → Keeps Settled (amplify hooks r b)
  unfolding amplify leave_set
  amplify-Settled r b =
      Keeps-bind Settled-preorder
        (Keeps-run _ λ s. record { same_heap = refl; same_exec = refl; same_consensus = refl })
        λ left. Keeps-bind Settled-preorder (Keeps-gets Settled-preorder _) λ leader.
          Keeps-bind Settled-preorder (Keeps-gets Settled-preorder _)
            λ c. Keeps-if _ (emit-Settled _ refl) (Keeps-pure Settled-preorder tt)

  pub update_hqc-Settled :
      (r : Ref) (qc : Option QuorumCert) → Keeps Settled (update_hqc hooks r qc)
  unfolding update_hqc
  update_hqc-Settled r qc = Keeps-bind Settled-preorder (load-Keeps Settled-preorder r) λ b.
      Keeps-bind Settled-preorder (Keeps-gets Settled-preorder _) λ high.
        Keeps-bind Settled-preorder (deref-Keeps Settled-preorder high) λ old.
          Keeps-bind Settled-preorder (load-Keeps Settled-preorder old.0) λ ob.
            Keeps-if _
              (Keeps-bind Settled-preorder (deref-Keeps Settled-preorder qc) λ q.
                Keeps-bind Settled-preorder
                  (Keeps-modify _
                    λ s. record { same_heap = refl; same_exec = refl; same_consensus = refl })
                  λ _. emit-Settled hqc_updated refl)
              (Keeps-pure Settled-preorder tt)

  pub raise_lock-Settled : (r : Ref) → Keeps Settled (raise_lock hooks r)
  unfolding raise_lock
  raise_lock-Settled r = Keeps-bind Settled-preorder (load-Keeps Settled-preorder r) λ b.
      Keeps-bind Settled-preorder (Keeps-gets Settled-preorder _) λ lock.
        Keeps-bind Settled-preorder (load-Keeps Settled-preorder lock) λ l.
          Keeps-if _
            (Keeps-modify _
              λ s. record { same_heap = refl; same_exec = refl; same_consensus = refl })
            (Keeps-pure Settled-preorder tt)

  -- The rest of the body of the loop, after `blk->decision = 1; do_consensus(blk)`.
  announce-Settled :
      (r : Ref) (b : Block)
      → Keeps Settled (do
        amplify hooks r b
        emit hooks (start_timer b.height r)
        emit hooks (finished_update b.height)
        received ← gets λ s. hooks.did_receive_mc b.height s.base
        if received
            then (do decide_all hooks b 0 b.cmds b.keys b.vals; emit hooks (reset_timer b.height))
            else pure tt)
  announce-Settled r b = Keeps-bind Settled-preorder (amplify-Settled r b) λ _.
      Keeps-bind Settled-preorder (emit-Settled _ refl) λ _.
        Keeps-bind Settled-preorder (emit-Settled _ refl) λ _.
          Keeps-bind Settled-preorder (Keeps-gets Settled-preorder _) λ received.
            Keeps-if received
              (Keeps-bind Settled-preorder (decide_all-Settled b 0 b.cmds b.keys b.vals)
                λ _. emit-Settled _ refl)
              (Keeps-pure Settled-preorder tt)

  abbrev mark : Ref → State B → State B
  mark r s = record {
    core = record s.core {
      heap = write s.core.heap r (decided (s.core.heap r));
      trace = consensus r ∷ s.core.trace;
    };
    base = hooks.handle (consensus r) s.base;
  }

  -- The first two lines of the body.
  marked :
      (r : Ref) (s u v w : State B) (b : Block)
      → mark_decided hooks r s ≡ returns tt u
      → load r u ≡ returns b v
      → emit hooks (consensus r) v ≡ returns tt w
      → mark r s ≡ w
  unfolding mark_decided load store emit push_event ◌>>=◌
  marked r s u v w b e f g =
      ap
        (λ x. record {
          core = push_event (consensus r) x.core;
          base = hooks.handle (consensus r) x.base;
        })
        (returned e ∙ returned f)
      ∙ returned g

  -- One block of the queue.
  commit_one-Committed :
      (r : Ref) (s t : State B) → commit_one hooks r s ≡ returns tt t → Committed (r ∷ []) s t
  unfolding commit_one
  commit_one-Committed r s t h =
      let (_, u, e, h1) = bind-returns (mark_decided hooks r) _ s t tt h in
      let (b, v, f, h2) = bind-returns (load r) _ u t tt h1 in
      let (_, w, g, h3) = bind-returns (emit hooks (consensus r)) _ v t tt h2 in
      let same = marked r s u v w b e f g in
      let rest : Settled w t = Keeps-returns (announce-Settled r b) w t tt h3 in
      let rest' : Settled (mark r s) t = subst (λ x. Settled x t) (sym same) rest in
      record {
        blocks = λ q. rw rest'.same_heap (write-decided s.core.heap r q);
        exec_stays = rest'.same_exec;
        in_order = rest'.same_consensus;
      }

  -- The loop: every block of the queue is decided and handed to `do_consensus`, in the queue's order,
  -- and no other block changes.
  pub commit_all-Committed :
      (rs : List Ref) (s t : State B) → commit_all hooks rs s ≡ returns tt t → Committed rs s t
  unfolding commit_all
  commit_all-Committed [] s t h =
      subst (Committed [] s) (at_once tt tt h)
        (record { blocks = λ q. unfold has in refl; exec_stays = refl; in_order = refl })
  commit_all-Committed (r ∷ rs) s t h =
      let (_, u, e, h1) = bind-returns (commit_one hooks r) _ s t tt h in
      let one = commit_one-Committed r s u e in
      let more = commit_all-Committed rs u t h1 in
      record {
        blocks = λ q. more.blocks q ∙ twice q r rs (s.core.heap q) (u.core.heap q) (one.blocks q);
        exec_stays = more.exec_stays ∙ one.exec_stays;
        in_order = more.in_order ∙ ap (reverse_aux rs) one.in_order;
      }
