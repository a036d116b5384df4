-- ===== src/Core/Progress/Handlers.antt =====
-- That the handlers only advance, from the single changes they make.
use ava_hotstuff.Prelude.{
  ◌≤◌, ◌≡◌, refl, ap, Bool, true, false, Option, none, some, arith, ltb, ltb→lt, ◌==◌, Bool-cases,
  inl, inr, not, ◌&&◌, insert,
}
use ava_hotstuff.Exec.{Exec, modify, ◌>>=◌, Outcome, returns, throws, fault, endless}
use ava_hotstuff.Exec.Keeps.{Keeps, Keeps-pure, Keeps-gets, Keeps-bind, Keeps-if, Keeps-run, Leaves}
use ava_hotstuff.Entity.Block.{Ref, Block}
use ava_hotstuff.Crypto.{QuorumCert}
use ava_hotstuff.Core.Messages.{Proposal, Vote}
use ava_hotstuff.Core.State.{
  Core, State, Hooks, on_core, load, emit, deref, hqc_updated, proposal_received,
}
use ava_hotstuff.Core.Update.{update_hqc, leave_set, mark_decided, set_exec}
use ava_hotstuff.Core.Vote.{stop_waiting, store_self_qc, add_voter, on_receive_vote, do_vote}
use ava_hotstuff.Core.Complain.{add_lcomplain, add_rcomplain}
use ava_hotstuff.Core.Receive.{accept, cast_vote, after_opinion, on_receive_proposal}
use ava_hotstuff.Core.Rules.{HandlerRules, load-Keeps}
use ava_hotstuff.Core.Rules.Methods.{on_receive_vote-Keeps, catch_up-Keeps, finish_referred-Keeps}
use ava_hotstuff.Core.Voting.Rule.{Accepts, accept-Accepts}
use ava_hotstuff.Core.Progress.{
  SameBlock, SameBlock-refl, AdvancesCore, Advances, Advances-preorder, Advances-refl,
  rewrite-Advances, other-Advances, emit-Advances, raise_lock-Advances, hqc_height,
  certified_height,
}

-- A change of the other fields of a block.
untouched :
    (b d : Block)
    → d.height ≡ b.height
    → d.parents ≡ b.parents
    → d.qc_ref ≡ b.qc_ref
    → d.hash ≡ b.hash
    → d.parent_hashes ≡ b.parent_hashes
    → d.delivered ≡ b.delivered
    → (b.decision ≡ 1 → d.decision ≡ 1)
    → SameBlock b d
untouched b d height parents qc_ref hash parent_hashes delivered decided = record {
  same_height = height;
  same_parents = parents;
  same_qc_ref = qc_ref;
  same_hash = hash;
  same_parent_hashes = parent_hashes;
  same_delivered = delivered;
  still_decided = decided;
}

-- A change of the pointers and sets other than the lock, the certificate and `vheight`.
pub aside :
    (c d : Core)
    → d.heap ≡ c.heap
    → d.vheight ≡ c.vheight
    → d.b_lock ≡ c.b_lock
    → d.hqc ≡ c.hqc
    → d.next ≡ c.next
    → d.config ≡ c.config
    → d.cluster_id ≡ c.cluster_id
    → AdvancesCore c d
aside c d h v l q n conf cl = record {
  blocks = λ r. rw h (SameBlock-refl (c.heap r));
  same_next = n;
  same_config = conf;
  same_cluster = cl;
  vheight_le = omega (arith, v);
  lock_le = rw h (rw l (omega arith));
  hqc_le = rw h (rw q (omega arith));
}

module _ {B : Type 0} where
  Leaves-deref :
      {A X : Type 0} (P : State B → Type 0) (s : State B) (o : Option A) (k : A → Exec (State B) X)
      → ((a : A) → o ≡ some a → Leaves P (k a s))
      → Leaves P ((deref o >>= k) s)
  unfolding deref ◌>>=◌
  Leaves-deref P s none k h = tt
  Leaves-deref P s (some a) k h = h a refl

module _ {B : Type 0} (hooks : Hooks B) where
  -- `hqc = (r, q)` where `r` is higher.
  take_hqc-Advances :
      (s : State B) (r : Ref) (q : QuorumCert)
      → hqc_height s.core ≤ (s.core.heap r).height
      → Leaves
          (Advances s)
          ((modify (on_core λ c. record c { hqc = some (r, q) }) >>= λ _. emit hooks hqc_updated) s)
  unfolding emit ◌>>=◌
  take_hqc-Advances s r q h = record {
    blocks = λ p. SameBlock-refl (s.core.heap p);
    same_next = refl;
    same_config = refl;
    same_cluster = refl;
    vheight_le = omega arith;
    lock_le = omega arith;
    hqc_le = h;
  }

  update_hqc-Advances : (r : Ref) (qc : Option QuorumCert) → Keeps Advances (update_hqc hooks r qc)
  unfolding update_hqc load ◌>>=◌
  update_hqc-Advances r qc = record {
    at = λ s. Leaves-deref (Advances s) s s.core.hqc _ λ old e.
        elim (Bool-cases (ltb (s.core.heap old.0).height (s.core.heap r).height)) [
          | inr low ↦ rw low (Advances-refl s.core)
          | inl high ↦ rw high (
              Leaves-deref (Advances s) s qc _ λ q f.
                take_hqc-Advances s r q
                  (omega (arith, ap (certified_height s.core.heap) e, ltb→lt _ _ high)))
        ];
  }

  pub Advances-rules : HandlerRules hooks Advances
  unfolding leave_set mark_decided set_exec stop_waiting store_self_qc add_voter add_lcomplain
      add_rcomplain
  Advances-rules = record {
    preorder = Advances-preorder;
    emits = λ e no_vote. emit-Advances hooks e;
    raises_hqc = update_hqc-Advances;
    raises_lock = raise_lock-Advances hooks;
    takes_leave_set = Keeps-run _ (λ s. Advances-refl s.core);
    marks =
        λ r. rewrite-Advances r _ (λ b. untouched _ _ refl refl refl refl refl refl (λ h. refl));
    executes = λ r. other-Advances _ (λ c. aside c _ refl refl refl refl refl refl refl);
    stops_waiting = λ r. other-Advances _ (λ c. aside c _ refl refl refl refl refl refl refl);
    stores_qc = λ r q.
        rewrite-Advances r (λ b. record b { self_qc = some q })
          (λ b. untouched _ _ refl refl refl refl refl refl (λ h. h));
    adds_voter = λ r i.
        rewrite-Advances r (λ b. record b { voted = insert i b.voted })
          (λ b. untouched _ _ refl refl refl refl refl refl (λ h. h));
    adds_lcomplain = λ r i.
        rewrite-Advances r (λ b. record b { lcomplains = insert i b.lcomplains })
          (λ b. untouched _ _ refl refl refl refl refl refl (λ h. h));
    adds_rcomplain = λ r i.
        rewrite-Advances r (λ b. record b { rcomplains = insert i b.rcomplains })
          (λ b. untouched _ _ refl refl refl refl refl refl (λ h. h));
  }

  opinion-Advances :
      (s : State B) (r : Ref) (o : Outcome (State B) Bool) → Accepts s r o → Leaves (Advances s) o
  opinion-Advances s r (returns true t) (e, high) = rw e (record {
    blocks = λ q. SameBlock-refl (s.core.heap q);
    same_next = refl;
    same_config = refl;
    same_cluster = refl;
    vheight_le = omega arith;
    lock_le = omega arith;
    hqc_le = omega arith;
  })
  opinion-Advances s r (returns false t) e = rw e (Advances-refl s.core)
  opinion-Advances s r (throws e t) h = absurd h
  opinion-Advances s r fault h = tt
  opinion-Advances s r endless h = tt

  -- An opinion raises `vheight` or leaves everything as it is.
  accept-Advances : (r : Ref) → Keeps Advances (accept {B = B} r)
  accept-Advances r = record { at = λ s. opinion-Advances s r (accept r s) (accept-Accepts s r) }

  -- Whatever vote arrives, `vheight`, the height of the lock and the height of the highest
  -- certificate do not fall, and of the blocks nothing changes that is fixed at their delivery.
  pub on_receive_vote-Advances : (v : Vote) → Keeps Advances (on_receive_vote hooks v)
  on_receive_vote-Advances v = on_receive_vote-Keeps hooks Advances-rules v

  after_opinion-Advances :
      (prop : Proposal) (self opinion : Bool)
      → Keeps Advances (after_opinion hooks prop self opinion)
  unfolding after_opinion cast_vote do_vote
  after_opinion-Advances prop self opinion =
      Keeps-bind Advances-preorder (load-Keeps Advances-preorder prop.blk) λ b.
        Keeps-bind Advances-preorder (finish_referred-Keeps hooks Advances-rules self b.qc_ref) λ _.
          Keeps-bind Advances-preorder (emit-Advances hooks (proposal_received prop)) λ _.
            Keeps-bind Advances-preorder (Keeps-gets Advances-preorder _) λ disabled.
              Keeps-if (opinion && not disabled)
                (Keeps-bind Advances-preorder (load-Keeps Advances-preorder prop.blk) λ b.
                  Keeps-bind Advances-preorder (Keeps-gets Advances-preorder _) λ id.
                    Keeps-bind Advances-preorder (emit-Advances hooks _) λ _.
                      Keeps-bind Advances-preorder (Keeps-gets Advances-preorder _) λ proposer.
                        Keeps-bind Advances-preorder (Keeps-gets Advances-preorder _) λ id'.
                          Keeps-if _ (on_receive_vote-Advances _) (Keeps-pure Advances-preorder tt))
                (Keeps-pure Advances-preorder tt)

  -- Whatever proposal arrives, on return and on an exception alike, `vheight`, the height of the lock
  -- and the height of the highest certificate do not fall, a block's height, parents, certified
  -- block, hash and delivery stay, and no decision is taken back.
  pub on_receive_proposal-Advances :
      (prop : Proposal) → Keeps Advances (on_receive_proposal hooks prop)
  unfolding on_receive_proposal
  on_receive_proposal-Advances prop =
      Keeps-bind Advances-preorder (Keeps-gets Advances-preorder _) λ id.
        Keeps-bind Advances-preorder
          (catch_up-Keeps hooks Advances-rules (prop.proposer == id) prop.blk)
          λ _.
            Keeps-bind Advances-preorder (accept-Advances prop.blk)
              λ opinion. after_opinion-Advances prop (prop.proposer == id) opinion
