-- ===== src/Core/Progress.antt =====
-- What the handlers of proposals, votes and complaints may change: the heights of the last vote, of
-- the lock and of the highest certificate only grow, and of a block only its votes, complaints,
-- own certificate and decision.
pub mod Handlers
use ava_hotstuff.Prelude.{
  ℕ, ◌≤◌, ◌≡◌, refl, sym, subst, ==_iff, ◌∙◌, Bool, true, false, Option, none, some, arith, ltb,
  ltb→lt, ◌==◌, if◌then◌else◌, Bool-cases, inl, inr,
}
use ava_hotstuff.Exec.{◌>>=◌, Outcome, modify, Exec}
use ava_hotstuff.Exec.Keeps.{Preorder, Keeps, Keeps-modify, Keeps-run, Leaves, Leaves-mono}
use ava_hotstuff.Entity.Block.{Ref, Block, Heap, write}
use ava_hotstuff.Crypto.{QuorumCert}
use ava_hotstuff.Core.State.{Core, State, Hooks, Event, on_core, load, store, emit, deref}
use ava_hotstuff.Core.Update.{update_hqc, raise_lock, leave_set, mark_decided, set_exec}
use ava_hotstuff.Core.Vote.{stop_waiting, store_self_qc, add_voter}
use ava_hotstuff.Core.Complain.{add_lcomplain, add_rcomplain}
use ava_hotstuff.Core.Rules.{HandlerRules}

-- The fields that are fixed once a block is delivered, and a decision that is not taken back.
pub record SameBlock (b d : Block) : Type 0 where
  pub same_height : d.height ≡ b.height
  pub same_parents : d.parents ≡ b.parents
  pub same_qc_ref : d.qc_ref ≡ b.qc_ref
  pub same_hash : d.hash ≡ b.hash
  pub same_parent_hashes : d.parent_hashes ≡ b.parent_hashes
  pub same_delivered : d.delivered ≡ b.delivered
  pub still_decided : b.decision ≡ 1 → d.decision ≡ 1

SameBlock-refl : (b : Block) → SameBlock b b
SameBlock-refl b = record {
  same_height = refl;
  same_parents = refl;
  same_qc_ref = refl;
  same_hash = refl;
  same_parent_hashes = refl;
  same_delivered = refl;
  still_decided = λ h. h;
}

SameBlock-trans : (b c d : Block) → SameBlock b c → SameBlock c d → SameBlock b d
SameBlock-trans b c d h k = record {
  same_height = k.same_height ∙ h.same_height;
  same_parents = k.same_parents ∙ h.same_parents;
  same_qc_ref = k.same_qc_ref ∙ h.same_qc_ref;
  same_hash = k.same_hash ∙ h.same_hash;
  same_parent_hashes = k.same_parent_hashes ∙ h.same_parent_hashes;
  same_delivered = k.same_delivered ∙ h.same_delivered;
  still_decided = λ e. k.still_decided (h.still_decided e);
}

abbrev pub lock_height : Core → ℕ
lock_height c = (c.heap c.b_lock).height

abbrev pub certified_height : Heap → Option (Ref × QuorumCert) → ℕ
certified_height heap none = 0
certified_height heap (some high) = (heap high.0).height

abbrev pub hqc_height : Core → ℕ
hqc_height c = certified_height c.heap c.hqc

pub record AdvancesCore (c d : Core) : Type 0 where
  pub blocks : (r : Ref) → SameBlock (c.heap r) (d.heap r)
  pub same_next : d.next ≡ c.next
  pub same_config : d.config ≡ c.config
  pub same_cluster : d.cluster_id ≡ c.cluster_id
  pub vheight_le : c.vheight ≤ d.vheight
  pub lock_le : lock_height c ≤ lock_height d
  pub hqc_le : hqc_height c ≤ hqc_height d

certified_height-eq :
    (g h : Heap) (o : Option (Ref × QuorumCert))
    → ((r : Ref) → (h r).height ≡ (g r).height)
    → certified_height h o ≡ certified_height g o
certified_height-eq g h none e = refl
certified_height-eq g h (some high) e = e high.0

write-SameBlock :
    (heap : Heap) (r q : Ref) (b : Block)
    → SameBlock (heap r) b
    → SameBlock (heap q) (write heap r b q)
unfolding write
write-SameBlock heap r q b same = elim (Bool-cases (q == r)) [
  | inl e ↦ rw e (subst (λ p. SameBlock (heap p) b) (sym ((==_iff q r).0 e)) same)
  | inr e ↦ rw e (SameBlock-refl (heap q))
]

-- With the same pointers, a heap whose blocks are the same is an advance.
AdvancesCore-of_blocks :
    (c : Core) (heap : Heap)
    → ((r : Ref) → SameBlock (c.heap r) (heap r))
    → AdvancesCore c (record c { heap = heap })
AdvancesCore-of_blocks c heap same = record {
  blocks = same;
  same_next = refl;
  same_config = refl;
  same_cluster = refl;
  vheight_le = omega arith;
  lock_le = omega (arith, (same c.b_lock).same_height);
  hqc_le = omega (arith, certified_height-eq c.heap heap c.hqc (λ r. (same r).same_height));
}

pub Advances-refl : (c : Core) → AdvancesCore c c
Advances-refl c = AdvancesCore-of_blocks c c.heap (λ r. SameBlock-refl (c.heap r))

module _ {B : Type 0} where
  abbrev pub Advances : State B → State B → Type 0
  Advances s t = AdvancesCore s.core t.core

  pub Advances-preorder : Preorder Advances
  Advances-preorder = record {
    same = λ s. Advances-refl s.core;
    trans = λ s t u h k. record {
      blocks = λ r. SameBlock-trans _ _ _ (h.blocks r) (k.blocks r);
      same_next = k.same_next ∙ h.same_next;
      same_config = k.same_config ∙ h.same_config;
      same_cluster = k.same_cluster ∙ h.same_cluster;
      vheight_le = omega arith;
      lock_le = omega (arith, h.lock_le, k.lock_le);
      hqc_le = omega (arith, h.hqc_le, k.hqc_le);
    };
  }

  -- A change of one block that keeps its fixed fields.
  rewrite-Advances :
      (r : Ref) (f : Block → Block)
      → ((b : Block) → SameBlock b (f b))
      → Keeps Advances (load {B = B} r >>= λ b. store {B = B} r (f b))
  unfolding load store ◌>>=◌
  rewrite-Advances r f same = record {
    at = λ s.
        AdvancesCore-of_blocks s.core (write s.core.heap r (f (s.core.heap r)))
          (λ q. write-SameBlock s.core.heap r q (f (s.core.heap r)) (same (s.core.heap r)));
  }

  -- A change of the other fields.
  pub other-Advances :
      (f : Core → Core)
      → ((c : Core) → AdvancesCore c (f c))
      → Keeps Advances (modify {S = State B} (on_core f))
  other-Advances f h = Keeps-modify (on_core f) λ s. h s.core

module _ {B : Type 0} (hooks : Hooks B) where
  pub emit-Advances : (e : Event) → Keeps Advances (emit hooks e)
  unfolding emit
  emit-Advances e = Keeps-modify _ λ s. record {
    blocks = λ r. SameBlock-refl (s.core.heap r);
    same_next = refl;
    same_config = refl;
    same_cluster = refl;
    vheight_le = omega arith;
    lock_le = omega arith;
    hqc_le = omega arith;
  }

  raise_lock-Advances : (r : Ref) → Keeps Advances (raise_lock hooks r)
  unfolding raise_lock load ◌>>=◌
  raise_lock-Advances r = record {
    at = λ s. elim (Bool-cases (ltb (lock_height s.core) (s.core.heap r).height)) [
      | inl up ↦ rw up (record {
        blocks = λ q. SameBlock-refl (s.core.heap q);
        same_next = refl;
        same_config = refl;
        same_cluster = refl;
        vheight_le = omega arith;
        lock_le = omega (arith, ltb→lt _ _ up);
        hqc_le = omega arith;
      })
      | inr down ↦ rw down (Advances-refl s.core)
    ];
  }
