-- ===== src/Core/Commit.antt =====
-- What `update` of src/consensus.cpp commits: the two relations that its parts keep or make. `Settled`
-- is what everything but the loop over the commit queue keeps, `Committed` what the loop makes.
pub mod Steps
pub mod Walk
pub mod Chain
use ava_hotstuff.Prelude.{
  ℕ, ◌+◌, ◌≡◌, refl, sym, subst, ap, ◌∙◌, Bool, true, false, Option, none, some, List, [], ◌∷◌,
  ◌++◌, ◌==◌, ◌||◌, reverse, arith, if◌then◌else◌, ==_iff, has, Bool-cases, inl, inr, ltb,
}
use mathlib.Core.List.{reverse_aux}
use ava_hotstuff.Exec.{Exec, pure, gets, returns, modify, ◌>>=◌, ◌>>◌}
use ava_hotstuff.Exec.Keeps.{
  Preorder, Keeps, Keeps-pure, Keeps-gets, Keeps-bind, Keeps-if, Keeps-modify, Keeps-run,
  Keeps-crash, bind-returns, Keeps-returns,
}
use ava_hotstuff.Prelude.Int.{ℤ}
use ava_hotstuff.Entity.Config.{Hash}
use ava_hotstuff.Entity.Block.{Ref, Block, Heap, write}
use ava_hotstuff.Crypto.{QuorumCert}
use ava_hotstuff.Core.State.{
  Core, State, Hooks, Event, consensus, hqc_updated, start_timer, reset_timer, finished_update,
  on_core, load, store, deref, push_event, emit,
}
use ava_hotstuff.Core.Update.{
  update_hqc, raise_lock, decide_all, leave_set, amplify, mark_decided, commit_one, commit_all,
}
use ava_hotstuff.Core.Rules.{load-Keeps, deref-Keeps}

-- The blocks that `do_consensus` was called with, newest first.
abbrev pub consensus_of : List Event → List Ref
consensus_of [] = []
consensus_of (consensus r ∷ es) = r ∷ consensus_of es
consensus_of (_ ∷ es) = consensus_of es

abbrev pub is_consensus : Event → Bool
is_consensus (consensus r) = true
is_consensus _ = false

abbrev pub decided : Block → Block
decided b = record b { decision = 1 }

pub record SettledCore (c d : Core) : Type 0 where
  pub same_heap : d.heap ≡ c.heap
  pub same_exec : d.b_exec ≡ c.b_exec
  pub same_consensus : consensus_of d.trace ≡ consensus_of c.trace

-- The queue `rs` is committed in its order.
pub record CommittedCore (rs : List Ref) (c d : Core) : Type 0 where
  pub blocks : (q : Ref) → d.heap q ≡ (if has q rs then decided (c.heap q) else c.heap q)
  pub exec_stays : d.b_exec ≡ c.b_exec
  pub in_order : consensus_of d.trace ≡ reverse_aux rs (consensus_of c.trace)

pub other_event :
    (e : Event) (es : List Event) → is_consensus e ≡ false → consensus_of (e ∷ es) ≡ consensus_of es
other_event (consensus r) es h = cc
other_event e es h = refl

pub write-decided :
    (heap : Heap) (r q : Ref)
    → write heap r (decided (heap r)) q ≡ (if has q (r ∷ []) then decided (heap q) else heap q)
unfolding write has
write-decided heap r q = elim (Bool-cases (q == r)) [
  | inl e ↦ rw e (ap (λ p. decided (heap p)) (sym ((==_iff q r).0 e)))
  | inr e ↦ rw e refl
]

-- The first of a queue, then the others.
twice_if :
    (first more : Bool) (a b : Block)
    → b ≡ (if first || false then decided a else a)
    → (if more then decided b else b) ≡ (if first || more then decided a else a)
twice_if true true a b e = ap decided e
twice_if true false a b e = e
twice_if false true a b e = ap decided e
twice_if false false a b e = e

pub twice :
    (q r : Ref) (rs : List Ref) (a b : Block)
    → b ≡ (if has q (r ∷ []) then decided a else a)
    → (if has q rs then decided b else b) ≡ (if has q (r ∷ rs) then decided a else a)
unfolding has
twice q r rs a b e = twice_if (q == r) (has q rs) a b e

module _ {B : Type 0} where
  abbrev pub Settled : State B → State B → Type 0
  Settled s t = SettledCore s.core t.core

  pub Settled-preorder : Preorder Settled
  Settled-preorder = record {
    same = λ s. record { same_heap = refl; same_exec = refl; same_consensus = refl };
    trans = λ s t u h k. record {
      same_heap = k.same_heap ∙ h.same_heap;
      same_exec = k.same_exec ∙ h.same_exec;
      same_consensus = k.same_consensus ∙ h.same_consensus;
    };
  }

  abbrev pub Committed : List Ref → State B → State B → Type 0
  Committed rs s t = CommittedCore rs s.core t.core

  pub returned : {A : Type 0} {a b : A} {s t : State B} → returns a s ≡ returns b t → s ≡ t
  returned h = cc

  pub at_once : {A : Type 0} (a b : A) {s t : State B} → pure a s ≡ returns b t → s ≡ t
  unfolding pure
  at_once a b h = returned h
