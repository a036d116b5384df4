-- ===== src/Core/Voting/Once.antt =====
-- A replica votes at most once at each height: the invariant through `on_receive_proposal`,
-- `on_propose` and every other method.
use ava_hotstuff.Prelude.{
  ℕ, suc, ◌≡◌, refl, sym, ap, ◌==◌, ◌∙◌, Bool, true, false, Option, none, some, arith, ◌&&◌, not,
  if◌then◌else◌,
}
use ava_hotstuff.Exec.{Outcome, returns, throws, fault, endless, pure, continue, ◌>>=◌}
use ava_hotstuff.Exec.Keeps.{
  Preorder, Keeps, Keeps-pure, Keeps-gets, Keeps-bind, Keeps-if, Keeps-modify, Keeps-mono, Leaves,
  Keeps-from, Leaves-bind, Leaves-under,
}
use ava_hotstuff.Entity.Config.{ReplicaId}
use ava_hotstuff.Entity.Block.{Ref, Heap}
use ava_hotstuff.Core.Messages.{Proposal, Vote}
use ava_hotstuff.Core.State.{Core, State, Hooks, Event, vote, proposal_received, emit, push_event}
use ava_hotstuff.Core.Vote.{on_qc_finish, stop_waiting, on_receive_vote, do_vote}
use ava_hotstuff.Core.Receive.{
  on_receive_proposal, accept, after_opinion, finish_referred, cast_vote,
}
use ava_hotstuff.Core.Rules.{is_vote, load-Keeps}
use ava_hotstuff.Core.Rules.Methods.{on_receive_vote-Keeps, catch_up-Keeps, finish_referred-Keeps}
use ava_hotstuff.Core.Voting.{Falling, Falling-event, Falling-mono, Quiet, Quiet-rules}
use ava_hotstuff.Core.Voting.Rule.{Accepts, accept-Accepts}

-- The votes rise and none is above `vheight`.
abbrev pub IsOrderly : Core → Type 0
IsOrderly c = Falling (suc c.vheight) c.trace

-- The state between the opinion and the vote on a block of height `h`.
pub record IsReady (h : ℕ) (heap : Heap) (c : Core) : Type 0 where
  pub at_height : c.vheight ≡ h
  pub same_heap : c.heap ≡ heap
  pub votes_below : Falling h c.trace

module _ {B : Type 0} where
  abbrev pub Orderly : State B → State B → Type 0
  Orderly s t = IsOrderly s.core → IsOrderly t.core

  pub Orderly-preorder : Preorder Orderly
  Orderly-preorder = record { same = λ s h. h; trans = λ s t u f g h. g (f h) }

  pub Quiet-Orderly : (s t : State B) → Quiet s t → Orderly s t
  Quiet-Orderly s t q h = rw q.same_vheight (q.no_vote _ h)

  -- What the steps between the opinion and the vote keep.
  abbrev Ready : ℕ → Heap → State B → State B → Type 0
  Ready h heap s t = IsReady h heap s.core → IsReady h heap t.core

  Ready-preorder : (h : ℕ) (heap : Heap) → Preorder (Ready h heap)
  Ready-preorder h heap = record { same = λ s r. r; trans = λ s t u f g r. g (f r) }

  Ready-Orderly : (h : ℕ) (heap : Heap) (t : State B) → IsReady h heap t.core → IsOrderly t.core
  Ready-Orderly h heap t r =
      Falling-mono h (suc t.core.vheight) t.core.trace (omega (arith, r.at_height)) r.votes_below

module _ {B : Type 0} (hooks : Hooks B) (h : ℕ) (heap : Heap) where
  emit-Ready : (e : Event) → is_vote e ≡ false → Keeps (Ready h heap) (emit hooks e)
  unfolding emit ◌>>=◌
  emit-Ready e no_vote = record {
    at = λ s r. record {
      at_height = r.at_height;
      same_heap = r.same_heap;
      votes_below = Falling-event h e s.core.trace no_vote r.votes_below;
    };
  }

  on_qc_finish-Ready : (q : Ref) → Keeps (Ready h heap) (on_qc_finish hooks q)
  unfolding on_qc_finish stop_waiting
  on_qc_finish-Ready q =
      Keeps-bind (Ready-preorder h heap) (Keeps-gets (Ready-preorder h heap) _) λ w.
        Keeps-if _
          (Keeps-bind (Ready-preorder h heap) (emit-Ready _ refl) λ _. Keeps-modify _ λ s r.
            record {
              at_height = r.at_height;
              same_heap = r.same_heap;
              votes_below = r.votes_below;
            })
          (Keeps-pure (Ready-preorder h heap) tt)

  finish_referred-Ready :
      (self : Bool) (o : Option Ref) → Keeps (Ready h heap) (finish_referred hooks self o)
  unfolding finish_referred
  finish_referred-Ready false (some q) = on_qc_finish-Ready q
  finish_referred-Ready false none = Keeps-pure (Ready-preorder h heap) tt
  finish_referred-Ready true o = Keeps-pure (Ready-preorder h heap) tt

module _ {B : Type 0} (hooks : Hooks B) where
  on_receive_vote-Orderly : (v : Vote) → Keeps Orderly (on_receive_vote hooks v)
  on_receive_vote-Orderly v =
      Keeps-mono Quiet-Orderly (on_receive_vote-Keeps hooks (Quiet-rules hooks) v)

  do_vote-IsOrderly :
      (last : ReplicaId) (v : Vote) (h : ℕ) (t : State B)
      → t.core.vheight ≡ h
      → Falling h t.core.trace
      → Leaves (λ u. IsOrderly u.core) (do_vote hooks last v h t)
  unfolding do_vote ◌>>=◌
  do_vote-IsOrderly last v h t e f =
      let voted = record t {
        core = push_event (vote last v h) t.core;
        base = hooks.handle (vote last v h) t.base;
      } in
      Keeps-from
        (Keeps-if (hooks.beat_resp last voted.base == t.core.id) (on_receive_vote-Orderly v)
          (Keeps-pure Orderly-preorder tt))
        voted (λ u keep. keep (omega arith, f))

  cast_vote-IsOrderly :
      (proposer : ReplicaId) (r : Ref) (heap : Heap) (t : State B)
      → IsReady (heap r).height heap t.core
      → Leaves (λ u. IsOrderly u.core) (cast_vote hooks proposer r t)
  unfolding cast_vote ◌>>=◌
  cast_vote-IsOrderly proposer r heap t ready =
      let at : (t.core.heap r).height ≡ (heap r).height =
        ap (λ (g : Heap). (g r).height) ready.same_heap in
      do_vote-IsOrderly proposer _ (t.core.heap r).height t (ready.at_height ∙ sym at)
        (rw at ready.votes_below)

  vote_if-IsOrderly :
      (b : Bool) (prop : Proposal) (heap : Heap) (t : State B)
      → IsReady (heap prop.blk).height heap t.core
      → Leaves
          (λ u. IsOrderly u.core)
          ((if b then cast_vote hooks prop.proposer prop.blk else pure tt) t)
  unfolding pure
  vote_if-IsOrderly true prop heap t ready = cast_vote-IsOrderly prop.proposer prop.blk heap t ready
  vote_if-IsOrderly false prop heap t ready = Ready-Orderly (heap prop.blk).height heap t ready

  -- From a good opinion on.
  vote_after-IsOrderly :
      (prop : Proposal) (self : Bool) (heap : Heap) (t : State B)
      → IsReady (heap prop.blk).height heap t.core
      → Leaves (λ u. IsOrderly u.core) (after_opinion hooks prop self true t)
  unfolding after_opinion
  vote_after-IsOrderly prop self heap t ready =
      Leaves-bind _ (load-Keeps pre prop.blk) t (keeps t ready) λ b u fu.
        Leaves-bind _ (finish_referred-Ready hooks h heap self b.qc_ref) u (keeps u (fu ready))
          λ _ v fv.
            Leaves-bind _ (emit-Ready hooks h heap (proposal_received prop) refl) v
              (keeps v (fv (fu ready)))
              λ _ w fw.
                Leaves-bind _ (Keeps-gets pre _) w (keeps w (fw (fv (fu ready)))) λ disabled x fx.
                  vote_if-IsOrderly (true && not disabled) prop heap x (fx (fw (fv (fu ready))))
    where
      h : ℕ
      h = (heap prop.blk).height

      pre : Preorder (Ready {B = B} h heap)
      pre = Ready-preorder h heap

      keeps :
          (s : State B)
          → IsReady h heap s.core
          → (u : State B) → Ready h heap s u
          → IsOrderly u.core
      keeps s r u f = Ready-Orderly h heap u (f r)

  -- From a bad opinion on.
  no_vote_after-Orderly :
      (prop : Proposal) (self : Bool) → Keeps Orderly (after_opinion hooks prop self false)
  unfolding after_opinion
  no_vote_after-Orderly prop self =
      Keeps-bind Orderly-preorder (load-Keeps Orderly-preorder prop.blk) λ b.
        Keeps-bind Orderly-preorder
          (Keeps-mono Quiet-Orderly (finish_referred-Keeps hooks (Quiet-rules hooks) self b.qc_ref))
          λ _.
            Keeps-bind Orderly-preorder
              (Keeps-mono Quiet-Orderly ((Quiet-rules hooks).emits (proposal_received prop) refl))
              λ _.
                Keeps-bind Orderly-preorder (Keeps-gets Orderly-preorder _)
                  λ disabled. Keeps-pure Orderly-preorder tt

  opinion-IsOrderly :
      (prop : Proposal) (self : Bool) (s : State B) (o : Outcome (State B) Bool)
      → IsOrderly s.core
      → Accepts s prop.blk o
      → Leaves (λ u. IsOrderly u.core) (continue o (after_opinion hooks prop self))
  opinion-IsOrderly prop self s (returns true t) f (e, high) =
      vote_after-IsOrderly prop self s.core.heap t (
        rw e (record {
          at_height = refl;
          same_heap = refl;
          votes_below = Falling-mono (suc s.core.vheight) _ s.core.trace high f;
        }))
  opinion-IsOrderly prop self s (returns false t) f e =
      Keeps-from (no_vote_after-Orderly prop self) t λ u keep. keep (rw e f)
  opinion-IsOrderly prop self s (throws e t) f h = absurd h
  opinion-IsOrderly prop self s fault f h = tt
  opinion-IsOrderly prop self s endless f h = tt

  opinion-Orderly :
      (prop : Proposal) (self : Bool)
      → Keeps Orderly (accept prop.blk >>= after_opinion hooks prop self)
  unfolding ◌>>=◌
  opinion-Orderly prop self = record {
    at = λ s.
        Leaves-under _ _
          λ f. opinion-IsOrderly prop self s (accept prop.blk s) f (accept-Accepts s prop.blk);
  }

  pub on_receive_proposal-Orderly :
      (prop : Proposal) → Keeps Orderly (on_receive_proposal hooks prop)
  unfolding on_receive_proposal
  on_receive_proposal-Orderly prop =
      Keeps-bind Orderly-preorder (Keeps-gets Orderly-preorder _) λ id.
        Keeps-bind Orderly-preorder
          (Keeps-mono Quiet-Orderly
            (catch_up-Keeps hooks (Quiet-rules hooks) (prop.proposer == id) prop.blk))
          λ _. opinion-Orderly prop (prop.proposer == id)
