-- ===== src/Core/Voting.antt =====
-- How a replica votes, in runs whose calls do not nest: at most once at each height, in rising heights,
-- whatever it receives. The relation `Quiet` is what every method but the vote itself keeps.
pub mod Rule
pub mod Once
pub mod Run
use ava_hotstuff.Prelude.{
  ℕ, ◌≤◌, ◌<◌, ◌≡◌, refl, ◌∙◌, Bool, true, false, Option, some, List, [], ◌∷◌, arith,
}
use ava_hotstuff.Exec.{modify, ◌>>=◌}
use ava_hotstuff.Exec.Keeps.{
  Preorder, Keeps, Keeps-pure, Keeps-gets, Keeps-bind, Keeps-if, Keeps-modify, Keeps-run,
}
use ava_hotstuff.Entity.Block.{Ref, Block}
use ava_hotstuff.Crypto.{QuorumCert}
use ava_hotstuff.Core.State.{
  Core, State, Hooks, Event, vote, hqc_updated, on_core, load, store, deref, emit,
}
use ava_hotstuff.Core.Deliver.{
  clear_parents, push_parent, set_height, set_qc_ref, replace_tails, mark_delivered,
  store_in_map_for_mc,
}
use ava_hotstuff.Core.Update.{update_hqc, raise_lock, leave_set, mark_decided, set_exec}
use ava_hotstuff.Core.Vote.{stop_waiting, store_self_qc, add_voter}
use ava_hotstuff.Core.Complain.{add_lcomplain, add_rcomplain}
use ava_hotstuff.Core.Rules.{is_vote, HandlerRules, load-Keeps, deref-Keeps, first-Keeps}
use ava_hotstuff.Core.Rules.Delivery.{DeliveryRules}

-- The heights of the votes of a trace, newest first, fall from `n` on.
abbrev pub Falling : ℕ → List Event → Type 0
Falling n [] = Unit {0}
Falling n (vote last v height ∷ es) = (height < n) × Falling height es
Falling n (_ ∷ es) = Falling n es

pub Falling-event :
    (n : ℕ) (e : Event) (es : List Event) → is_vote e ≡ false → Falling n es → Falling n (e ∷ es)
Falling-event n (vote last v height) es no_vote f = cc
Falling-event n e es no_vote f = f

pub Falling-mono : (m n : ℕ) (es : List Event) → m ≤ n → Falling m es → Falling n es
Falling-mono m n [] h f = tt
Falling-mono m n (vote last v height ∷ es) h f = (omega arith, f.1)
Falling-mono m n (e ∷ es) h f = Falling-mono m n es h f

-- The same `vheight`, switch and name, and no vote.
pub record QuietCore (c d : Core) : Type 0 where
  pub same_vheight : d.vheight ≡ c.vheight
  pub no_vote : (n : ℕ) → Falling n c.trace → Falling n d.trace

module _ {B : Type 0} where
  abbrev pub Quiet : State B → State B → Type 0
  Quiet s t = QuietCore s.core t.core

  pub Quiet-preorder : Preorder Quiet
  Quiet-preorder = record {
    same = λ s. record { same_vheight = refl; no_vote = λ n f. f };
    trans = λ s t u h k. record {
      same_vheight = k.same_vheight ∙ h.same_vheight;
      no_vote = λ n f. k.no_vote n (h.no_vote n f);
    };
  }

  pub Quiet-of_same :
      (s t : State B) → t.core.vheight ≡ s.core.vheight → t.core.trace ≡ s.core.trace → Quiet s t
  Quiet-of_same s t e f = record { same_vheight = e; no_vote = λ n h. rw f h }

module _ {B : Type 0} (hooks : Hooks B) where
  emit-Quiet : (e : Event) → is_vote e ≡ false → Keeps Quiet (emit hooks e)
  unfolding emit ◌>>=◌
  emit-Quiet e no_vote = record {
    at = λ s. record { same_vheight = refl; no_vote = λ n f. Falling-event n e _ no_vote f };
  }

  modify-Quiet :
      (f : Core → Core)
      → ((c : Core) → (f c).vheight ≡ c.vheight)
      → ((c : Core) → (f c).trace ≡ c.trace)
      → Keeps Quiet (modify {S = State B} (on_core f))
  modify-Quiet f e t =
      Keeps-modify (on_core f) λ s. Quiet-of_same s (on_core f s) (e s.core) (t s.core)

  store-Quiet : (r : Ref) (b : Block) → Keeps Quiet (store {B = B} r b)
  unfolding store
  store-Quiet r b = modify-Quiet _ (λ c. refl) (λ c. refl)

  rewrite-Quiet :
      (r : Ref) (f : Block → Block) → Keeps Quiet (load {B = B} r >>= λ b. store {B = B} r (f b))
  rewrite-Quiet r f =
      Keeps-bind Quiet-preorder (load-Keeps Quiet-preorder r) λ b. store-Quiet r (f b)

  update_hqc-Quiet : (r : Ref) (qc : Option QuorumCert) → Keeps Quiet (update_hqc hooks r qc)
  unfolding update_hqc
  update_hqc-Quiet r qc = Keeps-bind Quiet-preorder (load-Keeps Quiet-preorder r) λ b.
      Keeps-bind Quiet-preorder (Keeps-gets Quiet-preorder _) λ high.
        Keeps-bind Quiet-preorder (deref-Keeps Quiet-preorder high) λ old.
          Keeps-bind Quiet-preorder (load-Keeps Quiet-preorder old.0) λ ob.
            Keeps-if _
              (Keeps-bind Quiet-preorder (deref-Keeps Quiet-preorder qc) λ q.
                Keeps-bind Quiet-preorder (modify-Quiet _ (λ c. refl) (λ c. refl))
                  λ _. emit-Quiet hqc_updated refl)
              (Keeps-pure Quiet-preorder tt)

  raise_lock-Quiet : (r : Ref) → Keeps Quiet (raise_lock hooks r)
  unfolding raise_lock
  raise_lock-Quiet r = Keeps-bind Quiet-preorder (load-Keeps Quiet-preorder r) λ b.
      Keeps-bind Quiet-preorder (Keeps-gets Quiet-preorder _) λ lock.
        Keeps-bind Quiet-preorder (load-Keeps Quiet-preorder lock)
          λ l. Keeps-if _ (modify-Quiet _ (λ c. refl) (λ c. refl)) (Keeps-pure Quiet-preorder tt)

  pub Quiet-rules : HandlerRules hooks Quiet
  unfolding leave_set mark_decided set_exec stop_waiting store_self_qc add_voter add_lcomplain
      add_rcomplain
  Quiet-rules = record {
    preorder = Quiet-preorder;
    emits = emit-Quiet;
    raises_hqc = update_hqc-Quiet;
    raises_lock = raise_lock-Quiet;
    takes_leave_set = Keeps-run _ (λ s. record { same_vheight = refl; no_vote = λ n f. f });
    marks = λ r. rewrite-Quiet r _;
    executes = λ r. modify-Quiet _ (λ c. refl) (λ c. refl);
    stops_waiting = λ r. modify-Quiet _ (λ c. refl) (λ c. refl);
    stores_qc = λ r q. rewrite-Quiet r _;
    adds_voter = λ r i. rewrite-Quiet r _;
    adds_lcomplain = λ r i. rewrite-Quiet r _;
    adds_rcomplain = λ r i. rewrite-Quiet r _;
  }

  pub Quiet-delivery : (r : Ref) → DeliveryRules (Quiet {B = B}) r
  unfolding clear_parents push_parent set_height set_qc_ref replace_tails mark_delivered
      store_in_map_for_mc
  Quiet-delivery r = record {
    references = record {
      preorder = Quiet-preorder;
      clears = rewrite-Quiet r _;
      pushes = λ p. rewrite-Quiet r _;
      sets_height = Keeps-bind Quiet-preorder (load-Keeps Quiet-preorder r) λ b.
          Keeps-bind Quiet-preorder (first-Keeps Quiet-preorder b.parents)
            λ p. Keeps-bind Quiet-preorder (load-Keeps Quiet-preorder p) λ pb. store-Quiet r _;
      refers = λ q. rewrite-Quiet r _;
    };
    moves_tails = λ ps. modify-Quiet _ (λ c. refl) (λ c. refl);
    delivers = rewrite-Quiet r _;
    maps_cid =
        Keeps-bind Quiet-preorder (load-Keeps Quiet-preorder r)
          λ b. modify-Quiet _ (λ c. refl) (λ c. refl);
  }
