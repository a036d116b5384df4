-- ===== src/Execution/Results.antt =====
-- What a block's decision executes: the loop over its commands in src/hotstuff.cpp and
-- src/consensus.cpp.
use ava_hotstuff.Prelude.{
  ℕ, ◌+◌, ◌≤◌, ◌≡◌, refl, sym, ap, ◌∙◌, Bool, true, false, List, [], ◌∷◌, ◌++◌, ◌==◌, length, arith,
  if◌then◌else◌, Option-cases, inl, inr,
}
use mathlib.Core.List.{append_assoc, append-nil}
use ava_hotstuff.Prelude.Int.{ℤ}
use ava_hotstuff.Exec.{pure, gets, modify, ◌>>=◌}
use ava_hotstuff.Exec.Returns.{Ends, Ends-mono}
use ava_hotstuff.Entity.Config.{ReplicaId, Hash}
use ava_hotstuff.Entity.Block.{Ref, Block}
use ava_hotstuff.Core.Messages.{Finality, finality}
use ava_hotstuff.Core.State.{State, Hooks, push_event, emit, decide}
use ava_hotstuff.Core.Update.{decide_all}
use ava_hotstuff.Commands.{
  Effect, execute, Desk, note, find_waiting, call_waiting, answer_waiting, execute_cmd, do_decide,
}
use ava_hotstuff.Execution.{Base, handle_event, base_hooks}

-- What has been executed for a height, the first first.
abbrev pub executed : ℕ → List Effect → List Finality
executed h [] = []
executed h (execute fin ∷ es) =
    if fin.cmd_height == h then executed h es ++ fin ∷ [] else executed h es
executed h (_ ∷ es) = executed h es

-- The decisions on the commands of a block.
abbrev pub results : ReplicaId → Block → ℕ → List Hash → List Finality
results id b i [] = []
results id b i (c ∷ cs) = finality id 1 i b.height c b.hash ∷ results id b (i + 1) cs

abbrev pub only : Bool → List Finality → List Finality
only true fs = fs
only false fs = []

-- The blocks are the same, but for their decisions.
pub record Still (s t : State Base) : Type 0 where
  pub same_storage : t.core.storage ≡ s.core.storage
  pub same_id : t.core.id ≡ s.core.id
  pub blocks :
      (q : Ref) → t.core.heap q ≡ record (s.core.heap q) { decision = (t.core.heap q).decision }

pub Still-trans : (s t u : State Base) → Still s t → Still t u → Still s u
Still-trans s t u h k = record {
  same_storage = k.same_storage ∙ h.same_storage;
  same_id = k.same_id ∙ h.same_id;
  blocks = λ q.
      k.blocks q
      ∙ ap (λ (b : Block). record b { decision = (u.core.heap q).decision }) (h.blocks q);
}

-- A decision for the height `h` on the commands: what it executes besides.
pub record Decides (h : ℕ) (fs : List Finality) (s t : State Base) : Type 0 where
  pub still : Still s t
  pub same_tracker : t.base.tracker ≡ s.base.tracker
  pub executes :
      (j : ℕ) → executed j t.base.desk.effects ≡ executed j s.base.desk.effects ++ only (h == j) fs

pub Decides-refl : (h : ℕ) (s : State Base) → Decides h [] s s
Decides-refl h s = record {
  still = record { same_storage = refl; same_id = refl; blocks = λ q. refl };
  same_tracker = refl;
  executes = λ j. nothing (h == j) j;
}
  where
    nothing :
        (b : Bool) (j : ℕ)
        → executed j s.base.desk.effects ≡ executed j s.base.desk.effects ++ only b []
    nothing true j = sym (append-nil (executed j s.base.desk.effects))
    nothing false j = sym (append-nil (executed j s.base.desk.effects))

executed-do_decide :
    (j : ℕ) (fin : Finality) (key val : ℤ) (d : Desk)
    → executed j (do_decide fin key val d).effects
      ≡ executed j d.effects ++ only (fin.cmd_height == j) (fin ∷ [])
unfolding do_decide answer_waiting call_waiting execute_cmd note
executed-do_decide j fin key val d =
    elim (Option-cases (find_waiting fin.cmd_hash d.decision_waiting)) [
      | inl e ↦ rw e (go (fin.cmd_height == j))
      | inr (cb, e) ↦ rw e (go (fin.cmd_height == j))
    ]
  where
    go :
        (b : Bool)
        → (if b then executed j d.effects ++ fin ∷ [] else executed j d.effects)
          ≡ executed j d.effects ++ only b (fin ∷ [])
    go true = refl
    go false = sym (append-nil (executed j d.effects))

join :
    (b : Bool) (es : List Finality) (f : Finality) (fs : List Finality)
    → (es ++ only b (f ∷ [])) ++ only b fs ≡ es ++ only b (f ∷ fs)
join true es f fs = append_assoc es (f ∷ []) fs
join false es f fs = append-nil (es ++ [])

module _ (outer : Hooks (Unit {0})) (b : Block) where
  abbrev one : ℕ → Hash → State Base → Finality
  one i c s = finality s.core.id 1 i b.height c b.hash

  abbrev after_one : ℕ → Hash → ℤ → ℤ → State Base → State Base
  after_one i c k v s = record {
    core = push_event (decide (one i c s) k v) s.core;
    base = record s.base { desk = do_decide (one i c s) k v s.base.desk };
  }

  grow :
      (i : ℕ) (c : Hash) (k v : ℤ) (s t : State Base) (fs : List Finality)
      → Decides b.height fs (after_one i c k v s) t
      → Decides b.height (one i c s ∷ fs) s t
  unfolding push_event
  grow i c k v s t fs d = record {
    still = record {
      same_storage = d.still.same_storage;
      same_id = d.still.same_id;
      blocks = d.still.blocks;
    };
    same_tracker = d.same_tracker;
    executes = λ j.
        d.executes j
        ∙ ap (λ es. es ++ only (b.height == j) fs)
            (executed-do_decide j (one i c s) k v s.base.desk)
        ∙ join (b.height == j) (executed j s.base.desk.effects) (one i c s) fs;
  }

  pub decide_all-Decides :
      (i : ℕ) (cs : List Hash) (ks vs : List ℤ) (s : State Base)
      → length cs ≤ length ks
      → length cs ≤ length vs
      → Ends
          (λ _ t. Decides b.height (results s.core.id b i cs) s t)
          (decide_all (base_hooks outer) b i cs ks vs s)
  unfolding decide_all handle_event emit push_event pure gets modify ◌>>=◌
  decide_all-Decides i [] ks vs s l m = Decides-refl b.height s
  decide_all-Decides i (c ∷ cs) [] vs s l m = absurd (omega arith)
  decide_all-Decides i (c ∷ cs) (k ∷ ks) [] s l m = absurd (omega arith)
  decide_all-Decides i (c ∷ cs) (k ∷ ks) (v ∷ vs) s l m =
      Ends-mono (decide_all (base_hooks outer) b (i + 1) cs ks vs (after_one i c k v s))
        (λ _ t d. grow i c k v s t (results s.core.id b (i + 1) cs) d)
        (decide_all-Decides (i + 1) cs ks vs (after_one i c k v s) (omega arith) (omega arith))
