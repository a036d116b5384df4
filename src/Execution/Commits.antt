-- ===== src/Execution/Commits.antt =====
-- The commit of a block (`commit_one`, from src/consensus.cpp) with the virtual methods of `HotStuffBase`.
use ava_hotstuff.Prelude.{
  ℕ, ◌+◌, ◌≤◌, ◌≡◌, refl, sym, ap, subst, ◌∙◌, Bool, true, false, List, [], ◌∷◌, ◌++◌, ◌==◌, ◌&&◌,
  not, ◌-◌, ◌^◌, length, if◌then◌else◌, ==_iff, Bool-cases, inl, inr,
}
use mathlib.Core.List.{append-nil}
use ava_hotstuff.Exec.{Exec, pure, gets, run, modify, ◌>>=◌, ◌>>◌}
use ava_hotstuff.Exec.Returns.{Ends, Ends-bind}
use ava_hotstuff.Entity.Block.{Ref, Block, write}
use ava_hotstuff.Core.Messages.{Finality}
use ava_hotstuff.Core.State.{
  State, Hooks, push_event, load, store, emit, consensus, start_timer, reset_timer, finished_update,
}
use ava_hotstuff.Core.Update.{decide_all, leave_set, amplify, mark_decided, commit_one}
use ava_hotstuff.Clusters.Tracking.{did_receive_mc, update_finished_update_cids}
use ava_hotstuff.Execution.{Base, handle_event, base_hooks}
use ava_hotstuff.Execution.Results.{
  executed, results, only, Still, Still-trans, Decides, decide_all-Decides,
}

-- Each command has its key and its value.
abbrev pub HasArgs : Block → Type 0
HasArgs b = (length b.cmds ≤ length b.keys) × (length b.cmds ≤ length b.vals)

abbrev pub results_of : Ref → State Base → List Finality
results_of r s = results s.core.id (s.core.heap r) 0 (s.core.heap r).cmds

-- What the commit of `r` leaves.
pub record Commits (r : Ref) (s t : State Base) : Type 0 where
  pub still : Still s t
  pub its_tracker :
      t.base.tracker ≡ update_finished_update_cids (s.core.heap r).height s.base.tracker
  pub executes :
      (j : ℕ)
      → executed j t.base.desk.effects
        ≡ executed j s.base.desk.effects
          ++ only
              ((s.core.heap r).height == j)
              (only (did_receive_mc (s.core.heap r).height s.base.tracker) (results_of r s))

pub no_results : (b : Bool) (es : List Finality) → es ++ only b [] ≡ es
no_results true es = append-nil es
no_results false es = append-nil es

-- The results do not depend on the decision.
pub results_chosen :
    (id n : ℕ) (b : Block) (i : ℕ) (cs : List ℕ)
    → results id (record b { decision = n }) i cs ≡ results id b i cs
results_chosen id n b i [] = refl
results_chosen id n b i (c ∷ cs) = rw (results_chosen id n b (i + 1) cs) refl

module _ (outer : Hooks (Unit {0})) (r : Ref) (s : State Base) where
  abbrev chosen : Block
  chosen = record (s.core.heap r) { decision = 1 }

  abbrev rest : Block → Exec (State Base) (Unit {0})
  rest b = do
    emit (base_hooks outer) (consensus r)
    amplify (base_hooks outer) r b
    emit (base_hooks outer) (start_timer b.height r)
    emit (base_hooks outer) (finished_update b.height)
    received ← gets λ t. did_receive_mc b.height t.base.tracker
    if received
        then (do
          decide_all (base_hooks outer) b 0 b.cmds b.keys b.vals
          emit (base_hooks outer) (reset_timer b.height))
        else pure tt

  abbrev marked : State Base
  marked = record s { core = record s.core { heap = write s.core.heap r chosen } }

  marked_blocks :
      (q : Ref)
      → write s.core.heap r chosen q
        ≡ record (s.core.heap q) { decision = (write s.core.heap r chosen q).decision }
  unfolding write
  marked_blocks q = elim (Bool-cases (q == r)) [
    | inl e ↦ rw e (ap (λ i. record (s.core.heap i) { decision = 1 }) (sym ((==_iff q r).0 e)))
    | inr e ↦ rw e refl
  ]

  -- The state before the test.
  record Enters (t : State Base) : Type 0 where
    still : Still s t
    its_tracker : t.base.tracker ≡ update_finished_update_cids (s.core.heap r).height s.base.tracker
    same_effects : t.base.desk.effects ≡ s.base.desk.effects

  decided :
      (received : Bool) (t : State Base)
      → HasArgs (s.core.heap r)
      → did_receive_mc (s.core.heap r).height s.base.tracker ≡ received
      → Enters t
      → Ends
          (λ _ u. Commits r s u)
          ((if received
              then (do
                decide_all (base_hooks outer) chosen 0 chosen.cmds chosen.keys chosen.vals
                emit (base_hooks outer) (reset_timer chosen.height))
              else pure tt)
            t)
  unfolding pure emit handle_event push_event modify
  decided false t args e k = record {
    still = k.still;
    its_tracker = k.its_tracker;
    executes = λ j.
        ap (executed j) k.same_effects
        ∙ rw e (sym (no_results ((s.core.heap r).height == j) (executed j s.base.desk.effects)));
  }
  decided true t args e k =
      Ends-bind (λ _ u. Decides chosen.height (results t.core.id chosen 0 chosen.cmds) t u) _
        (decide_all (base_hooks outer) chosen 0 chosen.cmds chosen.keys chosen.vals) _ t
        (decide_all-Decides outer chosen 0 chosen.cmds chosen.keys chosen.vals t args.0 args.1)
        λ _ u d. record {
          still = record {
            same_storage = d.still.same_storage ∙ k.still.same_storage;
            same_id = d.still.same_id ∙ k.still.same_id;
            blocks = (Still-trans s t u k.still d.still).blocks;
          };
          its_tracker = d.same_tracker ∙ k.its_tracker;
          executes = λ j.
              d.executes j
              ∙ ap
                  (λ es.
                    es
                    ++ only ((s.core.heap r).height == j) (results t.core.id chosen 0 chosen.cmds))
                  (ap (executed j) k.same_effects)
              ∙ ap (λ fs. executed j s.base.desk.effects ++ only ((s.core.heap r).height == j) fs)
                  (ap (λ i. results i chosen 0 chosen.cmds) k.still.same_id
                    ∙ results_chosen s.core.id 1 (s.core.heap r) 0 chosen.cmds)
              ∙ rw e refl;
        }

  rest-Commits : HasArgs (s.core.heap r) → Ends (λ _ t. Commits r s t) (rest chosen marked)
  unfolding emit amplify leave_set handle_event push_event update_finished_update_cids
      did_receive_mc gets run modify pure ◌>>=◌
  rest-Commits args =
      elim (Bool-cases (
        outer.check_leader tt
        && not (s.core.cluster_id == 0 && (s.core.heap r).height == 2 ^ 32 - 6000))) [
          | inl leads ↦
              rw (leads, amplify)
                (decided (did_receive_mc (s.core.heap r).height s.base.tracker) _ args refl
                  (record {
                    still = record { same_storage = refl; same_id = refl; blocks = marked_blocks };
                    its_tracker = refl;
                    same_effects = refl;
                  }))
          | inr follows ↦
              rw (follows, amplify)
                (decided (did_receive_mc (s.core.heap r).height s.base.tracker) _ args refl
                  (record {
                    still = record { same_storage = refl; same_id = refl; blocks = marked_blocks };
                    its_tracker = refl;
                    same_effects = refl;
                  }))
        ]

  pub commit_one-Commits :
      HasArgs (s.core.heap r) → Ends (λ _ t. Commits r s t) (commit_one (base_hooks outer) r s)
  unfolding commit_one mark_decided load store gets modify ◌>>=◌
  commit_one-Commits args =
      subst (λ b. Ends (λ _ t. Commits r s t) (rest b marked)) (sym loaded) (rest-Commits args)
    where
      loaded : write s.core.heap r chosen r ≡ chosen
      loaded = unfold write in rw ((==_iff r r).1 refl) refl
