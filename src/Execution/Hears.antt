-- ===== src/Execution/Hears.antt =====
-- A confirmation of another cluster (`receive_mc_local` and `decide_after_mc` of src/hotstuff.cpp).
use ava_hotstuff.Prelude.{
  ℕ, ◌≡◌, refl, sym, ap, subst, ◌∙◌, Bool, true, false, Option, none, some, List, ◌++◌, ◌==◌, has,
  if◌then◌else◌, Bool-cases, Option-cases, inl, inr,
}
use ava_hotstuff.Prelude.Int.{ℤ, pos}
use ava_hotstuff.Prelude.Assoc.{lookup, or_new}
use ava_hotstuff.Exec.{pure, gets, modify, ◌>>=◌}
use ava_hotstuff.Exec.Returns.{Ends, Ends-bind, Ends-mono}
use ava_hotstuff.Entity.Config.{Hash}
use ava_hotstuff.Entity.Block.{Ref}
use ava_hotstuff.Entity.Storage.{find_blk, find_blk_hash_for_cid}
use ava_hotstuff.Core.State.{State, Hooks, push_event, load, deref, emit}
use ava_hotstuff.Core.Update.{decide_all}
use ava_hotstuff.Clusters.Row.{test_from, write_at, clear_from}
use ava_hotstuff.Clusters.Tracking.{
  Tracker, store_row, finish, start_row, bump_row, after_test, count_cluster, track, reconfigure,
  receive_mc_local, did_update,
}
use ava_hotstuff.Clusters.Heard.{Message}
use ava_hotstuff.Execution.{
  Base, handle_event, base_hooks, decide_blk, decide_found, decide_after_mc, newly_finished,
  take_tracker, receive_mc,
}
use ava_hotstuff.Execution.Results.{
  executed, only, Still, Decides, Decides-refl, decide_all-Decides,
}
use ava_hotstuff.Execution.Commits.{HasArgs, results_of, no_results}

-- The confirmations do not touch `finished_update_cids`.
abbrev pub SameUpdates : Tracker → Option Tracker → Type 0
SameUpdates s none = Unit {0}
SameUpdates s (some t) = t.finished_update_cids ≡ s.finished_update_cids

after_test-SameUpdates :
    (o : Option Bool) (h : ℕ) (row : List ℕ) (s : Tracker) → SameUpdates s (after_test o h row s)
unfolding after_test store_row finish
after_test-SameUpdates none h row s = tt
after_test-SameUpdates (some false) h row s = refl
after_test-SameUpdates (some true) h row s =
    elim (Option-cases (write_at (clear_from s.n_clusters 0 row) s.cluster_id 1)) [
      | inl e ↦ rw (e, SameUpdates) tt
      | inr (cleared, e) ↦ rw (e, SameUpdates) refl
    ]

count_cluster-SameUpdates :
    (o : Option (List ℕ)) (h : ℕ) (s : Tracker) → SameUpdates s (count_cluster o h s)
unfolding count_cluster
count_cluster-SameUpdates none h s = tt
count_cluster-SameUpdates (some row) h s =
    after_test-SameUpdates (test_from s.n_clusters 0 row) h row s

track-SameUpdates : (x : ℤ) (c h : ℕ) (s : Tracker) → SameUpdates s (track x c h s)
unfolding track
track-SameUpdates x c h s = elim (Bool-cases (has h s.finished_mc_cids)) [
  | inl e ↦ rw e refl
  | inr e ↦ rw e (
      count_cluster-SameUpdates
        (bump_row (start_row x (lookup h s.cid_to_cluster_tracker_array) s.n_clusters s.cluster_id)
          c)
        h s)
]

reconfigure-SameUpdates :
    (c count : ℕ) (leave_set : List ℕ) (s : Tracker)
    → (reconfigure c count leave_set s).finished_update_cids ≡ s.finished_update_cids
unfolding reconfigure
reconfigure-SameUpdates c count leave_set s =
    elim (Bool-cases (or_new (lookup c s.clusterid_to_reconfig_count) 0 == count)) [
      | inl e ↦ rw e refl
      | inr e ↦ rw e refl
    ]

pub receive_mc_local-SameUpdates :
    (x : ℤ) (c h count : ℕ) (leave_set : List ℕ) (s : Tracker)
    → SameUpdates s (receive_mc_local x c h count leave_set s)
unfolding receive_mc_local
receive_mc_local-SameUpdates x c h count leave_set s =
    through (track x c h u) (track-SameUpdates x c h u)
  where
    u : Tracker
    u = reconfigure c count leave_set s

    through : (o : Option Tracker) → SameUpdates u o → SameUpdates s o
    through none d = tt
    through (some t) d = d ∙ reconfigure-SameUpdates c count leave_set s

-- The storage has the block of a height.
pub record IsStored (h : ℕ) (r : Ref) (s : State Base) : Type 0 where
  pub its_hash : Hash
  pub by_height : find_blk_hash_for_cid s.core.storage h ≡ some its_hash
  pub by_hash : find_blk s.core.storage its_hash ≡ some r
  pub its_height : (s.core.heap r).height ≡ h
  pub has_args : HasArgs (s.core.heap r)

module _ (outer : Hooks (Unit {0})) (h : ℕ) where
  decide_blk-Decides :
      (r : Ref) (s : State Base)
      → (s.core.heap r).height ≡ h
      → HasArgs (s.core.heap r)
      → Ends (λ _ t. Decides h (results_of r s) s t) (decide_blk outer h r s)
  unfolding decide_blk load emit handle_event push_event gets modify ◌>>=◌
  decide_blk-Decides r s e args =
      let b = s.core.heap r in
      Ends-bind (λ _ u. Decides b.height (results_of r s) s u) _
        (decide_all (base_hooks outer) b 0 b.cmds b.keys b.vals) _ s
        (decide_all-Decides outer b 0 b.cmds b.keys b.vals s args.0 args.1)
        λ _ u d. record {
          still = record {
            same_storage = d.still.same_storage;
            same_id = d.still.same_id;
            blocks = d.still.blocks;
          };
          same_tracker = d.same_tracker;
          executes = λ j.
              subst
                (λ i.
                  executed j u.base.desk.effects
                  ≡ executed j s.base.desk.effects ++ only (i == j) (results_of r s))
                e (d.executes j);
        }

  module _ (r : Ref) where
    decide_after_mc-Decides :
        (s : State Base)
        → (did_update h s.base.tracker ≡ true → IsStored h r s)
        → Ends
            (λ _ t. Decides h (only (did_update h s.base.tracker) (results_of r s)) s t)
            (decide_after_mc outer h s)
    unfolding decide_after_mc decide_found deref gets pure ◌>>=◌
    decide_after_mc-Decides s stored = elim (Bool-cases (did_update h s.base.tracker)) [
      | inl ready ↦
          let k = stored ready in
          rw k.by_height (rw ready (rw k.by_hash (decide_blk-Decides r s k.its_height k.has_args)))
      | inr never ↦ elim (Option-cases (find_blk_hash_for_cid s.core.storage h)) [
        | inl e ↦ rw never (rw e (Decides-refl h s))
        | inr (hash, e) ↦ rw never (rw e (rw never (Decides-refl h s)))
      ]
    ]

-- What the confirmation leaves, where `r` is the block of its height if that is committed.
pub record Hears (m : Message) (r : Ref) (t : Tracker) (s u : State Base) : Type 0 where
  pub still : Still s u
  pub its_tracker : u.base.tracker ≡ t
  pub executes :
      (j : ℕ)
      → executed j u.base.desk.effects
        ≡ executed j s.base.desk.effects
          ++ only (m.height == j) (
              only
                (newly_finished m.height s.base.tracker t)
                (only (did_update m.height s.base.tracker) (results_of r s)))

module _ (outer : Hooks (Unit {0})) (m : Message) (r : Ref) (s : State Base) (t : Tracker) where
  abbrev tracked : State Base
  tracked = record s { base = record s.base { tracker = t } }

  heard-Hears :
      (new : Bool)
      → newly_finished m.height s.base.tracker t ≡ new
      → did_update m.height t ≡ did_update m.height s.base.tracker
      → (did_update m.height s.base.tracker ≡ true → IsStored m.height r s)
      → Ends
          (λ _ u. Hears m r t s u)
          ((if new then decide_after_mc outer m.height else pure tt) tracked)
  unfolding pure
  heard-Hears false e same stored = record {
    still = record { same_storage = refl; same_id = refl; blocks = λ q. refl };
    its_tracker = refl;
    executes = λ j. rw e (sym (no_results (m.height == j) (executed j s.base.desk.effects)));
  }
  heard-Hears true e same stored =
      Ends-mono (decide_after_mc outer m.height tracked)
        (λ _ u d. record {
          still = record {
            same_storage = d.still.same_storage;
            same_id = d.still.same_id;
            blocks = d.still.blocks;
          };
          its_tracker = d.same_tracker;
          executes = λ j. rw e (
              subst
                (λ b.
                  executed j u.base.desk.effects
                  ≡ executed j s.base.desk.effects
                    ++ only (m.height == j) (only b (results_of r s)))
                same (d.executes j));
        })
        (decide_after_mc-Decides outer m.height r tracked λ ready.
          let k = stored (sym same ∙ ready) in
          record {
            its_hash = k.its_hash;
            by_height = k.by_height;
            by_hash = k.by_hash;
            its_height = k.its_height;
            has_args = k.has_args;
          })

  pub receive_mc-Hears :
      receive_mc_local (pos 0) m.cluster m.height m.reconfig_count m.leave_set s.base.tracker
        ≡ some t
      → (did_update m.height s.base.tracker ≡ true → IsStored m.height r s)
      → Ends (λ _ u. Hears m r t s u) (receive_mc outer m s)
  unfolding receive_mc take_tracker did_update gets modify ◌>>=◌
  receive_mc-Hears e stored = rw e (
      heard-Hears (newly_finished m.height s.base.tracker t) refl
        (ap (has m.height) (
          subst (SameUpdates s.base.tracker) e (
            receive_mc_local-SameUpdates (pos 0) m.cluster m.height m.reconfig_count m.leave_set
              s.base.tracker)))
        stored)
