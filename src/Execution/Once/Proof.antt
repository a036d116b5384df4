-- ===== src/Execution/Once/Proof.antt =====
-- The commands of a block are executed once, after its commit and the confirmations of the other
-- clusters (src/consensus.cpp and src/hotstuff.cpp).
use ava_hotstuff.Prelude.{
  ℕ, ◌<◌, ◌≡◌, refl, sym, ap, subst, ◌∙◌, Bool, false, ◌||◌, List, [], ◌∷◌, ◌++◌, ◌==◌, ◌&&◌, not,
  has, has-insert,
}
use ava_hotstuff.Prelude.Int.{pos}
use ava_hotstuff.Exec.{pure, ◌>>=◌}
use ava_hotstuff.Exec.Returns.{Ends, Ends-bind, Ends-mono}
use ava_hotstuff.Entity.Block.{Ref, Block}
use ava_hotstuff.Entity.Storage.{find_blk, find_blk_hash_for_cid}
use ava_hotstuff.Core.Messages.{Finality}
use ava_hotstuff.Core.State.{State, Hooks}
use ava_hotstuff.Core.Update.{commit_one}
use ava_hotstuff.Clusters.Tracking.{
  Tracker, init_tracker, did_receive_mc, did_update, update_finished_update_cids,
}
use ava_hotstuff.Clusters.Heard.{Message, heard, is_finished}
use ava_hotstuff.Clusters.Finished.{IsTracking, init-IsTracking}
use ava_hotstuff.Clusters.Received.{receive_mc_local-IsTracking}
use ava_hotstuff.Execution.{Base, base_hooks, newly_finished, receive_mc}
use ava_hotstuff.Execution.Results.{executed, results, only, Still, Still-trans}
use ava_hotstuff.Execution.Commits.{
  HasArgs, results_of, results_chosen, Commits, commit_one-Commits,
}
use ava_hotstuff.Execution.Hears.{
  SameUpdates, receive_mc_local-SameUpdates, IsStored, Hears, receive_mc-Hears,
}
use ava_hotstuff.Execution.Run.{Step, commits, confirms, take_step, take_steps, committed, messages}
use ava_hotstuff.Execution.Once.{
  height_of, heights, due, block_at, AreStored, block_at-IsStored, due_commits, due_confirms,
}

results_of-Still : (r : Ref) (s t : State Base) → Still s t → results_of r t ≡ results_of r s
results_of-Still r s t k =
    ap (λ i. results i (t.core.heap r) 0 (t.core.heap r).cmds) k.same_id
    ∙ ap (λ (b : Block). results s.core.id b 0 b.cmds) (k.blocks r)
    ∙ results_chosen s.core.id (t.core.heap r).decision (s.core.heap r) 0 (s.core.heap r).cmds

same_append :
    {es es' fs fs' : List Finality} (b : Bool)
    → es ≡ es'
    → fs ≡ fs'
    → es ++ only b fs ≡ es' ++ only b fs'
same_append b e f = rw e (rw f refl)

same_only : {b b' : Bool} {fs fs' : List Finality} → b ≡ b' → fs ≡ fs' → only b fs ≡ only b' fs'
same_only e f = rw e (rw f refl)

IsStored-Still : (h : ℕ) (r : Ref) (s t : State Base) → Still s t → IsStored h r s → IsStored h r t
IsStored-Still h r s t k d = record {
  its_hash = d.its_hash;
  by_height = ap (λ x. find_blk_hash_for_cid x h) k.same_storage ∙ d.by_height;
  by_hash = ap (λ x. find_blk x d.its_hash) k.same_storage ∙ d.by_hash;
  its_height = ap (λ (b : Block). b.height) (k.blocks r) ∙ d.its_height;
  has_args = subst HasArgs (sym (k.blocks r)) d.has_args;
}

update-IsTracking :
    (n own h : ℕ) (t : Tracker) (ms : List Message)
    → IsTracking n own t ms
    → IsTracking n own (update_finished_update_cids h t) ms
unfolding update_finished_update_cids
update-IsTracking n own h t ms k = record {
  clusters = k.clusters;
  itself = k.itself;
  rows = k.rows;
  done = k.done;
  handed_over = k.handed_over;
  once = k.once;
}

module _ (n own : ℕ) (s : State Base) where
  -- After the commits of `rs` and the messages `ms`.
  record IsDue (rs : List Ref) (ms : List Message) (t : State Base) : Type 0 where
    still : Still s t
    tracking : IsTracking n own t.base.tracker ms
    updates : (h : ℕ) → did_update h t.base.tracker ≡ has h (heights s rs)
    executes : (j : ℕ) → executed j t.base.desk.effects ≡ due n own s j rs (heard j ms)

  commits-IsDue :
      (r : Ref) (rs : List Ref) (ms : List Message) (t u : State Base)
      → has (height_of s r) (heights s rs) ≡ false
      → IsDue rs ms t
      → Commits r t u
      → IsDue (r ∷ rs) ms u
  unfolding did_update update_finished_update_cids did_receive_mc has
  commits-IsDue r rs ms t u fresh k c =
      let h = height_of s r in
      let at = ap (λ (b : Block). b.height) (k.still.blocks r) in
      let tracker = c.its_tracker ∙ ap (λ i. update_finished_update_cids i t.base.tracker) at in
      record {
        still = Still-trans s t u k.still c.still;
        tracking =
            subst (λ x. IsTracking n own x ms) (sym tracker)
              (update-IsTracking n own h t.base.tracker ms k.tracking);
        updates = λ j.
            ap (did_update j) tracker
            ∙ has-insert h j t.base.tracker.finished_update_cids
            ∙ ap (λ b. j == h || b) (k.updates j);
        executes = λ j.
            c.executes j
            ∙ ap
                (λ i.
                  executed j t.base.desk.effects
                  ++ only (i == j) (only (did_receive_mc i t.base.tracker) (results_of r t)))
                at
            ∙ same_append (h == j) (k.executes j)
                (same_only (k.tracking.done h) (results_of-Still r s t k.still))
            ∙ due_commits n own s j r rs ms fresh;
      }

  confirms-IsDue :
      (m : Message) (rs : List Ref) (ms : List Message) (x : Tracker) (t u : State Base)
      → IsDue rs ms t
      → IsTracking n own x (m ∷ ms)
      → x.finished_update_cids ≡ t.base.tracker.finished_update_cids
      → Hears m (block_at s m.height rs) x t u
      → IsDue rs (m ∷ ms) u
  unfolding did_update newly_finished did_receive_mc
  confirms-IsDue m rs ms x t u k later same c =
      let r = block_at s m.height rs in
      let h = m.height in
      let new =
        ap (λ b. not b && has h x.finished_mc_cids) (k.tracking.done h)
        ∙ ap (λ b. not (is_finished n own (heard h ms)) && b) (later.done h) in
      record {
        still = Still-trans s t u k.still c.still;
        tracking = subst (λ y. IsTracking n own y (m ∷ ms)) (sym c.its_tracker) later;
        updates = λ j. ap (did_update j) c.its_tracker ∙ ap (has j) same ∙ k.updates j;
        executes = λ j.
            c.executes j
            ∙ same_append (h == j) (k.executes j)
                (same_only new (same_only (k.updates h) (results_of-Still r s t k.still)))
            ∙ due_confirms n own s j m rs ms;
      }

-- The steps: a commit is of a block that the storage has, at a height of its own, and a confirmation is
-- from one of the clusters.
abbrev pub AreReady : ℕ → State Base → List Step → Type 0
AreReady n s [] = Unit {0}
AreReady n s (commits r ∷ steps) =
    IsStored (height_of s r) r s
    × (has (height_of s r) (heights s (committed steps)) ≡ false)
    × AreReady n s steps
AreReady n s (confirms m ∷ steps) = (m.cluster < n) × AreReady n s steps

AreReady-AreStored :
    (n : ℕ) (s : State Base) (steps : List Step)
    → AreReady n s steps
    → AreStored s (committed steps)
AreReady-AreStored n s [] k = tt
AreReady-AreStored n s (commits r ∷ steps) (stored, _, k) = (stored, AreReady-AreStored n s steps k)
AreReady-AreStored n s (confirms m ∷ steps) k = AreReady-AreStored n s steps k.1

earlier :
    (n : ℕ) (s : State Base) (i : Step) (steps : List Step)
    → AreReady n s (i ∷ steps)
    → AreReady n s steps
earlier n s (commits r) steps (_, _, k) = k
earlier n s (confirms m) steps (_, k) = k

module _ (outer : Hooks (Unit {0})) (n own : ℕ) (s : State Base) (inside : own < n) where
  take_step-IsDue :
      (i : Step) (steps : List Step) (t : State Base)
      → AreReady n s (i ∷ steps)
      → IsDue n own s (committed steps) (messages steps) t
      → Ends
          (λ _ u. IsDue n own s (committed (i ∷ steps)) (messages (i ∷ steps)) u)
          (take_step outer i t)
  unfolding take_step
  take_step-IsDue (commits r) steps t (stored, fresh, _) k =
      Ends-mono (commit_one (base_hooks outer) r t)
        (λ _ u c. commits-IsDue n own s r (committed steps) (messages steps) t u fresh k c)
        (commit_one-Commits outer r t
          (IsStored-Still (height_of s r) r s t k.still stored).has_args)
  take_step-IsDue (confirms m) steps t (from, ready) k =
      let rs = committed steps in
      let ms = messages steps in
      let r = block_at s m.height rs in
      let (x, e, later) =
        receive_mc_local-IsTracking n own t.base.tracker m ms k.tracking inside from in
      Ends-mono (receive_mc outer m t)
        (λ _ u c.
          confirms-IsDue n own s m rs ms x t u k later
            (subst (SameUpdates t.base.tracker) e (
              receive_mc_local-SameUpdates (pos 0) m.cluster m.height m.reconfig_count m.leave_set
                t.base.tracker))
            c)
        (receive_mc-Hears outer m r t x e λ done. IsStored-Still m.height r s t k.still (
          block_at-IsStored s m.height rs (AreReady-AreStored n s steps ready)
            (sym (k.updates m.height) ∙ done)))

  take_steps-IsDue :
      (steps : List Step)
      → s.base.tracker ≡ init_tracker n own
      → s.base.desk.effects ≡ []
      → AreReady n s steps
      → Ends (λ _ t. IsDue n own s (committed steps) (messages steps) t) (take_steps outer steps s)
  unfolding take_steps did_update has pure ◌>>=◌
  take_steps-IsDue [] start idle ready = record {
    still = record { same_storage = refl; same_id = refl; blocks = λ q. refl };
    tracking = subst (λ x. IsTracking n own x []) (sym start) (init-IsTracking n own);
    updates = λ h. ap (did_update h) start;
    executes = λ j. ap (executed j) idle;
  }
  take_steps-IsDue (i ∷ steps) start idle ready =
      Ends-bind (λ _ t. IsDue n own s (committed steps) (messages steps) t) _
        (take_steps outer steps) _ s (take_steps-IsDue steps start idle (earlier n s i steps ready))
        λ _ t. take_step-IsDue i steps t ready

  -- Where the loop that fills a new row starts from 0, each committed block is in the storage, has a key
  -- and a value for each command, and is the only one committed at its height, and each confirmation
  -- is from one of the clusters: commits and confirmations in any order, the last first, end without an
  -- exception or an access out of range, and what has been executed for a height is then: the
  -- results of its block's commands, each once and in their order, if the block was committed and every
  -- other cluster has confirmed the height, whichever came last; and nothing if one is missing.
  pub take_steps-executes :
      (steps : List Step)
      → s.base.tracker ≡ init_tracker n own
      → s.base.desk.effects ≡ []
      → AreReady n s steps
      → Ends
          (λ _ t.
            (j : ℕ)
            → executed j t.base.desk.effects
              ≡ due n own s j (committed steps) (heard j (messages steps)))
          (take_steps outer steps s)
  take_steps-executes steps start idle ready =
      Ends-mono (take_steps outer steps s) (λ _ t k. k.executes)
        (take_steps-IsDue steps start idle ready)
