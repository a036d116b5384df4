-- ===== src/Handlers/Legit.antt =====
-- What the handlers hand over to `HotStuffCore` is signed, and what they relay from the own cluster
-- comes from the proposer that it names.
use ava_hotstuff.Prelude.{
  ℕ, ◌≡◌, refl, ◌∙◌, Bool, true, false, some, List, [], ◌∷◌, ◌++◌, ◌&&◌, Bool-cases, inl, inr,
}
use ava_hotstuff.Exec.{Exec, ◌>>=◌}
use ava_hotstuff.Exec.Keeps.{
  Preorder, Keeps, Keeps-pure, Keeps-bind, Keeps-if, Keeps-modify, Keeps-mono, Leaves, Leaves-under,
  Leaves-given,
}
use ava_hotstuff.Entity.Config.{ReplicaId, Hash, ReplicaConfig, get_pubkey, get_peer_id}
use ava_hotstuff.Crypto.{PartCert}
use ava_hotstuff.Core.State.{State, Hooks}
use ava_hotstuff.Core.Progress.{Advances}
use ava_hotstuff.Core.Progress.Handlers.{
  Advances-rules, on_receive_vote-Advances, on_receive_proposal-Advances,
}
use ava_hotstuff.Core.Rules.Complaints.{on_receive_lcomplain-Keeps}
use ava_hotstuff.Execution.{Base, base_hooks}
use ava_hotstuff.Handlers.{
  Job, take_proposal, take_vote, take_lcomplain, Task, Routed, relayed, counted, complained, Router,
  route, within, unready, run_job, enlist, run_ready, resolve,
}
use ava_hotstuff.Handlers.Steady.{IsSteady, within-IsSteady}

module _ (outer : Hooks (Unit {0})) (config : ReplicaConfig) (own : ℕ) where
  -- The replica is known, and its signature of the hash verifies under its key.
  abbrev pub IsSigned : ReplicaId → Hash → PartCert → Type 0
  IsSigned voter h cert =
      (pk : ℕ) × (get_pubkey config voter ≡ some pk)
      × (cert.obj_hash ≡ h)
      × (outer.scheme.verify pk cert.obj_hash cert.sig ≡ true)

  abbrev pub IsLegit : Routed → Type 0
  IsLegit (relayed peer p second peers) =
      p.cluster_number ≡ some own → get_peer_id config p.proposer ≡ some peer
  IsLegit (counted v) = IsSigned v.voter v.blk_hash v.cert
  IsLegit (complained v) = IsSigned v.voter v.blk_hash v.cert

  abbrev pub AllLegit : List Routed → Type 0
  AllLegit [] = Unit {0}
  AllLegit (e ∷ es) = IsLegit e × AllLegit es

  abbrev pub Warrants : Bool → Job → Type 0
  Warrants verdict (take_proposal p) = Unit {0}
  Warrants verdict (take_vote v) = verdict ≡ true → IsSigned v.voter v.blk_hash v.cert
  Warrants verdict (take_lcomplain v) = verdict ≡ true → IsSigned v.voter v.blk_hash v.cert

  abbrev pub AllWarranted : List Task → Type 0
  AllWarranted [] = Unit {0}
  AllWarranted (t ∷ ts) = Warrants t.verdict t.job × AllWarranted ts

  pub record IsSound (r : Router) : Type 0 where
    pub config_eq : r.node.core.config ≡ config
    pub cluster_eq : r.node.core.cluster_id ≡ own
    pub warranted : AllWarranted r.tasks
    pub legit : AllLegit r.routed

  -- An action after which all this holds if it did before.
  abbrev pub Soundly : Router → Router → Type 0
  Soundly r q = IsSound r → IsSound q

  pub Soundly-preorder : Preorder Soundly
  Soundly-preorder = record { same = λ r g. g; trans = λ r q u h k g. k (h g) }

  pub under :
      {A : Type 0} {m : Exec Router A}
      → ((r : Router) → IsSound r → Leaves IsSound (m r))
      → Keeps Soundly m
  under {m = m} f = record { at = λ r. Leaves-under IsSound (m r) (f r) }

  pub given :
      {A : Type 0} {m : Exec Router A}
      → Keeps Soundly m
      → (r : Router) → IsSound r
      → Leaves IsSound (m r)
  given {m = m} k r = Leaves-given IsSound (m r) (k.at r)

  pub IsSteady-Soundly : (r q : Router) → IsSteady r q → Soundly r q
  IsSteady-Soundly r q h g = record {
    config_eq = h.same_config ∙ g.config_eq;
    cluster_eq = h.same_cluster ∙ g.cluster_eq;
    warranted = rw h.same_tasks g.warranted;
    legit = rw h.same_routed g.legit;
  }

  pub within-Soundly :
      {A : Type 0} {m : Exec (State Base) A} → Keeps Advances m → Keeps Soundly (within m)
  within-Soundly k = Keeps-mono IsSteady-Soundly (within-IsSteady k)

  pub route-Soundly : (e : Routed) → IsLegit e → Keeps Soundly (route e)
  unfolding route
  route-Soundly e ok = Keeps-modify _ λ r g. record {
    config_eq = g.config_eq;
    cluster_eq = g.cluster_eq;
    warranted = g.warranted;
    legit = (ok, g.legit);
  }

  run_job-Soundly :
      (verdict : Bool) (job : Job)
      → Warrants verdict job
      → Keeps Soundly (run_job outer verdict job)
  unfolding run_job
  run_job-Soundly true (take_proposal p) w =
      within-Soundly (on_receive_proposal-Advances (base_hooks outer) p)
  run_job-Soundly false (take_proposal p) w =
      within-Soundly (on_receive_proposal-Advances (base_hooks outer) p)
  run_job-Soundly true (take_vote v) w =
      Keeps-bind Soundly-preorder (route-Soundly (counted v) (w refl))
        λ _. within-Soundly (on_receive_vote-Advances (base_hooks outer) v)
  run_job-Soundly true (take_lcomplain v) w =
      Keeps-bind Soundly-preorder (route-Soundly (complained v) (w refl)) λ _.
        within-Soundly
          (on_receive_lcomplain-Keeps (base_hooks outer) (Advances-rules (base_hooks outer)) v)
  run_job-Soundly false (take_vote v) w = Keeps-pure Soundly-preorder tt
  run_job-Soundly false (take_lcomplain v) w = Keeps-pure Soundly-preorder tt

  AllWarranted-append :
      (ts : List Task) (t : Task)
      → AllWarranted ts
      → Warrants t.verdict t.job
      → AllWarranted (ts ++ t ∷ [])
  AllWarranted-append [] t ws w = (w, tt)
  AllWarranted-append (u ∷ ts) t (x, ws) w = (x, AllWarranted-append ts t ws w)

  with_tasks :
      (r : Router) (ts : List Task)
      → AllWarranted ts
      → IsSound r
      → IsSound (record r { tasks = ts })
  with_tasks r ts ws g = record {
    config_eq = g.config_eq;
    cluster_eq = g.cluster_eq;
    warranted = ws;
    legit = g.legit;
  }

  pub enlist-Soundly : (t : Task) → Warrants t.verdict t.job → Keeps Soundly (enlist outer t)
  unfolding enlist
  enlist-Soundly t w = Keeps-if (t.there && t.answered) (run_job-Soundly t.verdict t.job w) (
      Keeps-modify _
        λ r g. with_tasks r (r.tasks ++ t ∷ []) (AllWarranted-append r.tasks t g.warranted w) g)

  run_ready-Soundly : (ts : List Task) → AllWarranted ts → Keeps Soundly (run_ready outer ts)
  unfolding run_ready
  run_ready-Soundly [] ws = Keeps-pure Soundly-preorder tt
  run_ready-Soundly (t ∷ ts) (w, ws) =
      Keeps-if (t.there && t.answered)
        (Keeps-bind Soundly-preorder (run_job-Soundly t.verdict t.job w)
          λ _. run_ready-Soundly ts ws)
        (run_ready-Soundly ts ws)

  unready-AllWarranted : (ts : List Task) → AllWarranted ts → AllWarranted (unready ts)
  unfolding unready
  unready-AllWarranted [] ws = tt
  unready-AllWarranted (t ∷ ts) (w, ws) = elim (Bool-cases (t.there && t.answered)) [
    | inl e ↦ rw e (unready-AllWarranted ts ws)
    | inr e ↦ rw e (w, unready-AllWarranted ts ws)
  ]

  pub resolve-Soundly :
      (f : List Task → List Task)
      → ((ts : List Task) → AllWarranted ts → AllWarranted (f ts))
      → Keeps Soundly (resolve outer f)
  unfolding resolve ◌>>=◌
  resolve-Soundly f keep = under λ r g.
      let ws = keep r.tasks g.warranted in
      given (run_ready-Soundly (f r.tasks) ws) (record r { tasks = unready (f r.tasks) })
        (with_tasks r (unready (f r.tasks)) (unready-AllWarranted (f r.tasks) ws) g)
