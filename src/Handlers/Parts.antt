-- ===== src/Handlers/Parts.antt =====
-- The votes and the complaints that the handlers wait for are verified.
use ava_hotstuff.Prelude.{
  ℕ, ◌≡◌, Bool, true, false, Option, none, some, ==_iff, Option-cases, inl, inr, arith,
}
use ava_hotstuff.Exec.{◌>>=◌}
use ava_hotstuff.Exec.Keeps.{
  Preorder, Keeps, Keeps-pure, Keeps-gets, Keeps-bind, Keeps-crash, Keeps-mono,
}
use ava_hotstuff.Entity.Config.{ReplicaId, Hash, PeerId, ReplicaConfig, get_pubkey}
use ava_hotstuff.Crypto.{PartCert}
use ava_hotstuff.Core.Messages.{Complain}
use ava_hotstuff.Core.State.{Hooks}
use ava_hotstuff.Core.Progress.Handlers.{Advances-rules}
use ava_hotstuff.Core.Rules.Complaints.{on_receive_rcomplain-Keeps}
use ava_hotstuff.Execution.{base_hooks}
use ava_hotstuff.Handlers.{
  Job, Router, verify_part, need, await, enlist, verify_later, wait_for, rcomplain_handler,
}
use ava_hotstuff.Handlers.Steady.{await-IsSteady}
use ava_hotstuff.Handlers.Legit.{
  IsSigned, Warrants, IsSound, Soundly, Soundly-preorder, under, given, IsSteady-Soundly,
  within-Soundly, enlist-Soundly,
}

module _ (outer : Hooks (Unit {0})) (config : ReplicaConfig) (own : ℕ) where
  abbrev Sound : Router → Router → Type 0
  Sound = Soundly outer config own

  abbrev Signed : ReplicaId → Hash → PartCert → Type 0
  Signed = IsSigned outer config own

  abbrev Holds : Router → Type 0
  Holds = IsSound outer config own

  abbrev order : Preorder Sound
  order = Soundly-preorder outer config own

  pub need-Soundly : {A : Type 0} (o : Option A) → Keeps Sound (need o)
  unfolding need
  need-Soundly none = Keeps-crash
  need-Soundly (some a) = Keeps-pure order a

  pub await-Soundly : (h : Hash) (peer : PeerId) → Keeps Sound (await h peer)
  await-Soundly h peer = Keeps-mono (IsSteady-Soundly outer config own) (await-IsSteady h peer)

  verify_part-IsSigned :
      (voter pk : ℕ) (h : Hash) (cert : PartCert)
      → get_pubkey config voter ≡ some pk
      → verify_part outer.scheme pk h cert ≡ true
      → Signed voter h cert
  unfolding verify_part
  verify_part-IsSigned voter pk h cert known ok =
      (pk, known, (==_iff cert.obj_hash h).0 (ground arith), ground arith)

  -- The verification of a part, and the task that waits for it.
  verify_task-Soundly :
      (h : Hash) (there : Bool) (voter : ReplicaId) (cert : PartCert) (job : Job)
      → ((verdict : Bool)
          → (verdict ≡ true → Signed voter h cert)
          → Warrants outer config own verdict job)
      → Keeps Sound (do
        verdict ← verify_later outer voter h cert
        enlist outer
            (record { hash = h; there = there; answered = false; verdict = verdict; job = job }))
  unfolding verify_later need ◌>>=◌
  verify_task-Soundly h there voter cert job warrant = under outer config own λ q k.
      elim (Option-cases (get_pubkey q.node.core.config voter)) [
        | inl unknown ↦ rw unknown tt
        | inr (pk, known) ↦ rw known (
            given outer config own
              (enlist-Soundly outer config own _
                (warrant _ (verify_part-IsSigned voter pk h cert (rw k.config_eq at known))))
              q k)
      ]

  pub wait_for-Soundly :
      (h : Hash) (peer : PeerId) (voter : ReplicaId) (cert : PartCert) (job : Job)
      → ((verdict : Bool)
          → (verdict ≡ true → Signed voter h cert)
          → Warrants outer config own verdict job)
      → Keeps Sound (wait_for outer h peer voter cert job)
  unfolding wait_for
  wait_for-Soundly h peer voter cert job warrant =
      Keeps-bind order (await-Soundly h peer)
        λ there. verify_task-Soundly h there voter cert job warrant

  pub rcomplain_handler-Soundly :
      (peer : Option PeerId) (v : Complain) → Keeps Sound (rcomplain_handler outer peer v)
  unfolding rcomplain_handler
  rcomplain_handler-Soundly none v = Keeps-pure order tt
  rcomplain_handler-Soundly (some peer) v = Keeps-bind order (Keeps-gets order _) λ storage.
      Keeps-bind order (need-Soundly _) λ h.
        within-Soundly outer config own
          (on_receive_rcomplain-Keeps (base_hooks outer) (Advances-rules (base_hooks outer)) _)
