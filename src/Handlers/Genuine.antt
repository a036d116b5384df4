-- ===== src/Handlers/Genuine.antt =====
-- The proposals: those of the own cluster come from the proposer that they name.
use ava_hotstuff.Prelude.{
  ℕ, ◌≡◌, refl, sym, ap, ◌∙◌, Bool, true, false, Option, none, some, ◌==◌, ◌&&◌, not, ltb, ==_iff,
  Bool-cases, Option-cases, inl, inr, if◌then◌else◌, arith,
}
use ava_hotstuff.Exec.{Exec, Outcome, returns, throws, fault, endless, pure, continue, ◌>>=◌}
use ava_hotstuff.Exec.Keeps.{Preorder, Keeps, Keeps-pure, Keeps-gets, Keeps-bind, Keeps-if, Leaves}
use ava_hotstuff.Entity.Config.{PeerId, ReplicaConfig, get_peer_id}
use ava_hotstuff.Core.Messages.{Proposal, cluster_proposal}
use ava_hotstuff.Core.State.{Hooks}
use ava_hotstuff.Handlers.{
  take_proposal, Router, need, receive_proposal_mc, relay_mc, is_from, route_proposal,
  propose_handler,
}
use ava_hotstuff.Handlers.Steady.{receive_mc-Advances}
use ava_hotstuff.Handlers.Legit.{
  IsSound, Soundly, Soundly-preorder, under, given, within-Soundly, route-Soundly, enlist-Soundly,
}
use ava_hotstuff.Handlers.Parts.{need-Soundly, await-Soundly}

module _ (outer : Hooks (Unit {0})) (config : ReplicaConfig) (own : ℕ) where
  abbrev Sound : Router → Router → Type 0
  Sound = Soundly outer config own

  abbrev Holds : Router → Type 0
  Holds = IsSound outer config own

  abbrev order : Preorder Sound
  order = Soundly-preorder outer config own

  receive_proposal_mc-Soundly : (p : Proposal) → Keeps Sound (receive_proposal_mc outer p)
  unfolding receive_proposal_mc
  receive_proposal_mc-Soundly p = Keeps-bind order (need-Soundly outer config own _) λ cluster.
      Keeps-bind order (need-Soundly outer config own _)
        λ count. within-Soundly outer config own (receive_mc-Advances outer _)

  IsGenuine : PeerId → Proposal → Type 0
  IsGenuine peer p = p.cluster_number ≡ some own → get_peer_id config p.proposer ≡ some peer

  relay_mc-Soundly :
      (peer : PeerId) (p : Proposal) → IsGenuine peer p → Keeps Sound (relay_mc outer peer p)
  unfolding relay_mc IsGenuine
  relay_mc-Soundly peer p genuine = Keeps-bind order (Keeps-gets order _) λ s.
      Keeps-bind order (need-Soundly outer config own _) λ cluster.
        Keeps-bind order (need-Soundly outer config own _) λ count.
          Keeps-if _ (Keeps-pure order tt) (
            Keeps-bind order (route-Soundly outer config own _ genuine) λ _.
              receive_proposal_mc-Soundly (
                cluster_proposal s.core.id p.blk s.core.cluster_id cluster
                  p.other_cluster_block_height 2 p.current_peer_set count))

  route_proposal-Soundly :
      (peer : PeerId) (msg_type : ℕ) (p : Proposal)
      → ((msg_type == 1) ≡ true → IsGenuine peer p)
      → Keeps Sound (route_proposal outer peer msg_type p)
  unfolding route_proposal
  route_proposal-Soundly peer msg_type p genuine = elim (Bool-cases (msg_type == 1)) [
    | inl one ↦ rw one (relay_mc-Soundly peer p (genuine one))
    | inr other ↦ rw other (
        Keeps-if (msg_type == 2) (receive_proposal_mc-Soundly p) (
          Keeps-bind order (Keeps-gets order _) λ h.
            Keeps-bind order (await-Soundly outer config own h peer) λ there.
              enlist-Soundly outer config own
                (record {
                  hash = h;
                  there = there;
                  answered = true;
                  verdict = true;
                  job = take_proposal p;
                })
                tt))
  ]

  -- What the test of the sender shows.
  Tests : PeerId → Proposal → Router → Outcome Router Bool → Type 0
  Tests peer p r (returns true q) = IsGenuine peer p × (q ≡ r)
  Tests peer p r (returns false q) = q ≡ r
  Tests peer p r (throws e q) = ⊥
  Tests peer p r fault = Unit {0}
  Tests peer p r endless = Unit {0}

  foreign : (c cluster : ℕ) → c ≡ own → some cluster ≡ some own → (c == cluster) ≡ false → ⊥
  foreign c cluster e f ne =
      let same : cluster ≡ own = cc in clash ((==_iff c cluster).1 (e ∙ sym same))
    where
      clash : (c == cluster) ≡ true → ⊥
      clash h = cc

  is_from-Tests :
      (peer : PeerId) (p : Proposal) (r : Router)
      → IsSound outer config own r
      → Tests peer p r (is_from outer peer p r)
  unfolding is_from need Tests IsGenuine ◌>>=◌
  is_from-Tests peer p r g = elim (Option-cases p.cluster_number) [
    | inl unknown ↦ rw unknown tt
    | inr (cluster, e) ↦ rw e (elim (Bool-cases (r.node.core.cluster_id == cluster)) [
      | inr other ↦ rw other ((λ f. absurd (foreign _ cluster g.cluster_eq f other)), refl)
      | inl same ↦ rw same (elim (Option-cases (get_peer_id r.node.core.config p.proposer)) [
        | inl unknown ↦ rw unknown tt
        | inr (proposer, known) ↦ rw known (elim (Bool-cases (peer == proposer)) [
          | inl it ↦
              rw it (
                (λ f. (rw g.config_eq at known) ∙ ap some (sym ((==_iff peer proposer).0 it))),
                refl,
              )
          | inr not_it ↦ rw not_it refl
        ])
      ])
    ])
  ]

  after_test :
      {A : Type 0} (peer : PeerId) (p : Proposal) (r : Router) (k : Bool → Exec Router A)
      (o : Outcome Router Bool)
      → Tests peer p r o
      → IsSound outer config own r
      → ((genuine : Bool) → (genuine ≡ true → IsGenuine peer p) → Keeps Sound (k genuine))
      → Leaves Holds (continue o k)
  unfolding Tests
  after_test peer p r k (returns true q) (genuine, same) g next =
      rw same (given outer config own (next true (λ _. genuine)) r g)
  after_test peer p r k (returns false q) same g next =
      rw same (given outer config own (next false (λ e. cc)) r g)
  after_test peer p r k (throws e q) never g next = absurd never
  after_test peer p r k fault h g next = tt
  after_test peer p r k endless h g next = tt

  guarded-Soundly :
      (peer : PeerId) (p : Proposal) (genuine : Bool)
      → (genuine ≡ true → IsGenuine peer p)
      → Keeps Sound (do
        msg_type ← need p.msg_type
        if not genuine && ltb msg_type 3 then pure tt else route_proposal outer peer msg_type p)
  guarded-Soundly peer p true ok =
      Keeps-bind order (need-Soundly outer config own _)
        λ msg_type. route_proposal-Soundly peer msg_type p λ _. ok refl
  guarded-Soundly peer p false ok = Keeps-bind order (need-Soundly outer config own _) λ msg_type.
      elim (Bool-cases (ltb msg_type 3)) [
        | inl low ↦ rw low (Keeps-pure order tt)
        | inr high ↦ rw high (route_proposal-Soundly peer msg_type p λ one. absurd (ground arith))
      ]

  pub propose_handler-Soundly :
      (peer : Option PeerId) (p : Proposal) → Keeps Sound (propose_handler outer peer p)
  unfolding propose_handler ◌>>=◌
  propose_handler-Soundly none p = Keeps-pure order tt
  propose_handler-Soundly (some peer) p = under outer config own λ r g.
      after_test peer p r _ (is_from outer peer p r) (is_from-Tests peer p r g) g
        (guarded-Soundly peer p)
