-- ===== src/Core/Quorum/Certificate.antt =====
-- Votes that are signed make a certificate that every replica accepts.
use ava_hotstuff.Prelude.{
  ◌≤◌, ◌<◌, ◌≡◌, refl, sym, ap, subst, true, Option, none, some, List, arith, Bool-cases, inl, inr,
  length,
}
use ava_hotstuff.Exec.{returns, ◌>>=◌}
use ava_hotstuff.Exec.Returns.{Returns}
use ava_hotstuff.Entity.Config.{ReplicaId, Hash, ReplicaConfig}
use ava_hotstuff.Entity.Block.{Ref, Block}
use ava_hotstuff.Entity.Storage.{find_blk}
use ava_hotstuff.Crypto.{Scheme, QuorumCert, dummy, secp256k1}
use ava_hotstuff.Crypto.Verify.{verify}
use ava_hotstuff.Core.Messages.{Vote}
use ava_hotstuff.Core.State.{State, Hooks, load}
use ava_hotstuff.Core.Deliver.{get_delivered_blk, need_delivered, sanity_check_delivered}
use ava_hotstuff.Core.Vote.{on_receive_vote}
use ava_hotstuff.Core.Quorum.{IsTallyOf, IsBallot, IsSigned, IsTally-verify}
use ava_hotstuff.Core.Quorum.Votes.{HoldsTally, counted, found-Returns}

-- The block's own certificate, if it has one, is accepted by every replica.
abbrev pub IsCertified : Scheme → ReplicaConfig → Block → Type 0
IsCertified scheme c b = (q : QuorumCert) × (b.self_qc ≡ some q) × (verify scheme c q ≡ some true)

IsTallyOf-certified :
    (scheme : Scheme) (c : ReplicaConfig) (h : Hash) (voters : List ReplicaId)
    (o : Option QuorumCert)
    → IsTallyOf scheme c h voters o
    → 0 < c.nmajority
    → c.nmajority ≤ length voters
    → (q : QuorumCert) × (o ≡ some q) × (verify scheme c q ≡ some true)
IsTallyOf-certified scheme c h voters none t some_vote enough = absurd (omega (arith, ap length t))
IsTallyOf-certified scheme c h voters (some (dummy d)) t some_vote enough = absurd t
IsTallyOf-certified scheme c h voters (some (secp256k1 q)) t some_vote enough =
    (secp256k1 q, refl, IsTally-verify scheme c h voters q t enough)

module _ {B : Type 0} (hooks : Hooks B) where
  vote-Returns :
      (v : Vote) (s : State B) (r : Ref)
      → find_blk s.core.storage v.blk_hash ≡ some r
      → (s.core.heap r).hash ≡ v.blk_hash
      → IsBallot hooks.scheme s.core.config (s.core.heap r)
      → IsSigned hooks.scheme s.core.config v.blk_hash v.voter v.cert
      → Returns
          (λ _.
            HoldsTally hooks r s.core.config v.blk_hash
              (counted s.core.config v.voter (s.core.heap r).voted))
          (on_receive_vote hooks v s)
  unfolding on_receive_vote get_delivered_blk need_delivered sanity_check_delivered load ◌>>=◌
  vote-Returns v s r found named ballot good =
      rw found (elim (Bool-cases (s.core.heap r).delivered) [
        | inr early ↦ rw early tt
        | inl ready ↦ rw ready (
            found-Returns hooks r s.core.config v.blk_hash (s.core.heap r).voted v s refl
              (
                record { hashed = named; voters_are = refl; config_is = refl },
                subst
                    (λ h.
                      IsTallyOf hooks.scheme s.core.config h (s.core.heap r).voted
                        (s.core.heap r).self_qc)
                    named ballot,
              )
              good)
      ])

  -- What the handler of votes makes of a signed vote for a block of the storage, if it returns: the
  -- voter is one of those that have voted, unless a majority had before; the block's own certificate
  -- holds the signatures of just these; and with a majority, every replica accepts it.
  pub on_receive_vote-IsBallot :
      (v : Vote) (s t : State B) (r : Ref)
      → find_blk s.core.storage v.blk_hash ≡ some r
      → (s.core.heap r).hash ≡ v.blk_hash
      → IsBallot hooks.scheme s.core.config (s.core.heap r)
      → IsSigned hooks.scheme s.core.config v.blk_hash v.voter v.cert
      → 0 < s.core.config.nmajority
      → on_receive_vote hooks v s ≡ returns tt t
      → ((t.core.heap r).voted ≡ counted s.core.config v.voter (s.core.heap r).voted)
        × IsBallot hooks.scheme s.core.config (t.core.heap r)
        × (s.core.config.nmajority ≤ length (t.core.heap r).voted
            → IsCertified hooks.scheme s.core.config (t.core.heap r))
  on_receive_vote-IsBallot v s t r found named ballot good some_vote e =
      let c = s.core.config in
      let all = counted c v.voter (s.core.heap r).voted in
      let (k, tally) =
        subst (Returns (λ _. HoldsTally hooks r c v.blk_hash all)) e
          (vote-Returns v s r found named ballot good) in
      let tally' =
        subst (λ vs. IsTallyOf hooks.scheme c v.blk_hash vs (t.core.heap r).self_qc)
          (sym k.voters_are) tally in
      (
        k.voters_are,
        subst (λ h. IsTallyOf hooks.scheme c h (t.core.heap r).voted (t.core.heap r).self_qc)
            (sym k.hashed) tally',
        IsTallyOf-certified hooks.scheme c v.blk_hash (t.core.heap r).voted (t.core.heap r).self_qc
            tally' some_vote,
      )
