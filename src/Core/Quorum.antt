-- ===== src/Core/Quorum.antt =====
-- That the votes for a block make a quorum certificate (`on_receive_vote` of src/consensus.cpp). A
-- ballot is a block whose own certificate holds the signatures of those that have voted for it.
pub mod Stable
pub mod Votes
pub mod Certificate
use ava_hotstuff.Prelude.{
  ℕ, suc, ◌+◌, ◌≤◌, ◌<◌, ◌≡◌, refl, sym, ap, subst, ◌∙◌, Bool, true, false, Option, none, some,
  List, [], ◌∷◌, arith, ◌==◌, ◌||◌, ==_iff, if◌then◌else◌, Bool-cases, inl, inr, has, insert,
  length, has-insert, length-insert,
}
use ava_hotstuff.Prelude.Assoc.{lookup, insert_new, or_new, lookup-insert_new, length-insert_new}
use ava_hotstuff.Entity.Config.{ReplicaId, Hash, ReplicaConfig, get_pubkey}
use ava_hotstuff.Entity.Block.{Block}
use ava_hotstuff.Crypto.{
  Scheme, Secp256k1, QuorumCert, dummy, secp256k1, PartCert, add_part_secp256k1, create_quorum_cert,
}
use ava_hotstuff.Crypto.Verify.{HasSigned, verify, verify_complete, sig_of}

-- The certificate `q` on the hash `h` holds the signatures of `voters`, and no other.
pub record IsTally (scheme : Scheme) (c : ReplicaConfig) (h : Hash) (voters : List ReplicaId)
    (q : Secp256k1) : Type 0 where
  pub of_hash : q.obj_hash ≡ h
  pub of_voters : q.rids ≡ voters
  pub as_many : length q.sigs ≡ length voters
  pub no_other : (i : ReplicaId) → has i voters ≡ false → lookup i q.sigs ≡ none
  pub signed : (i : ReplicaId) → has i voters ≡ true → HasSigned scheme c q i

abbrev pub IsTallyOf : Scheme → ReplicaConfig → Hash → List ReplicaId → Option QuorumCert → Type 0
IsTallyOf scheme c h voters none = voters ≡ []
IsTallyOf scheme c h voters (some (dummy d)) = ⊥
IsTallyOf scheme c h voters (some (secp256k1 q)) = IsTally scheme c h voters q

abbrev pub IsBallot : Scheme → ReplicaConfig → Block → Type 0
IsBallot scheme c b = IsTallyOf scheme c b.hash b.voted b.self_qc

-- A signature of the hash by a replica of the configuration.
abbrev pub IsSigned : Scheme → ReplicaConfig → Hash → ReplicaId → PartCert → Type 0
IsSigned scheme c h i pc =
    (pk : ℕ) × (get_pubkey c i ≡ some pk) × (scheme.verify pk h pc.sig ≡ true)

no-IsTally :
    (scheme : Scheme) (c : ReplicaConfig) (h : Hash) (nbits : ℕ)
    → IsTally scheme c h [] (record { obj_hash = h; nbits = nbits; rids = []; sigs = [] })
unfolding has lookup
no-IsTally scheme c h nbits = record {
  of_hash = refl;
  of_voters = refl;
  as_many = refl;
  no_other = λ i e. refl;
  signed = λ i e. cc;
}

sig_of-add_part :
    (q : Secp256k1) (i j : ReplicaId) (pc : PartCert)
    → lookup i q.sigs ≡ none
    → sig_of (add_part_secp256k1 q i pc) j ≡ (if i == j then pc.sig else sig_of q j)
unfolding add_part_secp256k1
sig_of-add_part q i j pc e = ground (arith, lookup-insert_new i j pc.sig q.sigs, e)

-- One more vote, with a good signature, of a replica that has not voted yet.
pub add_part-IsTally :
    (scheme : Scheme) (c : ReplicaConfig) (h : Hash) (voters : List ReplicaId) (q : Secp256k1)
    (i : ReplicaId) (pc : PartCert)
    → IsTally scheme c h voters q
    → has i voters ≡ false
    → IsSigned scheme c h i pc
    → IsTally scheme c h (insert i voters) (add_part_secp256k1 q i pc)
unfolding add_part_secp256k1
add_part-IsTally scheme c h voters q i pc t new (pk, known, good) = record {
  of_hash = t.of_hash;
  of_voters = ap (insert i) t.of_voters;
  as_many =
      length-insert_new i pc.sig q.sigs (t.no_other i new)
      ∙ ap suc t.as_many
      ∙ sym (length-insert i voters new);
  no_other = λ j e.
      ground (arith, lookup-insert_new i j pc.sig q.sigs, has-insert i j voters, t.no_other j, e);
  signed = λ j e. elim (Bool-cases (i == j)) [
    | inl same ↦ (
      pk,
      subst (λ k. get_pubkey c k ≡ some pk) ((==_iff i j).0 same) known,
      ap (scheme.verify pk q.obj_hash) (sig_of-add_part q i j pc (t.no_other i new) ∙ rw same refl)
          ∙ ap (λ x. scheme.verify pk x pc.sig) t.of_hash
          ∙ good,
    )
    | inr other ↦
        let (key, is_key, fits) = t.signed j (ground (arith, has-insert i j voters, e, other)) in
        (
          key,
          is_key,
          ap (scheme.verify key q.obj_hash)
                (sig_of-add_part q i j pc (t.no_other i new) ∙ rw other refl)
              ∙ fits,
        )
  ];
}

-- A tally with a majority is a certificate that every replica accepts.
pub IsTally-verify :
    (scheme : Scheme) (c : ReplicaConfig) (h : Hash) (voters : List ReplicaId) (q : Secp256k1)
    → IsTally scheme c h voters q
    → c.nmajority ≤ length voters
    → verify scheme c (secp256k1 q) ≡ some true
IsTally-verify scheme c h voters q t enough =
    verify_complete scheme c q (omega (arith, t.as_many))
      (λ j on. t.signed j (ap (has j) (sym t.of_voters) ∙ on))

-- `create_quorum_cert` starts a tally.
pub create_quorum_cert-IsTallyOf :
    (scheme : Scheme) (c d : ReplicaConfig) (h : Hash)
    → IsTallyOf scheme c h [] (some (create_quorum_cert d h))
unfolding create_quorum_cert
create_quorum_cert-IsTallyOf scheme c d h = no-IsTally scheme c h d.nreplicas
