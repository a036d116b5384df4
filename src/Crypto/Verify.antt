-- ===== src/Crypto/Verify.antt =====
-- src/crypto.cpp, `QuorumCertSecp256k1::verify`: a certificate is good if it has a majority of
-- signatures and every replica that it names has signed. `none` is a read of an unknown replica.
-- The default signature that `sigs[i]` makes up for a missing one is `default_sig`.
use ava_hotstuff.Prelude.{
  ℕ, zero, suc, ◌+◌, ◌<◌, ◌≤◌, ◌≡◌, ◌↔◌, refl, ap, Bool-cases, inl, inr, ltb→lt, Bool, true, false,
  Option, none, some, arith, ltb, if◌then◌else◌, has, length,
}
use ava_hotstuff.Prelude.Assoc.{lookup}
use native.Mathlib.Decide.{ℕ_discrete}
use ava_hotstuff.Entity.Config.{ReplicaId, ReplicaConfig, get_pubkey}
use ava_hotstuff.Crypto.{Sig, Scheme, Secp256k1, QuorumCert, dummy, secp256k1}

abbrev pub default_sig : Sig
default_sig = 0

abbrev pub sig_of : Secp256k1 → ReplicaId → Sig
sig_of q i = elim (lookup i q.sigs) [ none ↦ default_sig | some s ↦ s ]

-- One round of the loop over `rids`. The bits are those of replicas, whose numbers have 16 bits: an
-- index from 2 ^ 16 on, which the source would cut to 16 bits, is not modelled.
verify_one : Scheme → ReplicaConfig → Secp256k1 → ReplicaId → Option Bool
verify_one scheme c q i =
    if has i q.rids
    then elim (get_pubkey c i) [
      | none ↦ none
      | some pk ↦ some (scheme.verify pk q.obj_hash (sig_of q i))
    ]
    else some true

-- The rounds that are left, from bit `i` on.
verify_from : Scheme → ReplicaConfig → Secp256k1 → ℕ → ℕ → Option Bool
verify_from scheme c q zero i = some true
verify_from scheme c q (suc n) i = elim (verify_one scheme c q i) [
  | none ↦ none
  | some false ↦ some false
  | some true ↦ verify_from scheme c q n (i + 1)
]

unfoldable pub verify : Scheme → ReplicaConfig → QuorumCert → Option Bool
unfolding verify_from verify_one
verify scheme c (dummy h) = some true
verify scheme c (secp256k1 q) =
    if ltb (length q.sigs) c.nmajority then some false else verify_from scheme c q q.nbits 0

-- What a round that passes shows of a replica whose bit is on.
abbrev pub HasSigned : Scheme → ReplicaConfig → Secp256k1 → ReplicaId → Type 0
HasSigned scheme c q i =
    (pk : ℕ) × (get_pubkey c i ≡ some pk) × (scheme.verify pk q.obj_hash (sig_of q i) ≡ true)

verify_one-HasSigned :
    (scheme : Scheme) (c : ReplicaConfig) (q : Secp256k1) (i : ReplicaId)
    → verify_one scheme c q i ≡ some true
    → has i q.rids ≡ true
    → HasSigned scheme c q i
unfolding verify_one
verify_one-HasSigned scheme c q i h on = ground arith

verify_from-suc :
    (scheme : Scheme) (c : ReplicaConfig) (q : Secp256k1) (n i : ℕ)
    → verify_from scheme c q (suc n) i ≡ some true
    → (verify_one scheme c q i ≡ some true) × (verify_from scheme c q n (i + 1) ≡ some true)
unfolding verify_from
verify_from-suc scheme c q n i h = ground arith

verify_from-HasSigned :
    (scheme : Scheme) (c : ReplicaConfig) (q : Secp256k1) (n i j : ℕ)
    → verify_from scheme c q n i ≡ some true
    → i ≤ j
    → j < i + n
    → has j q.rids ≡ true
    → HasSigned scheme c q j
verify_from-HasSigned scheme c q zero i j h low high on = absurd (omega arith)
verify_from-HasSigned scheme c q (suc n) i j h low high on =
    let (here, rest) = verify_from-suc scheme c q n i h in
    elim (ℕ_discrete i j) [
      | yes e ↦ verify_one-HasSigned scheme c q j (rw e at here) on
      | no ne ↦ verify_from-HasSigned scheme c q n (i + 1) j rest (omega arith) (omega arith) on
    ]

-- The certificate holds a majority of signatures, and each replica whose bit is on, among the bits
-- that there are, is known and has signed.
abbrev pub IsSigned : Scheme → ReplicaConfig → Secp256k1 → Type 0
IsSigned scheme c q =
    (c.nmajority ≤ length q.sigs)
    × ((i : ReplicaId) → i < q.nbits → has i q.rids ≡ true → HasSigned scheme c q i)

-- A certificate that `verify` accepts is signed.
pub verify_sound :
    (scheme : Scheme) (c : ReplicaConfig) (q : Secp256k1)
    → verify scheme c (secp256k1 q) ≡ some true
    → IsSigned scheme c q
unfolding verify
verify_sound scheme c q h =
    let full : verify_from scheme c q q.nbits 0 ≡ some true = ground arith in
    (
      ground arith,
      λ i low on. verify_from-HasSigned scheme c q q.nbits 0 i full (omega arith) (omega arith) on,
    )

-- A round for a replica whose bit is off, or that has signed, passes.
verify_one_passes :
    (scheme : Scheme) (c : ReplicaConfig) (q : Secp256k1) (i : ReplicaId)
    → (has i q.rids ≡ true → HasSigned scheme c q i)
    → verify_one scheme c q i ≡ some true
unfolding verify_one
verify_one_passes scheme c q i f = elim (Bool-cases (has i q.rids)) [
  | inr off ↦ rw off refl
  | inl on ↦ let (pk, known, signed) = f on in rw on (rw known (ap some signed))
]

verify_from_passes :
    (scheme : Scheme) (c : ReplicaConfig) (q : Secp256k1) (n i : ℕ)
    → ((j : ReplicaId) → j < i + n → has j q.rids ≡ true → HasSigned scheme c q j)
    → verify_from scheme c q n i ≡ some true
unfolding verify_from
verify_from_passes scheme c q zero i f = refl
verify_from_passes scheme c q (suc n) i f = ground (
  arith,
  verify_one_passes scheme c q i (f i (omega arith)),
  verify_from_passes scheme c q n (i + 1) (λ j low. f j (omega arith)),
)

-- `verify` accepts a certificate if and only if it holds at least `nmajority` signatures, and each
-- replica whose bit is on, among the bits that there are, is known to the configuration and its
-- signature verifies for the certified hash.
pub verify_iff :
    (scheme : Scheme) (c : ReplicaConfig) (q : Secp256k1)
    → (verify scheme c (secp256k1 q) ≡ some true) ↔ IsSigned scheme c q
unfolding verify
verify_iff scheme c q = (verify_sound scheme c q, complete)
  where
    complete : IsSigned scheme c q → verify scheme c (secp256k1 q) ≡ some true
    complete (enough, f) =
        let full : verify_from scheme c q q.nbits 0 ≡ some true =
          verify_from_passes scheme c q q.nbits 0 (λ j low on. f j (omega arith) on) in
        elim (Bool-cases (ltb (length q.sigs) c.nmajority)) [
          | inl few ↦ absurd (omega (arith, ltb→lt _ _ few))
          | inr enough' ↦ unfold verify in rw enough' full
        ]

-- A certificate with a majority of signatures, in which every replica whose bit is on is known and
-- has signed, is accepted.
pub verify_complete :
    (scheme : Scheme) (c : ReplicaConfig) (q : Secp256k1)
    → c.nmajority ≤ length q.sigs
    → ((j : ReplicaId) → has j q.rids ≡ true → HasSigned scheme c q j)
    → verify scheme c (secp256k1 q) ≡ some true
verify_complete scheme c q enough f = (verify_iff scheme c q).1 (enough, λ j low on. f j on)
