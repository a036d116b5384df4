-- ===== src/Wire/Certs/Back.antt =====
-- A certificate that is read back is the one that was written, for `serialize` and `unserialize` of
-- include/hotstuff/crypto.h.
use ava_hotstuff.Prelude.{
  ℕ, zero, suc, ◌+◌, ◌≤◌, ◌<◌, ◌≡◌, refl, sym, ap, subst, ◌∙◌, true, Option, none, some, List, [],
  arith, has, Bool-cases, Option-cases, some-inj, none-ne-some, inl, inr,
}
use ava_hotstuff.Prelude.Assoc.{lookup}
use ava_hotstuff.Entity.Config.{ReplicaId}
use ava_hotstuff.Crypto.{Sig, PartCert, Secp256k1, QuorumCert, dummy, secp256k1}
use ava_hotstuff.Wire.{Bytes, Stream, Reads, SameBits, IsWithin, IsFaithful}
use ava_hotstuff.Wire.Readers.{Reads-bind, Reads-last, prepend}
use ava_hotstuff.Wire.Certs.{
  CertType, no_sig, with_secp256k1, put_part_cert, get_part_cert, put_sigs, get_sigs, put_secp256k1,
  get_secp256k1, put_quorum_cert, get_quorum_cert,
}
use ava_hotstuff.Wire.Certs.Sigs.{sigs_read, get_sigs-Reads, lookup-sigs_read}

module _ (st : Stream) where
  pub part_cert-Reads :
      IsFaithful st → (c : PartCert) → Reads (get_part_cert st) c (put_part_cert st c)
  unfolding get_part_cert put_part_cert
  part_cert-Reads laws c =
      Reads-bind st.hash.get _ c.obj_hash c (st.hash.put c.obj_hash) (st.sig.put c.sig)
        (laws.hash_back c.obj_hash)
        (Reads-last st.sig.get (λ x. record { obj_hash = c.obj_hash; sig = x }) c.sig
          (st.sig.put c.sig) (laws.sig_back c.sig))

  -- The same certificate, but for the order of what it holds and for signatures of bits that are off.
  pub record SameSecp (q p : Secp256k1) : Type 0 where
    pub same_hash : p.obj_hash ≡ q.obj_hash
    pub same_size : p.nbits ≡ q.nbits
    pub same_rids : SameBits q.rids p.rids
    pub same_sigs : (j : ℕ) → j < q.nbits → has j q.rids ≡ true → lookup j p.sigs ≡ lookup j q.sigs

  sigs_read-SameSecp :
      (q : Secp256k1) (rids : List ReplicaId) (bs : Bytes)
      → put_sigs st q q.nbits 0 ≡ some bs
      → SameBits q.rids rids
      → SameSecp q (record {
        obj_hash = q.obj_hash;
        nbits = q.nbits;
        rids = rids;
        sigs = sigs_read q q.nbits 0 [];
      })
  sigs_read-SameSecp q rids bs e same = record {
    same_hash = refl;
    same_size = refl;
    same_rids = same;
    same_sigs = λ j h on. lookup-sigs_read st q q.nbits 0 [] bs j e (omega arith) (omega arith) on;
  }

  put_sigs-same :
      (q p : Secp256k1)
      → SameSecp q p
      → (n i : ℕ) → i + n ≤ q.nbits
      → put_sigs st p n i ≡ put_sigs st q n i
  unfolding put_sigs
  put_sigs-same q p same zero i h = refl
  put_sigs-same q p same (suc n) i h = elim (Bool-cases (has i q.rids)) [
    | inr off ↦
        rw (sym (same.same_rids i) ∙ off) (rw off (put_sigs-same q p same n (i + 1) (omega arith)))
    | inl on ↦ rw (sym (same.same_rids i) ∙ on) (
        rw on (
          rw (same.same_sigs i (omega arith) on)
            (ap (with_sig (lookup i q.sigs)) (put_sigs-same q p same n (i + 1) (omega arith)))))
  ]
    where
      with_sig : Option Sig → Option Bytes → Option Bytes
      with_sig o rest = elim o [ none ↦ none | some x ↦ prepend (st.sig.put x) rest ]

  abbrev pub SameCert : QuorumCert → QuorumCert → Type 0
  SameCert (dummy h) (dummy g) = g ≡ h
  SameCert (secp256k1 q) (secp256k1 p) = SameSecp q p
  SameCert (dummy h) (secp256k1 p) = ⊥
  SameCert (secp256k1 q) (dummy g) = ⊥

  -- The certificate is of the class, and its bit vector has the bits that are on.
  abbrev pub IsOfType : CertType → QuorumCert → Type 0
  IsOfType no_sig (dummy h) = Unit {0}
  IsOfType with_secp256k1 (secp256k1 q) = IsWithin q.nbits q.rids
  IsOfType no_sig (secp256k1 q) = ⊥
  IsOfType with_secp256k1 (dummy h) = ⊥

  put_secp256k1-same :
      IsFaithful st → (q p : Secp256k1) → SameSecp q p → put_secp256k1 st p ≡ put_secp256k1 st q
  unfolding put_secp256k1
  put_secp256k1-same laws q p same =
      rw (same.same_hash, same.same_size)
        (rw (sym (laws.bits_same q.nbits q.rids p.rids same.same_rids))
          (rw (put_sigs-same q p same q.nbits 0 (omega arith)) refl))

  -- What is read of a certificate that was written.
  pub record Comes (ty : CertType) (c : QuorumCert) (bs : Bytes) : Type 0 where
    pub copy : QuorumCert
    pub same : SameCert c copy
    pub again : put_quorum_cert st copy ≡ some bs
    pub reads : Reads (get_quorum_cert st ty) copy bs

  secp256k1-Comes :
      IsFaithful st
      → (q : Secp256k1) (bs : Bytes) → IsWithin q.nbits q.rids
      → put_quorum_cert st (secp256k1 q) ≡ some bs
      → Comes with_secp256k1 (secp256k1 q) bs
  unfolding put_quorum_cert put_secp256k1 get_quorum_cert get_secp256k1
  secp256k1-Comes laws q bs within e = elim (Option-cases (put_sigs st q q.nbits 0)) [
    | inl failed ↦ absurd (none-ne-some (rw failed at e))
    | inr (cs, there) ↦
        let (rids, bits, back) = laws.bits_back q.nbits q.rids within in
        record {
          copy = secp256k1 (copy rids);
          same = sigs_read-SameSecp q rids cs there bits;
          again =
              put_secp256k1-same laws q (copy rids) (sigs_read-SameSecp q rids cs there bits) ∙ e;
          reads =
              subst (Reads (get_quorum_cert st with_secp256k1) (secp256k1 (copy rids)))
                (some-inj (rw there at e))
                (Reads-last (get_secp256k1 st) secp256k1 (copy rids) _ (
                  Reads-bind st.hash.get _ q.obj_hash (copy rids) (st.hash.put q.obj_hash) _
                    (laws.hash_back q.obj_hash)
                    (Reads-bind st.bits.get _ (q.nbits, rids) (copy rids)
                      (st.bits.put (q.nbits, q.rids)) cs back
                      (Reads-last (get_sigs st rids q.nbits 0 [])
                        (λ sigs. record {
                          obj_hash = q.obj_hash;
                          nbits = q.nbits;
                          rids = rids;
                          sigs = sigs;
                        })
                        (sigs_read q q.nbits 0 []) cs
                        (get_sigs-Reads st laws q rids bits q.nbits 0 [] cs there)))));
        }
  ]
    where
      copy : List ReplicaId → Secp256k1
      copy rids = record {
        obj_hash = q.obj_hash;
        nbits = q.nbits;
        rids = rids;
        sigs = sigs_read q q.nbits 0 [];
      }

  pub quorum_cert-Comes :
      IsFaithful st
      → (ty : CertType) (c : QuorumCert) (bs : Bytes) → IsOfType ty c
      → put_quorum_cert st c ≡ some bs
      → Comes ty c bs
  unfolding put_quorum_cert get_quorum_cert
  quorum_cert-Comes laws no_sig (dummy h) bs fits e = record {
    copy = dummy h;
    same = refl;
    again = e;
    reads = subst (Reads (get_quorum_cert st no_sig) (dummy h)) (some-inj e) (
        Reads-bind st.u32.get _ 1 (dummy h) (st.u32.put 1) (st.hash.put h)
          (laws.u32_back 1 (omega arith))
          (Reads-last st.hash.get (λ h. dummy h) h (st.hash.put h) (laws.hash_back h)));
  }
  quorum_cert-Comes laws with_secp256k1 (secp256k1 q) bs fits e = secp256k1-Comes laws q bs fits e
  quorum_cert-Comes laws no_sig (secp256k1 q) bs fits e = absurd fits
  quorum_cert-Comes laws with_secp256k1 (dummy h) bs fits e = absurd fits
