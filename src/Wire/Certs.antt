-- ===== src/Wire/Certs.antt =====
-- include/hotstuff/crypto.h, `serialize` and `unserialize` of the certificates, and
-- `parse_quorum_cert` of include/hotstuff/hotstuff.h.
pub mod Sigs
pub mod Back
use ava_hotstuff.Prelude.{
  ℕ, zero, suc, ◌+◌, ◌≤◌, ◌<◌, ◌≡◌, ◌≢◌, refl, sym, ap, subst, ◌∙◌, Bool, true, false, Option, none,
  some, List, [], ◌∷◌, ◌++◌, arith, has, if◌then◌else◌, Bool-cases, Option-cases, inl, inr, ◌==◌,
  ==_iff,
}
use ava_hotstuff.Prelude.Assoc.{lookup, put, lookup-put}
use mathlib.Core.List.{append_assoc}
use ava_hotstuff.Entity.Config.{ReplicaId, Hash}
use ava_hotstuff.Crypto.{Sig, PartCert, Secp256k1, QuorumCert, dummy, secp256k1}
use ava_hotstuff.Wire.{Bytes, Reader, Serial, Stream, Reads, SameBits, IsFaithful}
use ava_hotstuff.Wire.Readers.{done, ◌>>=◌, feed, Reads-bind, Reads-last, prepend}

-- The class of the certificates, a parameter of the template `HotStuff`.
pub data CertType : Type 0 where
  no_sig with_secp256k1 : CertType

module _ (st : Stream) where
  -- `PartCertSecp256k1`
  unfoldable pub put_part_cert : PartCert → Bytes
  put_part_cert c = st.hash.put c.obj_hash ++ st.sig.put c.sig

  unfoldable pub get_part_cert : Reader PartCert
  unfolding ◌>>=◌ done
  get_part_cert = do h ← st.hash.get; x ← st.sig.get; done (record { obj_hash = h; sig = x })

  -- The rounds that are left of the loop over `rids`, from bit `i` on; `none` is the exception of
  -- `sigs.at(i)`.
  unfoldable pub put_sigs : Secp256k1 → ℕ → ℕ → Option Bytes
  unfolding has lookup
  put_sigs q zero i = some []
  put_sigs q (suc n) i =
      let rest = put_sigs q n (i + 1) in
      if has i q.rids
      then elim (lookup i q.sigs) [ none ↦ none | some x ↦ prepend (st.sig.put x) rest ]
      else rest

  unfoldable pub get_sigs :
      List ReplicaId → ℕ → ℕ → List (ReplicaId × Sig) → Reader (List (ReplicaId × Sig))
  unfolding has put
  get_sigs rids zero i sigs bs = some (sigs, bs)
  get_sigs rids (suc n) i sigs bs =
      let skip = get_sigs rids n (i + 1) sigs bs in
      if has i rids
      then elim (st.sig.get bs) [
        | none ↦ none
        | some (x, bs') ↦ get_sigs rids n (i + 1) (put i x sigs) bs'
      ]
      else skip

  unfoldable pub put_secp256k1 : Secp256k1 → Option Bytes
  unfolding put_sigs
  put_secp256k1 q =
      prepend (st.hash.put q.obj_hash)
        (prepend (st.bits.put (q.nbits, q.rids)) (put_sigs q q.nbits 0))

  unfoldable pub get_secp256k1 : Reader Secp256k1
  unfolding ◌>>=◌ done get_sigs
  get_secp256k1 = do
    h ← st.hash.get
    (n, rids) ← st.bits.get
    sigs ← get_sigs rids n 0 []
    done (record { obj_hash = h; nbits = n; rids = rids; sigs = sigs })

  unfoldable pub put_quorum_cert : QuorumCert → Option Bytes
  unfolding put_secp256k1
  put_quorum_cert (dummy h) = some (st.u32.put 1 ++ st.hash.put h)
  put_quorum_cert (secp256k1 q) = put_secp256k1 q

  -- `parse_quorum_cert`
  unfoldable pub get_quorum_cert : CertType → Reader QuorumCert
  unfolding ◌>>=◌ done get_secp256k1
  get_quorum_cert no_sig = do tmp ← st.u32.get; h ← st.hash.get; done (dummy h)
  get_quorum_cert with_secp256k1 = do q ← get_secp256k1; done (secp256k1 q)
