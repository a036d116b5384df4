-- ===== src/Crypto.antt =====
-- include/hotstuff/crypto.h and src/crypto.cpp: partial and quorum certificates over secp256k1. The
-- signature scheme is the library's; a signature is its number, and `Scheme` holds what is called.
-- `rids` is salticidae's bit vector: its size in bits and the set of the bits that are on.
pub mod Verify
use ava_hotstuff.Prelude.{
  ℕ, ◌+◌, ◌*◌, ◌/◌, ◌≡◌, Bool, true, false, Option, none, some, List, [], ◌∷◌, ltb, ◌==◌,
  if◌then◌else◌, insert, has, length, ◌&&◌,
}
use ava_hotstuff.Prelude.Assoc.{lookup, insert_new}
use ava_hotstuff.Exec.{Exec, pure, throw, crash, cert_mismatch}
use ava_hotstuff.Entity.Config.{ReplicaId, Hash, PubKey, ReplicaConfig, get_pubkey}

abbrev pub Sig : Type 0
Sig = ℕ

pub record Scheme : Type 0 where
  pub sign : Hash → Sig
  pub verify : PubKey → Hash → Sig → Bool

-- `PartCertSecp256k1`
pub record PartCert : Type 0 where
  pub obj_hash : Hash
  pub sig : Sig

-- `QuorumCertSecp256k1`
pub record Secp256k1 : Type 0 where
  pub obj_hash : Hash
  pub nbits : ℕ
  pub rids : List ReplicaId
  pub sigs : List (ReplicaId × Sig)

-- The subclasses of `QuorumCert`; a copy made by `clone` is the value itself.
pub data QuorumCert : Type 0 where
  dummy : Hash → QuorumCert
  secp256k1 : Secp256k1 → QuorumCert

unfoldable pub create_part_cert : Scheme → Hash → PartCert
create_part_cert scheme h = record { obj_hash = h; sig = scheme.sign h }

-- The constructor of `QuorumCertSecp256k1`.
unfoldable pub create_quorum_cert : ReplicaConfig → Hash → QuorumCert
create_quorum_cert c h =
    secp256k1 (record { obj_hash = h; nbits = c.nreplicas; rids = []; sigs = [] })

unfoldable pub get_obj_hash : QuorumCert → Hash
get_obj_hash (dummy h) = h
get_obj_hash (secp256k1 q) = q.obj_hash

-- The bits that the words of the bit vector have room for.
abbrev pub room : ℕ → ℕ
room nbits = (nbits + 63) / 64 * 64

-- `sigs.insert` keeps an older signature; `rids.set` writes past its words for a large id.
unfoldable pub add_part_secp256k1 : Secp256k1 → ReplicaId → PartCert → Secp256k1
unfolding insert insert_new
add_part_secp256k1 q rid pc = record q {
  rids = insert rid q.rids;
  sigs = insert_new rid pc.sig q.sigs;
}

unfoldable pub add_part : {S : Type 0} → QuorumCert → ReplicaId → PartCert → Exec S QuorumCert
unfolding add_part_secp256k1
add_part (dummy h) rid pc = pure (dummy h)
add_part (secp256k1 q) rid pc =
    if pc.obj_hash == q.obj_hash
    then if ltb rid (room q.nbits) then pure (secp256k1 (add_part_secp256k1 q rid pc)) else crash
    else throw cert_mismatch
