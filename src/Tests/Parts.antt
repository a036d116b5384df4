-- ===== src/Tests/Parts.antt =====
-- The theorems of the storage and of the certificates.
use ava_hotstuff.Prelude.{◌≡◌, ◌↔◌, refl, true, some, [], ◌∷◌, has}
use ava_hotstuff.Prelude.Assoc.{lookup}
use ava_hotstuff.Entity.Config.{get_info, get_pubkey}
use ava_hotstuff.Entity.Storage.{EntityStorage, empty_storage}
use ava_hotstuff.Crypto.{Secp256k1, secp256k1}
use ava_hotstuff.Crypto.Verify.{verify, IsSigned, verify_iff}
use ava_hotstuff.Tests.{scheme, four}

-- A certificate of the replicas 0, 1 and 3 for the hash 100.
abbrev signed : Secp256k1
signed = record {
  obj_hash = 100;
  nbits = 4;
  rids = 3 ∷ 1 ∷ 0 ∷ [];
  sigs = (0, 107) ∷ (1, 107) ∷ (3, 107) ∷ [];
}

verifies : verify scheme four (secp256k1 signed) ≡ some true
unfolding verify get_info has lookup get_pubkey
verifies = refl

verify_iff_example :
    (verify scheme four (secp256k1 signed) ≡ some true) ↔ IsSigned scheme four signed
verify_iff_example = verify_iff scheme four signed

-- So each of the three has signed.
have_signed : IsSigned scheme four signed
have_signed = (verify_iff scheme four signed).0 verifies

abbrev stored : EntityStorage
stored = record empty_storage { blk_cache = (100, 0) ∷ (101, 1) ∷ []; cid_blkhash = (1, 101) ∷ [] }
